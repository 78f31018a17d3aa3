-- ===== src/Tests/Events.antt =====
-- The event store, the windows and the batches over the keyspace in memory.
use toki_sync.Prelude.{
  ◌≤◌, ◌≡◌, refl, false, some, [], ◌∷◌, lit, str_eq, get, length, if◌then◌else◌, arith, pos, negsuc,
  ◌≤ℤ◌, All,
}
use toki_sync.Windows.{WireWindow, active_cap}
use toki_sync.Events.{ServerEvent, multiple}
use toki_sync.Events.Store.{Store, idx_key_of, event_key_of}
use toki_sync.Events.Upsert.{row}
use toki_sync.Events.Upsert.Indexed.{live, upsert, newer, IsIndexed}
use toki_sync.Events.Upsert.Latest.{upsert_refines}
use toki_sync.Events.Delete.{delete_device_events, delete_device_exact, keep_others}
use toki_sync.Events.Query.{query_events}
use toki_sync.Events.Query.Bounds.{query_events_bounded}
use toki_sync.Events.Rows.{upsert_window}
use toki_sync.Events.Rows.Resend.{resend_writes_nothing}
use toki_sync.Db.Cursors.{Cursor, find_cursor, get_last_ts}
use toki_sync.Sync.{SyncItem, SyncBatchPayload}
use toki_sync.Sync.Batch.{SyncState, handle_sync_batch, max_ts}
use toki_sync.Sync.Ack.{ack_covered}
use toki_sync.Tests.Codec.{memory, event_codec, window_codec}

abbrev empty : memory.Keyspace
empty = ([], tt)

abbrev store : Store memory
store = record { events_ks = empty; idx_msg_ks = empty; idx_user_ks = empty; sessions_ks = empty }

abbrev event : ServerEvent
event = record {
  device_id = lit "d";
  user_id = lit "u";
  msg_id = lit "m";
  ts_ms = pos 5;
  provider = lit "p";
  model = [];
  project = [];
  session = lit "s";
  input_tokens = 1;
  output_tokens = 2;
  cache_creation_input_tokens = 0;
  cache_read_input_tokens = 0;
  usage_total = 3;
}

empty-IsIndexed : IsIndexed memory event_codec store
unfolding get
empty-IsIndexed k key h = absurd (ground arith)

upsert_refines_example :
    (live memory event_codec (upsert memory event_codec store event) (idx_key_of event) ≡ (
      if str_eq (idx_key_of event) (idx_key_of event)
      then newer (live memory event_codec store (idx_key_of event)) event
      else live memory event_codec store (idx_key_of event)))
    × IsIndexed memory event_codec (upsert memory event_codec store event)
upsert_refines_example =
    upsert_refines memory event_codec store event (idx_key_of event) empty-IsIndexed (omega arith)

abbrev filled : Store memory
filled = upsert memory event_codec store event

delete_device_exact_example :
    row memory event_codec
      (delete_device_events memory event_codec filled (lit "d"))
      (event_key_of event)
    ≡ keep_others memory event_codec (lit "d") (row memory event_codec filled (event_key_of event))
delete_device_exact_example =
    delete_device_exact memory event_codec filled (lit "d") (event_key_of event)

query_events_bounded_example :
    length (
      query_events memory event_codec some filled
        (pos 0)
        (pos 9)
        (multiple (lit "u" ∷ lit "v" ∷ []))
        1)
    ≤ 1
query_events_bounded_example =
    query_events_bounded memory event_codec some filled (pos 0) (pos 9)
      (multiple (lit "u" ∷ lit "v" ∷ [])) 1

abbrev observed : WireWindow
observed = record {
  window_kind = 0;
  limit_id = lit "five_hour";
  account = lit "acct";
  window_end_ms = pos 100;
  raw_resets_at_ms = pos 100;
  window_minutes = 300;
  peak_pct_x100 = 1200;
  last_pct_x100 = 1200;
  observed_ts_ms = pos 50;
  first_seen_ms = pos 40;
  finalized = false;
  maxed_out = false;
  limit_reached_kind = 0;
  time_to_100_ms = negsuc 0;
  active_ms = 60000;
  last_sample_gap_ms = pos 60000;
  sampled_active_fraction = 100;
  n_samples = 3;
  plan = lit "pro";
}

resend_writes_nothing_example :
    (upsert_window window_codec memory
      (lit "u")
      (lit "p")
      (upsert_window window_codec memory (lit "u") (lit "p") (empty, 0) observed)
      observed).0
    ≡ (upsert_window window_codec memory (lit "u") (lit "p") (empty, 0) observed).0
unfolding active_cap
resend_writes_nothing_example =
    resend_writes_nothing window_codec memory (lit "u") (lit "p") empty 0 observed (omega arith)

abbrev cursor : Cursor
cursor = record { device_id = lit "d"; provider = lit "p"; last_ts = pos 9; updated_at = 0 }

abbrev start : SyncState memory event_codec
start = record { store = store; cursors = cursor ∷ [] }

abbrev item : SyncItem
item = record {
  ts_ms = pos 20;
  message_id = lit "m:20";
  event = record { model_id = 0; session_id = 0; project_name_id = 0; tokens = 4 ∷ [] };
  usage_total = 4;
}

abbrev batch : SyncBatchPayload
batch = record {
  provider = lit "p";
  items = item ∷ [];
  dict = [];
  token_columns = lit "input" ∷ [];
}

abbrev synced : SyncState memory event_codec
synced = (handle_sync_batch memory event_codec start batch (lit "u") (lit "d") (lit "p") 60 1).0

ack_covered_example :
    All (λ i. i.ts_ms ≤ℤ pos 20) batch.items
    × (pos 20 ≤ℤ get_last_ts synced.cursors (lit "d") (lit "p"))
unfolding find_cursor str_eq handle_sync_batch max_ts
ack_covered_example =
    ack_covered memory event_codec start synced batch (lit "u") (lit "d") (lit "p") 60 1 (pos 20)
      (pos 9) refl refl
