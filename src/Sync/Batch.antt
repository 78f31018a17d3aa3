-- ===== src/Sync/Batch.antt =====
-- `handle_sync_batch` of src/sync/handler.rs, with the event store and the cursors it drives. Errors of
-- the storage are not modelled; the semaphore and the log have no effect on the result.
use toki_sync.Prelude.{
  ℕ, ◌*◌, Bool, Option, none, some, List, [], ◌∷◌, map, Str, lit, str_eq, length, ltb, leb, ◌&&◌,
  if◌then◌else◌, ℤ, pos, max_ℤ, ltb_ℤ, ◌-ℤ◌, Result, ok, err,
}
use toki_sync.Events.{ServerEvent}
use toki_sync.Events.Bytes.{to_bits, of_bits}
use toki_sync.Events.Store.{Fjall, Bincode, PersistedEvent, Store}
use toki_sync.Events.Upsert.{upsert_events}
use toki_sync.Events.Delete.{cleanup_old_dedup}
use toki_sync.Db.Cursors.{Cursor, get_last_ts, advance_cursor}
use toki_sync.Sync.{SyncItem, SyncBatchPayload}

abbrev pub max_batch_size : ℕ
max_batch_size = 50000

-- Arithmetic on `i64` in a release build.
unfoldable pub wrap_i64 : ℤ → ℤ
wrap_i64 z = of_bits (to_bits z)

abbrev pub eqb_id : ℕ → ℕ → Bool
eqb_id a b = leb a b && leb b a

-- `batch.dict.get(&id)`
abbrev pub dict_get : List (ℕ × Str) → ℕ → Option Str
dict_get [] id = none
dict_get ((i, s) ∷ dict) id = if eqb_id i id then some s else dict_get dict id

-- A missing entry, and an empty one, become the empty string.
abbrev pub or_blank : Option Str → Str
or_blank none = []
or_blank (some s) = s

-- `message_id.split(':').next()`
unfoldable pub bare_msg_id : Str → Str
bare_msg_id [] = []
bare_msg_id (b ∷ bs) = let rest = bare_msg_id bs in if eqb_id b 58 then [] else b ∷ rest

abbrev pub set_column : ServerEvent → Str → ℕ → ServerEvent
set_column e col n =
    if str_eq col (lit "input")
    then record e { input_tokens = n }
    else if str_eq col (lit "output")
    then record e { output_tokens = n }
    else if str_eq col (lit "cache_create")
    then record e { cache_creation_input_tokens = n }
    else if str_eq col (lit "cache_read")
    then record e { cache_read_input_tokens = n }
    else if str_eq col (lit "cached_input")
    then record e { cache_read_input_tokens = n }
    else if str_eq col (lit "reasoning_output")
    then record e { cache_creation_input_tokens = n }
    else e

-- Columns and tokens, as far as both go.
unfoldable pub set_columns : ServerEvent → List Str → List ℕ → ServerEvent
set_columns e [] tokens = e
set_columns e (col ∷ cols) [] = e
set_columns e (col ∷ cols) (n ∷ tokens) = set_columns (set_column e col n) cols tokens

unfoldable pub to_server_event : SyncBatchPayload → Str → Str → Str → SyncItem → ServerEvent
to_server_event batch user_id device_id provider item =
    let base : ServerEvent = record {
      device_id = device_id;
      user_id = user_id;
      msg_id = bare_msg_id item.message_id;
      ts_ms = item.ts_ms;
      provider = provider;
      model = or_blank (dict_get batch.dict item.event.model_id);
      project = or_blank (dict_get batch.dict item.event.project_name_id);
      session = or_blank (dict_get batch.dict item.event.session_id);
      input_tokens = 0;
      output_tokens = 0;
      cache_creation_input_tokens = 0;
      cache_read_input_tokens = 0;
      usage_total = 0;
    } in
    let se = set_columns base batch.token_columns item.event.tokens in
    record se { usage_total = item.usage_total }

-- `items.iter().map(|i| i.ts_ms).max().unwrap_or(0)`
unfoldable pub max_ts : List SyncItem → ℤ
max_ts [] = pos 0
max_ts (i ∷ []) = i.ts_ms
max_ts (i ∷ (j ∷ is)) = max_ℤ i.ts_ms (max_ts (j ∷ is))

pub data SyncError : Type 0 where
  batch_too_large : ℕ → SyncError

module _ (F : Fjall) (codec : Bincode PersistedEvent) where
  pub record SyncState : Type 0 where
    pub store : Store F
    pub cursors : List Cursor

  -- `events.upsert_events`, `db.advance_cursor` and the clean-up of old pointers.
  unfoldable pub apply_batch :
      SyncState → SyncBatchPayload → List SyncItem → Str → Str → Str → ℕ → ℕ → SyncState
  apply_batch s batch items user_id device_id provider retention now =
      let events = map (to_server_event batch user_id device_id provider) items in
      let store = upsert_events F codec s.store events in
      let newest = max_ts items in
      let cutoff = wrap_i64 (newest -ℤ wrap_i64 (pos (retention * 1000))) in
      record {
        store = if ltb_ℤ (pos 0) cutoff then cleanup_old_dedup F store device_id cutoff else store;
        cursors = advance_cursor s.cursors device_id provider newest now;
      }

  abbrev pub by_items :
      SyncState
      → SyncBatchPayload
      → Str
      → Str
      → Str
      → ℕ
      → ℕ
      → List SyncItem
      → SyncState × Result ℤ SyncError
  by_items s batch user_id device_id provider retention now [] =
      (s, ok (get_last_ts s.cursors device_id provider))
  by_items s batch user_id device_id provider retention now (i ∷ is) =
      let items = i ∷ is in
      if ltb max_batch_size (length items)
      then (s, err (batch_too_large (length items)))
      else (apply_batch s batch items user_id device_id provider retention now, ok (max_ts items))

  unfoldable pub handle_sync_batch :
      SyncState → SyncBatchPayload → Str → Str → Str → ℕ → ℕ → SyncState × Result ℤ SyncError
  handle_sync_batch s batch user_id device_id provider retention now =
      by_items s batch user_id device_id provider retention now batch.items
