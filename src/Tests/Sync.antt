-- ===== src/Tests/Sync.antt =====
-- A connection, a device, the active cache and a frame at concrete states.
use toki_sync.Prelude.{
  ◌^◌, ◌<◌, ◌≡◌, refl, Bool, true, false, Option, none, some, List, [], ◌∷◌, ◌++◌, lit, str_eq, get,
  insert, retain, if◌then◌else◌, arith, pos, negsuc, ◌≤ℤ◌, ◌-ℤ◌, ◌+ℤ◌, ok, compare, Ordering,
}
use toki_sync.Windows.{WireWindow, active_cap}
use toki_sync.Windows.Sanitize
use toki_sync.Windows.Premerge
use toki_sync.Db.Cursors.{get_last_ts}
use toki_sync.Db.Devices.{
  Adopted, find_device_by_key_and_user, create_device, find_or_create_device, truncate_device_name,
}
use toki_sync.Auth.Jwt.{JwtManager, Claims, access_claims, iss_claim, verify_access, has_type}
use toki_sync.Auth.ActiveCache.{
  ActiveCache, get_fresh, evict, evicts, inserts, steps, insert_if_current, is_user_active_cached,
  evicted_stays,
}
use toki_sync.Events.Store.{Store}
use toki_sync.Events.Rows.{upsert_windows, upsert_window}
use toki_sync.Limits.WindowsRate.{allow, allow_key, is_throttled}
use toki_sync.Sync.{SyncBatchPayload}
use toki_sync.Sync.Connection.{
  auth, sync_windows, sync_batch, ping, Wire, AuthPayload, SyncWindowsPayload, Session, Moment,
  Server, Reply, go_on, Frame, handshake, handle_frame, main_loop, on_windows, provider_ok,
  max_observed, windows_reply,
}
use toki_sync.Sync.Connection.Admission.{IsAdmitted, handshake-IsAdmitted, handshake_owner}
use toki_sync.Sync.Connection.Cursors.{main_loop_cursors}
use toki_sync.Sync.Connection.Uploads.{IsAccepted, upload-IsAccepted}
use toki_sync.Sync.Connection.Deactivation.{WritesNothing, main_loop-WritesNothing}
use toki_sync.Sync.Frames.{Types, write_frame, read_frame, to_le_bytes, read-write_frame}
use toki_sync.Tests.Codec.{memory, event_codec, window_codec, plain_signer, pack, claim_fields}
use toki_sync.Tests.Sorting.{insertion_order}

abbrev jwt : JwtManager
jwt = record { signer = plain_signer; access_ttl_secs = 60; refresh_ttl_secs = 600; issuer = [] }

abbrev claims : Claims
claims = access_claims jwt (1 ∷ []) 0 (9 ∷ [])

abbrev hello : AuthPayload
hello = record {
  protocol_version = 1;
  schema_version = 2;
  jwt = pack (claim_fields claims);
  provider = lit "p";
  device_name = lit "n";
  device_key = lit "k";
}

abbrev observed : WireWindow
observed = record {
  window_kind = 0;
  limit_id = lit "five_hour";
  account = lit "acct";
  window_end_ms = pos 100;
  raw_resets_at_ms = pos 100;
  window_minutes = 300;
  peak_pct_x100 = 1200;
  last_pct_x100 = 1200;
  observed_ts_ms = pos 50;
  first_seen_ms = pos 40;
  finalized = false;
  maxed_out = false;
  limit_reached_kind = 0;
  time_to_100_ms = negsuc 0;
  active_ms = 60000;
  last_sample_gap_ms = pos 60000;
  sampled_active_fraction = 100;
  n_samples = 3;
  plan = lit "pro";
}

abbrev upload : SyncWindowsPayload
upload = record { windows_schema = 1; provider = lit "p"; items = observed ∷ [] }

abbrev batch : SyncBatchPayload
batch = record { provider = lit "p"; items = []; dict = []; token_columns = [] }

abbrev wire : Wire
wire = record {
  decode_auth = λ s. some hello;
  decode_get_last_ts = λ s. some s;
  decode_batch = λ s. some batch;
  decode_windows = λ s. some upload;
  decompress = λ s. some s;
  is_uuid = λ s. true;
  protocol_version = 1;
  schema_version = 2;
  windows_schema_version = 1;
}

abbrev empty : memory.Keyspace
empty = ([], tt)

abbrev store : Store memory
store = record { events_ks = empty; idx_msg_ks = empty; idx_user_ks = empty; sessions_ks = empty }

abbrev server : Server memory event_codec window_codec insertion_order wire jwt 60
server = record {
  sync = record { store = store; cursors = [] };
  windows = empty;
  limiter = [];
  devices = [];
  cache = record { map = []; generation = 0 };
}

abbrev moment : Option Bool → Moment
moment active = record { clock = 5; wall_secs = 10; wall_ms = pos 10000; user = some active }

abbrev session : Session
session = record { user_id = 1 ∷ []; device_id = lit "k"; provider = lit "p" }

abbrev admitted : Server memory event_codec window_codec insertion_order wire jwt 60
admitted =
    (handshake memory event_codec window_codec insertion_order wire jwt 60 server auth []
      (moment (some true))).0

handshake-IsAdmitted_example :
    IsAdmitted memory event_codec window_codec insertion_order wire jwt 60 server admitted
      (moment (some true))
      session
      []
unfolding handshake verify_access has_type iss_claim str_eq is_user_active_cached get_fresh
    insert_if_current get retain insert find_or_create_device find_device_by_key_and_user
    create_device truncate_device_name
handshake-IsAdmitted_example =
    handshake-IsAdmitted memory event_codec window_codec insertion_order wire jwt 60 server admitted
      (moment (some true)) session auth [] refl

handshake_owner_example : Adopted server.devices admitted.devices session.user_id session.device_id
unfolding handshake verify_access has_type iss_claim str_eq is_user_active_cached get_fresh
    insert_if_current get retain insert find_or_create_device find_device_by_key_and_user
    create_device truncate_device_name
handshake_owner_example =
    handshake_owner memory event_codec window_codec insertion_order wire jwt 60 server admitted
      (moment (some true)) session auth [] tt refl

abbrev frames : List Frame
frames =
    record { msg_type = sync_batch; payload = []; moment = moment (some true) }
    ∷ record { msg_type = ping; payload = []; moment = moment none }
    ∷ []

abbrev looped : Server memory event_codec window_codec insertion_order wire jwt 60 × List Reply
looped = main_loop memory event_codec window_codec insertion_order wire jwt 60 server session frames

main_loop_cursors_example :
    (str_eq session.device_id (lit "other") ≡ false
      → get_last_ts looped.0.sync.cursors (lit "other") (lit "p")
        ≡ get_last_ts server.sync.cursors (lit "other") (lit "p"))
    × (get_last_ts server.sync.cursors (lit "other") (lit "p")
        ≤ℤ get_last_ts looped.0.sync.cursors (lit "other") (lit "p"))
main_loop_cursors_example =
    main_loop_cursors memory event_codec window_codec insertion_order wire jwt 60 server looped.0
      session frames looped.1 (lit "other") (lit "p") refl

abbrev gone : Frame
gone = record { msg_type = sync_windows; payload = []; moment = moment (some false) }

abbrev late_frames : List Frame
late_frames =
    record { msg_type = ping; payload = []; moment = moment (some false) }
    ∷ gone
    ∷ record { msg_type = sync_batch; payload = []; moment = moment (some false) }
    ∷ []

main_loop-WritesNothing_example :
    WritesNothing memory event_codec window_codec insertion_order wire jwt 60 server (
      main_loop memory event_codec window_codec insertion_order wire jwt 60 server session
        late_frames)
unfolding get_fresh get
main_loop-WritesNothing_example =
    main_loop-WritesNothing memory event_codec window_codec insertion_order wire jwt 60 server
      session late_frames
      (
        record { in_database = refl; in_cache = refl },
        (
          record { in_database = refl; in_cache = refl },
          (record { in_database = refl; in_cache = refl }, tt),
        ),
      )

abbrev uploaded : Server memory event_codec window_codec insertion_order wire jwt 60
uploaded =
    (handle_frame memory event_codec window_codec insertion_order wire jwt 60 server session
      sync_windows [] (moment (some true))).0

upload-IsAccepted_example :
    IsAccepted memory event_codec window_codec insertion_order wire jwt 60 server uploaded session
      (moment (some true))
      []
      (pos 50)
      go_on
unfolding handle_frame on_windows is_user_active_cached get_fresh get allow allow_key is_throttled
    windows_reply max_observed provider_ok Sanitize.sanitize_window_batch upsert_windows
    Premerge.premerge_windows Premerge.premerge_loop Sanitize.enforce_cap
    Sanitize.window_item_stable_ok Sanitize.str_ok Sanitize.raise_observed ◌-ℤ◌ Sanitize.has_control
    Sanitize.window_item_transient_ok ◌+ℤ◌ Premerge.push_or_merge upsert_window
    Sanitize.lower_first_seen Sanitize.lower_observed Sanitize.clamp_active active_cap
upload-IsAccepted_example =
    upload-IsAccepted memory event_codec window_codec insertion_order wire jwt 60 server uploaded
      session (moment (some true)) [] (pos 50) go_on refl

abbrev types : Types
types = record {
  MsgType = Bool;
  as_u32 = λ t. if t then 7 else 9;
  from_u32 = λ n. elim (compare n 8) [ Ordering.lt ↦ some true | _ ↦ some false ];
  max_payload_size = 100;
  as_u32_lt = λ t. small t;
  from-as_u32 = λ t. back t;
  max_payload_size_lt = omega arith;
}
  where
    small : (t : Bool) → (if t then 7 else 9) < 2 ^ 32
    small true = omega arith
    small false = omega arith

    back :
        (t : Bool)
        → elim (compare (if t then 7 else 9) 8) [ Ordering.lt ↦ some true | _ ↦ some false ]
          ≡ some t
    back true = refl
    back false = refl

read-write_frame_example :
    read_frame types ((to_le_bytes 7 ++ (to_le_bytes 2 ++ 5 ∷ 6 ∷ [])) ++ 1 ∷ [])
    ≡ some (ok (true, (5 ∷ 6 ∷ [], 1 ∷ [])))
unfolding write_frame
read-write_frame_example =
    read-write_frame types true (5 ∷ 6 ∷ []) (to_le_bytes 7 ++ (to_le_bytes 2 ++ 5 ∷ 6 ∷ []))
      (1 ∷ []) refl

abbrev cached : ActiveCache
cached = record { map = (1 ∷ [], (true, 3)) ∷ []; generation = 4 }

evicted_stays_example :
    get_fresh
      (steps (evict cached (1 ∷ [])) (inserts (1 ∷ []) true 4 6 ∷ evicts (2 ∷ []) ∷ []))
      (1 ∷ [])
      7
    ≡ none
unfolding get
evicted_stays_example =
    evicted_stays cached (1 ∷ []) (inserts (1 ∷ []) true 4 6 ∷ evicts (2 ∷ []) ∷ []) 7 (refl, tt)
      ((λ e. omega arith), (tt, tt)) (omega arith)
