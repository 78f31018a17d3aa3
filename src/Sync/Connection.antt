-- ===== src/Sync/Connection.antt =====
-- `handle_connection` of src/sync/handler.rs: the handshake, and one turn of the main loop for each frame.
-- What the protocol crate, bincode, zstd and uuid read is a parameter. Time-outs, the log and the
-- semaphore are left out, and so is the cap on the size of the first frame, which is taken as read; so
-- are errors of the storage but for a device that cannot be created.
pub mod Cursors
pub mod Admission
pub mod Uploads
pub mod Deactivation
use toki_sync.Prelude.{
  ℕ, suc, ◌+◌, ◌≤◌, ◌≡◌, Bool, true, false, not, ◌&&◌, ◌||◌, Option, none, some, List, [], ◌∷◌,
  ◌++◌, Str, HashMap, str_eq, is_empty, length, take, all, leb, ltb, ◌==◌, if◌then◌else◌, ℤ, pos,
  max_ℤ, Result, ok, err,
}
use toki_sync.Windows.{WireWindow}
use toki_sync.Windows.Sanitize.{SanitizedWindows, sanitize_window_batch}
use toki_sync.Windows.Premerge.{UnstableSort, premerge_windows}
use toki_sync.Limits.WindowsRate.{allow}
use toki_sync.Db.Cursors.{Cursor, ensure_cursor, get_last_ts, reset_cursor}
use toki_sync.Db.Devices.{Device, find_or_create_device, truncate_device_name}
use toki_sync.Auth.Jwt.{Claims, JwtManager, verify_access}
use toki_sync.Auth.ActiveCache.{ActiveCache, is_user_active_cached}
use toki_sync.Events.Store.{Fjall, Bincode, PersistedEvent}
use toki_sync.Events.Delete.{delete_device_events}
use toki_sync.Events.Rows.{upsert_windows}
use toki_sync.Sync.{SyncBatchPayload}
use toki_sync.Sync.Batch.{SyncState, SyncError, batch_too_large, handle_sync_batch}

pub data MsgType : Type 0 where
  auth get_last_ts_msg sync_batch sync_batch_zstd sync_windows ping : MsgType
  -- Another type, by its number.
  other : ℕ → MsgType

pub record AuthPayload : Type 0 where
  pub protocol_version : ℕ
  pub schema_version : ℕ
  pub jwt : Str
  pub provider : Str
  pub device_name : Str
  pub device_key : Str

pub record SyncWindowsPayload : Type 0 where
  pub windows_schema : ℕ
  pub provider : Str
  pub items : List WireWindow

-- The payloads as bincode reads them, a decompressed text, and what the protocol crate fixes.
pub record Wire : Type 0 where
  pub decode_auth : Str → Option AuthPayload
  pub decode_get_last_ts : Str → Option Str
  pub decode_batch : Str → Option SyncBatchPayload
  pub decode_windows : Str → Option SyncWindowsPayload
  pub decompress : Str → Option Str
  pub is_uuid : Str → Bool
  pub protocol_version : ℕ
  pub schema_version : ℕ
  pub windows_schema_version : ℕ

-- Why a handshake is refused; the client is told to reset only for `schema_mismatch`.
pub data AuthRefusal : Type 0 where
  unsupported_protocol : AuthRefusal
  jwt_invalid : AuthRefusal
  account_deactivated : AuthRefusal
  active_check_failed : AuthRefusal
  invalid_device_key : AuthRefusal
  schema_mismatch : AuthRefusal

pub data SyncRefusal : Type 0 where
  deactivated : SyncRefusal
  batch_refused : SyncError → SyncRefusal
  windows_too_large : SyncRefusal
  unsupported_windows_schema : SyncRefusal
  invalid_provider : SyncRefusal
  throttled : SyncRefusal
  -- How many of the items were not accepted.
  items_rejected : ℕ → SyncRefusal

pub data Reply : Type 0 where
  last_ts : ℤ → Reply
  sync_ack : ℤ → Reply
  sync_err : SyncRefusal → Reply
  pong : Reply

pub record Session : Type 0 where
  pub user_id : Str
  pub device_id : Str
  pub provider : Str

pub data Handshake : Type 0 where
  failed : Handshake
  refused : AuthRefusal → Handshake
  welcome : Session → Handshake

-- What a turn reads: the monotonic clock, the wall clock, and what the database says of the user.
pub record Moment : Type 0 where
  pub clock : ℕ
  pub wall_secs : ℕ
  pub wall_ms : ℤ
  pub user : Option (Option Bool)

pub record Frame : Type 0 where
  pub msg_type : MsgType
  pub payload : Str
  pub moment : Moment

-- Whether the loop goes on.
pub data Next : Type 0 where
  go_on stop broken : Next

abbrev pub max_decompressed_size : ℕ
max_decompressed_size = 67108864

abbrev pub max_windows_payload : ℕ
max_windows_payload = 1048576

unfoldable pub provider_ok : Str → Bool
provider_ok p =
    not (is_empty p) && leb (length p) 32 && all (λ c. (leb 97 c && leb c 122) || c == 95) p

-- `items.iter().map(|w| w.observed_ts_ms).max().unwrap_or(0)`
unfoldable pub max_observed : List WireWindow → ℤ
max_observed [] = pos 0
max_observed (w ∷ []) = w.observed_ts_ms
max_observed (w ∷ (v ∷ ws)) = max_ℤ w.observed_ts_ms (max_observed (v ∷ ws))

-- The answer to an upload of windows: an acknowledgement only when no item was left out.
unfoldable pub windows_reply : List WireWindow → ℕ → List Reply
windows_reply items dropped =
    if dropped == 0
    then sync_ack (max_observed items) ∷ []
    else sync_err (items_rejected dropped) ∷ []

module _ (F : Fjall) (codec : Bincode PersistedEvent) (window_codec : Bincode WireWindow)
    (sorting : UnstableSort) (wire : Wire) (jwt : JwtManager) (retention : ℕ) where
  pub record Server : Type 0 where
    pub sync : SyncState F codec
    pub windows : F.Keyspace
    pub limiter : HashMap ℕ
    pub devices : List Device
    pub cache : ActiveCache

  abbrev pub with_device :
      Server → AuthPayload → Str → Moment → Option (List Device × Str) → Server × Handshake
  with_device s hello user_id m none = (s, failed)
  with_device s hello user_id m (some (devices, device_id)) =
      if not (hello.schema_version == wire.schema_version)
      then (
        record s {
          devices = devices;
          sync = record {
            store = delete_device_events F codec s.sync.store device_id;
            cursors = reset_cursor s.sync.cursors device_id hello.provider m.wall_secs;
          };
        },
        refused schema_mismatch,
      )
      else (
        record s {
          devices = devices;
          sync = record {
            store = s.sync.store;
            cursors = ensure_cursor s.sync.cursors device_id hello.provider m.wall_secs;
          };
        },
        welcome (record { user_id = user_id; device_id = device_id; provider = hello.provider }),
      )

  abbrev pub with_active :
      Server → AuthPayload → Str → Moment → ActiveCache × Option Bool → Server × Handshake
  with_active s hello user_id m (cache, none) =
      (record s { cache = cache }, refused active_check_failed)
  with_active s hello user_id m (cache, some false) =
      (record s { cache = cache }, refused account_deactivated)
  with_active s hello user_id m (cache, some true) =
      if not (wire.is_uuid hello.device_key)
      then (record s { cache = cache }, refused invalid_device_key)
      else with_device (record s { cache = cache }) hello user_id m
          (find_or_create_device s.devices user_id (truncate_device_name hello.device_name)
            hello.device_key m.wall_secs)

  abbrev pub with_claims : Server → AuthPayload → Moment → Option Claims → Server × Handshake
  with_claims s hello m none = (s, refused jwt_invalid)
  with_claims s hello m (some claims) =
      with_active s hello claims.sub m (is_user_active_cached s.cache claims.sub m.clock m.user)

  abbrev pub with_auth : Server → Moment → Option AuthPayload → Server × Handshake
  with_auth s m none = (s, failed)
  with_auth s m (some hello) =
      if not (hello.protocol_version == wire.protocol_version)
      then (s, refused unsupported_protocol)
      else with_claims s hello m (verify_access jwt hello.jwt m.wall_secs)

  -- The first frame.
  unfoldable pub handshake : Server → MsgType → Str → Moment → Server × Handshake
  handshake s auth payload m = with_auth s m (wire.decode_auth payload)
  handshake s _ payload m = (s, failed)

  abbrev pub Turn : Type 0
  Turn = Server × (List Reply × Next)

  -- The active check before a write.
  abbrev pub if_active : Server → ActiveCache × Option Bool → (Server → Turn) → Turn
  if_active s (cache, none) f = (record s { cache = cache }, ([], stop))
  if_active s (cache, some false) f =
      (record s { cache = cache }, (sync_err deactivated ∷ [], stop))
  if_active s (cache, some true) f = f (record s { cache = cache })

  abbrev pub batch_reply : Server → SyncState F codec × Result ℤ SyncError → Turn
  batch_reply s (sync, ok ts) = (record s { sync = sync }, (sync_ack ts ∷ [], go_on))
  batch_reply s (sync, err e) = (record s { sync = sync }, (sync_err (batch_refused e) ∷ [], go_on))

  abbrev pub with_batch : Session → Moment → Option SyncBatchPayload → Server → Turn
  with_batch session m none s = (s, ([], broken))
  with_batch session m (some batch) s =
      let ensured : SyncState F codec = record {
        store = s.sync.store;
        cursors = ensure_cursor s.sync.cursors session.device_id batch.provider m.wall_secs;
      } in
      batch_reply s (
        handle_sync_batch F codec ensured batch session.user_id session.device_id batch.provider
          retention m.wall_secs)

  -- `none` is a batch that does not decompress, or to more than the limit.
  abbrev pub within_limit : Option Str → Option Str
  within_limit none = none
  within_limit (some text) =
      let buf = take (max_decompressed_size + 1) text in
      if ltb max_decompressed_size (length buf) then none else some buf

  abbrev pub raw_batch : MsgType → Str → Option Str
  raw_batch sync_batch_zstd payload = within_limit (wire.decompress payload)
  raw_batch _ payload = some payload

  abbrev pub decoded_batch : Option Str → Option SyncBatchPayload
  decoded_batch none = none
  decoded_batch (some raw) = wire.decode_batch raw

  unfoldable pub on_batch : Session → MsgType → Str → Moment → Server → Turn
  on_batch session msg_type payload m s =
      with_batch session m (decoded_batch (raw_batch msg_type payload)) s

  abbrev pub store_windows : Session → SyncWindowsPayload → SanitizedWindows → Server → Turn
  store_windows session win clean s =
      let items = premerge_windows sorting clean.items in
      let r = upsert_windows window_codec F session.user_id win.provider (s.windows, 0) items in
      (record s { windows = r.0 }, (windows_reply items (clean.transient_rejects + r.1), go_on))

  abbrev pub if_allowed : Session → SyncWindowsPayload → Moment → Server → HashMap ℕ × Bool → Turn
  if_allowed session win m s (limiter, false) =
      (record s { limiter = limiter }, (sync_err throttled ∷ [], go_on))
  if_allowed session win m s (limiter, true) =
      store_windows session win (sanitize_window_batch win.items m.wall_ms)
        (record s { limiter = limiter })

  abbrev pub with_windows : Session → Moment → Server → Option SyncWindowsPayload → Turn
  with_windows session m s none = (s, ([], broken))
  with_windows session m s (some win) =
      if not (win.windows_schema == wire.windows_schema_version)
      then (s, (sync_err unsupported_windows_schema ∷ [], go_on))
      else if not (provider_ok win.provider)
      then (s, (sync_err invalid_provider ∷ [], go_on))
      else if_allowed session win m s
          (allow s.limiter session.user_id win.provider session.device_id m.clock)

  unfoldable pub on_windows : Session → Str → Moment → Server → Turn
  on_windows session payload m s =
      if ltb max_windows_payload (length payload)
      then (s, (sync_err windows_too_large ∷ [], go_on))
      else with_windows session m s (wire.decode_windows payload)

  abbrev pub on_get_last_ts : Session → Server → Option Str → Turn
  on_get_last_ts session s none = (s, ([], broken))
  on_get_last_ts session s (some provider) =
      (s, (last_ts (get_last_ts s.sync.cursors session.device_id provider) ∷ [], go_on))

  abbrev pub active_now : Server → Session → Moment → ActiveCache × Option Bool
  active_now s session m = is_user_active_cached s.cache session.user_id m.clock m.user

  -- One turn of the loop.
  unfoldable pub handle_frame : Server → Session → MsgType → Str → Moment → Turn
  handle_frame s session get_last_ts_msg payload m =
      on_get_last_ts session s (wire.decode_get_last_ts payload)
  handle_frame s session sync_batch payload m =
      if_active s (active_now s session m) (on_batch session sync_batch payload m)
  handle_frame s session sync_batch_zstd payload m =
      if_active s (active_now s session m) (on_batch session sync_batch_zstd payload m)
  handle_frame s session sync_windows payload m =
      if_active s (active_now s session m) (on_windows session payload m)
  handle_frame s session ping payload m = (s, (pong ∷ [], go_on))
  handle_frame s session _ payload m = (s, ([], go_on))

  -- The loop over the frames that come until the peer goes; the replies are in the order of the turns.
  abbrev pub then_frames : List Reply × Next → Server × List Reply → Server → Server × List Reply
  then_frames (replies, go_on) rest s = (rest.0, replies ++ rest.1)
  then_frames (replies, stop) rest s = (s, replies)
  then_frames (replies, broken) rest s = (s, replies)

  unfoldable pub main_loop : Server → Session → List Frame → Server × List Reply
  main_loop s session [] = (s, [])
  main_loop s session (f ∷ fs) =
      let turn = handle_frame s session f.msg_type f.payload f.moment in
      then_frames turn.1 (main_loop turn.0 session fs) turn.0

  abbrev pub serve_session : Server × Handshake → List Frame → Server × List Reply
  serve_session (s, welcome session) fs = main_loop s session fs
  serve_session (s, _) fs = (s, [])

  -- A whole connection: the first frame, and the rest of them.
  unfoldable pub handle_connection : Server → Frame → List Frame → Server × List Reply
  handle_connection s first fs =
      serve_session (handshake s first.msg_type first.payload first.moment) fs
