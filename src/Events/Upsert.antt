-- ===== src/Events/Upsert.antt =====
-- `upsert_one` and `upsert_events` of src/events/fjall_store.rs. The mutation lock makes each call one
-- step of the store.
pub mod Indexed
pub mod Placed
pub mod Latest
use toki_sync.Prelude.{
  ℕ, ◌^◌, ◌-◌, ◌≤◌, ◌≡◌, ◌≢◌, refl, ◌∙◌, sym, ap, Bool, true, false, ◌&&◌, ◌||◌, not, Option, none,
  some, List, [], ◌∷◌, ◌++◌, map, Str, str_eq, str_eq_iff, str_eq_refl, is_empty, HashMap, get,
  insert, if◌then◌else◌, arith, ℤ, negsuc, ltb_ℤ, leb_ℤ, ltb, leb, length, take, drop, Bool-cases,
  inl, inr,
}
use toki_sync.Events.{ServerEvent}
use toki_sync.Events.Bytes.{from_be_bytes, to_be_bytes}
use toki_sync.Events.Store.{
  Fjall, Bincode, PersistedEvent, encode_event, decode_event, idx_key, idx_key_of, event_key,
  event_key_of, user_idx_key, Target, events, idx_msg, idx_user, sessions, Write, put, del, Store,
  read, commit, effects, same,
}

-- The timestamp at the head of an event key; `i64::MIN` if the key is too short.
unfoldable pub prev_ts : Str → ℤ
prev_ts key = if leb 8 (length key) then from_be_bytes (take 8 key) else negsuc (2 ^ 63 - 1)

abbrev pub user_or : Str → Option ServerEvent → Str
user_or user_id none = user_id
user_or user_id (some e) = e.user_id

-- `if !event.session.is_empty() { … }`
abbrev pub session_writes : ServerEvent → List Write
session_writes e = if is_empty e.session then [] else put sessions (event_key_of e) e.session ∷ []

-- `HashMap<Vec<u8>, &ServerEvent>`: the latest event of the batch for each key, the first of those with
-- the same timestamp.
abbrev pub keep_winner :
    HashMap ServerEvent → Option ServerEvent → ServerEvent → HashMap ServerEvent
keep_winner m none e = insert m (idx_key_of e) e
keep_winner m (some old) e = if leb_ℤ e.ts_ms old.ts_ms then m else insert m (idx_key_of e) e

unfoldable pub winners : HashMap ServerEvent → List ServerEvent → HashMap ServerEvent
winners m [] = m
winners m (e ∷ es) = winners (keep_winner m (get m (idx_key_of e)) e) es

module _ (F : Fjall) (codec : Bincode PersistedEvent) where
  abbrev pub decoded : Option Str → Option ServerEvent
  decoded none = none
  decoded (some bytes) = decode_event codec bytes

  -- The row of an event.
  unfoldable pub row : Store F → Str → Option ServerEvent
  row st key = decoded (read F st events key)

  -- The new row, its inline copy for the user, its session, and the pointer.
  unfoldable pub insertion : ServerEvent → List Write
  insertion e =
      put events (event_key_of e) (encode_event codec e)
      ∷ put idx_user (user_idx_key e.user_id (event_key_of e)) (encode_event codec e)
      ∷ (session_writes e ++ put idx_msg (idx_key_of e) (event_key_of e) ∷ [])

  -- The rows of the predecessor, under the user that it was stored for.
  unfoldable pub removal : Store F → ServerEvent → Str → List Write
  removal st e key =
      del events key
      ∷ del idx_user (user_idx_key (user_or e.user_id (row st key)) key)
      ∷ del sessions key
      ∷ []

  abbrev pub replacing : Store F → ServerEvent → Option Str → List Write
  replacing st e none = insertion e
  replacing st e (some key) =
      if ltb_ℤ e.ts_ms (prev_ts key) then [] else removal st e key ++ insertion e

  -- What an event adds to the batch. It reads the committed store.
  unfoldable pub upsert_one : Store F → ServerEvent → List Write
  upsert_one st e = replacing st e (read F st idx_msg (idx_key_of e))

  unfoldable pub gather : Store F → HashMap ServerEvent → List Write
  gather st [] = []
  gather st ((k, e) ∷ m) = upsert_one st e ++ gather st m

  unfoldable pub upsert_events : Store F → List ServerEvent → Store F
  upsert_events st [] = st
  upsert_events st (e ∷ es) = commit F st (gather st (winners [] (e ∷ es)))
