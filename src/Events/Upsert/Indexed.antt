-- ===== src/Events/Upsert/Indexed.antt =====
-- The pointers and rows of src/events/fjall_store.rs as a map from the identity of an event to its
-- latest version.
use toki_sync.Prelude.{
  ◌≡◌, ap, Option, none, some, [], ◌∷◌, ◌++◌, Str, if◌then◌else◌, arith, ℤ, ltb_ℤ, length, drop,
  length-append,
}
use toki_sync.Events.{ServerEvent}
use toki_sync.Events.Bytes.{
  to_be_bytes, from-to_be_bytes, length-be, to_bits, take-length, drop-length, IsI64,
}
use toki_sync.Events.Store.{
  Fjall, Bincode, PersistedEvent, idx_key, idx_key_of, event_key, event_key_of, idx_msg, Store,
  read, commit,
}
use toki_sync.Events.Upsert.{prev_ts, row, upsert_one}

length-to_be_bytes : (z : ℤ) → length (to_be_bytes z) ≡ 8
unfolding to_be_bytes
length-to_be_bytes z = length-be 8 (to_bits z)

-- The key of a row begins with its timestamp.
pub prev_ts-event_key : (e : ServerEvent) → IsI64 e.ts_ms → prev_ts (event_key_of e) ≡ e.ts_ms
unfolding prev_ts event_key
prev_ts-event_key e h =
    let tail = e.device_id ++ 0 ∷ (e.provider ++ 0 ∷ e.msg_id) in
    let head = to_be_bytes e.ts_ms in
    ground (
      arith,
      length-append head tail,
      length-to_be_bytes e.ts_ms,
      take-length 8 head tail (length-to_be_bytes e.ts_ms),
      from-to_be_bytes e.ts_ms h,
    )

-- The rest of it is the identity of the event.
pub drop-event_key : (e : ServerEvent) → drop 8 (event_key_of e) ≡ idx_key_of e
unfolding event_key idx_key
drop-event_key e = drop-length 8 (to_be_bytes e.ts_ms) (idx_key_of e) (length-to_be_bytes e.ts_ms)

pub some_inj : (a b : ServerEvent) → some a ≡ some b → a ≡ b
some_inj a b h = ap (or_else a) h
  where
    or_else : ServerEvent → Option ServerEvent → ServerEvent
    or_else d none = d
    or_else d (some x) = x

abbrev pub stripped : ServerEvent → ServerEvent
stripped e = record e { session = [] }

abbrev pub newer : Option ServerEvent → ServerEvent → Option ServerEvent
newer none e = some (stripped e)
newer (some old) e = if ltb_ℤ e.ts_ms old.ts_ms then some old else some (stripped e)

module _ (F : Fjall) (codec : Bincode PersistedEvent) where
  abbrev pub live_at : Store F → Option Str → Option ServerEvent
  live_at st none = none
  live_at st (some key) = row F codec st key

  -- The event that the store holds under an identity.
  unfoldable pub live : Store F → Str → Option ServerEvent
  live st k = live_at st (read F st idx_msg k)

  -- What a pointer promises.
  pub record Pointed (st : Store F) (k key : Str) : Type 0 where
    pub event : ServerEvent
    pub stored : row F codec st key ≡ some event
    pub keyed : event_key_of event ≡ key
    pub named : idx_key_of event ≡ k
    pub ranged : IsI64 event.ts_ms

  abbrev pub IsIndexed : Store F → Type 0
  IsIndexed st = (k key : Str) → read F st idx_msg k ≡ some key → Pointed st k key

  abbrev pub upsert : Store F → ServerEvent → Store F
  upsert st e = commit F st (upsert_one F codec st e)
