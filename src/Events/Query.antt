-- ===== src/Events/Query.antt =====
-- `scan_events`, `scan_user_events` and `query_events` of src/events/fjall_store.rs.
pub mod Bounds
use toki_sync.Prelude.{
  ℕ, suc, ◌+◌, ◌-◌, ◌≤◌, ◌<◌, ◌≡◌, refl, Bool, true, false, ◌&&◌, Option, none, some, List, [], ◌∷◌,
  ◌++◌, Str, str_eq, str_eq_iff, length, length-append, take, drop, any, ltb, leb, max,
  if◌then◌else◌, arith, ℤ, ltb_ℤ, leb_ℤ, Bool-cases, inl, inr, All, All-append,
}
use toki_sync.Events.{ServerEvent, UserFilter, single, multiple, everyone}
use toki_sync.Events.Bytes.{from_be_bytes, to_be_bytes}
use toki_sync.Events.Store.{Fjall, Bincode, PersistedEvent, decode_event, sessions, Store, read}

-- Where one entry leaves a scan.
pub data Scan : Type 0 where
  stop next : List ServerEvent → Scan

unfoldable pub filter_allows : UserFilter → Str → Bool
filter_allows (single uid) user_id = str_eq user_id uid
filter_allows (multiple uids) user_id = any (λ uid. str_eq uid user_id) uids
filter_allows everyone user_id = true

abbrev pub pushed : ℕ → List ServerEvent → ServerEvent → Scan
pushed limit results e =
    let r = results ++ e ∷ [] in if leb limit (length r) then stop r else next r

module _ (F : Fjall) (codec : Bincode PersistedEvent) (utf8 : Str → Option Str) where
  abbrev pub or_empty : Option Str → Str
  or_empty none = []
  or_empty (some s) = s

  abbrev pub and_then : Option Str → Option Str
  and_then none = none
  and_then (some bytes) = utf8 bytes

  -- `utf8` is `String::from_utf8`.
  unfoldable pub load_session : Store F → Str → Str
  load_session st key = or_empty (and_then (read F st sessions key))

  abbrev pub with_session : Store F → Str → ServerEvent → ServerEvent
  with_session st key e = record e { session = load_session st key }

  module _ (st : Store F) (since_ms until_ms : ℤ) (limit : ℕ) where
    abbrev pub taken : UserFilter → Str → List ServerEvent → Option ServerEvent → Scan
    taken filter key results none = next results
    taken filter key results (some e) =
        if filter_allows filter e.user_id
        then pushed limit results (with_session st key e)
        else next results

    unfoldable pub scan_entry : UserFilter → List ServerEvent → Str → Str → Scan
    scan_entry filter results key value =
        if ltb (length key) 8
        then next results
        else if leb_ℤ until_ms (from_be_bytes (take 8 key))
        then stop results
        else taken filter key results (decode_event codec value)

    abbrev pub scan_entries : UserFilter → List ServerEvent → List (Str × Str) → List ServerEvent
    scan_entries filter results [] = results
    scan_entries filter results ((key, value) ∷ kvs) = elim (scan_entry filter results key value) [
      | stop r ↦ r
      | next r ↦ scan_entries filter r kvs
    ]

    unfoldable pub scan_events : UserFilter → List ServerEvent
    scan_events filter = scan_entries filter [] (F.range st.events_ks (to_be_bytes since_ms))

    abbrev pub taken_for : Str → List ServerEvent → Option ServerEvent → Scan
    taken_for event_key results none = next results
    taken_for event_key results (some e) = pushed limit results (with_session st event_key e)

    unfoldable pub scan_user_entry : ℕ → List ServerEvent → Str → Str → Scan
    scan_user_entry ts_off results key value =
        let ts = from_be_bytes (take 8 (drop ts_off key)) in
        if ltb (length key) (ts_off + 8)
        then next results
        else if leb_ℤ until_ms ts
        then stop results
        else if ltb_ℤ ts since_ms
        then next results
        else taken_for (drop ts_off key) results (decode_event codec value)

    abbrev pub scan_user_entries : ℕ → List ServerEvent → List (Str × Str) → List ServerEvent
    scan_user_entries ts_off results [] = results
    scan_user_entries ts_off results ((key, value) ∷ kvs) =
        elim (scan_user_entry ts_off results key value) [
          | stop r ↦ r
          | next r ↦ scan_user_entries ts_off r kvs
        ]

    unfoldable pub scan_user_events : Str → List ServerEvent
    scan_user_events user_id =
        let prefix = user_id ++ 0 ∷ [] in
        scan_user_entries (length prefix) [] (F.prefix st.idx_user_ks prefix)

  -- The loop over the users of a team: each gets the room that is left.
  abbrev pub scan_users : Store F → ℤ → ℤ → ℕ → List ServerEvent → List Str → List ServerEvent
  scan_users st since_ms until_ms limit out [] = out
  scan_users st since_ms until_ms limit out (uid ∷ uids) =
      let next = out ++ scan_user_events st since_ms until_ms (limit - length out) uid in
      let rest = scan_users st since_ms until_ms limit next uids in
      if leb limit (length out) then out else rest

  unfoldable pub query_events : Store F → ℤ → ℤ → UserFilter → ℕ → List ServerEvent
  query_events st since_ms until_ms (single uid) limit =
      scan_user_events st since_ms until_ms limit uid
  query_events st since_ms until_ms (multiple uids) limit =
      scan_users st since_ms until_ms limit [] uids
  query_events st since_ms until_ms everyone limit = scan_events st since_ms until_ms limit everyone
