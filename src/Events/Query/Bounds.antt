-- ===== src/Events/Query/Bounds.antt =====
-- What a query of src/events/fjall_store.rs returns: never more than its limit, and rows of its range.
use toki_sync.Prelude.{
  ℕ, ◌+◌, ◌-◌, ◌≤◌, ◌<◌, Option, none, some, List, [], ◌∷◌, ◌++◌, Str, length, length-append, take,
  drop, ltb, leb, max, arith, ℤ, ltb_ℤ, leb_ℤ, Bool-cases, inl, inr,
}
use toki_sync.Events.{ServerEvent, UserFilter, single, multiple, everyone}
use toki_sync.Events.Bytes.{from_be_bytes, to_be_bytes}
use toki_sync.Events.Store.{Fjall, Bincode, PersistedEvent, decode_event, Store}
use toki_sync.Events.Query.{
  Scan, stop, next, filter_allows, pushed, with_session, taken, taken_for, scan_entry, scan_entries,
  scan_events, scan_user_entry, scan_user_entries, scan_user_events, scan_users, query_events,
}

-- A scan that goes on has room.
abbrev Fits : ℕ → Scan → Type 0
Fits limit (stop r) = length r ≤ max limit 1
Fits limit (next r) = length r < max limit 1

pushed-Fits :
    (limit : ℕ) (results : List ServerEvent) (e : ServerEvent)
    → length results < max limit 1
    → Fits limit (pushed limit results e)
pushed-Fits limit results e h = elim (Bool-cases (leb limit (length (results ++ e ∷ [])))) [
  | inl q ↦ rw q (omega (arith, length-append results (e ∷ [])))
  | inr q ↦ rw q (ground (arith, length-append results (e ∷ [])))
]

going_on :
    (limit : ℕ) (rest : List ServerEvent → List ServerEvent) (s : Scan)
    → Fits limit s
    → ((r : List ServerEvent) → length r < max limit 1 → length (rest r) ≤ max limit 1)
    → length (elim s [ stop r ↦ r | next r ↦ rest r ]) ≤ max limit 1
going_on limit rest (stop r) f h = f
going_on limit rest (next r) f h = h r f

module _ (F : Fjall) (codec : Bincode PersistedEvent) (utf8 : Str → Option Str) where
  module _ (st : Store F) (since_ms until_ms : ℤ) (limit : ℕ) where
    taken-Fits :
        (filter : UserFilter) (key : Str) (results : List ServerEvent) (o : Option ServerEvent)
        → length results < max limit 1
        → Fits limit (taken F codec utf8 st since_ms until_ms limit filter key results o)
    taken-Fits filter key results none h = h
    taken-Fits filter key results (some e) h = elim (Bool-cases (filter_allows filter e.user_id)) [
      | inl q ↦ rw q (pushed-Fits limit results (with_session F codec utf8 st key e) h)
      | inr q ↦ rw q h
    ]

    scan_entry-Fits :
        (filter : UserFilter) (results : List ServerEvent) (key value : Str)
        → length results < max limit 1
        → Fits limit (scan_entry F codec utf8 st since_ms until_ms limit filter results key value)
    unfolding scan_entry
    scan_entry-Fits filter results key value h = elim (Bool-cases (ltb (length key) 8)) [
      | inl q ↦ rw q h
      | inr q ↦ elim (Bool-cases (leb_ℤ until_ms (from_be_bytes (take 8 key)))) [
        | inl w ↦ rw (q, w) (omega arith)
        | inr w ↦ rw (q, w) (taken-Fits filter key results (decode_event codec value) h)
      ]
    ]

    taken_for-Fits :
        (key : Str) (results : List ServerEvent) (o : Option ServerEvent)
        → length results < max limit 1
        → Fits limit (taken_for F codec utf8 st since_ms until_ms limit key results o)
    taken_for-Fits key results none h = h
    taken_for-Fits key results (some e) h =
        pushed-Fits limit results (with_session F codec utf8 st key e) h

    scan_user_entry-Fits :
        (ts_off : ℕ) (results : List ServerEvent) (key value : Str)
        → length results < max limit 1
        → Fits limit
            (scan_user_entry F codec utf8 st since_ms until_ms limit ts_off results key value)
    unfolding scan_user_entry
    scan_user_entry-Fits off results key value h =
        let ts = from_be_bytes (take 8 (drop off key)) in
        elim (Bool-cases (ltb (length key) (off + 8))) [
          | inl q ↦ rw q h
          | inr q ↦ elim (Bool-cases (leb_ℤ until_ms ts)) [
            | inl w ↦ rw (q, w) (omega arith)
            | inr w ↦ elim (Bool-cases (ltb_ℤ ts since_ms)) [
              | inl z ↦ rw (q, w, z) h
              | inr z ↦
                  rw (q, w, z) (taken_for-Fits (drop off key) results (decode_event codec value) h)
            ]
          ]
        ]

    scan_entries_bounded :
        (filter : UserFilter) (results : List ServerEvent) (kvs : List (Str × Str))
        → length results < max limit 1
        → length (scan_entries F codec utf8 st since_ms until_ms limit filter results kvs)
          ≤ max limit 1
    scan_entries_bounded filter results [] h = omega arith
    scan_entries_bounded filter results ((key, value) ∷ kvs) h =
        going_on limit (λ r. scan_entries F codec utf8 st since_ms until_ms limit filter r kvs)
          (scan_entry F codec utf8 st since_ms until_ms limit filter results key value)
          (scan_entry-Fits filter results key value h) (λ r f. scan_entries_bounded filter r kvs f)

    scan_user_entries_bounded :
        (off : ℕ) (results : List ServerEvent) (kvs : List (Str × Str))
        → length results < max limit 1
        → length (scan_user_entries F codec utf8 st since_ms until_ms limit off results kvs)
          ≤ max limit 1
    scan_user_entries_bounded off results [] h = omega arith
    scan_user_entries_bounded off results ((key, value) ∷ kvs) h =
        going_on limit (λ r. scan_user_entries F codec utf8 st since_ms until_ms limit off r kvs)
          (scan_user_entry F codec utf8 st since_ms until_ms limit off results key value)
          (scan_user_entry-Fits off results key value h)
          (λ r f. scan_user_entries_bounded off r kvs f)

    scan_user_events_bounded :
        (uid : Str)
        → length (scan_user_events F codec utf8 st since_ms until_ms limit uid) ≤ max limit 1
    unfolding scan_user_events
    scan_user_events_bounded uid =
        let prefix = uid ++ 0 ∷ [] in
        scan_user_entries_bounded (length prefix) [] (F.prefix st.idx_user_ks prefix) (omega arith)

  scan_users_bounded :
      (st : Store F) (since_ms until_ms : ℤ) (limit : ℕ) (out : List ServerEvent) (uids : List Str)
      → length out ≤ max limit 1
      → length (scan_users F codec utf8 st since_ms until_ms limit out uids) ≤ max limit 1
  scan_users_bounded st since_ms until_ms limit out [] h = h
  scan_users_bounded st since_ms until_ms limit out (uid ∷ uids) h =
      elim (Bool-cases (leb limit (length out))) [
        | inl q ↦ rw q h
        | inr q ↦
            let new = scan_user_events F codec utf8 st since_ms until_ms (limit - length out) uid in
            let b = scan_user_events_bounded st since_ms until_ms (limit - length out) uid in
            rw q (
              scan_users_bounded st since_ms until_ms limit (out ++ new) uids
                (ground (arith, length-append out new, b)))
      ]

  -- A query of one user, of a team or of all returns at most as many events as its limit, or one if
  -- the limit is zero.
  pub query_events_bounded :
      (st : Store F) (since_ms until_ms : ℤ) (filter : UserFilter) (limit : ℕ)
      → length (query_events F codec utf8 st since_ms until_ms filter limit) ≤ max limit 1
  unfolding query_events scan_events
  query_events_bounded st since_ms until_ms (single uid) limit =
      scan_user_events_bounded st since_ms until_ms limit uid
  query_events_bounded st since_ms until_ms (multiple uids) limit =
      scan_users_bounded st since_ms until_ms limit [] uids (omega arith)
  query_events_bounded st since_ms until_ms everyone limit =
      scan_entries_bounded st since_ms until_ms limit everyone []
        (F.range st.events_ks (to_be_bytes since_ms)) (omega arith)
