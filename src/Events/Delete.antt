-- ===== src/Events/Delete.antt =====
-- `cleanup_old_dedup` and `delete_device_events` of src/events/fjall_store.rs.
use toki_sync.Prelude.{
  ◌≡◌, ◌≢◌, refl, ◌∙◌, ap, sym, subst, Bool, true, false, ◌&&◌, not, Option, none, some, List, [],
  ◌∷◌, ◌++◌, Str, str_eq, str_eq_iff, str_eq_refl, length, take, any, All, filter, str_cmp, leb,
  if◌then◌else◌, arith, ℤ, ltb_ℤ, Bool-cases, inl, inr,
}
use toki_sync.Events.{ServerEvent}
use toki_sync.Events.Bytes.{from_be_bytes}
use toki_sync.Events.Store.{
  Fjall, is_lt, Mem, here, there, Bincode, PersistedEvent, decode_event, idx_key_of, user_idx_key,
  Target, events, idx_msg, idx_user, sessions, Write, del, Store, read, commit, effects,
  read-commit,
}
use toki_sync.Events.Upsert.{row, decoded}

-- The pointers of the device whose rows are older than the cutoff.
abbrev pub is_stale : ℤ → Str → Bool
is_stale cutoff_ms value = leb 8 (length value) && ltb_ℤ (from_be_bytes (take 8 value)) cutoff_ms

abbrev pub stale_pointers : ℤ → List (Str × Str) → List Write
stale_pointers cutoff_ms [] = []
stale_pointers cutoff_ms ((k, v) ∷ kvs) =
    if is_stale cutoff_ms v
    then del idx_msg k ∷ stale_pointers cutoff_ms kvs
    else stale_pointers cutoff_ms kvs

abbrev pub all_pointers : List (Str × Str) → List Write
all_pointers [] = []
all_pointers ((k, v) ∷ kvs) = del idx_msg k ∷ all_pointers kvs

module _ (F : Fjall) where
  unfoldable pub cleanup_old_dedup : Store F → Str → ℤ → Store F
  cleanup_old_dedup st device_id cutoff_ms =
      commit F st (stale_pointers cutoff_ms (F.prefix st.idx_msg_ks (device_id ++ 0 ∷ [])))

  cleanup_apart :
      (t : Target) (cutoff_ms : ℤ) (kvs : List (Str × Str)) (j : Str) (o : Option Str)
      → t ≢ idx_msg
      → effects F (stale_pointers cutoff_ms kvs) t j o ≡ o
  cleanup_apart events c [] j o ne = refl
  cleanup_apart idx_user c [] j o ne = refl
  cleanup_apart sessions c [] j o ne = refl
  cleanup_apart idx_msg c [] j o ne = refl
  cleanup_apart t c ((k, v) ∷ kvs) j o ne = elim (Bool-cases (is_stale c v)) [
    | inl q ↦ rw q (by_target t ne (cleanup_apart t c kvs j o ne))
    | inr q ↦ rw q (cleanup_apart t c kvs j o ne)
  ]
    where
      by_target :
          (t : Target)
          → t ≢ idx_msg
          → effects F (stale_pointers c kvs) t j o ≡ o
          → effects F (del idx_msg k ∷ stale_pointers c kvs) t j o ≡ o
      by_target events ne h = h
      by_target idx_user ne h = h
      by_target sessions ne h = h
      by_target idx_msg ne h = absurd (ne refl)

  -- Clearing old pointers loses no event, no index entry of a user and no session.
  pub cleanup_keeps_rows :
      (st : Store F) (device_id : Str) (cutoff_ms : ℤ) (t : Target) (j : Str)
      → t ≢ idx_msg
      → read F (cleanup_old_dedup st device_id cutoff_ms) t j ≡ read F st t j
  unfolding cleanup_old_dedup
  cleanup_keeps_rows st d c t j ne =
      let kvs = F.prefix st.idx_msg_ks (d ++ 0 ∷ []) in
      read-commit F (stale_pointers c kvs) st t j ∙ cleanup_apart t c kvs j (read F st t j) ne

  module _ (codec : Bincode PersistedEvent) where
    abbrev pub device_is : Str → Option ServerEvent → Bool
    device_is d none = false
    device_is d (some e) = str_eq e.device_id d

    abbrev pub row_writes : Str → Str → Option ServerEvent → List Write
    row_writes d key none = []
    row_writes d key (some e) =
        if str_eq e.device_id d
        then del idx_user (user_idx_key e.user_id key)
          ∷ del idx_msg (idx_key_of e)
          ∷ del sessions key
          ∷ del events key
          ∷ []
        else []

    unfoldable pub scan_rows : Str → List (Str × Str) → List Write
    scan_rows d [] = []
    scan_rows d ((key, value) ∷ kvs) =
        row_writes d key (decode_event codec value) ++ scan_rows d kvs

    unfoldable pub delete_device_events : Store F → Str → Store F
    delete_device_events st d = commit F st (
        scan_rows d (F.range st.events_ks [])
        ++ all_pointers (F.prefix st.idx_msg_ks (d ++ 0 ∷ [])))

    abbrev hit : Str → Str → Str × Str → Bool
    hit d j kv = str_eq kv.0 j && device_is d (decode_event codec kv.1)

    effects-append :
        (xs ys : List Write) (t : Target) (j : Str) (o : Option Str)
        → effects F (xs ++ ys) t j o ≡ effects F ys t j (effects F xs t j o)
    effects-append [] ys t j o = refl
    effects-append (x ∷ xs) ys t j o = effects-append xs ys t j _

    row_effect :
        (d key j : Str) (e : Option ServerEvent) (o : Option Str)
        → effects F (row_writes d key e) events j o
          ≡ (if str_eq key j && device_is d e then none else o)
    row_effect d key j none o = ground arith
    row_effect d key j (some e) o = elim (Bool-cases (str_eq e.device_id d)) [
      | inl q ↦ rw q (ground arith)
      | inr q ↦ rw q (ground arith)
    ]

    scan_effect :
        (d j : Str) (kvs : List (Str × Str)) (o : Option Str)
        → effects F (scan_rows d kvs) events j o ≡ (if any (hit d j) kvs then none else o)
    unfolding scan_rows
    scan_effect d j [] o = refl
    scan_effect d j ((key, value) ∷ kvs) o =
        effects-append (row_writes d key (decode_event codec value)) (scan_rows d kvs) events j o
        ∙ scan_effect d j kvs _
        ∙ rw (row_effect d key j (decode_event codec value) o) (ground arith)

    pointers_effect :
        (kvs : List (Str × Str)) (j : Str) (o : Option Str)
        → effects F (all_pointers kvs) events j o ≡ o
    pointers_effect [] j o = refl
    pointers_effect ((k, v) ∷ kvs) j o = pointers_effect kvs j o

    any-hit :
        (d j v : Str) (kvs : List (Str × Str))
        → Mem (j, v) kvs
        → device_is d (decode_event codec v) ≡ true
        → any (hit d j) kvs ≡ true
    any-hit d j v [] m h = elim m [ ]
    any-hit d j v ((k, w) ∷ kvs) here h = ground (arith, str_eq_refl j)
    any-hit d j v ((k, w) ∷ kvs) (there m) h = ground (arith, any-hit d j v kvs m h)

    none_hit :
        (d j : Str) (g : Str → Option Str) (kvs : List (Str × Str))
        → All (λ kv. g kv.0 ≡ some kv.1) kvs
        → device_is d (decoded F codec (g j)) ≡ false
        → any (hit d j) kvs ≡ false
    none_hit d j g [] a h = refl
    none_hit d j g ((k, w) ∷ kvs) a h = elim (Bool-cases (str_eq k j)) [
      | inr q ↦ ground (arith, none_hit d j g kvs a.1 h)
      | inl q ↦
          let e : k ≡ j = ground (arith, str_eq_iff k j) in
          let at = rw (ap g (sym e) ∙ a.0) at h in ground (arith, none_hit d j g kvs a.1 h)
    ]

    filter_all : (kvs : List (Str × Str)) → filter (λ kv. not (is_lt (str_cmp kv.0 []))) kvs ≡ kvs
    unfolding str_cmp
    filter_all [] = refl
    filter_all (([], v) ∷ kvs) = ap (◌∷◌ ([], v)) (filter_all kvs)
    filter_all ((a ∷ k, v) ∷ kvs) = ap (◌∷◌ (a ∷ k, v)) (filter_all kvs)

    range_all : (ks : F.Keyspace) → F.range ks [] ≡ F.iter ks
    range_all ks = F.range_eq ks [] ∙ filter_all (F.iter ks)

    abbrev pub keep_others : Str → Option ServerEvent → Option ServerEvent
    keep_others d none = none
    keep_others d (some e) = if str_eq e.device_id d then none else some e

    any_none :
        (b : Bool) (d : Str) → decoded F codec (if b then none else none) ≡ keep_others d none
    any_none true d = refl
    any_none false d = refl

    keep_false : (d : Str) (o : Option ServerEvent) → device_is d o ≡ false → o ≡ keep_others d o
    keep_false d none h = refl
    keep_false d (some e) h = rw h refl

    keep_true : (d : Str) (o : Option ServerEvent) → device_is d o ≡ true → none ≡ keep_others d o
    keep_true d none h = refl
    keep_true d (some e) h = rw h refl

    by_value :
        (st : Store F) (d key : Str) (o : Option Str)
        → read F st events key ≡ o
        → decoded F codec (if any (hit d key) (F.range st.events_ks []) then none else o)
          ≡ keep_others d (decoded F codec o)
    by_value st d key none h = any_none (any (hit d key) (F.range st.events_ks [])) d
    by_value st d key (some v) h = elim (Bool-cases (device_is d (decode_event codec v))) [
      | inl q ↦
          let m =
            subst (Mem (key, v)) (sym (range_all st.events_ks))
              (F.iter_complete st.events_ks key v h) in
          rw (any-hit d key v (F.range st.events_ks []) m q) (keep_true d (decode_event codec v) q)
      | inr q ↦
          let a =
            subst (All (λ kv. F.get st.events_ks kv.0 ≡ some kv.1)) (sym (range_all st.events_ks))
              (F.iter_sound st.events_ks) in
          rw (none_hit d key (F.get st.events_ks) (F.range st.events_ks []) a (rw h q))
            (keep_false d (decode_event codec v) q)
    ]

    -- Deleting a device takes out every row of its events, whether a pointer leads to it or not, and
    -- leaves all other rows as they were.
    pub delete_device_exact :
        (st : Store F) (d key : Str)
        → row F codec (delete_device_events st d) key ≡ keep_others d (row F codec st key)
    unfolding row delete_device_events
    delete_device_exact st d key =
        let ws = scan_rows d (F.range st.events_ks []) in
        let ps = all_pointers (F.prefix st.idx_msg_ks (d ++ 0 ∷ [])) in
        ap (decoded F codec) (
          read-commit F (ws ++ ps) st events key
          ∙ effects-append ws ps events key (read F st events key)
          ∙ pointers_effect (F.prefix st.idx_msg_ks (d ++ 0 ∷ [])) key _
          ∙ scan_effect d key (F.range st.events_ks []) (read F st events key))
        ∙ by_value st d key (read F st events key) refl
