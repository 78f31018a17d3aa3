-- ===== src/Events/Rows.antt =====
-- The keyspace of rate-limit windows of src/events/fjall_store.rs. The windows lock makes each call
-- one step.
pub mod Resend
use toki_sync.Prelude.{
  ℕ, zero, suc, ◌+◌, ◌-◌, ◌≡◌, refl, Bool, true, false, ◌&&◌, not, Option, none, some, List, [],
  ◌∷◌, ◌++◌, Str, str_eq, str_eq_refl, length, take, drop, filter, ltb, leb, if◌then◌else◌, arith,
  ℤ, leb_ℤ, ltb_ℤ, eqb_ℤ, Bool-cases,
}
use toki_sync.Windows.{WireWindow}
use toki_sync.Windows.Merge.{merge_wire_windows}
use toki_sync.Events.Bytes.{from_be_bytes, to_be_bytes}
use toki_sync.Events.Store.{Fjall, Bincode}

-- `user\0provider\0limit_id\0account\0[kind u8][window_end_ms i64 BE]`
unfoldable pub window_row_key : Str → Str → WireWindow → Str
window_row_key user_id provider w =
    user_id
    ++ 0
      ∷ (provider
          ++ 0 ∷ (w.limit_id ++ 0 ∷ (w.account ++ 0 ∷ w.window_kind ∷ to_be_bytes w.window_end_ms)))

abbrev pub eqb_num : ℕ → ℕ → Bool
eqb_num a b = leb a b && leb b a

abbrev pub eqb_bool : Bool → Bool → Bool
eqb_bool true b = b
eqb_bool false b = not b

-- `prev == before`
unfoldable pub same_window : WireWindow → WireWindow → Bool
same_window a b =
    eqb_num a.window_kind b.window_kind
    && str_eq a.limit_id b.limit_id
    && str_eq a.account b.account
    && eqb_ℤ a.window_end_ms b.window_end_ms
    && eqb_ℤ a.raw_resets_at_ms b.raw_resets_at_ms
    && eqb_num a.window_minutes b.window_minutes
    && eqb_num a.peak_pct_x100 b.peak_pct_x100
    && eqb_num a.last_pct_x100 b.last_pct_x100
    && eqb_ℤ a.observed_ts_ms b.observed_ts_ms
    && eqb_ℤ a.first_seen_ms b.first_seen_ms
    && eqb_bool a.finalized b.finalized
    && eqb_bool a.maxed_out b.maxed_out
    && eqb_num a.limit_reached_kind b.limit_reached_kind
    && eqb_ℤ a.time_to_100_ms b.time_to_100_ms
    && eqb_num a.active_ms b.active_ms
    && eqb_ℤ a.last_sample_gap_ms b.last_sample_gap_ms
    && eqb_num a.sampled_active_fraction b.sampled_active_fraction
    && eqb_num a.n_samples b.n_samples
    && str_eq a.plan b.plan

pub data WindowDecode : Type 0 where
  valid : WireWindow → WindowDecode
  future_version corrupt : WindowDecode

abbrev pub window_value_version : ℕ
window_value_version = 1

abbrev pub body_decode : Option WireWindow → WindowDecode
body_decode none = corrupt
body_decode (some w) = valid w

module _ (codec : Bincode WireWindow) where
  unfoldable pub encode_window : WireWindow → Str
  encode_window w = window_value_version ∷ codec.serialize w

  unfoldable pub decode_window_versioned : Str → WindowDecode
  decode_window_versioned [] = corrupt
  decode_window_versioned (version ∷ body) =
      if ltb window_value_version version
      then future_version
      else body_decode (codec.deserialize body)

  abbrev pub valid_window : WindowDecode → Option WireWindow
  valid_window (valid w) = some w
  valid_window future_version = none
  valid_window corrupt = none

  unfoldable pub decode_window : Str → Option WireWindow
  decode_window bytes = valid_window (decode_window_versioned bytes)

  module _ (F : Fjall) where
    -- The keyspace and the number of windows that were not stored.
    abbrev pub Stored : Type 0
    Stored = F.Keyspace × ℕ

    abbrev pub write_window : Stored → Str → WireWindow → Stored
    write_window (ks, skipped) key w = (F.insert ks key (encode_window w), skipped)

    abbrev pub over : Stored → Str → WireWindow → WindowDecode → Stored
    over s key w (valid prev) =
        let merged = merge_wire_windows prev w in
        if same_window merged prev then s else write_window s key merged
    over (ks, skipped) key w future_version = (ks, skipped + 1)
    over s key w corrupt = write_window s key w

    abbrev pub over_value : Stored → Str → WireWindow → Option Str → Stored
    over_value s key w none = write_window s key w
    over_value s key w (some bytes) = over s key w (decode_window_versioned bytes)

    unfoldable pub upsert_window : Str → Str → Stored → WireWindow → Stored
    upsert_window user_id provider s w =
        let key = window_row_key user_id provider w in over_value s key w (F.get s.0 key)

    unfoldable pub upsert_windows : Str → Str → Stored → List WireWindow → Stored
    upsert_windows user_id provider s [] = s
    upsert_windows user_id provider s (w ∷ ws) =
        upsert_windows user_id provider (upsert_window user_id provider s w) ws

    -- The trailing eight bytes of a key.
    unfoldable pub anchor : Str → Option ℤ
    anchor key =
        if ltb (length key) 8 then none else some (from_be_bytes (drop (length key - 8) key))

    abbrev pub is_before : ℤ → Option ℤ → Bool
    is_before cutoff none = false
    is_before cutoff (some a) = ltb_ℤ a cutoff

    -- The bytes before the first NUL, if there is one.
    unfoldable pub until_nul : Str → Option Str
    until_nul [] = none
    until_nul (b ∷ bs) =
        let rest = until_nul bs in
        if str_eq (b ∷ []) (0 ∷ [])
        then some []
        else elim rest [ none ↦ none | some s ↦ some (b ∷ s) ]

    abbrev pub window_found : (Str → Str) → ℤ → Str → Option WireWindow → List (Str × WireWindow)
    window_found lossy since_ms provider none = []
    window_found lossy since_ms provider (some w) =
        if leb_ℤ since_ms w.window_end_ms then (lossy provider, w) ∷ [] else []

    abbrev pub window_entry : (Str → Str) → ℤ → Str → Str → Option Str → List (Str × WireWindow)
    window_entry lossy since_ms key value none = []
    window_entry lossy since_ms key value (some provider) =
        if is_before since_ms (anchor key)
        then []
        else window_found lossy since_ms provider (decode_window value)

    abbrev pub window_entries : (Str → Str) → ℤ → ℕ → List (Str × Str) → List (Str × WireWindow)
    window_entries lossy since_ms off [] = []
    window_entries lossy since_ms off ((key, value) ∷ kvs) =
        window_entry lossy since_ms key value (until_nul (drop off key))
        ++ window_entries lossy since_ms off kvs

    -- `lossy` is `String::from_utf8_lossy`.
    unfoldable pub query_user_windows : (Str → Str) → F.Keyspace → Str → ℤ → List (Str × WireWindow)
    query_user_windows lossy ks user_id since_ms =
        let prefix = user_id ++ 0 ∷ [] in
        window_entries lossy since_ms (length prefix) (F.prefix ks prefix)

    abbrev pub remove_keys : F.Keyspace → List (Str × Str) → F.Keyspace
    remove_keys ks [] = ks
    remove_keys ks ((k, v) ∷ kvs) = remove_keys (F.remove ks k) kvs

    unfoldable pub delete_user_windows : F.Keyspace → Str → F.Keyspace
    delete_user_windows ks user_id = remove_keys ks (F.prefix ks (user_id ++ 0 ∷ []))

    -- A pass of the clean-up: the stale rows, a batch of them at most.
    abbrev pub stale_batch : ℕ
    stale_batch = 10000

    unfoldable pub stale_rows : F.Keyspace → ℤ → List (Str × Str)
    stale_rows ks cutoff_ms =
        take stale_batch (filter (λ kv. is_before cutoff_ms (anchor kv.0)) (F.iter ks))

    -- The loop of the clean-up, by the number of its passes; `none` when they do not suffice.
    unfoldable pub cleanup_old_windows : ℕ → F.Keyspace → ℤ → ℕ → Option (F.Keyspace × ℕ)
    cleanup_old_windows zero ks cutoff_ms removed = none
    cleanup_old_windows (suc n) ks cutoff_ms removed =
        let stale = stale_rows ks cutoff_ms in
        let rest =
          cleanup_old_windows n (remove_keys ks stale) cutoff_ms (removed + length stale) in
        elim stale [ [] ↦ some (ks, removed) | _ ∷ _ ↦ rest ]
