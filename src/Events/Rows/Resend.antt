-- ===== src/Events/Rows/Resend.antt =====
-- Windows sent again to the keyspace of src/events/fjall_store.rs.
use toki_sync.Prelude.{
  ℕ, ◌≤◌, ◌≡◌, refl, ap, sym, subst, Bool, true, false, Option, none, some, Str, str_eq_refl, eqb_ℤ,
  arith, Bool-cases, inl, inr, ℤ,
}
use toki_sync.Windows.{WireWindow, active_cap}
use toki_sync.Windows.Merge.{
  merge_wire_windows, merge_absorb, latest, merge_first_seen, merge_time_to_100,
}
use toki_sync.Events.Store.{Fjall, Bincode}
use toki_sync.Events.Rows.{
  window_row_key, same_window, eqb_num, eqb_bool, WindowDecode, valid, future_version, corrupt,
  encode_window, decode_window_versioned, over, over_value, upsert_window,
}

num_refl : (n : ℕ) → eqb_num n n ≡ true
num_refl n = ground arith

int_refl : (z : ℤ) → eqb_ℤ z z ≡ true
int_refl z = ground arith

bool_refl : (b : Bool) → eqb_bool b b ≡ true
bool_refl true = refl
bool_refl false = refl

same_window_refl : (w : WireWindow) → same_window w w ≡ true
unfolding same_window
same_window_refl w =
    rw
      (
        num_refl w.window_kind,
        str_eq_refl w.limit_id,
        str_eq_refl w.account,
        int_refl w.window_end_ms,
        int_refl w.raw_resets_at_ms,
        num_refl w.window_minutes,
        num_refl w.peak_pct_x100,
        num_refl w.last_pct_x100,
        int_refl w.observed_ts_ms,
        int_refl w.first_seen_ms,
        bool_refl w.finalized,
        bool_refl w.maxed_out,
        num_refl w.limit_reached_kind,
        int_refl w.time_to_100_ms,
        num_refl w.active_ms,
        int_refl w.last_sample_gap_ms,
        num_refl w.sampled_active_fraction,
        num_refl w.n_samples,
        str_eq_refl w.plan,
      )
      refl

merge_self :
    (w : WireWindow) → w.active_ms ≤ active_cap w.window_minutes → merge_wire_windows w w ≡ w
unfolding merge_wire_windows latest merge_first_seen merge_time_to_100
merge_self w h = ground arith

module _ (codec : Bincode WireWindow) (F : Fjall) (user_id provider : Str) where
  decode_encoded :
      (w : WireWindow) → decode_window_versioned codec (encode_window codec w) ≡ valid w
  unfolding decode_window_versioned encode_window
  decode_encoded w = rw (codec.deserialize-serialize w) refl

  -- A row that a window adds nothing to is not written.
  settled :
      (ks : F.Keyspace) (skipped : ℕ) (w m : WireWindow)
      → F.get ks (window_row_key user_id provider w) ≡ some (encode_window codec m)
      → merge_wire_windows m w ≡ m
      → upsert_window codec F user_id provider (ks, skipped) w ≡ (ks, skipped)
  unfolding upsert_window
  settled ks skipped w m h e = rw (h, decode_encoded m, e, same_window_refl m) refl

  written :
      (ks : F.Keyspace) (skipped : ℕ) (w m : WireWindow)
      → merge_wire_windows m w ≡ m
      → (upsert_window codec F user_id provider
          (F.insert ks (window_row_key user_id provider w) (encode_window codec m), skipped)
          w).0
        ≡ F.insert ks (window_row_key user_id provider w) (encode_window codec m)
  written ks skipped w m e =
      let key = window_row_key user_id provider w in
      let at = F.get-insert ks key key (encode_window codec m) in
      ap (λ s. s.0)
        (settled (F.insert ks key (encode_window codec m)) skipped w m (rw (str_eq_refl key) at at)
          e)

  by_decoded :
      (ks : F.Keyspace) (skipped : ℕ) (w : WireWindow) (bytes : Str) (o : WindowDecode)
      → w.active_ms ≤ active_cap w.window_minutes
      → F.get ks (window_row_key user_id provider w) ≡ some bytes
      → decode_window_versioned codec bytes ≡ o
      → let s = over codec F (ks, skipped) (window_row_key user_id provider w) w o in
        (upsert_window codec F user_id provider s w).0 ≡ s.0
  unfolding upsert_window
  by_decoded ks skipped w bytes future_version c g e = rw (g, e) refl
  by_decoded ks skipped w bytes corrupt c g e = written ks skipped w w (merge_self w c)
  by_decoded ks skipped w bytes (valid prev) c g e =
      elim (Bool-cases (same_window (merge_wire_windows prev w) prev)) [
        | inl q ↦ rw (q, g, e, q) refl
        | inr q ↦ rw q (written ks skipped w (merge_wire_windows prev w) (merge_absorb prev w))
      ]

  by_stored :
      (ks : F.Keyspace) (skipped : ℕ) (w : WireWindow) (o : Option Str)
      → w.active_ms ≤ active_cap w.window_minutes
      → F.get ks (window_row_key user_id provider w) ≡ o
      → let s = over_value codec F (ks, skipped) (window_row_key user_id provider w) w o in
        (upsert_window codec F user_id provider s w).0 ≡ s.0
  by_stored ks skipped w none c g = written ks skipped w w (merge_self w c)
  by_stored ks skipped w (some bytes) c g =
      by_decoded ks skipped w bytes (decode_window_versioned codec bytes) c g refl

  opened :
      (s : F.Keyspace × ℕ) (w : WireWindow)
      → upsert_window codec F user_id provider s w
        ≡ over_value codec F s
            (window_row_key user_id provider w)
            w
            (F.get s.0 (window_row_key user_id provider w))
  unfolding upsert_window
  opened s w = refl

  -- Storing the same window again changes nothing, if its active time is within the length of the
  -- window, and whatever is stored in its row: none, a window, a corrupt value or one of a later
  -- version.
  pub resend_writes_nothing :
      (ks : F.Keyspace) (skipped : ℕ) (w : WireWindow)
      → w.active_ms ≤ active_cap w.window_minutes
      → (upsert_window codec F user_id provider
          (upsert_window codec F user_id provider (ks, skipped) w)
          w).0
        ≡ (upsert_window codec F user_id provider (ks, skipped) w).0
  resend_writes_nothing ks skipped w c =
      let key = window_row_key user_id provider w in
      subst (λ s. (upsert_window codec F user_id provider s w).0 ≡ s.0)
        (sym (opened (ks, skipped) w)) (by_stored ks skipped w (F.get ks key) c refl)
