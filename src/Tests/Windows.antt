-- ===== src/Tests/Windows.antt =====
-- The theorems on windows at concrete uploads.
use mathlib.Core.List.Perm
use mathlib.Core.List.{mem-cons_self}
use toki_sync.Prelude.{◌≡◌, refl, false, [], ◌∷◌, lit, ℤ, pos, negsuc, All, arith}
use toki_sync.Windows.{WireWindow}
use toki_sync.Windows.Premerge.{premerge_windows}
use toki_sync.Windows.Premerge.Unique.{IsStrictlySorted, premerge-IsStrictlySorted}
use toki_sync.Windows.Premerge.Coverage.{IsAbsorbed, premerge_covers}
use toki_sync.Tests.Sorting.{insertion_order}
use toki_sync.Windows.Merge.{merge_wire_windows, merge_absorb}
use toki_sync.Windows.Convergence.{delivered, delivery_order, merge_swap}
use toki_sync.Windows.Sanitize.{sanitize_window_batch}
use toki_sync.Windows.Sanitize.Bounds.{IsClean, sanitize-IsClean}

abbrev now : ℤ
now = pos 1800000000000

abbrev early : WireWindow
early = record {
  window_kind = 0;
  limit_id = lit "five_hour";
  account = lit "acct";
  window_end_ms = pos 1799996400000;
  raw_resets_at_ms = pos 1799996400000;
  window_minutes = 300;
  peak_pct_x100 = 1200;
  last_pct_x100 = 1200;
  observed_ts_ms = pos 1799990000000;
  first_seen_ms = pos 1799985000000;
  finalized = false;
  maxed_out = false;
  limit_reached_kind = 0;
  time_to_100_ms = negsuc 0;
  active_ms = 60000;
  last_sample_gap_ms = pos 60000;
  sampled_active_fraction = 100;
  n_samples = 3;
  plan = lit "pro";
}

abbrev late : WireWindow
late = record early { observed_ts_ms = pos 1799996000000; peak_pct_x100 = 9000; n_samples = 7 }

merge_absorb_example :
    merge_wire_windows (merge_wire_windows early late) late ≡ merge_wire_windows early late
merge_absorb_example = merge_absorb early late

merge_swap_example :
    merge_wire_windows (merge_wire_windows early late) early
    ≡ merge_wire_windows (merge_wire_windows early early) late
merge_swap_example = merge_swap early late early (λ e. absurd (ground arith)) refl refl

sanitize-IsClean_example : All (IsClean now) (sanitize_window_batch (early ∷ late ∷ []) now).items
sanitize-IsClean_example = sanitize-IsClean (early ∷ late ∷ []) now (omega arith)

abbrev misnamed : WireWindow
misnamed = record early { limit_id = 7 ∷ [] }

delivery_order_example : delivered early (late ∷ early ∷ []) ≡ delivered early (early ∷ late ∷ [])
delivery_order_example =
    delivery_order early (late ∷ early ∷ []) (early ∷ late ∷ []) (Perm.swap early late [])
      (refl, (refl, tt)) ((λ e. absurd (ground arith), tt), (tt, tt))

premerge-IsStrictlySorted_example :
    IsStrictlySorted (premerge_windows insertion_order (late ∷ early ∷ []))
premerge-IsStrictlySorted_example = premerge-IsStrictlySorted insertion_order (late ∷ early ∷ [])

premerge_covers_example : IsAbsorbed (premerge_windows insertion_order (late ∷ early ∷ [])) late
premerge_covers_example = premerge_covers insertion_order (late ∷ early ∷ []) late mem-cons_self
