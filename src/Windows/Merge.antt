-- ===== src/Windows/Merge.antt =====
-- `merge_wire_windows` of src/events/mod.rs: the field-wise merge of two observations of one window.
use toki_sync.Prelude.{
  ℕ, ◌≡◌, Bool, ◌||◌, ℤ, pos, negsuc, arith, if◌then◌else◌, ltb_ℤ, leb_ℤ, min_ℤ, eqb_ℤ, max, min,
}
use toki_sync.Windows.{WireWindow, active_cap}

-- `if other.first_seen_ms > 0 { … }`
unfoldable pub merge_first_seen : ℤ → ℤ → ℤ
merge_first_seen prev other =
    if ltb_ℤ (pos 0) other then (if ltb_ℤ (pos 0) prev then min_ℤ prev other else other) else prev

-- `match (prev, other) { (-1, t) | (t, -1) => t, (a, b) => a.min(b) }`
unfoldable pub merge_time_to_100 : ℤ → ℤ → ℤ
merge_time_to_100 prev other =
    if eqb_ℤ prev (negsuc 0)
    then other
    else if eqb_ℤ other (negsuc 0)
    then prev
    else min_ℤ prev other

-- The observation whose last-writer fields are kept: ties go to the one that arrives later.
unfoldable pub latest : WireWindow → WireWindow → WireWindow
latest prev other = if leb_ℤ prev.observed_ts_ms other.observed_ts_ms then other else prev

unfoldable pub merge_wire_windows : WireWindow → WireWindow → WireWindow
merge_wire_windows prev other =
    let src = latest prev other in
    record prev {
      peak_pct_x100 = max prev.peak_pct_x100 other.peak_pct_x100;
      observed_ts_ms = src.observed_ts_ms;
      raw_resets_at_ms = src.raw_resets_at_ms;
      last_sample_gap_ms = src.last_sample_gap_ms;
      last_pct_x100 = src.last_pct_x100;
      window_minutes = src.window_minutes;
      plan = src.plan;
      first_seen_ms = merge_first_seen prev.first_seen_ms other.first_seen_ms;
      finalized = prev.finalized || other.finalized;
      maxed_out = prev.maxed_out || other.maxed_out;
      limit_reached_kind = max prev.limit_reached_kind other.limit_reached_kind;
      time_to_100_ms = merge_time_to_100 prev.time_to_100_ms other.time_to_100_ms;
      active_ms = min (max prev.active_ms other.active_ms) (active_cap src.window_minutes);
      sampled_active_fraction = max prev.sampled_active_fraction other.sampled_active_fraction;
      n_samples = max prev.n_samples other.n_samples;
    }

first_seen_absorb : (p o : ℤ) → merge_first_seen (merge_first_seen p o) o ≡ merge_first_seen p o
unfolding merge_first_seen
first_seen_absorb p o = ground arith

time_absorb : (p o : ℤ) → merge_time_to_100 (merge_time_to_100 p o) o ≡ merge_time_to_100 p o
unfolding merge_time_to_100
time_absorb p o = ground arith

max_absorb : (p o : ℕ) → max (max p o) o ≡ max p o
max_absorb p o = omega arith

cap_absorb : (p o c : ℕ) → min (max (min (max p o) c) o) c ≡ min (max p o) c
cap_absorb p o c = omega arith

or_absorb : (p o : Bool) → ((p || o) || o) ≡ (p || o)
or_absorb p o = ground arith

-- Merging the same observation again changes nothing, whatever was stored before.
pub merge_absorb :
    (p o : WireWindow) → merge_wire_windows (merge_wire_windows p o) o ≡ merge_wire_windows p o
unfolding merge_wire_windows latest
merge_absorb p o = ground (
  arith,
  first_seen_absorb p.first_seen_ms o.first_seen_ms,
  time_absorb p.time_to_100_ms o.time_to_100_ms,
  max_absorb p.peak_pct_x100 o.peak_pct_x100,
  max_absorb p.limit_reached_kind o.limit_reached_kind,
  max_absorb p.sampled_active_fraction o.sampled_active_fraction,
  max_absorb p.n_samples o.n_samples,
  or_absorb p.finalized o.finalized,
  or_absorb p.maxed_out o.maxed_out,
  cap_absorb p.active_ms o.active_ms (active_cap o.window_minutes),
  cap_absorb p.active_ms o.active_ms (active_cap p.window_minutes),
)
