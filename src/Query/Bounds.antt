-- ===== src/Query/Bounds.antt =====
-- The step of a range query in src/server/handlers/metrics.rs.
use toki_sync.Prelude.{
  ℕ, ◌+◌, ◌-◌, ◌*◌, ◌/◌, ◌≤◌, ◌≡◌, ltb, if◌then◌else◌, arith, Result, ok, err, ◌↔◌,
}
use toki_sync.Query.{QueryError, bad_request}

-- The step of a range query, 2000 buckets at most. `range_secs` is at least one.
abbrev pub max_buckets : ℕ
max_buckets = 2000

unfoldable pub min_step : ℕ → ℕ
min_step range_secs = (range_secs + max_buckets - 1) / max_buckets

unfoldable pub validate_step : ℕ → ℕ → Result (Unit {0}) QueryError
validate_step step_secs range_secs =
    if ltb step_secs (min_step range_secs)
    then err bad_request
    else if ltb range_secs step_secs
    then err bad_request
    else ok tt

-- For a range of a second or more, a step passes just when it is no longer than the range and 2000 steps
-- cover the range.
pub validate_step_lem :
    (step range : ℕ)
    → 1 ≤ range
    → (validate_step step range ≡ ok tt) ↔ ((step ≤ range) × (range ≤ step * 2000))
unfolding validate_step min_step
validate_step_lem step range l = ground arith
