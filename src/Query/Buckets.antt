-- ===== src/Query/Buckets.antt =====
-- The bucket of an event, and the accumulation of `aggregate_events_to_toki_json`, in
-- src/server/handlers/metrics.rs. The calendar of a time zone is a library's; `f64` is an abstract type.
use toki_sync.Prelude.{
  ℕ, zero, suc, ◌+◌, ◌-◌, ◌*◌, ◌/◌, ◌%◌, ◌≤◌, ◌<◌, ◌≡◌, ◌&&◌, ◌||◌, Option, none, some, leb, ◌==◌,
  if◌then◌else◌, arith, ℤ, pos, negsuc, ◌+ℤ◌, ◌-ℤ◌, ◌*ℤ◌, ap, sym, ◌∙◌,
}
use native.Mathlib.Nat.{mul_assoc, div-mul-le_self, lt-div-mul-add}
use toki_sync.Query.Times.{LocalResult, one, ambiguous, nowhere, Zone}

-- Division of an `i64` by a positive one, towards zero.
unfoldable pub quot : ℤ → ℕ → ℤ
quot (pos a) n = pos (a / n)
quot (negsuc a) n = pos 0 -ℤ pos (suc a / n)

-- `div_euclid` by a positive number, towards minus infinity.
unfoldable pub div_euclid : ℤ → ℕ → ℤ
div_euclid (pos a) n = pos (a / n)
div_euclid (negsuc a) n = negsuc (a / n)

abbrev pub earliest : LocalResult → Option ℤ
earliest (one t) = some t
earliest (ambiguous a b) = some a
earliest nowhere = none

-- The first time in steps of a minute after `time` that exists, among `n` of them.
unfoldable pub first_existing : Zone → ℕ → ℤ → Option ℤ
first_existing tz zero time = none
first_existing tz (suc n) time =
    let rest = first_existing tz n (time +ℤ pos 60) in
    elim (earliest (tz.from_local (time +ℤ pos 60))) [ none ↦ rest | some t ↦ some t ]

abbrev pub resolved : Zone → ℤ → LocalResult → Option ℤ
resolved tz time (one t) = some t
resolved tz time (ambiguous a b) = some a
resolved tz time nowhere = first_existing tz 1440 time

abbrev pub start_day : Zone → ℕ → ℕ → ℤ → ℤ
start_day tz step_secs start_of_week day =
    if step_secs == 604800
    then day -ℤ pos ((tz.weekday day + 7 - start_of_week) % 7)
    else let step_days = step_secs / 86400 in div_euclid day step_days *ℤ pos step_days

-- The epoch bounds of a bucket.
unfoldable pub epoch_bucket : ℤ → ℕ → ℤ
epoch_bucket ts_ms step_secs =
    let step_ms = step_secs * 1000 in quot (quot ts_ms step_ms *ℤ pos step_ms) 1000

abbrev pub local_bucket : ℤ → ℕ → ℕ → Zone → Option ℤ → ℤ
local_bucket ts_ms step_secs start_of_week tz none = epoch_bucket ts_ms step_secs
local_bucket ts_ms step_secs start_of_week tz (some day) =
    let midnight = start_day tz step_secs start_of_week day *ℤ pos 86400 in
    elim (resolved tz midnight (tz.from_local midnight)) [
      | none ↦ epoch_bucket ts_ms step_secs
      | some t ↦ t
    ]

-- A week is a whole number of days. The start of the week is a weekday, from Monday.
unfoldable pub bucket_start_sec : ℤ → ℕ → Option Zone → ℕ → ℤ
bucket_start_sec ts_ms step_secs none start_of_week = epoch_bucket ts_ms step_secs
bucket_start_sec ts_ms step_secs (some tz) start_of_week =
    if step_secs == 604800 || (leb 86400 step_secs && step_secs % 86400 == 0)
    then local_bucket ts_ms step_secs start_of_week tz (tz.local_day ts_ms)
    else epoch_bucket ts_ms step_secs

mul_pos : (x y : ℕ) → pos x *ℤ pos y ≡ pos (x * y)
unfolding ◌*ℤ◌
mul_pos x y = ground arith

steps_over : (q step : ℕ) → q * (step * 1000) / 1000 ≡ q * step
steps_over q step = ap (λ n. n / 1000) (sym (mul_assoc q step 1000)) ∙ omega arith

whole_steps : (a step : ℕ) → epoch_bucket (pos a) step ≡ pos (a / (step * 1000) * step)
unfolding epoch_bucket quot
whole_steps a step =
    let q = a / (step * 1000) in
    ap (λ z. quot z 1000) (mul_pos q (step * 1000)) ∙ ap pos (steps_over q step)

-- Without a time zone, the bucket of a time from
-- 1970 on starts at a multiple of the step, at the time or less than a step before it.
pub bucket_start_epoch :
    (a step sow : ℕ)
    → 1 ≤ step
    → (k : ℕ) × (bucket_start_sec (pos a) step none sow ≡ pos (k * step))
      × (k * step * 1000 ≤ a)
      × (a < (k * step + step) * 1000)
unfolding bucket_start_sec
bucket_start_epoch a step sow h =
    let q = a / (step * 1000) in
    (
      q,
      whole_steps a step,
      omega (arith, div-mul-le_self a (step * 1000), mul_assoc q step 1000),
      omega (
        arith,
        lt-div-mul-add {a = a} {b = step * 1000} (omega (arith, h)),
        mul_assoc q step 1000,
      ),
    )
