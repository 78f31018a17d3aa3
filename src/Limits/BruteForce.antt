-- ===== src/Limits/BruteForce.antt =====
-- `BruteForceGuard` of src/auth/brute_force.rs. A method is one critical section after another, in
-- the order of the source, with the clock readings that it makes; `now - t` is `duration_since`,
-- which stops at zero.
pub mod Verdict
pub mod Counting
use toki_sync.Prelude.{
  ℕ, ◌+◌, ◌-◌, ◌*◌, ◌%◌, ◌^◌, Bool, true, false, Option, none, some, ◌∷◌, ◌++◌, [], Str, HashMap,
  get, insert, remove, retain, Result, ok, err, length, ltb, leb, if◌then◌else◌,
}
use toki_sync.Limits.{from_secs, as_secs}

pub record Entry : Type 0 where
  pub count : ℕ
  pub first_attempt : ℕ
  pub locked_until : Option ℕ

pub record BruteForceGuard : Type 0 where
  pub inner : HashMap Entry
  pub max_attempts : ℕ
  pub window : ℕ
  pub lockout : ℕ
  pub last_sweep : ℕ

unfoldable pub new : ℕ → ℕ → ℕ → ℕ → BruteForceGuard
new max_attempts window_secs lockout_secs now = record {
  inner = [];
  max_attempts = max_attempts;
  window = from_secs window_secs;
  lockout = from_secs lockout_secs;
  last_sweep = now;
}

-- `format!("{ip}:{username}")`
unfoldable pub key : Str → Str → Str
key ip username = ip ++ 58 ∷ username

-- The test of `retain` in `sweep`.
unfoldable pub is_live : ℕ → ℕ → Entry → Bool
is_live window now entry = elim entry.locked_until [
  | some until ↦ ltb now until
  | none ↦ leb (now - entry.first_attempt) window
]

unfoldable pub sweep : BruteForceGuard → ℕ → BruteForceGuard
sweep g now = record g { inner = retain (is_live g.window now) g.inner }

-- The part of `check` that reads the table: `Err` holds the seconds that remain.
unfoldable pub lock_verdict : Option ℕ → ℕ → Result (Unit {0}) ℕ
lock_verdict none now = ok tt
lock_verdict (some until) now = if ltb now until then err (as_secs (until - now) + 1) else ok tt

unfoldable pub verdict_at : Option Entry → ℕ → Result (Unit {0}) ℕ
unfolding lock_verdict
verdict_at none now = ok tt
verdict_at (some entry) now = lock_verdict entry.locked_until now

-- `asked` is the reading of `last.elapsed()`, `swept` that of the sweep, and `stamped` the new stamp.
unfoldable pub sweep_if_due : BruteForceGuard → ℕ → ℕ → ℕ → BruteForceGuard
sweep_if_due g asked swept stamped =
    if ltb (from_secs 60) (asked - g.last_sweep)
    then (let g' = sweep g swept in record g' { last_sweep = stamped })
    else g

unfoldable pub check :
    BruteForceGuard → Str → Str → ℕ → ℕ → ℕ → ℕ → BruteForceGuard × Result (Unit {0}) ℕ
check g ip username asked swept stamped now =
    let g' = sweep_if_due g asked swept stamped in
    (g', verdict_at (get g'.inner (key ip username)) now)

-- The entry after one more failure: made if it is missing, reset if its window has passed.
unfoldable pub opened : BruteForceGuard → ℕ → Option Entry → Entry
opened g now none = record { count = 0; first_attempt = now; locked_until = none }
opened g now (some entry) =
    if ltb g.window (now - entry.first_attempt)
    then record { count = 0; first_attempt = now; locked_until = none }
    else entry

unfoldable pub counted : BruteForceGuard → ℕ → Entry → Entry
counted g now entry =
    let count = (entry.count + 1) % 2 ^ 32 in
    if leb g.max_attempts count
    then record entry { count = count; locked_until = some (now + g.lockout) }
    else record entry { count = count }

unfoldable pub sweep_if_large : BruteForceGuard → ℕ → BruteForceGuard
sweep_if_large g swept = if ltb 10000 (length g.inner) then sweep g swept else g

unfoldable pub record_failure :
    BruteForceGuard → Str → Str → ℕ → ℕ → BruteForceGuard × Result (Unit {0}) ℕ
record_failure g ip username now swept =
    let entry = counted g now (opened g now (get g.inner (key ip username))) in
    let g' = record g { inner = insert g.inner (key ip username) entry } in
    (
      sweep_if_large g' swept,
      if leb g.max_attempts entry.count then err (as_secs g.lockout) else ok tt,
    )

unfoldable pub record_success : BruteForceGuard → Str → Str → BruteForceGuard
record_success g ip username = record g { inner = remove g.inner (key ip username) }
