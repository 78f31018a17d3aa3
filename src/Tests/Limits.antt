-- ===== src/Tests/Limits.antt =====
-- The theorems on the limiters at concrete clients.
use toki_sync.Prelude.{
  ℕ, ◌+◌, ◌-◌, ◌≤◌, ◌≡◌, refl, [], ◌∷◌, Str, lit, get, ok, err, arith, str_eq, HashMap, insert,
}
use toki_sync.Limits.{from_secs, as_secs}
use toki_sync.Limits.BruteForce.{
  BruteForceGuard, new, key, check, record_failure, record_success, sweep_if_large,
}
use toki_sync.Limits.BruteForce.Verdict.{answer, check-answer, success_clears}
use toki_sync.Limits.BruteForce.Counting.{fail_each, lockout_exact}
use toki_sync.Limits.WindowsRate
use toki_sync.Limits.WindowsRate.{
  Upload, ask, ask_all, upload_key, accepted_apart, limiter_key_injective, InOrder,
}
use toki_sync.Limits.MonitorRate
use toki_sync.Limits.MonitorRate.{
  write_each, budget_exact, Inside, Hits, max_writes, window, retry_too_early, current,
}

abbrev guard : BruteForceGuard
guard = new 3 300 900 0

abbrev ip : Str
ip = lit "10.0.0.1"

abbrev name : Str
name = lit "ada"

abbrev locked : BruteForceGuard
locked = fail_each guard ip name ((5, 5) ∷ (6, 6) ∷ (7, 7) ∷ [])

check-answer_example : (check locked ip name 8 8 8 8).1 ≡ answer locked (key ip name) 8
unfolding new fail_each record_failure sweep_if_large insert str_eq key get
check-answer_example = check-answer locked ip name 8 8 8 8 (refl, tt) (omega arith)

success_clears_example : answer (record_success locked ip name) (key ip name) 9 ≡ ok tt
unfolding key str_eq
success_clears_example = success_clears locked ip name (key ip name) 9

lockout_exact_example :
    (check (fail_each guard ip name ((5, 5) ∷ (6, 6) ∷ (7, 7) ∷ [])) ip name 8 8 8 8).1
    ≡ err (as_secs (7 + from_secs 900 - 8) + 1)
unfolding new get
lockout_exact_example =
    lockout_exact guard ip name (5, 5) ((6, 6) ∷ (7, 7) ∷ []) 8 8 8 8
      record { keys = tt; lockout_pos = omega arith } refl
      (
        record {
          begun = omega arith;
          swept_after = omega arith;
          in_window = omega arith;
          in_lock = omega arith;
        },
        (
          record {
            begun = omega arith;
            swept_after = omega arith;
            in_window = omega arith;
            in_lock = omega arith;
          },
          (
            record {
              begun = omega arith;
              swept_after = omega arith;
              in_window = omega arith;
              in_lock = omega arith;
            },
            tt,
          ),
        ),
      )
      (omega arith) (omega arith) (omega arith)

abbrev told : ℕ
told = as_secs (7 + from_secs 900 - 8) + 1

abbrev upload : ℕ → Upload
upload at = record { user_id = 97 ∷ []; provider = 98 ∷ []; device_id = lit "laptop"; at = at }

accepted_apart_example : 0 + from_secs 60 ≤ from_secs 61
unfolding WindowsRate.allow WindowsRate.allow_key WindowsRate.limiter_key WindowsRate.is_throttled
    WindowsRate.is_recent ask_all get insert str_eq
accepted_apart_example =
    accepted_apart [] (upload 0) (upload (from_secs 61)) (upload 5 ∷ []) tt refl
      (omega arith, omega arith) refl refl

abbrev other_upload : Upload
other_upload = record (upload 0) { at = 9 }

budget_exact_example :
    (MonitorRate.allow (write_each [] (lit "ada") (0 ∷ 1 ∷ [])) (lit "ada") 2).1 ≡ ok tt
unfolding get
budget_exact_example =
    budget_exact [] (lit "ada") 0 (1 ∷ []) 2 tt refl ((omega arith, omega arith), tt)
      (omega arith, omega arith)

abbrev spent : HashMap Hits
spent = (lit "ada", (0, 60)) ∷ []
