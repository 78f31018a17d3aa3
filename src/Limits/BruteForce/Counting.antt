-- ===== src/Limits/BruteForce/Counting.antt =====
-- When `record_failure` of src/auth/brute_force.rs locks a client out.
use toki_sync.Prelude.{
  ℕ, ◌+◌, ◌-◌, ◌^◌, ◌≤◌, ◌<◌, ◌≡◌, ◌∙◌, ap, true, Option, none, some, List, [], ◌∷◌, All, Str,
  HashMap, get, insert, IsMap, keep_if, get-insert, get-retain, insert-IsMap, retain-IsMap,
  str_eq_refl, ok, err, length, ltb, leb, if◌then◌else◌, arith, Bool-cases, inl, inr,
}
use toki_sync.Limits.{as_secs}
use toki_sync.Limits.BruteForce.{
  Entry, BruteForceGuard, key, is_live, sweep, verdict_at, opened, counted, sweep_if_large,
  record_failure, check,
}
use toki_sync.Limits.BruteForce.Verdict.{check-answer}

-- What the table holds of a client after `n` failures that began at `start`, the last at `last`.
abbrev pub entry_after : ℕ → ℕ → ℕ → ℕ → ℕ → Entry
entry_after max_attempts lockout n start last = record {
  count = n;
  first_attempt = start;
  locked_until = if leb max_attempts n then some (last + lockout) else none;
}

-- A table is well formed, and locks last.
pub record IsValid (g : BruteForceGuard) : Type 0 where
  pub keys : IsMap g.inner
  pub lockout_pos : 0 < g.lockout

sweep_if_large-IsMap :
    (g : BruteForceGuard) (swept : ℕ) → IsMap g.inner → IsMap (sweep_if_large g swept).inner
unfolding sweep_if_large sweep
sweep_if_large-IsMap g swept m = elim (Bool-cases (ltb 10000 (length g.inner))) [
  | inl e ↦ rw e (retain-IsMap (is_live g.window swept) g.inner m)
  | inr e ↦ rw e m
]

-- The settings never change, and the table stays well formed.
pub record_failure-IsValid :
    (g : BruteForceGuard) (ip username : Str) (now swept : ℕ)
    → IsValid g
    → IsValid (record_failure g ip username now swept).0
unfolding record_failure sweep_if_large sweep
record_failure-IsValid g ip username now swept v =
    let entry = counted g now (opened g now (get g.inner (key ip username))) in
    let m = insert-IsMap g.inner (key ip username) entry v.keys in
    elim (Bool-cases (ltb 10000 (length (insert g.inner (key ip username) entry)))) [
      | inl e ↦ rw e (record {
        keys = retain-IsMap (is_live g.window swept) (insert g.inner (key ip username) entry) m;
        lockout_pos = v.lockout_pos;
      })
      | inr e ↦ rw e (record { keys = m; lockout_pos = v.lockout_pos })
    ]

-- A failure, and the sweep that may follow it, inside the window that began at `start`.
pub record IsTimely (window lockout start : ℕ) (t : ℕ × ℕ) : Type 0 where
  pub begun : start ≤ t.0
  pub swept_after : t.0 ≤ t.1
  pub in_window : t.1 ≤ start + window
  pub in_lock : t.1 < t.0 + lockout

counted_entry :
    (g : BruteForceGuard) (max_attempts lockout n start last now : ℕ) (o : Option Entry)
    → o ≡ some (entry_after max_attempts lockout n start last)
    → g.max_attempts ≡ max_attempts
    → g.lockout ≡ lockout
    → n + 1 < 2 ^ 32
    → now ≤ start + g.window
    → counted g now (opened g now o) ≡ entry_after max_attempts lockout (n + 1) start now
unfolding counted opened
counted_entry g max_attempts lockout n start last now o e em el small h = rw e (ground arith)

counted_first :
    (g : BruteForceGuard) (now : ℕ)
    → counted g now (opened g now none) ≡ entry_after g.max_attempts g.lockout 1 now now
unfolding counted opened
counted_first g now = ground arith

-- The sweep inside the window keeps the entry.
entry_after-live :
    (window lockout max_attempts n start : ℕ) (t : ℕ × ℕ)
    → IsTimely window lockout start t
    → is_live window t.1 (entry_after max_attempts lockout n start t.0) ≡ true
unfolding is_live
entry_after-live window lockout max_attempts n start t h = ground arith

module _ (g : BruteForceGuard) (ip username : Str) (t : ℕ × ℕ) where
  failure_get :
      (e : Entry)
      → IsMap g.inner
      → counted g t.0 (opened g t.0 (get g.inner (key ip username))) ≡ e
      → is_live g.window t.1 e ≡ true
      → get (record_failure g ip username t.0 t.1).0.inner (key ip username) ≡ some e
  unfolding record_failure sweep_if_large sweep
  failure_get e m made live =
      let entry = counted g t.0 (opened g t.0 (get g.inner (key ip username))) in
      let inner : HashMap Entry = insert g.inner (key ip username) entry in
      let found : get inner (key ip username) ≡ some e =
        get-insert g.inner (key ip username) (key ip username) entry
        ∙ ground (arith, str_eq_refl (key ip username)) in
      elim (Bool-cases (ltb 10000 (length inner))) [
        | inl b ↦ rw b (
            get-retain (is_live g.window t.1) inner (key ip username)
              (insert-IsMap g.inner (key ip username) entry m)
            ∙ ap (keep_if (is_live g.window t.1)) found
            ∙ ap (λ c. if c then some e else none) live)
        | inr b ↦ rw b found
      ]

  failure_settings :
      ((record_failure g ip username t.0 t.1).0.window ≡ g.window)
      × ((record_failure g ip username t.0 t.1).0.lockout ≡ g.lockout)
      × ((record_failure g ip username t.0 t.1).0.max_attempts ≡ g.max_attempts)
  unfolding record_failure sweep_if_large sweep
  failure_settings = ground arith

-- Failures of one client, one after another.
unfoldable pub fail_each : BruteForceGuard → Str → Str → List (ℕ × ℕ) → BruteForceGuard
fail_each g ip username [] = g
fail_each g ip username (t ∷ ts) = fail_each (record_failure g ip username t.0 t.1).0 ip username ts

abbrev pub last_of : ℕ → List (ℕ × ℕ) → ℕ
last_of now [] = now
last_of now (t ∷ ts) = last_of t.0 ts

module _ (ip username : Str) (window lockout max_attempts start : ℕ) where
  fail_each_from :
      (ts : List (ℕ × ℕ)) (g : BruteForceGuard) (n last : ℕ)
      → IsValid g
      → g.window ≡ window
      → g.lockout ≡ lockout
      → g.max_attempts ≡ max_attempts
      → n + length ts < 2 ^ 32
      → All (IsTimely window lockout start) ts
      → get g.inner (key ip username) ≡ some (entry_after max_attempts lockout n start last)
      → get (fail_each g ip username ts).inner (key ip username)
        ≡ some (entry_after max_attempts lockout (n + length ts) start (last_of last ts))
  unfolding fail_each
  fail_each_from [] g n last v ew el em small h e =
      e ∙ ap (λ k. some (entry_after max_attempts lockout k start last)) (omega arith)
  fail_each_from (t ∷ ts) g n last v ew el em small h e =
      let s = failure_settings g ip username t in
      let made : counted g t.0 (opened g t.0 (get g.inner (key ip username)))
          ≡ entry_after max_attempts lockout (n + 1) start t.0 =
        counted_entry g max_attempts lockout n start last t.0 (get g.inner (key ip username)) e em
          el (omega arith) (rw ew (omega (arith, h.0.in_window, h.0.swept_after))) in
      fail_each_from ts (record_failure g ip username t.0 t.1).0 (n + 1) t.0
        (record_failure-IsValid g ip username t.0 t.1 v) (s.0 ∙ ew) (s.1 ∙ el) (s.2 ∙ em)
        (omega arith) h.1
        (failure_get g ip username t (entry_after max_attempts lockout (n + 1) start t.0) v.keys
          made (rw ew (entry_after-live window lockout max_attempts (n + 1) start t h.0)))
      ∙ ap (λ k. some (entry_after max_attempts lockout k start (last_of t.0 ts))) (omega arith)

fail_each-IsValid :
    (g : BruteForceGuard) (ip username : Str) (ts : List (ℕ × ℕ))
    → IsValid g
    → IsValid (fail_each g ip username ts)
unfolding fail_each
fail_each-IsValid g ip username [] v = v
fail_each-IsValid g ip username (t ∷ ts) v =
    fail_each-IsValid (record_failure g ip username t.0 t.1).0 ip username ts
      (record_failure-IsValid g ip username t.0 t.1 v)

locked_entry :
    (g : BruteForceGuard) (ip username : Str) (first : ℕ × ℕ) (ts : List (ℕ × ℕ))
    → IsValid g
    → get g.inner (key ip username) ≡ none
    → All (IsTimely g.window g.lockout first.0) (first ∷ ts)
    → 1 + length ts < 2 ^ 32
    → get (fail_each g ip username (first ∷ ts)).inner (key ip username)
      ≡ some (entry_after g.max_attempts g.lockout (1 + length ts) first.0 (last_of first.0 ts))
unfolding fail_each
locked_entry g ip username first ts v e h small =
    let s = failure_settings g ip username first in
    let made : counted g first.0 (opened g first.0 (get g.inner (key ip username)))
        ≡ entry_after g.max_attempts g.lockout 1 first.0 first.0 =
      rw e (counted_first g first.0) in
    fail_each_from ip username g.window g.lockout g.max_attempts first.0 ts
      (record_failure g ip username first.0 first.1).0 1 first.0
      (record_failure-IsValid g ip username first.0 first.1 v) s.0 s.1 s.2 small h.1
      (failure_get g ip username first (entry_after g.max_attempts g.lockout 1 first.0 first.0)
        v.keys made (entry_after-live g.window g.lockout g.max_attempts 1 first.0 first h.0))

verdict_of_entry :
    (max_attempts lockout n start last now : ℕ)
    → now < last + lockout
    → verdict_at (some (entry_after max_attempts lockout n start last)) now
      ≡ (if leb max_attempts n then err (as_secs (last + lockout - now) + 1) else ok tt)
unfolding verdict_at
verdict_of_entry max_attempts lockout n start last now before = ground arith

-- The lockout is exact. A client with no record fails some times, within one window; the first
-- failure is at `first.0`. Until the lock of the last failure would end, `check` refuses the client
-- exactly when there were `max_attempts` failures or more, and names the seconds that remain, whether or
-- not it sweeps first. There are fewer than 2 ^ 32 failures, the sweep of each failure falls inside the
-- window and the lock of the failure, and the sweep of `check` reads the clock no later than its answer.
pub lockout_exact :
    (g : BruteForceGuard) (ip username : Str) (first : ℕ × ℕ) (ts : List (ℕ × ℕ))
    (asked swept stamped now : ℕ)
    → IsValid g
    → get g.inner (key ip username) ≡ none
    → All (IsTimely g.window g.lockout first.0) (first ∷ ts)
    → 1 + length ts < 2 ^ 32
    → swept ≤ now
    → now < last_of first.0 ts + g.lockout
    → (check (fail_each g ip username (first ∷ ts)) ip username asked swept stamped now).1 ≡ (
        if leb g.max_attempts (1 + length ts)
        then err (as_secs (last_of first.0 ts + g.lockout - now) + 1)
        else ok tt)
lockout_exact g ip username first ts asked swept stamped now v e h small order before =
    check-answer (fail_each g ip username (first ∷ ts)) ip username asked swept stamped now
      (fail_each-IsValid g ip username (first ∷ ts) v).keys order
    ∙ ap (λ o. verdict_at o now) (locked_entry g ip username first ts v e h small)
    ∙ verdict_of_entry g.max_attempts g.lockout (1 + length ts) first.0 (last_of first.0 ts) now
        before
