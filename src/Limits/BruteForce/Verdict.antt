-- ===== src/Limits/BruteForce/Verdict.antt =====
-- Who is let in: `check` of src/auth/brute_force.rs against the other operations.
use toki_sync.Prelude.{
  ℕ, ◌+◌, ◌-◌, ◌≤◌, ◌<◌, ◌≡◌, ◌≢◌, refl, ◌∙◌, ap, Option, none, some, Str, get, insert, retain,
  IsMap, keep_if, get-insert, get-remove, get-retain, insert-IsMap, str_eq_iff, Result, ok, err,
  length, ltb, if◌then◌else◌, arith, str_eq, Bool-cases, inl, inr,
}
use toki_sync.Limits.{from_secs, as_secs, nanos_per_sec}
use toki_sync.Limits.BruteForce.{
  Entry, BruteForceGuard, key, is_live, sweep, verdict_at, sweep_if_due, check, opened, counted,
  sweep_if_large, record_failure, lock_verdict, record_success,
}

-- What the guard answers for a key.
abbrev pub answer : BruteForceGuard → Str → ℕ → Result (Unit {0}) ℕ
answer g k now = verdict_at (get g.inner k) now

verdict_kept :
    (window swept now : ℕ) (o : Option Entry)
    → swept ≤ now
    → verdict_at (keep_if (is_live window swept) o) now ≡ verdict_at o now
unfolding verdict_at is_live
verdict_kept window swept now none h = refl
verdict_kept window swept now (some e) h = ground arith

-- A sweep is not seen by any later check: it drops no lock that still holds.
pub answer-sweep :
    (g : BruteForceGuard) (k : Str) (swept now : ℕ)
    → IsMap g.inner
    → swept ≤ now
    → answer (sweep g swept) k now ≡ answer g k now
unfolding sweep
answer-sweep g k swept now m h =
    rw (get-retain (is_live g.window swept) g.inner k m)
      (verdict_kept g.window swept now (get g.inner k) h)

answer-sweep_if_large :
    (g : BruteForceGuard) (k : Str) (swept now : ℕ)
    → IsMap g.inner
    → swept ≤ now
    → answer (sweep_if_large g swept) k now ≡ answer g k now
unfolding sweep_if_large
answer-sweep_if_large g k swept now m h = elim (Bool-cases (ltb 10000 (length g.inner))) [
  | inl e ↦ rw e (answer-sweep g k swept now m h)
  | inr e ↦ rw e
]

-- `check` answers by the table as it was, whether or not it sweeps first. The table has each key
-- once, and the sweep reads the clock no later than the answer.
pub check-answer :
    (g : BruteForceGuard) (ip username : Str) (asked swept stamped now : ℕ)
    → IsMap g.inner
    → swept ≤ now
    → (check g ip username asked swept stamped now).1 ≡ answer g (key ip username) now
unfolding check sweep_if_due
check-answer g ip username asked swept stamped now m h =
    elim (Bool-cases (ltb (from_secs 60) (asked - g.last_sweep))) [
      | inl e ↦ rw e (unfold sweep in answer-sweep_raw)
      | inr e ↦ rw e
    ]
  where
    answer-sweep_raw :
        verdict_at (get (retain (is_live g.window swept) g.inner) (key ip username)) now
        ≡ answer g (key ip username) now
    answer-sweep_raw =
        rw (get-retain (is_live g.window swept) g.inner (key ip username) m)
          (verdict_kept g.window swept now (get g.inner (key ip username)) h)

-- A failure of one client changes the answer for no other key. The table has each key once, and the
-- sweep after the failure reads the clock no later than the answer.
pub failure_isolated :
    (g : BruteForceGuard) (ip username other : Str) (failed swept now : ℕ)
    → IsMap g.inner
    → swept ≤ now
    → key ip username ≢ other
    → answer (record_failure g ip username failed swept).0 other now ≡ answer g other now
unfolding record_failure
failure_isolated g ip username other failed swept now m h ne =
    let entry = counted g failed (opened g failed (get g.inner (key ip username))) in
    let g' : BruteForceGuard = record g { inner = insert g.inner (key ip username) entry } in
    answer-sweep_if_large g' other swept now (insert-IsMap g.inner (key ip username) entry m) h
    ∙ ap (λ o. verdict_at o now)
        (ground (
          arith,
          get-insert g.inner (key ip username) other entry,
          str_eq_iff (key ip username) other,
        ))

-- After a success the client is let in, and no other key's answer changes.
pub success_clears :
    (g : BruteForceGuard) (ip username other : Str) (now : ℕ)
    → answer (record_success g ip username) other now
      ≡ (if str_eq (key ip username) other then ok tt else answer g other now)
unfolding record_success verdict_at
success_clears g ip username other now = ground (arith, get-remove g.inner (key ip username) other)

abbrev pub IsExact : Option Entry → ℕ → ℕ → Type 0
IsExact o now seconds =
    ((later : ℕ) → now + from_secs seconds ≤ later → verdict_at o later ≡ ok tt)
    × ((later : ℕ)
        → now ≤ later
        → later + nanos_per_sec < now + from_secs seconds
        → (rest : ℕ) × (verdict_at o later ≡ err rest))

lock_exact :
    (lock : Option ℕ) (now seconds : ℕ)
    → lock_verdict lock now ≡ err seconds
    → ((later : ℕ) → now + from_secs seconds ≤ later → lock_verdict lock later ≡ ok tt)
      × ((later : ℕ)
          → now ≤ later
          → later + nanos_per_sec < now + from_secs seconds
          → (rest : ℕ) × (lock_verdict lock later ≡ err rest))
unfolding lock_verdict
lock_exact none now seconds h = cc
lock_exact (some until) now seconds h =
    (λ later a. ground arith, λ later a b. (as_secs (until - later) + 1, ground arith))

verdict-IsExact :
    (o : Option Entry) (now seconds : ℕ) → verdict_at o now ≡ err seconds → IsExact o now seconds
unfolding verdict_at
verdict-IsExact none now seconds h = cc
verdict-IsExact (some e) now seconds h = lock_exact e.locked_until now seconds h

-- A client that waits as long as a refusal says is let in by the same table.
pub refusal_long_enough :
    (g : BruteForceGuard) (k : Str) (now seconds later : ℕ)
    → answer g k now ≡ err seconds
    → now + from_secs seconds ≤ later
    → answer g k later ≡ ok tt
refusal_long_enough g k now seconds later h w =
    (verdict-IsExact (get g.inner k) now seconds h).0 later w

-- The waiting time of a refusal is at most a second too long: until a second before it is over, the
-- same table refuses.
pub refusal_not_longer :
    (g : BruteForceGuard) (k : Str) (now seconds later : ℕ)
    → answer g k now ≡ err seconds
    → now ≤ later
    → later + nanos_per_sec < now + from_secs seconds
    → (rest : ℕ) × (answer g k later ≡ err rest)
refusal_not_longer g k now seconds later h w b =
    (verdict-IsExact (get g.inner k) now seconds h).1 later w b
