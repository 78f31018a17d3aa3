-- ===== src/Limits/MonitorRate.antt =====
-- `MonitorWriteRateLimiterInner` of src/server/handlers/monitor.rs: at most sixty writes in a window
-- of a minute for each user.
use toki_sync.Prelude.{
  ℕ, ◌+◌, ◌-◌, ◌≤◌, ◌<◌, ◌≡◌, refl, ◌∙◌, ap, sym, ◌%◌, ◌^◌, min, All, List, [], ◌∷◌, str_eq_refl,
  Bool, Option, none, some, Str, HashMap, get, insert, retain, IsMap, keep_if, get-insert,
  get-retain, insert-IsMap, retain-IsMap, length, Result, ok, err, ltb, leb, max, if◌then◌else◌,
  arith, Bool-cases, inl, inr,
}
use toki_sync.Limits.{from_secs, as_secs, nanos_per_sec}

abbrev pub window : ℕ
window = from_secs 60

abbrev pub max_writes : ℕ
max_writes = 60

abbrev sweep_at : ℕ
sweep_at = 4096

-- The window start, and the writes so far in that window.
abbrev pub Hits : Type 0
Hits = ℕ × ℕ

unfoldable pub in_window : ℕ → Hits → Bool
in_window now h = ltb (now - h.0) window

-- `or_insert((now, 0))`, and the reset of a window that has passed.
unfoldable pub current : ℕ → Option Hits → Hits
unfolding in_window
current now none = (now, 0)
current now (some h) = if in_window now h then h else (now, 0)

unfoldable pub sweep_if_large : HashMap Hits → ℕ → HashMap Hits
sweep_if_large hits now = if leb sweep_at (length hits) then retain (in_window now) hits else hits

-- The seconds that a refused caller is told to wait.
abbrev pub retry_after : ℕ → Hits → ℕ
retry_after now entry = max (as_secs (window - (now - entry.0))) 1

unfoldable pub admit : HashMap Hits → Str → ℕ → HashMap Hits × Result (Unit {0}) ℕ
admit hits user_id now =
    let entry = current now (get hits user_id) in
    if leb max_writes entry.1
    then (insert hits user_id entry, err (retry_after now entry))
    else (insert hits user_id (entry.0, (entry.1 + 1) % 2 ^ 32), ok tt)

unfoldable pub allow : HashMap Hits → Str → ℕ → HashMap Hits × Result (Unit {0}) ℕ
unfolding sweep_if_large admit
allow hits user_id now = admit (sweep_if_large hits now) user_id now

-- A user's window after one more call.
abbrev pub stepped : Hits → Hits
stepped entry = if leb max_writes entry.1 then entry else (entry.0, entry.1 + 1)

abbrev pub reply : ℕ → Hits → Result (Unit {0}) ℕ
reply now entry = if leb max_writes entry.1 then err (retry_after now entry) else ok tt

-- A window that the sweep drops would have been reset anyway.
current-kept : (now : ℕ) (o : Option Hits) → current now (keep_if (in_window now) o) ≡ current now o
unfolding current
current-kept now none = refl
current-kept now (some h) = ground arith

sweep-current :
    (hits : HashMap Hits) (user_id : Str) (now : ℕ)
    → IsMap hits
    → current now (get (sweep_if_large hits now) user_id) ≡ current now (get hits user_id)
unfolding sweep_if_large
sweep-current hits user_id now m = elim (Bool-cases (leb sweep_at (length hits))) [
  | inl e ↦ rw (e, get-retain (in_window now) hits user_id m) (current-kept now (get hits user_id))
  | inr e ↦ rw e
]

sweep-IsMap : (hits : HashMap Hits) (now : ℕ) → IsMap hits → IsMap (sweep_if_large hits now)
unfolding sweep_if_large
sweep-IsMap hits now m = elim (Bool-cases (leb sweep_at (length hits))) [
  | inl e ↦ rw e (retain-IsMap (in_window now) hits m)
  | inr e ↦ rw e m
]

admit-current :
    (hits : HashMap Hits) (user_id : Str) (now : ℕ) (entry : Hits)
    → current now (get hits user_id) ≡ entry
    → ((admit hits user_id now).1 ≡ reply now entry)
      × (get (admit hits user_id now).0 user_id ≡ some (stepped entry))
unfolding admit
admit-current hits user_id now entry e = rw e (elim (Bool-cases (leb max_writes entry.1)) [
  | inl q ↦ rw q (refl, get-insert hits user_id user_id entry ∙ rw (str_eq_refl user_id))
  | inr q ↦ rw q (
    refl,
    get-insert hits user_id user_id (entry.0, (entry.1 + 1) % 2 ^ 32)
        ∙ rw (str_eq_refl user_id) (ground (arith, q)),
  )
])

admit-IsMap :
    (hits : HashMap Hits) (user_id : Str) (now : ℕ) → IsMap hits → IsMap (admit hits user_id now).0
unfolding admit
admit-IsMap hits user_id now m =
    let entry = current now (get hits user_id) in
    elim (Bool-cases (leb max_writes entry.1)) [
      | inl q ↦ rw q (insert-IsMap hits user_id entry m)
      | inr q ↦ rw q (insert-IsMap hits user_id (entry.0, (entry.1 + 1) % 2 ^ 32) m)
    ]

-- `allow` decides by the user's current window alone, and leaves it one step on, whether or not the
-- table was swept.
pub allow-current :
    (hits : HashMap Hits) (user_id : Str) (now : ℕ)
    → IsMap hits
    → IsMap (allow hits user_id now).0
      × ((allow hits user_id now).1 ≡ reply now (current now (get hits user_id)))
      × (get (allow hits user_id now).0 user_id ≡ some (stepped (current now (get hits user_id))))
unfolding allow
allow-current hits user_id now m =
    let r =
      admit-current (sweep_if_large hits now) user_id now (current now (get hits user_id))
        (sweep-current hits user_id now m) in
    (admit-IsMap (sweep_if_large hits now) user_id now (sweep-IsMap hits now m), r.0, r.1)

-- Calls of one user, one after another.
unfoldable pub write_each : HashMap Hits → Str → List ℕ → HashMap Hits
write_each hits user_id [] = hits
write_each hits user_id (t ∷ ts) = write_each (allow hits user_id t).0 user_id ts

-- A call inside the window that began at `start`.
abbrev pub Inside : ℕ → ℕ → Type 0
Inside start t = (start ≤ t) × (t < start + window)

current-none : (start : ℕ) → current start none ≡ (start, 0)
unfolding current
current-none start = refl

current-Inside : (start n now : ℕ) → Inside start now → current now (some (start, n)) ≡ (start, n)
unfolding current
current-Inside start n now h = ground arith

write_each_from :
    (user_id : Str) (start : ℕ) (ts : List ℕ) (hits : HashMap Hits) (n : ℕ)
    → IsMap hits
    → All (Inside start) ts
    → get hits user_id ≡ some (start, n)
    → n ≤ max_writes
    → IsMap (write_each hits user_id ts)
      × (get (write_each hits user_id ts) user_id ≡ some (start, min (n + length ts) max_writes))
unfolding write_each
write_each_from user_id start [] hits n m h e le = (m, e ∙ ap (λ k. some (start, k)) (omega arith))
write_each_from user_id start (t ∷ ts) hits n m h e le =
    let a = allow-current hits user_id t m in
    let c : current t (get hits user_id) ≡ (start, n) =
      ap (current t) e ∙ current-Inside start n t h.0 in
    let r =
      write_each_from user_id start ts (allow hits user_id t).0 (min (n + 1) max_writes) a.0 h.1
        (a.2 ∙ ap (λ q. some (stepped q)) c ∙ ground arith) (omega arith) in
    (r.0, r.1 ∙ ap (λ k. some (start, k)) (omega arith))

-- The budget is exact. A user with no record writes at `start` and then at the times `ts`; a further
-- write in the same minute is let through exactly when fewer than sixty were asked for before it. The
-- table has each user once at the start.
pub budget_exact :
    (hits : HashMap Hits) (user_id : Str) (start : ℕ) (ts : List ℕ) (now : ℕ)
    → IsMap hits
    → get hits user_id ≡ none
    → All (Inside start) ts
    → Inside start now
    → (allow (write_each hits user_id (start ∷ ts)) user_id now).1 ≡ (
        if leb max_writes (1 + length ts)
        then err (max (as_secs (start + window - now)) 1)
        else ok tt)
unfolding write_each
budget_exact hits user_id start ts now m e h inside =
    let a = allow-current hits user_id start m in
    let c : current start (get hits user_id) ≡ (start, 0) = rw e (current-none start) in
    let r =
      write_each_from user_id start ts (allow hits user_id start).0 1 a.0 h
        (a.2 ∙ ap (λ q. some (stepped q)) c) (omega arith) in
    let b = allow-current (write_each (allow hits user_id start).0 user_id ts) user_id now r.0 in
    let d =
      ap (current now) r.1 ∙ current-Inside start (min (1 + length ts) max_writes) now inside in
    b.1 ∙ ap (reply now) d ∙ ground arith

refused_facts :
    (now seconds : ℕ) (entry : Hits)
    → reply now entry ≡ err seconds
    → nanos_per_sec < window - (now - entry.0)
    → 0 < (window - (now - entry.0)) % nanos_per_sec
    → (stepped entry ≡ entry)
      × (current (now + from_secs seconds) (some entry) ≡ entry)
      × (reply (now + from_secs seconds) entry ≡ err (retry_after (now + from_secs seconds) entry))
unfolding current
refused_facts now seconds entry refused more part = (ground arith, ground arith, ground arith)

-- The waiting time that a refusal names is rounded down. Where the window has more than a second
-- left and not a whole number of seconds, a caller who waits exactly that long is refused again.
pub retry_too_early :
    (hits : HashMap Hits) (user_id : Str) (now seconds : ℕ)
    → IsMap hits
    → (allow hits user_id now).1 ≡ err seconds
    → nanos_per_sec < window - (now - (current now (get hits user_id)).0)
    → 0 < (window - (now - (current now (get hits user_id)).0)) % nanos_per_sec
    → (again : ℕ) × ((allow (allow hits user_id now).0 user_id (now + from_secs seconds)).1
        ≡ err again)
retry_too_early hits user_id now seconds m refused more part =
    let a = allow-current hits user_id now m in
    let f =
      refused_facts now seconds (current now (get hits user_id)) (sym a.1 ∙ refused) more part in
    let b = allow-current (allow hits user_id now).0 user_id (now + from_secs seconds) a.0 in
    let c = ap (current (now + from_secs seconds)) (a.2 ∙ ap some f.0) ∙ f.1 in
    (
      retry_after (now + from_secs seconds) (current now (get hits user_id)),
      b.1 ∙ ap (reply (now + from_secs seconds)) c ∙ f.2,
    )
