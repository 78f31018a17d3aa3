-- ===== src/Limits/WindowsRate.antt =====
-- `WindowsRateLimiterInner` of src/sync/handler.rs: one accepted upload a minute for each user,
-- provider and device.
use mathlib.Core.Bool.{false≢true}
use toki_sync.Prelude.{
  ℕ, ◌+◌, ◌-◌, ◌≤◌, ◌≡◌, ◌∙◌, subst, str_eq_refl, ◌⊎◌, Avoids, delimited_injective, Bool, true,
  false, Option, none, some, List, [], ◌∷◌, ◌++◌, Str, HashMap, get, insert, retain, IsMap,
  get-insert, get-retain, insert-IsMap, retain-IsMap, str_eq, length, ltb, leb, if◌then◌else◌,
  arith, Bool-cases, inl, inr,
}
use toki_sync.Limits.{from_secs}

abbrev min_interval : ℕ
min_interval = from_secs 60

abbrev sweep_at : ℕ
sweep_at = 4096

-- `format!("{user_id}\u{1}{provider}\u{1}{device_id}")`
unfoldable pub limiter_key : Str → Str → Str → Str
limiter_key user_id provider device_id = user_id ++ 1 ∷ (provider ++ 1 ∷ device_id)

unfoldable pub is_recent : ℕ → ℕ → Bool
is_recent now t = ltb (now - t) min_interval

unfoldable pub is_throttled : ℕ → Option ℕ → Bool
is_throttled now none = false
is_throttled now (some prev) = is_recent now prev

unfoldable pub allow_key : HashMap ℕ → Str → ℕ → HashMap ℕ × Bool
allow_key last k now = if is_throttled now (get last k) then (last, false) else (
  insert (if leb sweep_at (length last) then retain (is_recent now) last else last) k now,
  true,
)

unfoldable pub allow : HashMap ℕ → Str → Str → Str → ℕ → HashMap ℕ × Bool
unfolding allow_key
allow last user_id provider device_id now =
    allow_key last (limiter_key user_id provider device_id) now

-- One upload that asks the limiter.
pub record Upload : Type 0 where
  pub user_id : Str
  pub provider : Str
  pub device_id : Str
  pub at : ℕ

abbrev pub upload_key : Upload → Str
upload_key u = limiter_key u.user_id u.provider u.device_id

abbrev pub ask : HashMap ℕ → Upload → HashMap ℕ × Bool
ask last u = allow last u.user_id u.provider u.device_id u.at

unfoldable pub ask_all : HashMap ℕ → List Upload → HashMap ℕ
ask_all last [] = last
ask_all last (u ∷ us) = ask_all (ask last u).0 us

-- The uploads come one after another, from `start` to `end`.
abbrev pub InOrder : ℕ → List Upload → ℕ → Type 0
InOrder start [] end = start ≤ end
InOrder start (u ∷ us) end = (start ≤ u.at) × InOrder u.at us end

-- The table remembers an upload accepted at `t` or later, or the interval after `t` is over.
abbrev Remembers : HashMap ℕ → Str → ℕ → ℕ → Type 0
Remembers last k t now = ((t' : ℕ) × (t ≤ t') × (get last k ≡ some t')) ⊎ (t + min_interval ≤ now)

module _ (last : HashMap ℕ) (k : Str) (now : ℕ) where
  pub allow_key-IsMap : IsMap last → IsMap (allow_key last k now).0
  unfolding allow_key
  allow_key-IsMap m = elim (Bool-cases (is_throttled now (get last k))) [
    | inl e ↦ rw e m
    | inr e ↦ rw e (
        insert-IsMap (if leb sweep_at (length last) then retain (is_recent now) last else last) k
          now (swept (leb sweep_at (length last))))
  ]
    where
      swept : (b : Bool) → IsMap (if b then retain (is_recent now) last else last)
      swept true = retain-IsMap (is_recent now) last m
      swept false = m

  -- The sweep forgets only what is no longer recent.
  allow_key-Remembers :
      (j : Str) (t : ℕ)
      → IsMap last
      → t ≤ now
      → Remembers last j t now
      → Remembers (allow_key last k now).0 j t now
  unfolding allow_key is_recent
  allow_key-Remembers j t m le (inr over) = inr over
  allow_key-Remembers j t m le (inl (t', after, found)) =
      elim (Bool-cases (is_throttled now (get last k))) [
        | inl e ↦ rw e (inl (t', after, found))
        | inr e ↦ rw e (fresh (leb sweep_at (length last)))
      ]
    where
      fresh :
          (b : Bool)
          → Remembers (insert (if b then retain (is_recent now) last else last) k now) j t now
      fresh true = elim (Bool-cases (str_eq k j)) [
        | inl q ↦ inl (now, le, get-insert (retain (is_recent now) last) k j now ∙ rw q)
        | inr q ↦ elim (Bool-cases (is_recent now t')) [
          | inl r ↦ inl (
            t',
            after,
            get-insert (retain (is_recent now) last) k j now
                ∙ rw (q, get-retain (is_recent now) last j m, found) (ground (arith, r)),
          )
          | inr r ↦ inr (ground (arith, r))
        ]
      ]
      fresh false = elim (Bool-cases (str_eq k j)) [
        | inl q ↦ inl (now, le, get-insert last k j now ∙ rw q)
        | inr q ↦ inl (t', after, get-insert last k j now ∙ rw q found)
      ]

Remembers-later :
    (last : HashMap ℕ) (j : Str) (t start end : ℕ)
    → start ≤ end
    → Remembers last j t start
    → Remembers last j t end
Remembers-later last j t start end h (inl r) = inl r
Remembers-later last j t start end h (inr over) = inr (omega arith)

ask_all-Remembers :
    (us : List Upload) (last : HashMap ℕ) (j : Str) (t start end : ℕ)
    → IsMap last
    → t ≤ start
    → InOrder start us end
    → Remembers last j t start
    → IsMap (ask_all last us) × Remembers (ask_all last us) j t end
unfolding ask_all allow
ask_all-Remembers [] last j t start end m le o r = (m, Remembers-later last j t start end o r)
ask_all-Remembers (u ∷ us) last j t start end m le o r =
    ask_all-Remembers us (ask last u).0 j t u.at end (allow_key-IsMap last (upload_key u) u.at m)
      (omega arith) o.1
      (allow_key-Remembers last (upload_key u) u.at j t m (omega arith)
        (Remembers-later last j t start u.at o.0 r))

get-allow_key :
    (last : HashMap ℕ) (k : Str) (now : ℕ)
    → (allow_key last k now).1 ≡ true
    → get (allow_key last k now).0 k ≡ some now
unfolding allow_key
get-allow_key last k now h = elim (Bool-cases (is_throttled now (get last k))) [
  | inl e ↦ absurd (false≢true (rw (e, allow_key) at h))
  | inr e ↦ rw (
    e,
    get-insert (if leb sweep_at (length last) then retain (is_recent now) last else last) k k now,
    str_eq_refl k,
  )
]

allow_key-spaced :
    (last : HashMap ℕ) (k : Str) (now t : ℕ)
    → get last k ≡ some t
    → (allow_key last k now).1 ≡ true
    → t + min_interval ≤ now
unfolding allow_key is_throttled is_recent
allow_key-spaced last k now t found h = ground arith

-- Two accepted uploads of one user, provider and device are at least a minute apart, whatever was
-- uploaded between them and however often the table was swept. The uploads come in the order of their
-- times, and the table has each key once at the start.
pub accepted_apart :
    (last : HashMap ℕ) (u v : Upload) (us : List Upload)
    → IsMap last
    → upload_key u ≡ upload_key v
    → InOrder u.at us v.at
    → (ask last u).1 ≡ true
    → (ask (ask_all (ask last u).0 us) v).1 ≡ true
    → u.at + min_interval ≤ v.at
unfolding allow
accepted_apart last u v us m same o first second =
    let k = upload_key u in
    let m' = allow_key-IsMap last k u.at m in
    let r =
      ask_all-Remembers us (ask last u).0 k u.at u.at v.at m' (omega arith) o
        (inl (u.at, omega arith, get-allow_key last k u.at first)) in
    elim (r.1) [
      | inl (t', after, found) ↦
          let spaced =
            allow_key-spaced (ask_all (ask last u).0 us) (upload_key v) v.at t'
              (subst (λ q. get (ask_all (ask last u).0 us) q ≡ some t') same found) second in
          omega arith
      | inr over ↦ over
    ]

-- Uploads of different users, providers or devices have different keys: a user's id and a provider's
-- name hold no byte 1.
pub limiter_key_injective :
    (u v : Upload)
    → Avoids 1 u.user_id
    → Avoids 1 v.user_id
    → Avoids 1 u.provider
    → Avoids 1 v.provider
    → upload_key u ≡ upload_key v
    → (u.user_id ≡ v.user_id) × (u.provider ≡ v.provider) × (u.device_id ≡ v.device_id)
unfolding limiter_key
limiter_key_injective u v a b c d e =
    let r = delimited_injective 1 u.user_id v.user_id _ _ a b e in
    let s = delimited_injective 1 u.provider v.provider u.device_id v.device_id c d r.1 in
    (r.0, s.0, s.1)
