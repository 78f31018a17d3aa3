-- ===== src/Query/Total.antt =====
-- How much text the operations of the query cursor leave, so that its loops have turns enough.
use toki_sync.Prelude.{
  ℕ, zero, suc, ◌+◌, ◌≤◌, ◌<◌, ◌≡◌, refl, Bool, true, false, some, List, [], ◌∷◌, ◌++◌, Str, length,
  ◌==◌, arith, Result, ok, err, ◌>>=◌, Bool-cases, Option-cases, inl, inr,
}
use toki_sync.Query.Cursor.{
  Refusal, out_of_fuel, skip_ws, eat_here, eat, named, word, ident, prefixed, until_quote,
  quoted_here, quoted, Labels, label_end, label_loop, some_labels, by_labels,
}

abbrev pub is_fuel : Refusal → Bool
is_fuel out_of_fuel = true
is_fuel _ = false

-- A result that satisfies a predicate, or a refusal that is not for want of turns.
abbrev pub Gives {ℓ} : {A : Type ℓ} → (A → Type 0) → Result A Refusal → Type 0
Gives P (ok a) = P a
Gives P (err e) = is_fuel e ≡ false

pub Gives-bind {ℓ κ} :
    {A : Type ℓ} {B : Type κ} (P : A → Type 0) (Q : B → Type 0) (m : Result A Refusal)
    (f : A → Result B Refusal)
    → Gives P m
    → ((a : A) → P a → Gives Q (f a))
    → Gives Q (m >>= f)
Gives-bind P Q (ok a) f h k = k a h
Gives-bind P Q (err e) f h k = h

-- No more than `n` bytes are left.
abbrev pub Leaves : {A : Type 0} → ℕ → A × Str → Type 0
Leaves n r = length r.1 ≤ n

pub length-skip_ws : (s : Str) → length (skip_ws s) ≤ length s
unfolding skip_ws
length-skip_ws [] = omega arith
length-skip_ws (b ∷ bs) = ground (arith, length-skip_ws bs)

eat_here_le : (b : ℕ) (s : Str) → length (eat_here b s).0 ≤ length s
eat_here_le b [] = omega arith
eat_here_le b (c ∷ cs) = ground arith

eat_here_lt : (b : ℕ) (s : Str) → (eat_here b s).1 ≡ true → suc (length (eat_here b s).0) ≤ length s
eat_here_lt b [] e = absurd (ground arith)
eat_here_lt b (c ∷ cs) e = ground arith

pub length-eat : (b : ℕ) (s : Str) → length (eat b s).0 ≤ length s
unfolding eat
length-eat b s = omega (arith, eat_here_le b (skip_ws s), length-skip_ws s)

pub length-eaten : (b : ℕ) (s : Str) → (eat b s).1 ≡ true → suc (length (eat b s).0) ≤ length s
unfolding eat
length-eaten b s e = omega (arith, eat_here_lt b (skip_ws s) e, length-skip_ws s)

length-word : (s : Str) → length (word s).0 + length (word s).1 ≡ length s
unfolding word
length-word [] = refl
length-word (b ∷ bs) = ground (arith, length-word bs)

named_le : (r : Str × Str) → length (named r).0 ≤ length r.0 + length r.1
named_le ([], rest) = omega arith
named_le (b ∷ bs, rest) = omega arith

named_lt :
    (r : Str × Str) (id : Str)
    → (named r).1 ≡ some id
    → suc (length (named r).0) ≤ length r.0 + length r.1
named_lt ([], rest) id e = absurd (ground arith)
named_lt (b ∷ bs, rest) id e = omega arith

pub length-ident : (s : Str) → length (ident s).0 ≤ length s
unfolding ident
length-ident s =
    omega (arith, named_le (word (skip_ws s)), length-word (skip_ws s), length-skip_ws s)

pub length-named : (s id : Str) → (ident s).1 ≡ some id → suc (length (ident s).0) ≤ length s
unfolding ident
length-named s id e =
    omega (arith, named_lt (word (skip_ws s)) id e, length-word (skip_ws s), length-skip_ws s)

longer :
    (b n : ℕ) (r : Result (Str × Str) Refusal)
    → Gives (Leaves n) r
    → Gives (Leaves (suc n)) (prefixed b r)
longer b n (ok (v, rest)) h = omega (arith, h)
longer b n (err e) h = h

until_quote-Gives : (s : Str) → Gives (Leaves (length s)) (until_quote s)
unfolding until_quote
until_quote-Gives [] = refl
until_quote-Gives (b ∷ bs) = elim (Bool-cases (b == 34)) [
  | inl e ↦ rw e (omega arith)
  | inr e ↦ elim (Bool-cases (b == 92)) [
    | inl f ↦ rw (e, f) refl
    | inr f ↦ rw (e, f) (longer b (length bs) (until_quote bs) (until_quote-Gives bs))
  ]
]

shorter :
    (n m : ℕ) (r : Result (Str × Str) Refusal) → n ≤ m → Gives (Leaves n) r → Gives (Leaves m) r
shorter n m (ok (v, rest)) le h = omega (arith, h, le)
shorter n m (err e) le h = h

quoted_here-Gives : (s : Str) → Gives (Leaves (length s)) (quoted_here s)
quoted_here-Gives [] = refl
quoted_here-Gives (b ∷ bs) = elim (Bool-cases (b == 34)) [
  | inl e ↦
      rw e (
        shorter (length bs) (suc (length bs)) (until_quote bs) (omega arith) (until_quote-Gives bs))
  | inr e ↦ rw e refl
]

pub quoted-Gives : (s : Str) → Gives (Leaves (length s)) (quoted s)
unfolding quoted
quoted-Gives s =
    shorter (length (skip_ws s)) (length s) (quoted_here (skip_ws s)) (length-skip_ws s)
      (quoted_here-Gives (skip_ws s))

-- Any outcome but the want of turns.
abbrev pub Ends : {A : Type 0} → Result A Refusal → Type 0
Ends = Gives (λ a. Unit)

label_end-Ends :
    (labels : List Str) (s : Str) (comma : Str × Bool) (rest : Labels)
    → (comma.1 ≡ true → Ends rest)
    → Ends (label_end labels s comma rest)
label_end-Ends labels s (s', true) rest h = h refl
label_end-Ends labels s (s', false) rest h = elim (Bool-cases (eat 41 s).1) [
  | inl e ↦ rw e tt
  | inr e ↦ rw e refl
]

label_loop-Ends :
    (n : ℕ) (labels : List Str) (s : Str) → length s < n → Ends (label_loop n labels s)
unfolding label_loop
label_loop-Ends zero labels s h = absurd (omega (arith, h))
label_loop-Ends (suc n) labels s h =
    let close = eat 41 s in
    let id = ident close.0 in
    let comma = eat 44 id.0 in
    elim (Bool-cases close.1) [
      | inl e ↦ rw e tt
      | inr e ↦ elim (Option-cases id.1) [
        | inl f ↦ rw (e, f) refl
        | inr (label, f) ↦
            rw (e, f)
              (label_end-Ends (labels ++ label ∷ []) comma.0 comma
                (label_loop n (labels ++ label ∷ []) comma.0)
                (λ g. label_loop-Ends n (labels ++ label ∷ []) comma.0 (
                  omega (
                    arith,
                    h,
                    length-eat 41 s,
                    length-named close.0 label f,
                    length-eaten 44 id.0 g,
                  ))))
      ]
    ]

some_labels-Ends : (r : List Str × Str) → Ends (some_labels r)
some_labels-Ends ([], rest) = refl
some_labels-Ends (l ∷ ls, rest) = tt

-- The labels of a `by` clause have turns enough.
pub by_labels-Ends : (s : Str) → Ends (by_labels s)
unfolding by_labels
by_labels-Ends s = elim (Bool-cases (eat 40 s).1) [
  | inl e ↦ rw e (
      Gives-bind (λ a. Unit) (λ a. Unit) (label_loop (suc (length (eat 40 s).0)) [] (eat 40 s).0)
        some_labels (label_loop-Ends (suc (length (eat 40 s).0)) [] (eat 40 s).0 (omega arith))
        (λ r u. some_labels-Ends r))
  | inr e ↦ rw e refl
]
