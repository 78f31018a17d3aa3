-- ===== src/Query/Duration.antt =====
-- `parse_duration_secs` of src/server/handlers/metrics.rs. A duration is positive, so it is a number.
use toki_sync.Prelude.{
  ℕ, ◌+◌, ◌*◌, ◌^◌, ◌<◌, ◌≤◌, ◌≡◌, refl, Bool, true, false, ◌&&◌, ◌||◌, not, Option, none, some, [],
  ◌∷◌, ◌++◌, Str, is_empty, ltb, ◌==◌, if◌then◌else◌, arith, ℤ, pos, negsuc, all, Bool-cases,
  Option-cases, inl, inr,
}
use toki_sync.Query.Numbers.{is_digit, parse_i64, parse_i64_bound}

abbrev pub unit_secs : ℕ → Option ℕ
unit_secs c =
    if c == 100
    then some 86400
    else if c == 104
    then some 3600
    else if c == 109
    then some 60
    else if c == 115
    then some 1
    else if c == 119
    then some 604800
    else if c == 121
    then some 31536000
    else none

-- `n.checked_mul(unit).and_then(|v| total.checked_add(v))`
abbrev pub checked_total : ℕ → ℕ → ℕ → Option ℕ
checked_total total n unit =
    if ltb (n * unit) (2 ^ 63) && ltb (total + n * unit) (2 ^ 63)
    then some (total + n * unit)
    else none

abbrev pub add_unit : ℕ → Option ℤ → Option ℕ → Option ℕ
add_unit total none u = none
add_unit total (some n) none = none
add_unit total (some (pos n)) (some u) = checked_total total n u
add_unit total (some (negsuc n)) (some u) = none

-- The loop over the characters, and the check after it.
unfoldable pub compound : ℕ → Str → Bool → Str → Option ℕ
compound total num_buf saw_unit [] =
    if not (is_empty num_buf) || not saw_unit || total == 0 then none else some total
compound total num_buf saw_unit (c ∷ cs) =
    if is_digit c
    then compound total (num_buf ++ c ∷ []) saw_unit cs
    else if is_empty num_buf
    then none
    else elim (add_unit total (parse_i64 num_buf) (unit_secs c)) [
      | none ↦ none
      | some t ↦ compound t [] true cs
    ]

-- `s.strip_suffix('s')`
unfoldable pub strip_suffix : ℕ → Str → Option Str
strip_suffix c [] = none
strip_suffix c (b ∷ []) = if b == c then some [] else none
strip_suffix c (b ∷ (d ∷ bs)) = elim (strip_suffix c (d ∷ bs)) [
  | none ↦ none
  | some s ↦ some (b ∷ s)
]

abbrev pub if_positive : Option ℤ → Option ℕ
if_positive none = none
if_positive (some (pos n)) = if ltb 0 n then some n else none
if_positive (some (negsuc n)) = none

abbrev pub bare_or_compound : Str → Option Str → Option ℕ
bare_or_compound s none = compound 0 [] false s
bare_or_compound s (some num) =
    if not (is_empty num) && all is_digit num
    then if_positive (parse_i64 num)
    else compound 0 [] false s

abbrev pub by_number : Str → Option ℤ → Option ℕ
by_number s none = bare_or_compound s (strip_suffix 115 s)
by_number s (some n) = if_positive (some n)

unfoldable pub parse_duration_secs : Str → Option ℕ
parse_duration_secs s = by_number s (parse_i64 s)

checked_total_bound : (total n u t : ℕ) → checked_total total n u ≡ some t → t < 2 ^ 63
checked_total_bound total n u t h = ground arith

add_unit_bound :
    (total : ℕ) (n : Option ℤ) (u : Option ℕ) (t : ℕ) → add_unit total n u ≡ some t → t < 2 ^ 63
add_unit_bound total none u t h = absurd (ground arith)
add_unit_bound total (some n) none t h = absurd (ground arith)
add_unit_bound total (some (pos n)) (some u) t h = checked_total_bound total n u t h
add_unit_bound total (some (negsuc n)) (some u) t h = absurd (ground arith)

compound_bound :
    (total : ℕ) (num_buf : Str) (saw_unit : Bool) (s : Str) (n : ℕ)
    → total < 2 ^ 63
    → compound total num_buf saw_unit s ≡ some n
    → (1 ≤ n) × (n < 2 ^ 63)
unfolding compound
compound_bound total buf saw [] n b h = ground arith
compound_bound total buf saw (c ∷ cs) n b h = elim (Bool-cases (is_digit c)) [
  | inl e ↦ compound_bound total (buf ++ c ∷ []) saw cs n b (rw e at h)
  | inr e ↦ elim (Bool-cases (is_empty buf)) [
    | inl f ↦ absurd (ground arith)
    | inr f ↦ elim (Option-cases (add_unit total (parse_i64 buf) (unit_secs c))) [
      | inl g ↦ absurd (ground arith)
      | inr (t, g) ↦
          compound_bound t [] true cs n (add_unit_bound total (parse_i64 buf) (unit_secs c) t g)
            (rw (e, f, g) at h)
    ]
  ]
]

if_positive_bound :
    (o : Option ℤ) (n : ℕ)
    → ((k : ℕ) → o ≡ some (pos k) → k < 2 ^ 63)
    → if_positive o ≡ some n
    → (1 ≤ n) × (n < 2 ^ 63)
if_positive_bound none n b h = absurd (ground arith)
if_positive_bound (some (pos k)) n b h = let q = b k refl in ground arith
if_positive_bound (some (negsuc k)) n b h = absurd (ground arith)

bare_bound :
    (s : Str) (num : Option Str) (n : ℕ) → bare_or_compound s num ≡ some n → (1 ≤ n) × (n < 2 ^ 63)
bare_bound s none n h = compound_bound 0 [] false s n (omega arith) h
bare_bound s (some num) n h = elim (Bool-cases (not (is_empty num) && all is_digit num)) [
  | inl e ↦ if_positive_bound (parse_i64 num) n (parse_i64_bound num) (rw e at h)
  | inr e ↦ compound_bound 0 [] false s n (omega arith) (rw e at h)
]

by_number_bound :
    (s : Str) (o : Option ℤ) (n : ℕ)
    → ((k : ℕ) → o ≡ some (pos k) → k < 2 ^ 63)
    → by_number s o ≡ some n
    → (1 ≤ n) × (n < 2 ^ 63)
by_number_bound s none n b h = bare_bound s (strip_suffix 115 s) n h
by_number_bound s (some z) n b h = if_positive_bound (some z) n b h

-- A duration that is accepted is at least one second and fits in an `i64`.
pub parse_duration_bound :
    (s : Str) (n : ℕ) → parse_duration_secs s ≡ some n → (1 ≤ n) × (n < 2 ^ 63)
unfolding parse_duration_secs
parse_duration_bound s n h = by_number_bound s (parse_i64 s) n (parse_i64_bound s) h
