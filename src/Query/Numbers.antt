-- ===== src/Query/Numbers.antt =====
-- ASCII digits and `str::parse::<i64>`, which src/server/handlers/metrics.rs reads its parameters with.
use toki_sync.Prelude.{
  ℕ, zero, suc, ◌+◌, ◌-◌, ◌*◌, ◌^◌, ◌<◌, ◌≡◌, refl, Bool, true, false, ◌&&◌, ◌||◌, Option, none,
  some, [], ◌∷◌, ◌++◌, Str, is_empty, ltb, leb, ◌==◌, if◌then◌else◌, arith, ℤ, pos, negsuc, All,
}

abbrev pub is_digit : ℕ → Bool
is_digit b = leb 48 b && leb b 57

-- The value of a run of digits after `acc`; `none` at any other byte.
unfoldable pub digits_value : ℕ → Str → Option ℕ
digits_value acc [] = some acc
digits_value acc (b ∷ bs) =
    let rest = digits_value (acc * 10 + (b - 48)) bs in if is_digit b then rest else none

-- A sign is no number.
abbrev pub magnitude : Str → Option ℕ
magnitude [] = none
magnitude (b ∷ bs) = digits_value 0 (b ∷ bs)

abbrev pub positive : Option ℕ → Option ℤ
positive none = none
positive (some n) = if ltb n (2 ^ 63) then some (pos n) else none

abbrev pub negative : Option ℕ → Option ℤ
negative none = none
negative (some zero) = some (pos 0)
negative (some (suc n)) = if ltb n (2 ^ 63) then some (negsuc n) else none

-- `str::parse::<i64>`.
unfoldable pub parse_i64 : Str → Option ℤ
parse_i64 [] = none
parse_i64 (b ∷ bs) =
    if b == 43
    then positive (magnitude bs)
    else if b == 45
    then negative (magnitude bs)
    else positive (magnitude (b ∷ bs))

-- A text of digits, at least one.
abbrev pub IsNumeral : Str → Type 0
IsNumeral [] = ⊥
IsNumeral (b ∷ bs) = All (λ c. is_digit c ≡ true) (b ∷ bs)

abbrev pub value : ℕ → Str → ℕ
value acc [] = acc
value acc (b ∷ bs) = value (acc * 10 + (b - 48)) bs

pub digits_value-numeral :
    (acc : ℕ) (ds : Str)
    → All (λ c. is_digit c ≡ true) ds
    → digits_value acc ds ≡ some (value acc ds)
unfolding digits_value
digits_value-numeral acc [] h = refl
digits_value-numeral acc (b ∷ bs) h =
    rw (h.0, digits_value-numeral (acc * 10 + (b - 48)) bs h.1) refl

-- A byte that is no digit stops the number.
pub digits_value-broken :
    (acc : ℕ) (ds : Str) (b : ℕ) (rest : Str)
    → is_digit b ≡ false
    → digits_value acc (ds ++ b ∷ rest) ≡ none
unfolding digits_value
digits_value-broken acc [] b rest h = rw h refl
digits_value-broken acc (d ∷ ds) b rest h =
    rw (digits_value-broken (acc * 10 + (d - 48)) ds b rest h) (ground arith)

pub parse_i64-numeral :
    (ds : Str) → IsNumeral ds → value 0 ds < 2 ^ 63 → parse_i64 ds ≡ some (pos (value 0 ds))
unfolding parse_i64
parse_i64-numeral [] h b = absurd h
parse_i64-numeral (d ∷ ds) h b = rw (digits_value-numeral 0 (d ∷ ds) h) (ground arith)

pub parse_i64-broken :
    (d : ℕ) (ds : Str) (b : ℕ) (rest : Str)
    → is_digit d ≡ true
    → is_digit b ≡ false
    → parse_i64 (d ∷ (ds ++ b ∷ rest)) ≡ none
unfolding parse_i64
parse_i64-broken d ds b rest hd hb = rw (digits_value-broken 0 (d ∷ ds) b rest hb) (ground arith)

positive_bound : (m : Option ℕ) (n : ℕ) → positive m ≡ some (pos n) → n < 2 ^ 63
positive_bound none n h = absurd (ground arith)
positive_bound (some k) n h = ground arith

negative_bound : (m : Option ℕ) (n : ℕ) → negative m ≡ some (pos n) → n < 2 ^ 63
negative_bound none n h = absurd (ground arith)
negative_bound (some zero) n h = ground arith
negative_bound (some (suc k)) n h = ground arith

pub parse_i64_bound : (s : Str) (n : ℕ) → parse_i64 s ≡ some (pos n) → n < 2 ^ 63
unfolding parse_i64
parse_i64_bound [] n h = absurd (ground arith)
parse_i64_bound (b ∷ bs) n h = ground (
  arith,
  positive_bound (magnitude bs) n,
  negative_bound (magnitude bs) n,
  positive_bound (magnitude (b ∷ bs)) n,
)

-- `char::is_whitespace`, by the bytes of its character: one, two or three of them.
abbrev blank : ℕ → Bool
blank a = a == 32 || (leb 9 a && leb a 13)

abbrev blank_two : ℕ → ℕ → Bool
blank_two a b = a == 194 && (b == 133 || b == 160)

abbrev blank_three : ℕ → ℕ → ℕ → Bool
blank_three a b c =
    (a == 225 && b == 154 && c == 128)
    || (a == 226 && b == 128 && ((leb 128 c && leb c 138) || c == 168 || c == 169 || c == 175))
    || (a == 226 && b == 129 && c == 159)
    || (a == 227 && b == 128 && c == 128)

unfoldable trim_start : Str → Str
trim_start [] = []
trim_start (a ∷ []) = if blank a then [] else a ∷ []
trim_start (a ∷ (b ∷ [])) =
    if blank a then trim_start (b ∷ []) else if blank_two a b then [] else a ∷ (b ∷ [])
trim_start (a ∷ (b ∷ (c ∷ s))) =
    if blank a
    then trim_start (b ∷ (c ∷ s))
    else if blank_two a b
    then trim_start (c ∷ s)
    else if blank_three a b c
    then trim_start s
    else a ∷ (b ∷ (c ∷ s))

unfoldable trim_end : Str → Str
trim_end [] = []
trim_end (b ∷ bs) =
    let rest = trim_end bs in if is_empty (trim_start (b ∷ bs)) then [] else b ∷ rest

-- `str::trim`.
unfoldable pub trim : Str → Str
unfolding trim_start trim_end
trim s = trim_end (trim_start s)
