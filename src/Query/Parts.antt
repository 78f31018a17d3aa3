-- ===== src/Query/Parts.antt =====
-- What src/server/handlers/metrics.rs reads from a duration in parts, such as `1h30m`.
use toki_sync.Prelude.{
  append_assoc, append_nil, ℕ, ◌+◌, ◌*◌, ◌^◌, ◌<◌, ◌≤◌, ◌≡◌, refl, ◌∙◌, ap, Bool, true, false, ◌&&◌,
  not, Option, none, some, List, [], ◌∷◌, ◌++◌, Str, is_empty, arith, ℤ, pos, negsuc, All, all,
  Bool-cases, Option-cases, inl, inr,
}
use toki_sync.Query.Numbers.{
  is_digit, parse_i64, parse_i64_bound, parse_i64-numeral, parse_i64-broken, IsNumeral, value,
}
use toki_sync.Query.Duration.{
  unit_secs, add_unit, compound, strip_suffix, if_positive, bare_or_compound, parse_duration_secs,
}

-- Digits, and the letter of a unit.
pub record Part : Type 0 where
  pub digits : Str
  pub unit : ℕ
  pub secs : ℕ

abbrev pub IsPart : Part → Type 0
IsPart p = IsNumeral p.digits × (unit_secs p.unit ≡ some p.secs)

abbrev pub written : List Part → Str
written [] = []
written (p ∷ ps) = p.digits ++ p.unit ∷ written ps

abbrev pub total_secs : List Part → ℕ
total_secs [] = 0
total_secs (p ∷ ps) = value 0 p.digits * p.secs + total_secs ps

compound_digits :
    (t : ℕ) (buf : Str) (saw : Bool) (ds : Str) (rest : Str)
    → All (λ c. is_digit c ≡ true) ds
    → compound t buf saw (ds ++ rest) ≡ compound t (buf ++ ds) saw rest
unfolding compound
compound_digits t buf saw [] rest h = ap (λ x. compound t x saw rest) (rw (append_nil buf) refl)
compound_digits t buf saw (d ∷ ds) rest h =
    rw (h.0, compound_digits t (buf ++ d ∷ []) saw ds rest h.1, append_assoc buf (d ∷ []) ds) refl

unit_no_digit : (c u : ℕ) → unit_secs c ≡ some u → is_digit c ≡ false
unit_no_digit c u h = ground arith

le_times_unit : (c u v : ℕ) → unit_secs c ≡ some u → v ≤ v * u
le_times_unit c u v h = ground arith

add_unit_lem :
    (t n u : ℕ) → t + n * u < 2 ^ 63 → add_unit t (some (pos n)) (some u) ≡ some (t + n * u)
add_unit_lem t n u h = ground arith

compound_part :
    (t : ℕ) (saw : Bool) (p : Part) (rest : Str)
    → IsPart p
    → t + value 0 p.digits * p.secs < 2 ^ 63
    → compound t [] saw (p.digits ++ p.unit ∷ rest)
      ≡ compound (t + value 0 p.digits * p.secs) [] true rest
unfolding compound
compound_part t saw p rest h b = numeral_part p.digits h.0 b
  where
    numeral_part :
        (ds : Str)
        → IsNumeral ds
        → t + value 0 ds * p.secs < 2 ^ 63
        → compound t [] saw (ds ++ p.unit ∷ rest) ≡ compound (t + value 0 ds * p.secs) [] true rest
    numeral_part [] n b = absurd n
    numeral_part (d ∷ ds) n b =
        let v = value 0 (d ∷ ds) in
        let small : v < 2 ^ 63 = omega (arith, b, le_times_unit p.unit p.secs v h.1) in
        compound_digits t [] saw (d ∷ ds) (p.unit ∷ rest) n
        ∙ rw
            (
              unit_no_digit p.unit p.secs h.1,
              parse_i64-numeral (d ∷ ds) n small,
              h.1,
              add_unit_lem t v p.secs b,
            )
            refl

compound-written :
    (t : ℕ) (ps : List Part)
    → All IsPart ps
    → 1 ≤ t + total_secs ps
    → t + total_secs ps < 2 ^ 63
    → compound t [] true (written ps) ≡ some (t + total_secs ps)
unfolding compound
compound-written t [] h l b = ground arith
compound-written t (p ∷ ps) h l b =
    let v = value 0 p.digits * p.secs in
    compound_part t true p (written ps) h.0 (omega (arith, b))
    ∙ compound-written (t + v) ps h.1 (omega (arith, l)) (omega (arith, b))
    ∙ ap some (omega arith)

strip_suffix_lem : (c : ℕ) (s num : Str) → strip_suffix c s ≡ some num → s ≡ num ++ c ∷ []
unfolding strip_suffix
strip_suffix_lem c [] num h = absurd (ground arith)
strip_suffix_lem c (b ∷ []) num h = ground arith
strip_suffix_lem c (b ∷ (d ∷ bs)) num h = elim (Option-cases (strip_suffix c (d ∷ bs))) [
  | inl e ↦ absurd (ground arith)
  | inr (r, e) ↦
      let w : b ∷ r ≡ num = ground arith in
      ap (◌∷◌ b) (strip_suffix_lem c (d ∷ bs) r e) ∙ ap (λ x. x ++ c ∷ []) w
]

all-All : (p : ℕ → Bool) (s : Str) → all p s ≡ true → All (λ c. p c ≡ true) s
all-All p [] h = tt
all-All p (b ∷ bs) h = elim (Bool-cases (p b)) [
  | inl e ↦ (e, all-All p bs (rw e at h))
  | inr e ↦ absurd (ground arith)
]

-- Seconds written with their unit are read as any other unit is.
seconds_agree :
    (num : Str) (o : Option ℤ)
    → ((k : ℕ) → o ≡ some (pos k) → k < 2 ^ 63)
    → parse_i64 num ≡ o
    → not (is_empty num) && all is_digit num ≡ true
    → compound 0 [] false (num ++ 115 ∷ []) ≡ if_positive o
unfolding compound
seconds_agree num none b e h =
    compound_digits 0 [] false num (115 ∷ []) (all-All is_digit num (ground arith))
    ∙ rw e (ground arith)
seconds_agree num (some (pos k)) b e h =
    let q = b k refl in
    compound_digits 0 [] false num (115 ∷ []) (all-All is_digit num (ground arith))
    ∙ rw e (ground arith)
seconds_agree num (some (negsuc k)) b e h =
    compound_digits 0 [] false num (115 ∷ []) (all-All is_digit num (ground arith))
    ∙ rw e (ground arith)

bare_is_compound :
    (s : Str) (o : Option Str)
    → strip_suffix 115 s ≡ o
    → bare_or_compound s o ≡ compound 0 [] false s
bare_is_compound s none e = refl
bare_is_compound s (some num) e = elim (Bool-cases (not (is_empty num) && all is_digit num)) [
  | inr f ↦ rw f refl
  | inl f ↦
      let a = seconds_agree num (parse_i64 num) (parse_i64_bound num) refl f in
      rw (f, strip_suffix_lem 115 s num e, a) refl
]

no_number : (p : Part) (rest : Str) → IsPart p → parse_i64 (p.digits ++ p.unit ∷ rest) ≡ none
no_number p rest h = numeral p.digits h.0
  where
    numeral : (ds : Str) → IsNumeral ds → parse_i64 (ds ++ p.unit ∷ rest) ≡ none
    numeral [] n = absurd n
    numeral (d ∷ ds) n = parse_i64-broken d ds p.unit rest n.0 (unit_no_digit p.unit p.secs h.1)

-- A duration written in parts, each a numeral with the letter of a unit, is read as the sum of its
-- parts in seconds, when the sum is positive and fits in an `i64`.
pub parse_duration-written :
    (p : Part) (ps : List Part)
    → All IsPart (p ∷ ps)
    → 1 ≤ total_secs (p ∷ ps)
    → total_secs (p ∷ ps) < 2 ^ 63
    → parse_duration_secs (written (p ∷ ps)) ≡ some (total_secs (p ∷ ps))
unfolding parse_duration_secs
parse_duration-written p ps h l b =
    let s = written (p ∷ ps) in
    rw (no_number p (written ps) h.0) (
      bare_is_compound s (strip_suffix 115 s) refl
      ∙ compound_part 0 false p (written ps) h.0 (omega (arith, b))
      ∙ compound-written (0 + value 0 p.digits * p.secs) ps h.1 (omega (arith, l))
          (omega (arith, b))
      ∙ ap some (omega arith))
