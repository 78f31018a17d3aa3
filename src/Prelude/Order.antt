-- ===== src/Prelude/Order.antt =====
-- Total orders given by a comparison into `Ordering`, as `Ord::cmp` is, and their lexicographic chains.
use Prim.Native.Nat.{compare, Ordering}
use Prim.Native.Nat.Ordering.{lt, eq, gt}
use mathlib.Core.Path.{◌≡◌, refl}
use mathlib.Core.List.{[], ◌∷◌}
use native.Mathlib.Omega.{arith}
use toki_sync.Prelude.Text.{Str, str_cmp, then_with}
use toki_sync.Prelude.Int.{cmp_ℤ}

pub record IsLawful {ℓ} {A : Type ℓ} (cmp : A → A → Ordering) : Type ℓ where
  pub cmp_refl : (a : A) → cmp a a ≡ eq
  pub eq_of_cmp : (a b : A) → cmp a b ≡ eq → a ≡ b
  pub lt_of_gt : (a b : A) → cmp a b ≡ gt → cmp b a ≡ lt
  pub gt_of_lt : (a b : A) → cmp a b ≡ lt → cmp b a ≡ gt
  pub lt_trans : (a b c : A) → cmp a b ≡ lt → cmp b c ≡ lt → cmp a c ≡ lt

pub compare-IsLawful : IsLawful compare
compare-IsLawful = ground arith

pub cmp_ℤ-IsLawful : IsLawful cmp_ℤ
cmp_ℤ-IsLawful = record {
  cmp_refl = λ a. ground arith;
  eq_of_cmp = λ a b h. ground arith;
  lt_of_gt = λ a b h. ground arith;
  gt_of_lt = λ a b h. ground arith;
  lt_trans = λ a b c h k. ground arith;
}

str_cmp_refl : (a : Str) → str_cmp a a ≡ eq
unfolding str_cmp
str_cmp_refl [] = refl
str_cmp_refl (x ∷ a) = ground (arith, str_cmp_refl a)

str_eq_of_cmp : (a b : Str) → str_cmp a b ≡ eq → a ≡ b
unfolding str_cmp
str_eq_of_cmp [] [] h = refl
str_eq_of_cmp [] (y ∷ b) h = ground arith
str_eq_of_cmp (x ∷ a) [] h = ground arith
str_eq_of_cmp (x ∷ a) (y ∷ b) h = ground (arith, str_eq_of_cmp a b)

str_lt_of_gt : (a b : Str) → str_cmp a b ≡ gt → str_cmp b a ≡ lt
unfolding str_cmp
str_lt_of_gt [] [] h = ground arith
str_lt_of_gt [] (y ∷ b) h = ground arith
str_lt_of_gt (x ∷ a) [] h = refl
str_lt_of_gt (x ∷ a) (y ∷ b) h = ground (arith, str_lt_of_gt a b)

str_gt_of_lt : (a b : Str) → str_cmp a b ≡ lt → str_cmp b a ≡ gt
unfolding str_cmp
str_gt_of_lt [] [] h = ground arith
str_gt_of_lt [] (y ∷ b) h = refl
str_gt_of_lt (x ∷ a) [] h = ground arith
str_gt_of_lt (x ∷ a) (y ∷ b) h = ground (arith, str_gt_of_lt a b)

str_lt_trans : (a b c : Str) → str_cmp a b ≡ lt → str_cmp b c ≡ lt → str_cmp a c ≡ lt
unfolding str_cmp
str_lt_trans [] [] c h k = ground arith
str_lt_trans [] (y ∷ b) [] h k = ground arith
str_lt_trans [] (y ∷ b) (z ∷ c) h k = refl
str_lt_trans (x ∷ a) [] c h k = ground arith
str_lt_trans (x ∷ a) (y ∷ b) [] h k = ground arith
str_lt_trans (x ∷ a) (y ∷ b) (z ∷ c) h k = ground (arith, str_lt_trans a b c)

pub str_cmp-IsLawful : IsLawful str_cmp
str_cmp-IsLawful = record {
  cmp_refl = str_cmp_refl;
  eq_of_cmp = str_eq_of_cmp;
  lt_of_gt = str_lt_of_gt;
  gt_of_lt = str_gt_of_lt;
  lt_trans = str_lt_trans;
}

module _ {ℓ κ} {A : Type ℓ} {B : Type κ} (ca : A → A → Ordering) (cb : B → B → Ordering) where
  abbrev pub lex : A × B → A × B → Ordering
  lex x y = then_with (ca x.0 y.0) (cb x.1 y.1)

  pub lex-IsLawful : IsLawful ca → IsLawful cb → IsLawful {A = A × B} lex
  lex-IsLawful la lb = record {
    cmp_refl = λ x. simp (la.cmp_refl, lb.cmp_refl);
    eq_of_cmp = λ x y. ground (arith, la.eq_of_cmp x.0 y.0, lb.eq_of_cmp x.1 y.1);
    lt_of_gt = λ x y.
        ground
          (arith, la.eq_of_cmp x.0 y.0, la.cmp_refl x.0, la.lt_of_gt x.0 y.0, lb.lt_of_gt x.1 y.1);
    gt_of_lt = λ x y.
        ground
          (arith, la.eq_of_cmp x.0 y.0, la.cmp_refl x.0, la.gt_of_lt x.0 y.0, lb.gt_of_lt x.1 y.1);
    lt_trans = λ x y z.
        grind (arith, la.eq_of_cmp x.0 y.0, la.eq_of_cmp y.0 z.0, la.lt_trans, lb.lt_trans);
  }
