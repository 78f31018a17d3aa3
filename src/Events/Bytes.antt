-- ===== src/Events/Bytes.antt =====
-- `i64::to_be_bytes` and `i64::from_be_bytes`, which the keys of src/events/fjall_store.rs use.
use toki_sync.Prelude.{
  ℕ, zero, suc, ◌+◌, ◌-◌, ◌*◌, ◌/◌, ◌%◌, ◌^◌, ◌<◌, ◌≡◌, refl, ◌∙◌, ap, List, [], ◌∷◌, ◌++◌, Str, ℤ,
  pos, negsuc, length, take, drop, arith, ltb, if◌then◌else◌, length-append,
}

-- Two's complement in 64 bits.
unfoldable pub to_bits : ℤ → ℕ
to_bits (pos n) = n % 2 ^ 64
to_bits (negsuc n) = 2 ^ 64 - 1 - n % 2 ^ 64

unfoldable pub of_bits : ℕ → ℤ
of_bits u = if ltb u (2 ^ 63) then pos u else negsuc (2 ^ 64 - 1 - u)

-- The last `k` bytes of a number, the highest first.
unfoldable pub be : ℕ → ℕ → List ℕ
be zero u = []
be (suc k) u = be k (u / 256) ++ u % 256 ∷ []

abbrev pub be_value : ℕ → List ℕ → ℕ
be_value acc [] = acc
be_value acc (b ∷ bs) = be_value (acc * 256 + b) bs

unfoldable pub to_be_bytes : ℤ → List ℕ
to_be_bytes z = be 8 (to_bits z)

unfoldable pub from_be_bytes : List ℕ → ℤ
from_be_bytes bs = of_bits (be_value 0 bs)

abbrev pub IsI64 : ℤ → Type 0
IsI64 (pos n) = n < 2 ^ 63
IsI64 (negsuc n) = n < 2 ^ 63

be_value-snoc : (acc b : ℕ) (bs : List ℕ) → be_value acc (bs ++ b ∷ []) ≡ be_value acc bs * 256 + b
be_value-snoc acc b [] = refl
be_value-snoc acc b (c ∷ bs) = be_value-snoc (acc * 256 + c) b bs

abbrev span : ℕ → ℕ
span zero = 1
span (suc k) = span k * 256

be_value-be : (k u : ℕ) → u < span k → be_value 0 (be k u) ≡ u
unfolding be
be_value-be zero u h = omega arith
be_value-be (suc k) u h =
    omega (arith, be_value-snoc 0 (u % 256) (be k (u / 256)), be_value-be k (u / 256) (omega arith))

pub length-be : (k u : ℕ) → length (be k u) ≡ k
unfolding be
length-be zero u = refl
length-be (suc k) u =
    omega (arith, length-append (be k (u / 256)) (u % 256 ∷ []), length-be k (u / 256))

of_bits-to_bits : (z : ℤ) → IsI64 z → of_bits (to_bits z) ≡ z
unfolding of_bits to_bits
of_bits-to_bits (pos n) h = ground arith
of_bits-to_bits (negsuc n) h = ground arith

to_bits_lt : (z : ℤ) → to_bits z < 2 ^ 64
unfolding to_bits
to_bits_lt (pos n) = omega arith
to_bits_lt (negsuc n) = omega arith

-- An `i64` reads back from its bytes.
pub from-to_be_bytes : (z : ℤ) → IsI64 z → from_be_bytes (to_be_bytes z) ≡ z
unfolding from_be_bytes to_be_bytes
from-to_be_bytes z h =
    ap of_bits (be_value-be 8 (to_bits z) (omega (arith, to_bits_lt z))) ∙ of_bits-to_bits z h

pub take-length : (n : ℕ) (xs ys : Str) → length xs ≡ n → take n (xs ++ ys) ≡ xs
take-length zero [] ys h = refl
take-length zero (x ∷ xs) ys h = absurd (omega arith)
take-length (suc n) [] ys h = absurd (omega arith)
take-length (suc n) (x ∷ xs) ys h = ap (◌∷◌ x) (take-length n xs ys (omega arith))

pub drop-length : (n : ℕ) (xs ys : Str) → length xs ≡ n → drop n (xs ++ ys) ≡ ys
drop-length zero [] ys h = refl
drop-length zero (x ∷ xs) ys h = absurd (omega arith)
drop-length (suc n) [] ys h = absurd (omega arith)
drop-length (suc n) (x ∷ xs) ys h = drop-length n xs ys (omega arith)
