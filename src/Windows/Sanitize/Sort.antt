-- ===== src/Windows/Sanitize/Sort.antt =====
-- `items.sort_by_key(|w| Reverse(key(w)))` of the standard library: a stable sort, largest key first.
use mathlib.Core.List.Perm
use mathlib.Core.List.{Perm}
use toki_sync.Prelude.{
  ℕ, ◌≡◌, refl, ℤ, ◌≤ℤ◌, leb_ℤ, List, [], ◌∷◌, take, drop, length, All, All-imp, if◌then◌else◌,
  Bool-cases, inl, inr, arith, zero, suc,
}

module _ {ℓ} {A : Type ℓ} (key : A → ℤ) where
  -- Equal keys keep their order: the new element comes from the front.
  unfoldable pub insert_rev : A → List A → List A
  insert_rev a [] = a ∷ []
  insert_rev a (b ∷ bs) = if leb_ℤ (key b) (key a) then a ∷ b ∷ bs else b ∷ insert_rev a bs

  unfoldable pub sort_by_key_rev : List A → List A
  sort_by_key_rev [] = []
  sort_by_key_rev (a ∷ as') = insert_rev a (sort_by_key_rev as')

  -- Largest key first.
  abbrev pub IsNewestFirst : List A → Type 0
  IsNewestFirst [] = Unit
  IsNewestFirst (a ∷ as') = All (λ b. key b ≤ℤ key a) as' × IsNewestFirst as'

  All-insert_rev {κ} :
      (P : A → Type κ) (a : A) (bs : List A) → P a → All P bs → All P (insert_rev a bs)
  unfolding insert_rev
  All-insert_rev P a [] ha hb = (ha, tt)
  All-insert_rev P a (b ∷ bs) ha hb = elim (Bool-cases (leb_ℤ (key b) (key a))) [
    | inl e ↦ rw e (ha, hb)
    | inr e ↦ rw e (hb.0, All-insert_rev P a bs ha hb.1)
  ]

  pub All-sort_by_key_rev {κ} :
      (P : A → Type κ) (as' : List A) → All P as' → All P (sort_by_key_rev as')
  unfolding sort_by_key_rev
  All-sort_by_key_rev P [] h = tt
  All-sort_by_key_rev P (a ∷ as') h =
      All-insert_rev P a (sort_by_key_rev as') h.0 (All-sort_by_key_rev P as' h.1)

  insert_rev-IsNewestFirst :
      (a : A) (bs : List A) → IsNewestFirst bs → IsNewestFirst (insert_rev a bs)
  unfolding insert_rev
  insert_rev-IsNewestFirst a [] h = (tt, tt)
  insert_rev-IsNewestFirst a (b ∷ bs) h = elim (Bool-cases (leb_ℤ (key b) (key a))) [
    | inl e ↦
        let hb : key b ≤ℤ key a = ground arith in
        rw e ((hb, All-imp {P = λ c. key c ≤ℤ key b} (λ c hc. omega arith) bs h.0), h)
    | inr e ↦
        let hb : key a ≤ℤ key b = ground arith in
        rw e (All-insert_rev (λ c. key c ≤ℤ key b) a bs hb h.0, insert_rev-IsNewestFirst a bs h.1)
  ]

  pub sort_by_key_rev-IsNewestFirst : (as' : List A) → IsNewestFirst (sort_by_key_rev as')
  unfolding sort_by_key_rev
  sort_by_key_rev-IsNewestFirst [] = tt
  sort_by_key_rev-IsNewestFirst (a ∷ as') =
      insert_rev-IsNewestFirst a (sort_by_key_rev as') (sort_by_key_rev-IsNewestFirst as')

  length-insert_rev : (a : A) (bs : List A) → length (insert_rev a bs) ≡ suc (length bs)
  unfolding insert_rev
  length-insert_rev a [] = refl
  length-insert_rev a (b ∷ bs) = ground (arith, length-insert_rev a bs)

  pub length-sort_by_key_rev : (as' : List A) → length (sort_by_key_rev as') ≡ length as'
  unfolding sort_by_key_rev
  length-sort_by_key_rev [] = refl
  length-sort_by_key_rev (a ∷ as') =
      omega (arith, length-insert_rev a (sort_by_key_rev as'), length-sort_by_key_rev as')

  insert_rev-perm : (a : A) (bs : List A) → Perm (insert_rev a bs) (a ∷ bs)
  unfolding insert_rev
  insert_rev-perm a [] = Perm.refl (a ∷ [])
  insert_rev-perm a (b ∷ bs) = elim (Bool-cases (leb_ℤ (key b) (key a))) [
    | inl e ↦ rw e (Perm.refl (a ∷ b ∷ bs))
    | inr e ↦ rw e (Perm.trans (Perm.cons b (insert_rev-perm a bs)) (Perm.swap a b bs))
  ]

  -- A sort rearranges.
  pub sort_by_key_rev-perm : (as' : List A) → Perm (sort_by_key_rev as') as'
  unfolding sort_by_key_rev
  sort_by_key_rev-perm [] = Perm.refl []
  sort_by_key_rev-perm (a ∷ as') =
      Perm.trans (insert_rev-perm a (sort_by_key_rev as')) (Perm.cons a (sort_by_key_rev-perm as'))

  -- Whatever a cut of a sorted list leaves out is no newer than what it keeps.
  pub cut_newest :
      (n : ℕ) (as' : List A)
      → IsNewestFirst as'
      → All (λ a. All (λ b. key b ≤ℤ key a) (drop n as')) (take n as')
  cut_newest zero as' h = tt
  cut_newest (suc n) [] h = tt
  cut_newest (suc n) (a ∷ as') h = (All_drop n as' h.0, cut_newest n as' h.1)
    where
      All_drop :
          (k : ℕ) (bs : List A)
          → All (λ b. key b ≤ℤ key a) bs
          → All (λ b. key b ≤ℤ key a) (drop k bs)
      All_drop zero bs hb = hb
      All_drop (suc k) [] hb = tt
      All_drop (suc k) (b ∷ bs) hb = All_drop k bs hb.1
