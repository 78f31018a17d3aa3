-- ===== src/Tests/Sorting.antt =====
-- An insertion sort: it satisfies what the premerge asks of the sort of the standard library.
use Prim.Native.Nat.{Ordering}
use mathlib.Core.List.Perm
use mathlib.Core.List.{Perm}
use toki_sync.Prelude.{◌≡◌, ◌≢◌, refl, ◌∙◌, sym, ap, List, [], ◌∷◌, All, All-imp, arith}
use toki_sync.Prelude.Order.{IsLawful}
use toki_sync.Windows.{WireWindow}
use toki_sync.Windows.Premerge.{window_cmp, IsSorted, UnstableSort}
use toki_sync.Windows.Premerge.Unique.{window_key, key_cmp, key_cmp-IsLawful, window_cmp-key_cmp}

abbrev pub put_in :
    Ordering → WireWindow → WireWindow → List WireWindow → List WireWindow → List WireWindow
put_in Ordering.gt a b bs rest = b ∷ rest
put_in Ordering.lt a b bs rest = a ∷ b ∷ bs
put_in Ordering.eq a b bs rest = a ∷ b ∷ bs

abbrev pub insert_window : WireWindow → List WireWindow → List WireWindow
insert_window a [] = a ∷ []
insert_window a (b ∷ bs) = put_in (window_cmp a b) a b bs (insert_window a bs)

abbrev pub insertion_sort : List WireWindow → List WireWindow
insertion_sort [] = []
insertion_sort (a ∷ ws) = insert_window a (insertion_sort ws)

pub insert_window-perm :
    (a : WireWindow) (bs : List WireWindow) → Perm (insert_window a bs) (a ∷ bs)
insert_window-perm a [] = Perm.refl (a ∷ [])
insert_window-perm a (b ∷ bs) = by_order (window_cmp a b) (insert_window-perm a bs)
  where
    by_order :
        (o : Ordering)
        → Perm (insert_window a bs) (a ∷ bs)
        → Perm (put_in o a b bs (insert_window a bs)) (a ∷ b ∷ bs)
    by_order Ordering.gt h = Perm.trans (Perm.cons b h) (Perm.swap a b bs)
    by_order Ordering.lt h = Perm.refl (a ∷ b ∷ bs)
    by_order Ordering.eq h = Perm.refl (a ∷ b ∷ bs)

pub insertion_sort-perm : (ws : List WireWindow) → Perm (insertion_sort ws) ws
insertion_sort-perm [] = Perm.refl []
insertion_sort-perm (a ∷ ws) =
    Perm.trans (insert_window-perm a (insertion_sort ws)) (Perm.cons a (insertion_sort-perm ws))

module _ {A : Type 0} (cmp : A → A → Ordering) (l : IsLawful cmp) where
  lawful_flip : (a b : A) → cmp a b ≡ Ordering.gt → cmp b a ≢ Ordering.gt
  lawful_flip a b h k = let e = sym (l.lt_of_gt a b h) ∙ k in absurd (ground arith)

  by_first :
      (a b c : A) (o : Ordering)
      → cmp a b ≡ o
      → o ≢ Ordering.gt
      → cmp b c ≢ Ordering.gt
      → cmp a c ≢ Ordering.gt
  by_first a b c Ordering.gt e h k g = absurd (h refl)
  by_first a b c Ordering.eq e h k g = absurd (k (ap (λ x. cmp x c) (sym (l.eq_of_cmp a b e)) ∙ g))
  by_first a b c Ordering.lt e h k g =
      absurd (k (l.gt_of_lt c b (l.lt_trans c a b (l.lt_of_gt a c g) e)))

pub cmp_trans :
    (a b c : WireWindow)
    → window_cmp a b ≢ Ordering.gt
    → window_cmp b c ≢ Ordering.gt
    → window_cmp a c ≢ Ordering.gt
cmp_trans a b c =
    rw (window_cmp-key_cmp a b, window_cmp-key_cmp b c, window_cmp-key_cmp a c)
      (by_first key_cmp key_cmp-IsLawful (window_key a) (window_key b) (window_key c)
        (key_cmp (window_key a) (window_key b)) refl)

pub cmp_flip : (a b : WireWindow) → window_cmp a b ≡ Ordering.gt → window_cmp b a ≢ Ordering.gt
cmp_flip a b =
    rw (window_cmp-key_cmp a b, window_cmp-key_cmp b a)
      (lawful_flip key_cmp key_cmp-IsLawful (window_key a) (window_key b))

pub All-insert_window :
    (w a : WireWindow) (bs : List WireWindow)
    → window_cmp w a ≢ Ordering.gt
    → All (λ v. window_cmp w v ≢ Ordering.gt) bs
    → All (λ v. window_cmp w v ≢ Ordering.gt) (insert_window a bs)
All-insert_window w a [] h k = (h, tt)
All-insert_window w a (b ∷ bs) h k = by_order (window_cmp a b) (All-insert_window w a bs h k.1)
  where
    by_order :
        (o : Ordering)
        → All (λ v. window_cmp w v ≢ Ordering.gt) (insert_window a bs)
        → All (λ v. window_cmp w v ≢ Ordering.gt) (put_in o a b bs (insert_window a bs))
    by_order Ordering.gt rest = (k.0, rest)
    by_order Ordering.lt rest = (h, (k.0, k.1))
    by_order Ordering.eq rest = (h, (k.0, k.1))

pub insert_window-IsSorted :
    (a : WireWindow) (bs : List WireWindow) → IsSorted bs → IsSorted (insert_window a bs)
insert_window-IsSorted a [] h = (tt, tt)
insert_window-IsSorted a (b ∷ bs) h =
    by_order (window_cmp a b) refl (insert_window-IsSorted a bs h.1)
  where
    front : window_cmp a b ≢ Ordering.gt → IsSorted (a ∷ b ∷ bs)
    front le = ((le, All-imp (λ v k. cmp_trans a b v le k) bs h.0), h)

    by_order :
        (o : Ordering)
        → window_cmp a b ≡ o
        → IsSorted (insert_window a bs)
        → IsSorted (put_in o a b bs (insert_window a bs))
    by_order Ordering.gt e rest = (All-insert_window b a bs (cmp_flip a b e) h.0, rest)
    by_order Ordering.lt e rest = front (λ g. absurd (let q = sym e ∙ g in ground arith))
    by_order Ordering.eq e rest = front (λ g. absurd (let q = sym e ∙ g in ground arith))

pub insertion_sort-IsSorted : (ws : List WireWindow) → IsSorted (insertion_sort ws)
insertion_sort-IsSorted [] = tt
insertion_sort-IsSorted (a ∷ ws) =
    insert_window-IsSorted a (insertion_sort ws) (insertion_sort-IsSorted ws)

abbrev pub insertion_order : UnstableSort
insertion_order = record {
  sort = insertion_sort;
  sort_perm = insertion_sort-perm;
  sort-IsSorted = insertion_sort-IsSorted;
}
