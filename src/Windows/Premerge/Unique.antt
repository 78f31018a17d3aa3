-- ===== src/Windows/Premerge/Unique.antt =====
-- After `premerge_windows` of src/sync/handler.rs each logical window stands once.
use Prim.Native.Nat.{Ordering}
use mathlib.Core.List.{reverse, reverse-cons}
use mathlib.Core.Bool.{true≢false}
use toki_sync.Prelude.{
  ◌≡◌, ◌≢◌, ◌↔◌, refl, sym, ◌∙◌, subst, ℕ, ℤ, Str, true, false, List, [], ◌∷◌, ◌++◌, All, All-imp,
  All-append, compare, str_cmp, str_eq_iff, eqb_ℤ_iff, cmp_ℤ, arith, Bool-cases, inl, inr,
}
use toki_sync.Prelude.Order.{
  IsLawful, compare-IsLawful, str_cmp-IsLawful, cmp_ℤ-IsLawful, lex, lex-IsLawful,
}
use toki_sync.Windows.{WireWindow}
use toki_sync.Windows.Merge.{merge_wire_windows}
use toki_sync.Windows.Premerge.{
  window_cmp, IsSorted, UnstableSort, is_duplicate, push_or_merge, premerge_loop, premerge_windows,
}

abbrev pub WindowKey : Type 0
WindowKey = record { 0 : record { 0 : record { 0 : ℕ; 1 : Str }; 1 : Str }; 1 : ℤ }

abbrev pub window_key : WireWindow → WindowKey
window_key w = (((w.window_kind, w.limit_id), w.account), w.window_end_ms)

abbrev pub key_cmp : WindowKey → WindowKey → Ordering
key_cmp = lex (lex (lex compare str_cmp) str_cmp) cmp_ℤ

pub key_cmp-IsLawful : IsLawful key_cmp
key_cmp-IsLawful =
    lex-IsLawful (lex (lex compare str_cmp) str_cmp) cmp_ℤ
      (lex-IsLawful (lex compare str_cmp) str_cmp
        (lex-IsLawful compare str_cmp compare-IsLawful str_cmp-IsLawful) str_cmp-IsLawful)
      cmp_ℤ-IsLawful

pub window_cmp-key_cmp : (a b : WireWindow) → window_cmp a b ≡ key_cmp (window_key a) (window_key b)
unfolding window_cmp
window_cmp-key_cmp a b = refl

pub is_duplicate_iff :
    (a b : WireWindow) → (is_duplicate a b ≡ true) ↔ (window_key a ≡ window_key b)
unfolding is_duplicate
is_duplicate_iff a b = ground (
  arith,
  str_eq_iff a.limit_id b.limit_id,
  str_eq_iff a.account b.account,
  eqb_ℤ_iff a.window_end_ms b.window_end_ms,
)

pub window_key-merge : (p w : WireWindow) → window_key (merge_wire_windows p w) ≡ window_key p
unfolding merge_wire_windows
window_key-merge p w = refl

-- Key order on windows.
abbrev ordered : WireWindow → WireWindow → Ordering
ordered a b = key_cmp (window_key a) (window_key b)

-- The loop's list has its largest window in front.
abbrev IsDescending : List WireWindow → Type 0
IsDescending [] = Unit
IsDescending (p ∷ ms) = All (λ q. ordered q p ≡ Ordering.lt) ms × IsDescending ms

-- What is still to come is not smaller than the last window.
abbrev NotBefore : List WireWindow → List WireWindow → Type 0
NotBefore [] ws = Unit
NotBefore (p ∷ ms) ws = All (λ v. ordered p v ≢ Ordering.gt) ws

lt_of_not_duplicate :
    (p w : WireWindow)
    → is_duplicate p w ≡ false
    → ordered p w ≢ Ordering.gt
    → ordered p w ≡ Ordering.lt
lt_of_not_duplicate p w d g = go (ordered p w) refl
  where
    go : (o : Ordering) → ordered p w ≡ o → ordered p w ≡ Ordering.lt
    go Ordering.lt e = e
    go Ordering.gt e = absurd (g e)
    go Ordering.eq e =
        absurd (true≢false (sym ((is_duplicate_iff p w).1 (key_cmp-IsLawful.eq_of_cmp _ _ e)) ∙ d))

module _ (p w : WireWindow) (ms : List WireWindow) where
  push_or_merge-IsDescending :
      ordered p w ≢ Ordering.gt → IsDescending (p ∷ ms) → IsDescending (push_or_merge (p ∷ ms) w)
  unfolding push_or_merge
  push_or_merge-IsDescending g h = elim (Bool-cases (is_duplicate p w)) [
    | inl e ↦ rw e (
      All-imp
          (λ q hq.
            subst (λ k. key_cmp (window_key q) k ≡ Ordering.lt) (sym (window_key-merge p w)) hq)
          ms h.0,
      h.1,
    )
    | inr e ↦
        let l = lt_of_not_duplicate p w e g in
        rw e (
          (
            l,
            All-imp
                (λ q hq.
                  key_cmp-IsLawful.lt_trans (window_key q) (window_key p) (window_key w) hq l)
                ms h.0,
          ),
          h,
        )
  ]

  push_or_merge-NotBefore :
      (ws : List WireWindow)
      → NotBefore (p ∷ ms) ws
      → All (λ v. ordered w v ≢ Ordering.gt) ws
      → NotBefore (push_or_merge (p ∷ ms) w) ws
  unfolding push_or_merge
  push_or_merge-NotBefore ws h k = elim (Bool-cases (is_duplicate p w)) [
    | inl e ↦ rw e (
        All-imp
          (λ v hv.
            subst (λ k. key_cmp k (window_key v) ≢ Ordering.gt) (sym (window_key-merge p w)) hv)
          ws h)
    | inr e ↦ rw e k
  ]

premerge_loop-IsDescending :
    (merged ws : List WireWindow)
    → IsDescending merged
    → NotBefore merged ws
    → IsSorted ws
    → IsDescending (premerge_loop merged ws)
unfolding premerge_loop window_cmp
premerge_loop-IsDescending merged [] h b s = h
premerge_loop-IsDescending [] (w ∷ ws) h b s =
    premerge_loop-IsDescending (push_or_merge [] w) ws (unfold push_or_merge in (tt, tt))
      (unfold push_or_merge in s.0) s.1
premerge_loop-IsDescending (p ∷ ms) (w ∷ ws) h b s =
    premerge_loop-IsDescending (push_or_merge (p ∷ ms) w) ws
      (push_or_merge-IsDescending p w ms b.0 h) (push_or_merge-NotBefore p w ms ws b.1 s.0) s.1

-- Each window comes before all that follow it, so no two are the same.
abbrev pub IsStrictlySorted : List WireWindow → Type 0
IsStrictlySorted [] = Unit
IsStrictlySorted (w ∷ ws) = All (λ v. window_cmp w v ≡ Ordering.lt) ws × IsStrictlySorted ws

snoc_strict :
    (xs : List WireWindow) (p : WireWindow)
    → IsStrictlySorted xs
    → All (λ x. window_cmp x p ≡ Ordering.lt) xs
    → IsStrictlySorted (xs ++ p ∷ [])
snoc_strict [] p h k = (tt, tt)
snoc_strict (x ∷ xs) p h k = (
  All-append (λ v. window_cmp x v ≡ Ordering.lt) xs (p ∷ []) h.0 (k.0, tt),
  snoc_strict xs p h.1 k.1,
)

All-reverse : (P : WireWindow → Type 0) (xs : List WireWindow) → All P xs → All P (reverse xs)
All-reverse P [] h = tt
All-reverse P (x ∷ xs) h =
    rw (reverse-cons x xs) (All-append P (reverse xs) (x ∷ []) (All-reverse P xs h.1) (h.0, tt))

reverse-strict : (ms : List WireWindow) → IsDescending ms → IsStrictlySorted (reverse ms)
reverse-strict [] h = tt
reverse-strict (p ∷ ms) h = rw (reverse-cons p ms) (
    snoc_strict (reverse ms) p (reverse-strict ms h.1) (
      All-reverse (λ q. window_cmp q p ≡ Ordering.lt) ms
        (All-imp (λ q hq. window_cmp-key_cmp q p ∙ hq) ms h.0)))

-- However the sort orders duplicates, the merged batch is strictly increasing in the comparison, so
-- no logical window is in it twice.
pub premerge-IsStrictlySorted :
    (s : UnstableSort) (items : List WireWindow) → IsStrictlySorted (premerge_windows s items)
unfolding premerge_windows
premerge-IsStrictlySorted s items =
    reverse-strict (premerge_loop [] (s.sort items))
      (premerge_loop-IsDescending [] (s.sort items) tt tt (s.sort-IsSorted items))
