-- ===== src/Query/Totals/Ordered.antt =====
-- The buckets of src/server/handlers/metrics.rs stay in the order of their keys, and in bounds.
use Prim.Native.Nat.Ordering.{lt, eq, gt}
use toki_sync.Prelude.{
  ℕ, suc, ◌≤◌, ◌≡◌, ◌≢◌, refl, sym, ap, subst, ◌∙◌, true, false, Option, none, some, List, [], ◌∷◌,
  length, leb, arith, Bool-cases, inl, inr, All, All-imp,
}
use toki_sync.Events.{ServerEvent}
use toki_sync.Query.Aggregate.{
  Key, key_cmp, same_key, Float, ModelBucket, Buckets, find, put, Request, Totals,
  max_bucket_entries, add_to, add_event, aggregate_from, aggregate_events, is_selected, key_of,
}
use toki_sync.Query.Totals.{key_cmp-IsLawful, Ordering-cases, length-put, added, full}

gt_apart : (i k : Key) → key_cmp i k ≡ gt → same_key i k ≡ false
gt_apart i k h = rw (same_key, h) refl

eq_same : (i k : Key) → key_cmp i k ≡ eq → same_key i k ≡ true
eq_same i k h = rw (same_key, h) refl

lt_apart : (i k : Key) → key_cmp i k ≡ lt → same_key i k ≡ false
lt_apart i k h = rw (same_key, h) refl

module _ (R : Float) where
  abbrev Below : Key → Buckets R → Type 0
  Below k = All (λ x. key_cmp k x.0 ≡ lt)

  abbrev pub IsOrdered : Buckets R → Type 0
  IsOrdered [] = Unit
  IsOrdered ((k, b) ∷ bs) = Below k bs × IsOrdered bs

  Below-put :
      (j : Key) (bs : Buckets R) (k : Key) (v : ModelBucket R)
      → Below j bs
      → key_cmp j k ≡ lt
      → Below j (put R bs k v)
  unfolding put
  Below-put j [] k v h l = (l, tt)
  Below-put j ((i, b) ∷ bs) k v h l = elim (Ordering-cases (key_cmp i k)) [
    | inl e ↦ rw e (l, h.1)
    | inr (inl e) ↦ rw e (h.0, Below-put j bs k v h.1 l)
    | inr (inr e) ↦ rw e (l, h)
  ]

  put-IsOrdered :
      (bs : Buckets R) (k : Key) (v : ModelBucket R) → IsOrdered bs → IsOrdered (put R bs k v)
  unfolding put
  put-IsOrdered [] k v h = (tt, tt)
  put-IsOrdered ((i, b) ∷ bs) k v h = elim (Ordering-cases (key_cmp i k)) [
    | inl e ↦ rw e (subst (λ x. Below x bs) (key_cmp-IsLawful.eq_of_cmp i k e) h.0, h.1)
    | inr (inl e) ↦ rw e (Below-put i bs k v h.0 e, put-IsOrdered bs k v h.1)
    | inr (inr e) ↦
        let l = key_cmp-IsLawful.lt_of_gt i k e in
        rw e ((l, All-imp (λ x m. key_cmp-IsLawful.lt_trans k i x.0 l m) bs h.0), h)
  ]

  find-Below : (k : Key) (bs : Buckets R) → Below k bs → find R bs k ≡ none
  unfolding find
  find-Below k [] h = refl
  find-Below k ((i, b) ∷ bs) h =
      rw (gt_apart i k (key_cmp-IsLawful.gt_of_lt k i h.0), find-Below k bs h.1) refl

  none_ne : {b : ModelBucket R} → ◌≢◌ {A = Option (ModelBucket R)} none (some b)
  none_ne h = absurd (ground arith)

  length-replace :
      (bs : Buckets R) (k : Key) (v b : ModelBucket R)
      → IsOrdered bs
      → find R bs k ≡ some b
      → length (put R bs k v) ≡ length bs
  unfolding find put
  length-replace [] k v b o f = absurd (none_ne f)
  length-replace ((i, c) ∷ bs) k v b o f = elim (Ordering-cases (key_cmp i k)) [
    | inl e ↦ rw e refl
    | inr (inl e) ↦ rw e (ap suc (length-replace bs k v b o.1 (rw (lt_apart i k e) at f)))
    | inr (inr e) ↦
        let l = key_cmp-IsLawful.lt_of_gt i k e in
        let none_there =
          find-Below k bs (All-imp (λ x m. key_cmp-IsLawful.lt_trans k i x.0 l m) bs o.0) in
        absurd (none_ne (sym none_there ∙ (rw (gt_apart i k e) at f)))
  ]

  -- In order, and no more of them than the cap.
  abbrev pub IsBounded : Buckets R → Type 0
  IsBounded bs = IsOrdered bs × (length bs ≤ max_bucket_entries)

  module _ (r : Request R) where
    add_to-IsBounded :
        (t : Totals R) (e : ServerEvent) (o : Option (ModelBucket R))
        → find R t.buckets (key_of R r e) ≡ o
        → IsBounded t.buckets
        → IsBounded (add_to R r t e o).buckets
    add_to-IsBounded t e (some b) f h = (
      put-IsOrdered t.buckets (key_of R r e) (added R r (some b) e) h.0,
      subst (λ n. n ≤ max_bucket_entries)
          (sym (length-replace t.buckets (key_of R r e) (added R r (some b) e) b h.0 f)) h.1,
    )
    add_to-IsBounded t e none f h = elim (Bool-cases (full R r t)) [
      | inl q ↦ rw q h
      | inr q ↦ rw q (
        put-IsOrdered t.buckets (key_of R r e) (added R r none e) h.0,
        room (length t.buckets) (length (put R t.buckets (key_of R r e) (added R r none e))) q
            (length-put R t.buckets (key_of R r e) (added R r none e)),
      )
    ]
      where
        room : (n m : ℕ) → leb max_bucket_entries n ≡ false → m ≤ suc n → m ≤ max_bucket_entries
        room n m q h = ground arith

    add_event-IsBounded :
        (t : Totals R) (e : ServerEvent)
        → IsBounded t.buckets
        → IsBounded (add_event R r t e).buckets
    unfolding add_event
    add_event-IsBounded t e h = elim (Bool-cases (is_selected R r e)) [
      | inl s ↦ rw s (add_to-IsBounded t e (find R t.buckets (key_of R r e)) refl h)
      | inr s ↦ rw s h
    ]

    from-IsBounded :
        (t : Totals R) (es : List ServerEvent)
        → IsBounded t.buckets
        → IsBounded (aggregate_from R r t es).buckets
    unfolding aggregate_from
    from-IsBounded t [] h = h
    from-IsBounded t (e ∷ es) h = from-IsBounded (add_event R r t e) es (add_event-IsBounded t e h)

-- The buckets come in the order of their keys, each key once, and are no more than 50000.
pub aggregate_events-IsBounded :
    (R : Float) (r : Request R) (es : List ServerEvent)
    → IsBounded R (aggregate_events R r es).buckets
unfolding aggregate_events
aggregate_events-IsBounded R r es =
    from-IsBounded R r (record { buckets = []; truncated = false }) es (tt, ground arith)
