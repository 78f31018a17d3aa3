-- ===== src/Query/Totals.antt =====
-- What one event does to the buckets of src/server/handlers/metrics.rs.
pub mod Complete
pub mod Ordered
pub mod Sums
use Prim.Native.Nat.Ordering.{lt, eq, gt}
use toki_sync.Prelude.{
  ℕ, zero, suc, ◌+◌, ◌≤◌, ◌<◌, ◌≡◌, ◌≢◌, refl, sym, subst, ap, ◌∙◌, Bool, true, false, ◌&&◌, not,
  Option, none, some, List, [], ◌∷◌, Str, str_cmp, length, leb, if◌then◌else◌, arith, ℤ, cmp_ℤ,
  Bool-cases, Option-cases, inl, inr, ◌⊎◌, if◌then◌else◌, Ordering,
}
use toki_sync.Prelude.Order.{lex, lex-IsLawful, IsLawful, cmp_ℤ-IsLawful, str_cmp-IsLawful}
use toki_sync.Events.{ServerEvent}
use toki_sync.Query.Aggregate.{
  Key, key_cmp, same_key, Float, ModelBucket, new_bucket, accumulate, Buckets, find, put, Request,
  Totals, key_of, is_selected, max_bucket_entries, add_to, add_event, aggregate_from,
  aggregate_events,
}

pub key_cmp-IsLawful : IsLawful key_cmp
unfolding key_cmp
key_cmp-IsLawful =
    lex-IsLawful cmp_ℤ (lex str_cmp str_cmp) cmp_ℤ-IsLawful
      (lex-IsLawful str_cmp str_cmp str_cmp-IsLawful str_cmp-IsLawful)

pub same_key-eq : (j k : Key) → same_key j k ≡ true → j ≡ k
same_key-eq j k h = key_cmp-IsLawful.eq_of_cmp j k (was_eq (key_cmp j k) h)
  where
    was_eq : (o : Ordering) → elim o [ eq ↦ true | lt ↦ false | gt ↦ false ] ≡ true → o ≡ eq
    was_eq eq h = refl
    was_eq lt h = absurd (ground arith)
    was_eq gt h = absurd (ground arith)

same_key_refl : (k : Key) → same_key k k ≡ true
same_key_refl k = rw (same_key, key_cmp-IsLawful.cmp_refl k) refl

pub Ordering-cases : (o : Ordering) → (o ≡ eq) ⊎ ((o ≡ lt) ⊎ (o ≡ gt))
Ordering-cases eq = inl refl
Ordering-cases lt = inr (inl refl)
Ordering-cases gt = inr (inr refl)

-- A key that is less than another is not the same as it.
lt_apart : (i k j : Key) → key_cmp i k ≡ lt → same_key i j ≡ true → same_key k j ≡ false
lt_apart i k j h e = elim (Bool-cases (same_key k j)) [
  | inr f ↦ f
  | inl f ↦
      let same : i ≡ k = same_key-eq i j e ∙ sym (same_key-eq k j f) in
      absurd (lt_ne (sym (key_cmp-IsLawful.cmp_refl k) ∙ ap (λ x. key_cmp x k) (sym same) ∙ h))
]
  where
    lt_ne : eq ≢ lt
    lt_ne h = absurd (ground arith)

module _ (R : Float) where
  find-put :
      (bs : Buckets R) (k j : Key) (v : ModelBucket R)
      → find R (put R bs k v) j ≡ (if same_key k j then some v else find R bs j)
  unfolding find put
  find-put [] k j v = refl
  find-put ((i, b) ∷ bs) k j v = elim (Ordering-cases (key_cmp i k)) [
    | inl e ↦
        rw (e, key_cmp-IsLawful.eq_of_cmp i k e)
          (same_twice (same_key k j) (some v) (some b) (find R bs j))
    | inr (inl e) ↦
        rw (e, find-put bs k j v)
          (apart (same_key i j) (same_key k j) (lt_apart i k j e) (some b) (some v) (find R bs j))
    | inr (inr e) ↦ rw e refl
  ]
    where
      same_twice :
          (c : Bool) (x y z : Option (ModelBucket R))
          → (if c then x else z) ≡ (if c then x else if c then y else z)
      same_twice true x y z = refl
      same_twice false x y z = refl

      apart :
          (c d : Bool)
          → (c ≡ true → d ≡ false)
          → (x y z : Option (ModelBucket R))
          → (if c then x else if d then y else z) ≡ (if d then y else if c then x else z)
      apart true d h x y z = rw (h refl) refl
      apart false true h x y z = refl
      apart false false h x y z = refl

  pub length-put-le :
      (bs : Buckets R) (k : Key) (v : ModelBucket R) → length bs ≤ length (put R bs k v)
  unfolding put
  length-put-le [] k v = omega arith
  length-put-le ((i, b) ∷ bs) k v = ground (arith, length-put-le bs k v)

  pub length-put :
      (bs : Buckets R) (k : Key) (v : ModelBucket R) → length (put R bs k v) ≤ suc (length bs)
  unfolding put
  length-put [] k v = omega arith
  length-put ((i, b) ∷ bs) k v = ground (arith, length-put bs k v)

  module _ (r : Request R) where
    -- The event belongs in the bucket of a key.
    abbrev pub is_for : Key → ServerEvent → Bool
    is_for k e = is_selected R r e && same_key (key_of R r e) k

    abbrev pub added : Option (ModelBucket R) → ServerEvent → ModelBucket R
    added none e = accumulate R r.is_events r.include_cost r.pricing (new_bucket R) e
    added (some b) e = accumulate R r.is_events r.include_cost r.pricing b e

    -- The bucket of one key, from the events for that key alone.
    unfoldable pub bucket_for :
        Key → Option (ModelBucket R) → List ServerEvent → Option (ModelBucket R)
    bucket_for k o [] = o
    bucket_for k o (e ∷ es) =
        if is_for k e then bucket_for k (some (added o e)) es else bucket_for k o es

    abbrev pub full : Totals R → Bool
    full t = leb max_bucket_entries (length t.buckets)

    -- What one event does to the bucket of a key.
    pub data Effect (t : Totals R) (e : ServerEvent) (k : Key) : Type 0 where
      missed :
          is_for k e ≡ false
          → find R (add_event R r t e).buckets k ≡ find R t.buckets k
          → Effect t e k
      hit :
          is_for k e ≡ true
          → find R (add_event R r t e).buckets k ≡ some (added (find R t.buckets k) e)
          → (find R t.buckets k ≡ none → full t ≡ false)
          → Effect t e k
      dropped :
          find R t.buckets k ≡ none
          → full t ≡ true
          → find R (add_event R r t e).buckets k ≡ none
          → (add_event R r t e).truncated ≡ true
          → Effect t e k

    module _ (t : Totals R) (e : ServerEvent) (k : Key) (sel : is_selected R r e ≡ true) where
      -- The event's own bucket is replaced.
      replaced :
          (o : Option (ModelBucket R))
          → find R t.buckets (key_of R r e) ≡ o
          → add_event R r t e ≡ record t { buckets = put R t.buckets (key_of R r e) (added o e) }
          → (o ≡ none → full t ≡ false)
          → Effect t e k
      replaced o f h room = elim (Bool-cases (same_key (key_of R r e) k)) [
        | inl s ↦
            hit (rw (sel, s) refl)
              (ap (λ x. find R x.buckets k) h
                ∙ find-put t.buckets (key_of R r e) k (added o e)
                ∙ rw (s, sym f, same_key-eq (key_of R r e) k s) refl)
              (λ n. room (sym f ∙ rw (same_key-eq (key_of R r e) k s) n))
        | inr s ↦ missed (rw (sel, s) refl) (
            ap (λ x. find R x.buckets k) h
            ∙ find-put t.buckets (key_of R r e) k (added o e)
            ∙ rw s refl)
      ]

      refused :
          find R t.buckets (key_of R r e) ≡ none
          → full t ≡ true
          → add_event R r t e ≡ record t { truncated = true }
          → Effect t e k
      refused f q h = elim (Bool-cases (same_key (key_of R r e) k)) [
        | inl s ↦
            let n : find R t.buckets k ≡ none =
              subst (λ x. find R t.buckets x ≡ none) (same_key-eq (key_of R r e) k s) f in
            dropped n q (ap (λ x. find R x.buckets k) h ∙ n) (ap (λ x. x.truncated) h)
        | inr s ↦ missed (rw (sel, s) refl) (ap (λ x. find R x.buckets k) h)
      ]

      selected_effect :
          (o : Option (ModelBucket R)) → find R t.buckets (key_of R r e) ≡ o → Effect t e k
      unfolding add_event
      selected_effect (some b) f =
          replaced (some b) f (rw (sel, f) refl) (λ n. absurd (ground arith))
      selected_effect none f = elim (Bool-cases (full t)) [
        | inl q ↦ refused f q (rw (sel, f, q) refl)
        | inr q ↦ replaced none f (rw (sel, f, q) refl) (λ n. q)
      ]

    pub effect : (t : Totals R) (e : ServerEvent) (k : Key) → Effect t e k
    unfolding add_event
    effect t e k = elim (Bool-cases (is_selected R r e)) [
      | inl sel ↦ selected_effect t e k sel (find R t.buckets (key_of R r e)) refl
      | inr sel ↦ missed (rw sel refl) (rw sel refl)
    ]

    add_to-truncated :
        (t : Totals R) (e : ServerEvent) (o : Option (ModelBucket R))
        → t.truncated ≡ true
        → (add_to R r t e o).truncated ≡ true
    add_to-truncated t e (some b) h = h
    add_to-truncated t e none h = elim (Bool-cases (full t)) [ inl q ↦ rw q refl | inr q ↦ rw q h ]

    pub truncated-add_event :
        (t : Totals R) (e : ServerEvent) → t.truncated ≡ true → (add_event R r t e).truncated ≡ true
    unfolding add_event
    truncated-add_event t e h = elim (Bool-cases (is_selected R r e)) [
      | inl s ↦ rw s (add_to-truncated t e (find R t.buckets (key_of R r e)) h)
      | inr s ↦ rw s h
    ]

    add_to-length :
        (t : Totals R) (e : ServerEvent) (o : Option (ModelBucket R))
        → length t.buckets ≤ length (add_to R r t e o).buckets
    add_to-length t e (some b) = length-put-le t.buckets (key_of R r e) (added (some b) e)
    add_to-length t e none = elim (Bool-cases (full t)) [
      | inl q ↦ rw q (omega arith)
      | inr q ↦ rw q (length-put-le t.buckets (key_of R r e) (added none e))
    ]

    -- No bucket goes.
    pub length-add_event-le :
        (t : Totals R) (e : ServerEvent) → length t.buckets ≤ length (add_event R r t e).buckets
    unfolding add_event
    length-add_event-le t e = elim (Bool-cases (is_selected R r e)) [
      | inl s ↦ rw s (add_to-length t e (find R t.buckets (key_of R r e)))
      | inr s ↦ rw s (omega arith)
    ]
