-- ===== src/Query/Totals/Complete.antt =====
-- The buckets of src/server/handlers/metrics.rs hold all that is for them, whether or not some are
-- refused for want of room.
use toki_sync.Prelude.{
  ◌≡◌, ◌≢◌, refl, sym, ap, ◌∙◌, true, false, Option, none, some, List, [], ◌∷◌, arith,
}
use toki_sync.Events.{ServerEvent}
use toki_sync.Query.Aggregate.{
  Key, Float, ModelBucket, find, Request, Totals, add_event, aggregate_from, aggregate_events,
}
use toki_sync.Query.Totals.{
  added, bucket_for, full, missed, hit, dropped, effect, length-add_event-le, truncated-add_event,
}

module _ (R : Float) (r : Request R) where
  none_ne : {b : ModelBucket R} → ◌≢◌ {A = Option (ModelBucket R)} none (some b)
  none_ne h = absurd (ground arith)

  true_ne : true ≢ false
  true_ne h = absurd (ground arith)

  -- A bucket that is there goes on to get all that is for it.
  kept :
      (t : Totals R) (k : Key) (b : ModelBucket R) (es : List ServerEvent)
      → find R t.buckets k ≡ some b
      → find R (aggregate_from R r t es).buckets k ≡ bucket_for R r k (some b) es
  unfolding aggregate_from bucket_for
  kept t k b [] f = f
  kept t k b (e ∷ es) f = elim (effect R r t e k) [
    | missed n h ↦ rw n (kept (add_event R r t e) k b es (h ∙ f))
    | hit y h room ↦ rw y (
        kept (add_event R r t e) k (added R r (some b) e) es (h ∙ ap (λ o. some (added R r o e)) f))
    | dropped f' q h c ↦ absurd (none_ne (sym f' ∙ f))
  ]

  full-add_event :
      (t : Totals R) (e : ServerEvent) → full R r t ≡ true → full R r (add_event R r t e) ≡ true
  full-add_event t e h = ground (arith, h, length-add_event-le R r t e)

  -- Once there is no room, a bucket that is not there never comes.
  lost :
      (t : Totals R) (k : Key) (es : List ServerEvent)
      → find R t.buckets k ≡ none
      → full R r t ≡ true
      → find R (aggregate_from R r t es).buckets k ≡ none
  unfolding aggregate_from
  lost t k [] f q = f
  lost t k (e ∷ es) f q = elim (effect R r t e k) [
    | missed n h ↦ lost (add_event R r t e) k es (h ∙ f) (full-add_event t e q)
    | hit y h room ↦ absurd (true_ne (sym q ∙ room f))
    | dropped f' q' h c ↦ lost (add_event R r t e) k es h (full-add_event t e q)
  ]

  present :
      (t : Totals R) (k : Key) (b : ModelBucket R) (es : List ServerEvent)
      → find R t.buckets k ≡ none
      → find R (aggregate_from R r t es).buckets k ≡ some b
      → bucket_for R r k none es ≡ some b
  unfolding aggregate_from bucket_for
  present t k b [] f g = absurd (none_ne (sym f ∙ g))
  present t k b (e ∷ es) f g = elim (effect R r t e k) [
    | missed n h ↦ rw n (present (add_event R r t e) k b es (h ∙ f) g)
    | hit y h room ↦ rw y (
        sym
          (kept (add_event R r t e) k (added R r none e) es (h ∙ ap (λ o. some (added R r o e)) f))
        ∙ g)
    | dropped f' q h c ↦
        absurd (none_ne (sym (lost (add_event R r t e) k es h (full-add_event t e q)) ∙ g))
  ]

  truncated_stays :
      (t : Totals R) (es : List ServerEvent)
      → t.truncated ≡ true
      → (aggregate_from R r t es).truncated ≡ true
  unfolding aggregate_from
  truncated_stays t [] h = h
  truncated_stays t (e ∷ es) h =
      truncated_stays (add_event R r t e) es (truncated-add_event R r t e h)

  whole :
      (t : Totals R) (k : Key) (es : List ServerEvent)
      → (aggregate_from R r t es).truncated ≡ false
      → find R (aggregate_from R r t es).buckets k ≡ bucket_for R r k (find R t.buckets k) es
  unfolding aggregate_from bucket_for
  whole t k [] h = refl
  whole t k (e ∷ es) g = elim (effect R r t e k) [
    | missed n h ↦ rw n (whole (add_event R r t e) k es g ∙ ap (λ o. bucket_for R r k o es) h)
    | hit y h room ↦ rw y (whole (add_event R r t e) k es g ∙ ap (λ o. bucket_for R r k o es) h)
    | dropped f' q h c ↦ absurd (true_ne (sym (truncated_stays (add_event R r t e) es c) ∙ g))
  ]

-- Every bucket of the result is what the events for its key give, in order, from an empty bucket: also
-- when the cap refused other buckets.
pub present_is_complete :
    (R : Float) (r : Request R) (es : List ServerEvent) (k : Key) (b : ModelBucket R)
    → find R (aggregate_events R r es).buckets k ≡ some b
    → bucket_for R r k none es ≡ some b
unfolding aggregate_events find
present_is_complete R r es k b h =
    present R r (record { buckets = []; truncated = false }) k b es refl h

-- A result that is not flagged as truncated holds, for each key, just what the events for that key give:
-- a bucket if there are such events, and none if there are not.
pub untruncated_is_whole :
    (R : Float) (r : Request R) (es : List ServerEvent) (k : Key)
    → (aggregate_events R r es).truncated ≡ false
    → find R (aggregate_events R r es).buckets k ≡ bucket_for R r k none es
unfolding aggregate_events find
untruncated_is_whole R r es k h = whole R r (record { buckets = []; truncated = false }) k es h
