-- ===== src/Query/Totals/Sums.antt =====
-- The figures of a bucket of src/server/handlers/metrics.rs are the sums over its events.
use toki_sync.Prelude.{
  ℕ, ◌+◌, ◌≤◌, ◌≡◌, refl, sym, ap, ◌∙◌, false, Option, none, some, List, [], ◌∷◌, min,
  if◌then◌else◌, arith, Bool-cases, inl, inr, is_empty, not, ◌&&◌,
}
use toki_sync.Events.{ServerEvent}
use toki_sync.Query.Aggregate.{
  Key, Float, ModelBucket, new_bucket, note_provider, accumulate, find, Request, aggregate_events,
  u64_max,
}
use toki_sync.Query.Totals.{added, bucket_for, is_for}
use toki_sync.Query.Totals.Complete.{present_is_complete}

module _ (R : Float) (r : Request R) where
  -- The sum of a figure over the events for a key.
  abbrev pub sum_for : (ServerEvent → ℕ) → Key → List ServerEvent → ℕ
  sum_for f k [] = 0
  sum_for f k (e ∷ es) = (if is_for R r k e then f e else 0) + sum_for f k es

  -- The bucket's figure at `u64`, with what it holds at first.
  abbrev figure : (ModelBucket R → ℕ) → Option (ModelBucket R) → ℕ
  figure g none = 0
  figure g (some b) = g b

  module _ (f : ServerEvent → ℕ) (g : ModelBucket R → ℕ)
      (step : (o : Option (ModelBucket R)) (e : ServerEvent)
        → g (added R r o e) ≡ min (figure g o + f e) u64_max) where
    figure_from :
        (k : Key) (o : Option (ModelBucket R)) (b : ModelBucket R) (es : List ServerEvent)
        → figure g o ≤ u64_max
        → bucket_for R r k o es ≡ some b
        → g b ≡ min (figure g o + sum_for f k es) u64_max
    unfolding bucket_for
    figure_from k o b [] h e = figure_here o e h
      where
        figure_here :
            (o : Option (ModelBucket R))
            → o ≡ some b
            → figure g o ≤ u64_max
            → g b ≡ min (figure g o + 0) u64_max
        figure_here none e h = absurd (ground arith)
        figure_here (some c) e h = ap (figure g) (sym e) ∙ omega (arith, h)
    figure_from k o b (e ∷ es) h q = elim (Bool-cases (is_for R r k e)) [
      | inr n ↦ rw n (figure_from k o b es h (rw n at q) ∙ omega arith)
      | inl y ↦ rw y (
          figure_from k (some (added R r o e)) b es (omega (arith, step o e)) (rw y at q)
          ∙ omega (arith, step o e))
    ]

  -- The first provider that is noted changes no figure.
  note_keeps :
      (b : ModelBucket R) (e : ServerEvent)
      → ((note_provider R b e).usage_total ≡ b.usage_total)
        × ((note_provider R b e).events ≡ b.events)
  note_keeps b e = elim (Bool-cases (is_empty b.provider && not (is_empty e.provider))) [
    | inl q ↦ rw q (refl, refl)
    | inr q ↦ rw q (refl, refl)
  ]

  usage_accumulated :
      (b : ModelBucket R) (e : ServerEvent)
      → r.is_events ≡ false
      → (accumulate R r.is_events r.include_cost r.pricing b e).usage_total
        ≡ min (b.usage_total + e.usage_total) u64_max
  unfolding accumulate
  usage_accumulated b e h = rw h (ap (λ n. min (n + e.usage_total) u64_max) (note_keeps b e).0)

  events_accumulated :
      (b : ModelBucket R) (e : ServerEvent)
      → (accumulate R r.is_events r.include_cost r.pricing b e).events ≡ min (b.events + 1) u64_max
  unfolding accumulate
  events_accumulated b e = elim (Bool-cases r.is_events) [
    | inl h ↦ rw h (ap (λ n. min (n + 1) u64_max) (note_keeps b e).1)
    | inr h ↦ rw h (ap (λ n. min (n + 1) u64_max) (note_keeps b e).1)
  ]

  usage_step :
      r.is_events ≡ false
      → (o : Option (ModelBucket R)) (e : ServerEvent)
      → (added R r o e).usage_total ≡ min (figure (λ b. b.usage_total) o + e.usage_total) u64_max
  usage_step h none e = usage_accumulated (new_bucket R) e h
  usage_step h (some b) e = usage_accumulated b e h

  events_step :
      (o : Option (ModelBucket R)) (e : ServerEvent)
      → (added R r o e).events ≡ min (figure (λ b. b.events) o + 1) u64_max
  events_step none e = events_accumulated (new_bucket R) e
  events_step (some b) e = events_accumulated b e

-- A bucket of the result counts the events for its key, and in a query that is not for events its total
-- is the sum of their totals; both stop at the largest `u64`.
pub bucket_sums :
    (R : Float) (r : Request R) (es : List ServerEvent) (k : Key) (b : ModelBucket R)
    → find R (aggregate_events R r es).buckets k ≡ some b
    → (b.events ≡ min (sum_for R r (λ e. 1) k es) u64_max)
      × (r.is_events ≡ false → b.usage_total ≡ min (sum_for R r (λ e. e.usage_total) k es) u64_max)
bucket_sums R r es k b h =
    let p = present_is_complete R r es k b h in
    (
      figure_from R r (λ e. 1) (λ b. b.events) (events_step R r) k none b es (omega arith) p
          ∙ omega arith,
      λ q.
          figure_from R r (λ e. e.usage_total) (λ b. b.usage_total) (usage_step R r q) k none b es
            (omega arith) p
          ∙ omega arith,
    )
