-- ===== src/Query/Printed/Ending.antt =====
-- A query that is written out for src/server/handlers/metrics.rs, read from its filters on.
use toki_sync.Prelude.{
  ℕ, ◌+◌, ◌≡◌, refl, ap, ◌∙◌, Bool, true, false, ◌||◌, ◌&&◌, Option, none, some, [], ◌∷◌, ◌++◌, Str,
  lit, str_eq, arith, not, if◌then◌else◌, Result, ok, ◌>>=◌,
}
use toki_sync.Query.Numbers.{digits_value, parse_i64, trim}
use toki_sync.Query.Duration.{compound, strip_suffix, parse_duration_secs}
use toki_sync.Query.Cursor.{
  skip_ws, eat, eat_here, word, Refusal, ident, until_quote, quoted, label_loop, by_labels,
}
use toki_sync.Query.Bare.{skip_ws_twice}
use toki_sync.Query.Parse.{
  Metric, matcher, one_filter, filter_loop, filters, until_bracket, bucket, no_offset, close_parens,
  trailing_by, resolve, is_events_of, ParsedQuery, bucket_text, count, finish,
}
use toki_sync.Query.Printed.{
  IsPlain, Inner, Outer, filtered, closing, tail, after_metric, IsName, is_bare, reads,
  labels_before, is_summed, is_increased, is_ranged, model, project, device_id, instant, ranged,
  increased, bare, bare_by, summed, summed_by, by_summed,
}

until_quote-IsPlain : (p rest : Str) → IsPlain p → until_quote (p ++ 34 ∷ rest) ≡ ok (p, rest)
unfolding until_quote
until_quote-IsPlain [] rest h = refl
until_quote-IsPlain (b ∷ p) rest h = rw (until_quote-IsPlain p rest h.1) (ground arith)

-- The white space that the filters' test leaves out.
abbrev pub after_filter : Option Str → Str → Str
after_filter none rest = skip_ws rest
after_filter (some p) rest = rest

pub quoted_filter :
    (p rest : Str) → IsName (some p) → filters (filtered (some p) rest) ≡ ok (some p, rest)
unfolding filters filter_loop one_filter matcher quoted ident word skip_ws eat str_eq
quoted_filter p rest h = rw (until_quote-IsPlain p (125 ∷ rest) h.1, h.0) refl

pub filters_written :
    (p : Option Str) (i : Inner) (u : Outer)
    → IsName p
    → filters (after_metric p i u) ≡ ok (p, after_filter p (closing i ++ tail u))
unfolding filters eat skip_ws
filters_written none ranged u h = refl
filters_written none increased u h = refl
filters_written none instant bare h = refl
filters_written none instant (bare_by d) h = refl
filters_written none instant summed h = refl
filters_written none instant (summed_by d) h = refl
filters_written none instant (by_summed d) h = refl
filters_written (some p) i u h = quoted_filter p (closing i ++ tail u) h

pub eat-skip_ws : (b : ℕ) (s : Str) → eat b (skip_ws s) ≡ eat b s
unfolding eat
eat-skip_ws b s = ap (eat_here b) (skip_ws_twice s)

pub bucket-skip_ws : (s : Str) → bucket (skip_ws s) ≡ bucket s
unfolding bucket
bucket-skip_ws s =
    ap (λ (e : Str × Bool). if e.1 then bucket_text (until_bracket e.0) else ok (false, e.0))
      (eat-skip_ws 91 s)

pub bucket_after :
    (p : Option Str) (i : Inner) (u : Outer)
    → bucket (after_filter p (closing i ++ tail u)) ≡ bucket (closing i ++ tail u)
bucket_after none i u = bucket-skip_ws (closing i ++ tail u)
bucket_after (some p) i u = refl

abbrev pub is_ungrouped : Outer → Bool
is_ungrouped bare = true
is_ungrouped (bare_by d) = false
is_ungrouped summed = true
is_ungrouped (summed_by d) = false
is_ungrouped (by_summed d) = false

abbrev pub is_plain : Inner → Outer → Bool
is_plain i u = not (is_summed u || is_increased i || is_ranged i)

pub plain_ungrouped : (i : Inner) (u : Outer) → (is_plain i u && is_ungrouped u) ≡ is_bare i u
plain_ungrouped instant u = ground arith
plain_ungrouped ranged u = ground arith
plain_ungrouped increased u = ground arith

-- The record as the last stage puts it together.
abbrev pub finished : Metric → Option Str → Inner → Outer → ParsedQuery
finished m p i u = record (reads m p i u) {
  raw_events = is_events_of m && is_plain i u && is_ungrouped u;
}

pub and_assoc : (a b c : Bool) → (a && b && c) ≡ (a && (b && c))
and_assoc a b c = ground arith

pub finished_reads :
    (m : Metric) (p : Option Str) (i : Inner) (u : Outer) → finished m p i u ≡ reads m p i u
finished_reads m p i u =
    ap (λ b. record (reads m p i u) { raw_events = b })
      (and_assoc (is_events_of m) (is_plain i u) (is_ungrouped u)
        ∙ ap (λ b. is_events_of m && b) (plain_ungrouped i u))

-- The stages after the filters.
abbrev pub ending : Metric → Option Str → Inner → Outer → Bool × Str → Result ParsedQuery Refusal
ending m p i u b = no_offset b.1 >>= λ o.
    close_parens (count (is_summed u) + count (is_increased i)) o >>= λ c.
    trailing_by (labels_before u) c >>= finish m (not (is_summed u || is_increased i || b.0)) p

module _ (m : Metric) (p : Option Str) where
  last_stages_instant :
      (u : Outer) → bucket (tail u) >>= ending m p instant u ≡ ok (finished m p instant u)
  unfolding bucket until_bracket no_offset close_parens trailing_by resolve skip_ws eat ident word
      by_labels label_loop str_eq
  last_stages_instant bare = refl
  last_stages_instant (bare_by model) = refl
  last_stages_instant (bare_by project) = refl
  last_stages_instant (bare_by device_id) = refl
  last_stages_instant summed = refl
  last_stages_instant (summed_by model) = refl
  last_stages_instant (summed_by project) = refl
  last_stages_instant (summed_by device_id) = refl
  last_stages_instant (by_summed model) = refl
  last_stages_instant (by_summed project) = refl
  last_stages_instant (by_summed device_id) = refl

  last_stages_ranged :
      (u : Outer)
      → bucket (lit "[1h]" ++ tail u) >>= ending m p ranged u ≡ ok (finished m p ranged u)
  unfolding bucket until_bracket no_offset close_parens trailing_by resolve skip_ws eat ident word
      by_labels label_loop str_eq parse_duration_secs parse_i64 digits_value compound strip_suffix
      trim
  last_stages_ranged bare = refl
  last_stages_ranged (bare_by model) = refl
  last_stages_ranged (bare_by project) = refl
  last_stages_ranged (bare_by device_id) = refl
  last_stages_ranged summed = refl
  last_stages_ranged (summed_by model) = refl
  last_stages_ranged (summed_by project) = refl
  last_stages_ranged (summed_by device_id) = refl
  last_stages_ranged (by_summed model) = refl
  last_stages_ranged (by_summed project) = refl
  last_stages_ranged (by_summed device_id) = refl

  last_stages_increased :
      (u : Outer)
      → bucket (lit "[1h])" ++ tail u) >>= ending m p increased u ≡ ok (finished m p increased u)
  unfolding bucket until_bracket no_offset close_parens trailing_by resolve skip_ws eat ident word
      by_labels label_loop str_eq parse_duration_secs parse_i64 digits_value compound strip_suffix
      trim
  last_stages_increased bare = refl
  last_stages_increased (bare_by model) = refl
  last_stages_increased (bare_by project) = refl
  last_stages_increased (bare_by device_id) = refl
  last_stages_increased summed = refl
  last_stages_increased (summed_by model) = refl
  last_stages_increased (summed_by project) = refl
  last_stages_increased (summed_by device_id) = refl
  last_stages_increased (by_summed model) = refl
  last_stages_increased (by_summed project) = refl
  last_stages_increased (by_summed device_id) = refl

  pub last_stages_written :
      (i : Inner) (u : Outer) → bucket (closing i ++ tail u) >>= ending m p i u ≡ ok (reads m p i u)
  last_stages_written instant u = last_stages_instant u ∙ ap ok (finished_reads m p instant u)
  last_stages_written ranged u = last_stages_ranged u ∙ ap ok (finished_reads m p ranged u)
  last_stages_written increased u = last_stages_increased u ∙ ap ok (finished_reads m p increased u)
