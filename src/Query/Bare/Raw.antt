-- ===== src/Query/Bare/Raw.antt =====
-- A request for raw rows of src/server/handlers/metrics.rs, through the stages of its parse.
use toki_sync.Prelude.{
  ℕ, zero, suc, ◌+◌, ◌≡◌, refl, sym, ap, ◌∙◌, subst, Bool, true, false, not, ◌&&◌, ◌||◌, Option,
  none, List, [], ◌∷◌, Str, arith, Result, ok, err, ◌>>=◌, bind_inv, Bool-cases, inl, inr,
}
use toki_sync.Query.Cursor.{Refusal, trailing_input, empty_query, skip_ws, ident, at_end}
use toki_sync.Query.Total.{Gives}
use toki_sync.Query.Parse.{
  wrapper, range_function, Metric, usage, cost, events, metric, filters, bucket, no_offset,
  close_parens, no_labels, trailing_named, trailing_by, resolve, ParsedQuery, parsed_query, finish,
  count, parse_toki_virtual_query,
}
use toki_sync.Query.Bare.{
  IsBare, ident-skip_ws, NotWrapped, wrapper_named-NotWrapped, NotRanged, range_named-NotRanged,
  is_events_metric, metric_named-Named, SameRest, bucket-SameRest, offset_named-SameRest,
  trailing_named-Unlabelled,
}

-- What a request for raw rows says of the end of the parse.
record Raw (m : Metric) (plain : Bool) (provider : Option Str) (r : List Str × Str)
    (q : ParsedQuery) : Type 0 where
  is_events : is_events_metric m ≡ true
  is_plain : plain ≡ true
  unlabelled : no_labels r.0 ≡ true
  ended : at_end r.1 ≡ true
  same_provider : q.provider ≡ provider

finish-Raw :
    (m : Metric) (plain : Bool) (provider : Option Str) (r : List Str × Str) (q : ParsedQuery)
    → finish m plain provider r ≡ ok q
    → q.raw_events ≡ true
    → Raw m plain provider r q
finish-Raw m plain provider (labels, s) q h raw = elim (Bool-cases (not (at_end s))) [
  | inl e ↦ absurd (refused (rw e at h))
  | inr e ↦
      let b =
        bind_inv (resolve none labels)
          (λ selected. ok (parsed_query m plain labels selected provider)) q (rw e at h) in
      resolved m b.0 e b.2
]
  where
    refused : Path (Result ParsedQuery Refusal) (err trailing_input) (ok q) → ⊥
    refused k = ground arith

    same : (p : ParsedQuery) → Path (Result ParsedQuery Refusal) (ok p) (ok q) → p ≡ q
    same p k = ground arith

    resolved :
        (m : Metric) (selected : Option Str)
        → not (at_end s) ≡ false
        → Path
            (Result ParsedQuery Refusal)
            (ok (parsed_query m plain labels selected provider))
            (ok q)
        → Raw m plain provider (labels, s) q
    resolved events selected e k =
        let r : (plain && no_labels labels) ≡ true = ap (λ p. p.raw_events) (same _ k) ∙ raw in
        record {
          is_events = refl;
          is_plain = ground arith;
          unlabelled = ground arith;
          ended = ground arith;
          same_provider = ap (λ p. p.provider) (sym (same _ k));
        }
    resolved usage selected e k = absurd (ground (arith, ap (λ p. p.raw_events) (same _ k) ∙ raw))
    resolved cost selected e k = absurd (ground (arith, ap (λ p. p.raw_events) (same _ k) ∙ raw))

known : {A : Type 0} (P : A → Type 0) (r : Result A Refusal) (a : A) → Gives P r → r ≡ ok a → P a
known P r a g e = subst (Gives P) e g

at_end-SameRest : (s s' : Str) → SameRest s s' → at_end s' ≡ true → at_end s ≡ true
at_end-SameRest s s' h e = ap (λ t. elim t as (λ x. Bool) [ [] ↦ true | _ ∷ _ ↦ false ]) (sym h) ∙ e

closed_none : (n : ℕ) (s s' : Str) → n ≡ 0 → close_parens n s ≡ ok s' → s ≡ s'
unfolding close_parens
closed_none zero s s' z h = ground arith
closed_none (suc n) s s' z h = absurd (omega (arith, z))

-- The values of the stages of a parse that succeeds.
record Parsed (s : Str) (q : ParsedQuery) : Type 0 where
  w : List Str × Bool × Str
  r : Bool × Str
  m : Metric × Str
  f : Option Str × Str
  b : Bool × Str
  o : Str
  c : Str
  t : List Str × Str
  wrapped : wrapper s ≡ ok w
  ranged : range_function w.2 ≡ ok r
  measured : metric r.1 ≡ ok m
  filtered : filters m.1 ≡ ok f
  bucketed : bucket f.1 ≡ ok b
  offset : no_offset b.1 ≡ ok o
  closed : close_parens (count w.1 + count r.0) o ≡ ok c
  trailed : trailing_by w.0 c ≡ ok t
  finished : finish m.0 (not (w.1 || r.0 || b.0)) f.0 t ≡ ok q

all_stages :
    (s : Str) (q : ParsedQuery)
    → wrapper s >>= (λ w. range_function w.2 >>= λ r. metric r.1 >>= λ m. filters m.1 >>= λ f.
        bucket f.1 >>= λ b. no_offset b.1 >>= λ o. close_parens (count w.1 + count r.0) o >>= λ c.
        trailing_by w.0 c >>= finish m.0 (not (w.1 || r.0 || b.0)) f.0)
      ≡ ok q
    → Parsed s q
all_stages s q h =
    let w = bind_inv (wrapper s) _ q h in
    let r = bind_inv (range_function w.0.2) _ q w.2 in
    let m = bind_inv (metric r.0.1) _ q r.2 in
    let f = bind_inv (filters m.0.1) _ q m.2 in
    let b = bind_inv (bucket f.0.1) _ q f.2 in
    let o = bind_inv (no_offset b.0.1) _ q b.2 in
    let c = bind_inv (close_parens (count w.0.1 + count r.0.0) o.0) _ q o.2 in
    let t = bind_inv (trailing_by w.0.0 c.0) _ q c.2 in
    record {
      w = w.0;
      r = r.0;
      m = m.0;
      f = f.0;
      b = b.0;
      o = o.0;
      c = c.0;
      t = t.0;
      wrapped = w.1;
      ranged = r.1;
      measured = m.1;
      filtered = f.1;
      bucketed = b.1;
      offset = o.1;
      closed = c.1;
      trailed = t.1;
      finished = t.2;
    }

-- The front of a plain parse: neither wrapper nor function.
plain_front :
    (s : Str) (q : ParsedQuery) (p : Parsed s q)
    → p.w.1 ≡ false
    → p.r.0 ≡ false
    → (p.w.0 ≡ []) × (ident p.r.1 ≡ ident s)
unfolding wrapper range_function
plain_front s q p pw pr =
    let nw =
      known (NotWrapped s) (wrapper s) p.w (wrapper_named-NotWrapped s (ident s) refl) p.wrapped
        pw in
    let nr =
      known (NotRanged p.w.2) (range_function p.w.2) p.r
        (range_named-NotRanged p.w.2 (ident p.w.2) refl) p.ranged pr in
    (nw.0, nr ∙ nw.1)

-- Its back: no range, no parenthesis to close, no grouping.
plain_back :
    (s : Str) (q : ParsedQuery) (p : Parsed s q)
    → p.w.0 ≡ []
    → count p.w.1 + count p.r.0 ≡ 0
    → p.b.0 ≡ false
    → no_labels p.t.0 ≡ true
    → SameRest p.f.1 p.t.1
unfolding no_offset trailing_by
plain_back s q p labels n pb u =
    let kb =
      known (λ x. x.0 ≡ false → SameRest p.f.1 x.1) (bucket p.f.1) p.b (bucket-SameRest p.f.1)
        p.bucketed pb in
    let ko =
      known (SameRest p.b.1) (no_offset p.b.1) p.o (offset_named-SameRest p.b.1 (ident p.b.1) refl)
        p.offset in
    let kc = closed_none (count p.w.1 + count p.r.0) p.o p.c n p.closed in
    let kt =
      trailing_named-Unlabelled p.c (ident p.c) p.t refl
        (subst (λ ls. trailing_named ls p.c (ident p.c) ≡ ok p.t) labels p.trailed) u in
    kt ∙ ap skip_ws (sym kc) ∙ ko ∙ kb

all_false : (a b c : Bool) → not (a || b || c) ≡ true → (a ≡ false) × (b ≡ false) × (c ≡ false)
all_false a b c h = ground arith

no_count : (a b : Bool) → a ≡ false → b ≡ false → count a + count b ≡ 0
no_count a b h k = ground arith

Parsed-IsBare : (s : Str) (q : ParsedQuery) → Parsed s q → q.raw_events ≡ true → IsBare s q.provider
unfolding metric
Parsed-IsBare s q p raw =
    let z = finish-Raw p.m.0 (not (p.w.1 || p.r.0 || p.b.0)) p.f.0 p.t q p.finished raw in
    let no = all_false p.w.1 p.r.0 p.b.0 z.is_plain in
    let front = plain_front s q p no.0 no.1 in
    let n = metric_named-Named (ident p.r.1) p.m p.measured in
    record {
      name = n.0;
      after_name = p.m.1;
      rest = p.f.1;
      begins = sym front.1 ∙ n.1;
      is_events = n.2 z.is_events;
      filtered = p.filtered ∙ ap (λ x. ok (x, p.f.1)) (sym z.same_provider);
      ends =
          at_end-SameRest p.f.1 p.t.1
            (plain_back s q p front.0 (no_count p.w.1 p.r.0 no.0 no.1) no.2 z.unlabelled) z.ended;
    }

IsBare-skip_ws : (s : Str) (p : Option Str) → IsBare (skip_ws s) p → IsBare s p
IsBare-skip_ws s p b = record {
  name = b.name;
  after_name = b.after_name;
  rest = b.rest;
  begins = sym (ident-skip_ws s) ∙ b.begins;
  is_events = b.is_events;
  filtered = b.filtered;
  ends = b.ends;
}

-- Raw rows are asked for only by a text that is the word `events` with its filters and nothing more: no
-- aggregation, no function, no range, and no grouping, be it by `model` or by `type`.
pub raw-IsBare :
    (query : Str) (q : ParsedQuery)
    → parse_toki_virtual_query query ≡ ok q
    → q.raw_events ≡ true
    → IsBare query q.provider
unfolding parse_toki_virtual_query
raw-IsBare query q h raw = elim (Bool-cases (at_end query)) [
  | inl e ↦ absurd (refused (rw e at h))
  | inr e ↦
      IsBare-skip_ws query q.provider
        (Parsed-IsBare (skip_ws query) q (all_stages (skip_ws query) q (rw e at h)) raw)
]
  where
    refused : Path (Result ParsedQuery Refusal) (err empty_query) (ok q) → ⊥
    refused k = ground arith
