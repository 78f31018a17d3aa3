-- ===== src/Query/Bare.antt =====
-- When the query parser of src/server/handlers/metrics.rs asks for raw rows.
pub mod Raw
use toki_sync.Prelude.{
  ℕ, zero, suc, length, ◌+◌, ◌≡◌, refl, sym, ap, ◌∙◌, subst, Bool, true, false, not, ◌&&◌, ◌||◌,
  Option, none, some, List, [], ◌∷◌, Str, lit, str_eq, if◌then◌else◌, arith, Result, ok, err, ◌>>=◌,
  bind_inv, Bool-cases, Option-cases, inl, inr,
}
use toki_sync.Query.Numbers.{trim}
use toki_sync.Query.Duration.{parse_duration_secs}
use toki_sync.Query.Cursor.{
  Refusal, by_without_parens, trailing_input, empty_query, is_space, is_word, skip_ws, next_is,
  eat_here, eat, word, named, ident, at_end, label_loop, some_labels, by_labels,
}
use toki_sync.Query.Total.{Gives, Gives-bind, by_labels-Ends}
use toki_sync.Query.Parse.{
  is_word_of, open_sum, after_by, wrapper_named, wrapper, range_named, range_function, Metric,
  usage, cost, events, metric_of, metric_named, metric, filters, bucket_text, until_bracket, bucket,
  offset_named, no_offset, close_parens, no_labels, trailing_named, trailing_by, resolve,
  ParsedQuery, parsed_query, finish, count, parse_toki_virtual_query,
}

-- The text is the word `events`, its filters if there are any, and nothing more.
pub record IsBare (query : Str) (provider : Option Str) : Type 0 where
  pub name : Str
  pub after_name : Str
  pub rest : Str
  pub begins : ident query ≡ (after_name, some name)
  pub is_events : str_eq name (lit "events") ≡ true
  pub filtered : filters after_name ≡ ok (provider, rest)
  pub ends : at_end rest ≡ true

pub skip_ws_twice : (s : Str) → skip_ws (skip_ws s) ≡ skip_ws s
unfolding skip_ws
skip_ws_twice [] = refl
skip_ws_twice (b ∷ bs) = elim (Bool-cases (is_space b)) [
  | inl e ↦ rw e (skip_ws_twice bs)
  | inr e ↦ rw (e, e) refl
]

pub ident-skip_ws : (s : Str) → ident (skip_ws s) ≡ ident s
unfolding ident
ident-skip_ws s = ap (λ t. named (word t)) (skip_ws_twice s)

pub named_none : (t s0 : Str) → named (word t) ≡ (s0, none) → s0 ≡ t
unfolding word
named_none [] s0 h = ground arith
named_none (b ∷ bs) s0 h = elim (Bool-cases (is_word b)) [
  | inl e ↦ absurd (some_ne (rw e at h))
  | inr e ↦ sym (ap (λ r. r.0) (rw e at h))
]
  where
    some_ne : Path (Str × Option Str) ((word bs).1, some (b ∷ (word bs).0)) (s0, none) → ⊥
    some_ne q = ground arith

-- Where no word stands, only white space is left out.
pub ident_without_word : (s s0 : Str) → ident s ≡ (s0, none) → s0 ≡ skip_ws s
unfolding ident
ident_without_word s s0 h = named_none (skip_ws s) s0 h

-- A stage that finds nothing of its own leaves what the next one reads.
abbrev pub SameWord : Str → Str → Type 0
SameWord s s' = ident s' ≡ ident s

pub none-SameWord : (s s0 : Str) → ident s ≡ (s0, none) → SameWord s s0
none-SameWord s s0 h = ap ident (ident_without_word s s0 h) ∙ ident-skip_ws s

-- A wrapper that is not there.
abbrev pub NotWrapped : Str → List Str × Bool × Str → Type 0
NotWrapped s w = w.1 ≡ false → (w.0 ≡ []) × SameWord s w.2

pub open_sum-NotWrapped :
    (mark id : Str) (labels : List Str) (s : Str) → Gives (NotWrapped mark) (open_sum id labels s)
open_sum-NotWrapped mark id labels s = elim (Bool-cases (str_eq id (lit "sum"))) [
  | inl e ↦ rw e (λ h. absurd (ground arith))
  | inr e ↦ rw e refl
]

pub after_by-NotWrapped :
    (mark id : Str) (r : List Str × Str) → Gives (NotWrapped mark) (after_by mark id r)
after_by-NotWrapped mark id (labels, s) = elim (Bool-cases (next_is 40 (skip_ws s))) [
  | inl e ↦ rw e (open_sum-NotWrapped mark id labels (skip_ws s))
  | inr e ↦ rw e (λ h. (refl, refl))
]

pub wrapper_named-NotWrapped :
    (mark : Str) (r : Str × Option Str)
    → ident mark ≡ r
    → Gives (NotWrapped mark) (wrapper_named mark r)
wrapper_named-NotWrapped mark (s, none) i = λ h. (refl, none-SameWord mark s i)
wrapper_named-NotWrapped mark (s, some id) i =
    let t = skip_ws s in
    let keyword = ident t in
    elim (Bool-cases (next_is 40 t && not (str_eq id (lit "increase")))) [
      | inl e ↦ rw e (open_sum-NotWrapped mark id [] t)
      | inr e ↦ elim (Bool-cases (is_word_of "by" keyword.1)) [
        | inl f ↦
            rw (e, f)
              (Gives-bind (λ a. Unit) (NotWrapped mark) (by_labels keyword.0) (after_by mark id)
                (by_labels-Ends keyword.0) (λ r u. after_by-NotWrapped mark id r))
        | inr f ↦ rw (e, f) (λ h. (refl, refl))
      ]
    ]

abbrev pub NotRanged : Str → Bool × Str → Type 0
NotRanged s r = r.0 ≡ false → SameWord s r.1

pub range_named-NotRanged :
    (mark : Str) (r : Str × Option Str)
    → ident mark ≡ r
    → Gives (NotRanged mark) (range_named mark r)
range_named-NotRanged mark (s, none) i = λ h. none-SameWord mark s i
range_named-NotRanged mark (s, some id) i = elim (Bool-cases (next_is 40 (skip_ws s))) [
  | inl e ↦ elim (Bool-cases (str_eq id (lit "increase"))) [
    | inl f ↦ rw (e, f) (λ h. absurd (ground arith))
    | inr f ↦ rw (e, f) refl
  ]
  | inr e ↦ rw e (λ h. refl)
]

abbrev pub is_events_metric : Metric → Bool
is_events_metric events = true
is_events_metric usage = false
is_events_metric cost = false

-- The word of the metric, and that it is `events` if the metric is.
abbrev pub Named : Str × Option Str → Metric × Str → Type 0
Named r m =
    (name : Str) × (r ≡ (m.1, some name))
    × (is_events_metric m.0 ≡ true → str_eq name (lit "events") ≡ true)

pub metric_named-Named :
    (r : Str × Option Str) (m : Metric × Str) → metric_named r ≡ ok m → Named r m
metric_named-Named (s, none) m h = absurd (ground arith)
metric_named-Named (s, some id) m h =
    let b = bind_inv (metric_of id) (λ k. ok (k, s)) m h in
    (
      id,
      ap (λ (q : Metric × Str). (q.1, some id)) (kept b.0 b.2),
      λ e. by_name b.0 b.1 (ap (λ (q : Metric × Str). is_events_metric q.0) (kept b.0 b.2) ∙ e),
    )
  where
    kept :
        (k : Metric)
        → Path (Result (Metric × Str) Refusal) (ok (k, s)) (ok m)
        → Path (Metric × Str) (k, s) m
    kept k q = ground arith

    by_name :
        (k : Metric)
        → metric_of id ≡ ok k
        → is_events_metric k ≡ true
        → str_eq id (lit "events") ≡ true
    by_name k q e = ground arith

-- A stage that leaves all but white space.
abbrev pub SameRest : Str → Str → Type 0
SameRest s s' = skip_ws s' ≡ skip_ws s

pub bucket_text-true :
    (s : Str) (r : Str × Str) → Gives (λ b. b.0 ≡ false → SameRest s b.1) (bucket_text r)
bucket_text-true s (raw, rest) = elim (Bool-cases (not (eat 93 rest).1)) [
  | inl e ↦ rw e refl
  | inr e ↦ elim (Option-cases (parse_duration_secs (trim raw))) [
    | inl f ↦ rw (e, f) refl
    | inr (n, f) ↦ rw (e, f) (λ h. absurd (ground arith))
  ]
]

pub not_eaten : (b : ℕ) (t : Str) → (eat_here b t).1 ≡ false → (eat_here b t).0 ≡ t
not_eaten b [] h = refl
not_eaten b (c ∷ cs) h = ground arith

pub bucket-SameRest : (s : Str) → Gives (λ b. b.0 ≡ false → SameRest s b.1) (bucket s)
unfolding bucket eat
bucket-SameRest s = elim (Bool-cases (eat_here 91 (skip_ws s)).1) [
  | inl e ↦ rw e (bucket_text-true s (until_bracket (eat_here 91 (skip_ws s)).0))
  | inr e ↦ rw e (λ h. ap skip_ws (not_eaten 91 (skip_ws s) e) ∙ skip_ws_twice s)
]

pub offset_named-SameRest :
    (mark : Str) (r : Str × Option Str)
    → ident mark ≡ r
    → Gives (SameRest mark) (offset_named mark r)
offset_named-SameRest mark (s, none) i =
    ap skip_ws (ident_without_word mark s i) ∙ skip_ws_twice mark
offset_named-SameRest mark (s, some id) i = elim (Bool-cases (str_eq id (lit "offset"))) [
  | inl e ↦ rw e refl
  | inr e ↦ rw e refl
]

pub some_labels-labels : (r : List Str × Str) → Gives (λ q. no_labels q.0 ≡ false) (some_labels r)
some_labels-labels ([], rest) = refl
some_labels-labels (l ∷ ls, rest) = refl

abbrev pub Unlabelled : Str → List Str × Str → Type 0
Unlabelled s r = no_labels r.0 ≡ true → SameRest s r.1

pub by_labels-Unlabelled :
    (mark s : Str) (r : List Str × Str) → by_labels s ≡ ok r → Unlabelled mark r
unfolding by_labels
by_labels-Unlabelled mark s r h u = elim (Bool-cases (eat 40 s).1) [
  | inl e ↦
      let b =
        bind_inv (label_loop (suc (length (eat 40 s).0)) [] (eat 40 s).0) some_labels r
          (rw e at h) in
      absurd (clash (subst (Gives (λ q. no_labels q.0 ≡ false)) b.2 (some_labels-labels b.0)))
  | inr e ↦ absurd (refused (rw e at h))
]
  where
    refused : Path (Result (List Str × Str) Refusal) (err by_without_parens) (ok r) → ⊥
    refused q = ground arith

    clash : no_labels r.0 ≡ false → ⊥
    clash q = ground arith

pub trailing_named-Unlabelled :
    (mark : Str) (i : Str × Option Str) (r : List Str × Str)
    → ident mark ≡ i
    → trailing_named [] mark i ≡ ok r
    → Unlabelled mark r
trailing_named-Unlabelled mark (s, none) r i h =
    subst (Unlabelled mark) (kept h)
      (λ u. ap skip_ws (ident_without_word mark s i) ∙ skip_ws_twice mark)
  where
    kept : Path (Result (List Str × Str) Refusal) (ok ([], s)) (ok r) → ([], s) ≡ r
    kept q = ground arith
trailing_named-Unlabelled mark (s, some id) r i h = elim (Bool-cases (str_eq id (lit "by"))) [
  | inl e ↦ by_labels-Unlabelled mark s r (rw e at h)
  | inr e ↦ subst (Unlabelled mark) (kept (rw e at h)) (λ u. refl)
]
  where
    kept : Path (Result (List Str × Str) Refusal) (ok ([], mark)) (ok r) → ([], mark) ≡ r
    kept q = ground arith
