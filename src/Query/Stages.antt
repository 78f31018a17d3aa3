-- ===== src/Query/Stages.antt =====
-- The stages of the query parser of src/server/handlers/metrics.rs: each ends, with what it promises.
use toki_sync.Prelude.{
  ℕ, zero, suc, ◌≤◌, ◌<◌, ◌≡◌, refl, Bool, true, false, not, ◌&&◌, ◌||◌, Option, none, some, List,
  [], ◌∷◌, Str, lit, str_eq, is_empty, length, arith, ok, ◌>>=◌, Bool-cases, Option-cases, inl, inr,
}
use toki_sync.Query.Numbers.{trim}
use toki_sync.Query.Duration.{parse_duration_secs}
use toki_sync.Query.Cursor.{skip_ws, next_is, eat, ident, quoted, by_labels}
use toki_sync.Query.Total.{
  Gives, Gives-bind, Leaves, Ends, length-skip_ws, length-eat, length-eaten, length-named,
  quoted-Gives, by_labels-Ends,
}
use toki_sync.Query.Parse.{
  is_word_of, open_sum, after_by, wrapper_named, range_named, metric_of, metric_named, matcher,
  conflicts, checked_filter, filter_named, one_filter, Filters, filter_end, filter_loop, filters,
  bucket_text, until_bracket, bucket, offset_named, close_parens, no_labels, trailing_named,
  resolve,
}

open_sum-Ends : (id : Str) (labels : List Str) (s : Str) → Ends (open_sum id labels s)
open_sum-Ends id labels s = elim (Bool-cases (str_eq id (lit "sum"))) [
  | inl e ↦ rw e tt
  | inr e ↦ rw e refl
]

after_by-Ends : (mark id : Str) (r : List Str × Str) → Ends (after_by mark id r)
after_by-Ends mark id (labels, s) = elim (Bool-cases (next_is 40 (skip_ws s))) [
  | inl e ↦ rw e (open_sum-Ends id labels (skip_ws s))
  | inr e ↦ rw e tt
]

pub wrapper_named-Ends : (mark : Str) (r : Str × Option Str) → Ends (wrapper_named mark r)
wrapper_named-Ends mark (s, none) = tt
wrapper_named-Ends mark (s, some id) =
    let t = skip_ws s in
    let keyword = ident t in
    elim (Bool-cases (next_is 40 t && not (str_eq id (lit "increase")))) [
      | inl e ↦ rw e (open_sum-Ends id [] t)
      | inr e ↦ elim (Bool-cases (is_word_of "by" keyword.1)) [
        | inl f ↦
            rw (e, f)
              (Gives-bind (λ a. Unit) (λ a. Unit) (by_labels keyword.0) (after_by mark id)
                (by_labels-Ends keyword.0) (λ r u. after_by-Ends mark id r))
        | inr f ↦ rw (e, f) tt
      ]
    ]

pub range_named-Ends : (mark : Str) (r : Str × Option Str) → Ends (range_named mark r)
range_named-Ends mark (s, none) = tt
range_named-Ends mark (s, some id) = elim (Bool-cases (next_is 40 (skip_ws s))) [
  | inl e ↦ elim (Bool-cases (str_eq id (lit "increase"))) [
    | inl f ↦ rw (e, f) tt
    | inr f ↦ rw (e, f) refl
  ]
  | inr e ↦ rw e tt
]

metric_of-Ends : (id : Str) → Ends (metric_of id)
metric_of-Ends id = ground arith

pub metric_named-Ends : (r : Str × Option Str) → Ends (metric_named r)
metric_named-Ends (s, none) = refl
metric_named-Ends (s, some id) =
    Gives-bind (λ a. Unit) (λ a. Unit) (metric_of id) (λ m. ok (m, s)) (metric_of-Ends id)
      (λ m u. tt)

-- A filter names a provider, and shortens the text.
abbrev Provides : ℕ → Str × Str → Type 0
Provides n r = (is_empty r.0 ≡ false) × (suc (length r.1) ≤ n)

matcher-Leaves : (s : Str) → Gives (λ t. length t ≤ length s) (matcher s)
unfolding matcher
matcher-Leaves [] = refl
matcher-Leaves (b ∷ bs) = ground arith

checked_filter-Provides :
    (n : ℕ) (provider : Option Str) (key : Str) (r : Str × Str)
    → suc (length r.1) ≤ n
    → Gives (Provides n) (checked_filter provider key r)
checked_filter-Provides n provider key (value, rest) h = ground (arith, h)

filter_named-Provides :
    (n : ℕ) (provider : Option Str) (r : Str × Option Str)
    → ((id : Str) → r.1 ≡ some id → suc (length r.0) ≤ n)
    → Gives (Provides n) (filter_named provider r)
filter_named-Provides n provider (s, none) h = refl
filter_named-Provides n provider (s, some key) h =
    Gives-bind (λ t. length t ≤ length (skip_ws s)) (Provides n) (matcher (skip_ws s))
      (λ t. quoted t >>= checked_filter provider key) (matcher-Leaves (skip_ws s))
      (λ t a.
        Gives-bind (Leaves (length t)) (Provides n) (quoted t) (checked_filter provider key)
          (quoted-Gives t)
          (λ r b.
            checked_filter-Provides n provider key r
              (omega (arith, a, b, h key refl, length-skip_ws s))))

one_filter-Provides :
    (provider : Option Str) (s : Str) → Gives (Provides (length s)) (one_filter provider s)
unfolding one_filter
one_filter-Provides provider s =
    filter_named-Provides (length s) provider (ident s) (λ id e. length-named s id e)

abbrev pub IsProvider : Option Str → Type 0
IsProvider none = Unit
IsProvider (some p) = is_empty p ≡ false

filter_end-Gives :
    (value s : Str) (comma : Str × Bool) (rest : Filters)
    → is_empty value ≡ false
    → (comma.1 ≡ true → Gives (λ r. IsProvider r.0) rest)
    → Gives (λ r. IsProvider r.0) (filter_end value s comma rest)
filter_end-Gives value s (s', true) rest v h = h refl
filter_end-Gives value s (s', false) rest v h = elim (Bool-cases (eat 125 s).1) [
  | inl e ↦ rw e v
  | inr e ↦ rw e refl
]

filter_loop-Gives :
    (n : ℕ) (provider : Option Str) (s : Str)
    → length s < n
    → IsProvider provider
    → Gives (λ r. IsProvider r.0) (filter_loop n provider s)
unfolding filter_loop
filter_loop-Gives zero provider s h p = absurd (omega (arith, h))
filter_loop-Gives (suc n) provider s h p =
    let close = eat 125 s in
    elim (Bool-cases close.1) [
      | inl e ↦ rw e p
      | inr e ↦ rw e (
          Gives-bind (Provides (length close.0)) (λ r. IsProvider r.0) (one_filter provider close.0)
            (λ r.
              let comma = eat 44 r.1 in
              filter_end r.0 comma.0 comma (filter_loop n (some r.0) comma.0))
            (one_filter-Provides provider close.0)
            (λ r q.
              let comma = eat 44 r.1 in
              filter_end-Gives r.0 comma.0 comma (filter_loop n (some r.0) comma.0) q.0 (λ g.
                filter_loop-Gives n (some r.0) comma.0
                  (omega (arith, h, q.1, length-eat 125 s, length-eaten 44 r.1 g)) q.0)))
    ]

pub filters-Gives : (s : Str) → Gives (λ r. IsProvider r.0) (filters s)
unfolding filters
filters-Gives s = elim (Bool-cases (eat 123 s).1) [
  | inl e ↦
      rw e (filter_loop-Gives (suc (length (eat 123 s).0)) none (eat 123 s).0 (omega arith) tt)
  | inr e ↦ rw e tt
]

bucket_text-Ends : (r : Str × Str) → Ends (bucket_text r)
bucket_text-Ends (raw, rest) = elim (Bool-cases (not (eat 93 rest).1)) [
  | inl e ↦ rw e refl
  | inr e ↦ elim (Option-cases (parse_duration_secs (trim raw))) [
    | inl f ↦ rw (e, f) refl
    | inr (n, f) ↦ rw (e, f) tt
  ]
]

pub bucket-Ends : (s : Str) → Ends (bucket s)
unfolding bucket
bucket-Ends s = elim (Bool-cases (eat 91 s).1) [
  | inl e ↦ rw e (bucket_text-Ends (until_bracket (eat 91 s).0))
  | inr e ↦ rw e tt
]

pub offset_named-Ends : (mark : Str) (r : Str × Option Str) → Ends (offset_named mark r)
offset_named-Ends mark (s, none) = tt
offset_named-Ends mark (s, some id) = elim (Bool-cases (str_eq id (lit "offset"))) [
  | inl e ↦ rw e refl
  | inr e ↦ rw e tt
]

pub close_parens-Ends : (n : ℕ) (s : Str) → Ends (close_parens n s)
unfolding close_parens
close_parens-Ends zero s = tt
close_parens-Ends (suc n) s = elim (Bool-cases (eat 41 s).1) [
  | inl e ↦ rw e (close_parens-Ends n (eat 41 s).0)
  | inr e ↦ rw e refl
]

pub trailing_named-Ends :
    (labels : List Str) (mark : Str) (r : Str × Option Str) → Ends (trailing_named labels mark r)
trailing_named-Ends labels mark (s, none) = tt
trailing_named-Ends labels mark (s, some id) = elim (Bool-cases (str_eq id (lit "by"))) [
  | inl e ↦ elim (Bool-cases (no_labels labels)) [
    | inl f ↦ rw (e, f) (by_labels-Ends s)
    | inr f ↦ rw (e, f) refl
  ]
  | inr e ↦ rw e tt
]

abbrev pub is_dimension : Str → Bool
is_dimension l = str_eq l (lit "model") || str_eq l (lit "project") || str_eq l (lit "device_id")

abbrev pub IsSelected : Option Str → Type 0
IsSelected none = Unit
IsSelected (some l) = is_dimension l ≡ true

pub resolve-Gives :
    (selected : Option Str) (ls : List Str)
    → IsSelected selected
    → Gives IsSelected (resolve selected ls)
unfolding resolve
resolve-Gives selected [] h = h
resolve-Gives selected (l ∷ ls) h = elim (Bool-cases (str_eq l (lit "type"))) [
  | inl e ↦ rw e (resolve-Gives selected ls h)
  | inr e ↦ elim (Bool-cases (is_dimension l)) [
    | inl f ↦ elim (Bool-cases (conflicts selected l)) [
      | inl g ↦ rw (e, f, g) refl
      | inr g ↦ rw (e, f, g) (resolve-Gives (some l) ls f)
    ]
    | inr f ↦ rw (e, f) refl
  ]
]
