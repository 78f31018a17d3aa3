-- ===== src/Query/Parse.antt =====
-- `parse_toki_virtual_query` of src/server/handlers/metrics.rs, in its stages. Each takes the text that is
-- left and returns what follows it.
use toki_sync.Prelude.{
  ℕ, zero, suc, ◌+◌, Bool, true, false, not, ◌&&◌, ◌||◌, Option, none, some, List, [], ◌∷◌, Str,
  String, lit, str_eq, is_empty, length, ◌==◌, if◌then◌else◌, Result, ok, err, ◌>>=◌,
}
use toki_sync.Query.Numbers.{trim}
use toki_sync.Query.Duration.{parse_duration_secs}
use toki_sync.Query.Cursor.{
  Refusal, empty_query, unsupported_aggregation, unsupported_function, metric_expected,
  windows_not_bare, local_metric, unknown_metric, filter_expected, matcher_expected,
  unsupported_matcher, unsupported_filter, empty_provider, conflicting_providers,
  comma_or_brace_expected, unterminated_range, invalid_range, unsupported_offset, unbalanced_parens,
  duplicate_by, trailing_input, many_group_labels, unknown_group_label, out_of_fuel, skip_ws,
  next_is, eat, ident, at_end, quoted, by_labels,
}

abbrev pub is_word_of : String → Option Str → Bool
is_word_of name none = false
is_word_of name (some id) = str_eq id (lit name)

-- `sum (…)` or `sum by (…) (…)`: the labels, whether the wrapper is there, and what follows its
-- parenthesis.
abbrev pub Wrapper : Type 0
Wrapper = Result (List Str × Bool × Str) Refusal

abbrev pub open_sum : Str → List Str → Str → Wrapper
open_sum id labels s =
    if str_eq id (lit "sum") then ok (labels, true, (eat 40 s).0) else err unsupported_aggregation

abbrev pub after_by : Str → Str → List Str × Str → Wrapper
after_by mark id (labels, s) =
    if next_is 40 (skip_ws s) then open_sum id labels (skip_ws s) else ok ([], false, mark)

abbrev pub wrapper_named : Str → Str × Option Str → Wrapper
wrapper_named mark (s, none) = ok ([], false, s)
wrapper_named mark (s, some id) =
    let t = skip_ws s in
    let keyword = ident t in
    if next_is 40 t && not (str_eq id (lit "increase"))
    then open_sum id [] t
    else if is_word_of "by" keyword.1
    then by_labels keyword.0 >>= after_by mark id
    else ok ([], false, mark)

unfoldable pub wrapper : Str → Wrapper
wrapper s = wrapper_named s (ident s)

-- `increase(…)`: whether it is there.
abbrev pub range_named : Str → Str × Option Str → Result (Bool × Str) Refusal
range_named mark (s, none) = ok (false, s)
range_named mark (s, some id) =
    let t = skip_ws s in
    if next_is 40 t
    then if str_eq id (lit "increase") then ok (true, (eat 40 t).0) else err unsupported_function
    else ok (false, mark)

unfoldable pub range_function : Str → Result (Bool × Str) Refusal
range_function s = range_named s (ident s)

pub data Metric : Type 0 where
  usage cost events : Metric

abbrev pub metric_of : Str → Result Metric Refusal
metric_of id =
    if str_eq id (lit "usage") || str_eq id (lit "toki_tokens_total")
    then ok usage
    else if str_eq id (lit "cost")
    then ok cost
    else if str_eq id (lit "events")
    then ok events
    else if str_eq id (lit "windows")
    then err windows_not_bare
    else if str_eq id (lit "sessions") || str_eq id (lit "projects")
    then err local_metric
    else err unknown_metric

abbrev pub metric_named : Str × Option Str → Result (Metric × Str) Refusal
metric_named (s, none) = err metric_expected
metric_named (s, some id) = metric_of id >>= λ m. ok (m, s)

unfoldable pub metric : Str → Result (Metric × Str) Refusal
metric s = metric_named (ident s)

-- The operator after a filter's label; only `=` goes on.
unfoldable pub matcher : Str → Result Str Refusal
matcher [] = err matcher_expected
matcher (b ∷ bs) =
    if b == 61
    then if next_is 126 bs then err unsupported_matcher else ok bs
    else if b == 33 && (next_is 126 bs || next_is 61 bs)
    then err unsupported_matcher
    else err matcher_expected

abbrev pub conflicts : Option Str → Str → Bool
conflicts none value = false
conflicts (some p) value = not (str_eq p value)

-- The checks of one filter: the provider it sets, and what follows it.
abbrev pub checked_filter : Option Str → Str → Str × Str → Result (Str × Str) Refusal
checked_filter provider key (value, rest) =
    if not (str_eq key (lit "provider"))
    then err unsupported_filter
    else if is_empty value
    then err empty_provider
    else if conflicts provider value
    then err conflicting_providers
    else ok (value, rest)

abbrev pub filter_named : Option Str → Str × Option Str → Result (Str × Str) Refusal
filter_named provider (s, none) = err filter_expected
filter_named provider (s, some key) =
    matcher (skip_ws s) >>= λ t. quoted t >>= checked_filter provider key

unfoldable pub one_filter : Option Str → Str → Result (Str × Str) Refusal
one_filter provider s = filter_named provider (ident s)

abbrev pub Filters : Type 0
Filters = Result (Option Str × Str) Refusal

abbrev pub filter_end : Str → Str → Str × Bool → Filters → Filters
filter_end value s (s', true) rest = rest
filter_end value s (s', false) rest =
    let close = eat 125 s in
    if close.1 then ok (some value, close.0) else err comma_or_brace_expected

-- The loop over the filters, by the number of its turns.
unfoldable pub filter_loop : ℕ → Option Str → Str → Filters
filter_loop zero provider s = err out_of_fuel
filter_loop (suc n) provider s =
    let close = eat 125 s in
    if close.1
    then ok (provider, close.0)
    else one_filter provider close.0 >>= λ r.
        let comma = eat 44 r.1 in filter_end r.0 comma.0 comma (filter_loop n (some r.0) comma.0)

unfoldable pub filters : Str → Filters
filters s =
    let brace = eat 123 s in
    if brace.1 then filter_loop (suc (length brace.0)) none brace.0 else ok (none, brace.0)

-- The bytes before the first `]`, and the rest from it.
unfoldable pub until_bracket : Str → Str × Str
until_bracket [] = ([], [])
until_bracket (b ∷ bs) =
    let rest = until_bracket bs in if b == 93 then ([], b ∷ bs) else (b ∷ rest.0, rest.1)

-- `[…]`: whether it is there.
abbrev pub bucket_text : Str × Str → Result (Bool × Str) Refusal
bucket_text (raw, rest) =
    let close = eat 93 rest in
    if not close.1 then err unterminated_range else elim (parse_duration_secs (trim raw)) [
      | none ↦ err invalid_range
      | some secs ↦ ok (true, close.0)
    ]

unfoldable pub bucket : Str → Result (Bool × Str) Refusal
bucket s =
    let bracket = eat 91 s in
    if bracket.1 then bucket_text (until_bracket bracket.0) else ok (false, bracket.0)

abbrev pub offset_named : Str → Str × Option Str → Result Str Refusal
offset_named mark (s, none) = ok s
offset_named mark (s, some id) =
    if str_eq id (lit "offset") then err unsupported_offset else ok mark

unfoldable pub no_offset : Str → Result Str Refusal
no_offset s = offset_named s (ident s)

unfoldable pub close_parens : ℕ → Str → Result Str Refusal
close_parens zero s = ok s
close_parens (suc n) s =
    let close = eat 41 s in
    let rest = close_parens n close.0 in if close.1 then rest else err unbalanced_parens

abbrev pub no_labels : List Str → Bool
no_labels [] = true
no_labels (l ∷ ls) = false

-- A clause after the expression gives the labels, if none stands before it.
abbrev pub trailing_named : List Str → Str → Str × Option Str → Result (List Str × Str) Refusal
trailing_named labels mark (s, none) = ok (labels, s)
trailing_named labels mark (s, some id) =
    if str_eq id (lit "by")
    then if no_labels labels then by_labels s else err duplicate_by
    else ok (labels, mark)

unfoldable pub trailing_by : List Str → Str → Result (List Str × Str) Refusal
trailing_by labels s = trailing_named labels s (ident s)

-- The single dimension to group by.
unfoldable pub resolve : Option Str → List Str → Result (Option Str) Refusal
resolve selected [] = ok selected
resolve selected (l ∷ ls) =
    let same = resolve selected ls in
    let chosen = resolve (some l) ls in
    if str_eq l (lit "type")
    then same
    else if str_eq l (lit "model") || str_eq l (lit "project") || str_eq l (lit "device_id")
    then if conflicts selected l then err many_group_labels else chosen
    else err unknown_group_label

pub record ParsedQuery : Type 0 where
  pub is_cost : Bool
  pub is_events : Bool
  pub raw_events : Bool
  pub group_by : Str
  pub provider : Option Str

abbrev pub is_cost_of : Metric → Bool
is_cost_of cost = true
is_cost_of _ = false

abbrev pub is_events_of : Metric → Bool
is_events_of events = true
is_events_of _ = false

abbrev pub or_model : Option Str → Str
or_model none = lit "model"
or_model (some s) = s

abbrev pub count : Bool → ℕ
count true = 1
count false = 0

abbrev pub parsed_query : Metric → Bool → List Str → Option Str → Option Str → ParsedQuery
parsed_query m plain labels selected provider = record {
  is_cost = is_cost_of m;
  is_events = is_events_of m;
  raw_events = is_events_of m && plain && no_labels labels;
  group_by = or_model selected;
  provider = provider;
}

abbrev pub finish : Metric → Bool → Option Str → List Str × Str → Result ParsedQuery Refusal
finish m plain provider (labels, s) =
    if not (at_end s)
    then err trailing_input
    else resolve none labels >>= λ selected. ok (parsed_query m plain labels selected provider)

-- The wrapper, the range function and what stands inside.
unfoldable pub parse_toki_virtual_query : Str → Result ParsedQuery Refusal
parse_toki_virtual_query query =
    if at_end query
    then err empty_query
    else wrapper (skip_ws query) >>= λ w. range_function w.2 >>= λ r. metric r.1 >>= λ m.
        filters m.1 >>= λ f. bucket f.1 >>= λ b. no_offset b.1 >>= λ o.
        close_parens (count w.1 + count r.0) o >>= λ c.
        trailing_by w.0 c >>= finish m.0 (not (w.1 || r.0 || b.0)) f.0
