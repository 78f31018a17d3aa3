-- ===== src/Query/Printed.antt =====
-- Queries for the endpoint of src/server/handlers/metrics.rs, written out.
pub mod Front
pub mod Ending
pub mod Whole
use toki_sync.Prelude.{
  ℕ, ◌+◌, ◌≡◌, refl, ap, ◌∙◌, Bool, true, false, ◌||◌, ◌&&◌, Option, none, some, List, [], ◌∷◌,
  ◌++◌, Str, lit, str_eq, is_empty, ◌==◌, arith, not, if◌then◌else◌, Result, ok, ◌>>=◌, All,
}
use toki_sync.Query.Numbers.{digits_value, parse_i64, trim}
use toki_sync.Query.Duration.{compound, strip_suffix, parse_duration_secs}
use toki_sync.Query.Cursor.{
  skip_ws, eat, eat_here, next_is, word, Refusal, at_end, ident, until_quote, quoted, label_loop,
  by_labels,
}
use toki_sync.Query.Bare.{skip_ws_twice}
use toki_sync.Query.Parse.{
  wrapper, range_function, Metric, usage, cost, events, metric, matcher, one_filter, filter_loop,
  filters, until_bracket, bucket, no_offset, close_parens, trailing_by, resolve, is_cost_of,
  is_events_of, ParsedQuery, bucket_text, count, finish, parse_toki_virtual_query,
}

pub data Dimension : Type 0 where
  model project device_id : Dimension

abbrev pub dimension_name : Dimension → Str
dimension_name model = lit "model"
dimension_name project = lit "project"
dimension_name device_id = lit "device_id"

abbrev pub metric_name : Metric → Str
metric_name usage = lit "usage"
metric_name cost = lit "cost"
metric_name events = lit "events"

-- No quote and no backslash.
abbrev pub IsPlain : Str → Type 0
IsPlain = All (λ b. (b == 34 || b == 92) ≡ false)

-- What is taken of the metric: its value, a range of it, or the increase over the range.
pub data Inner : Type 0 where
  instant ranged increased : Inner

-- What stands around it: nothing, a grouping after it, `sum`, and `sum` with its grouping after or before
-- the parenthesis.
pub data Outer : Type 0 where
  bare : Outer
  bare_by : Dimension → Outer
  summed : Outer
  summed_by : Dimension → Outer
  by_summed : Dimension → Outer

abbrev pub front : Outer → Str
front bare = []
front (bare_by d) = []
front summed = lit "sum("
front (summed_by d) = lit "sum("
front (by_summed d) = lit "sum by (" ++ (dimension_name d ++ lit ") (")

abbrev pub opening : Inner → Str
opening instant = []
opening ranged = []
opening increased = lit "increase("

-- The filter before what follows.
abbrev pub filtered : Option Str → Str → Str
filtered none rest = rest
filtered (some p) rest = lit "{provider=\"" ++ (p ++ (34 ∷ 125 ∷ rest))

abbrev pub closing : Inner → Str
closing instant = []
closing ranged = lit "[1h]"
closing increased = lit "[1h])"

abbrev pub tail : Outer → Str
tail bare = []
tail (bare_by d) = lit " by (" ++ (dimension_name d ++ lit ")")
tail summed = lit ")"
tail (summed_by d) = lit ") by (" ++ (dimension_name d ++ lit ")")
tail (by_summed d) = lit ")"

-- After the metric.
abbrev pub after_metric : Option Str → Inner → Outer → Str
after_metric p i u = filtered p (closing i ++ tail u)

-- From the range function on.
abbrev pub inner_text : Metric → Option Str → Inner → Outer → Str
inner_text m p i u = opening i ++ (metric_name m ++ after_metric p i u)

-- `sum by (project) (increase(cost{provider="codex"}[1h]))`, say.
abbrev pub written_query : Metric → Option Str → Inner → Outer → Str
written_query m p i u = front u ++ inner_text m p i u

abbrev pub IsName : Option Str → Type 0
IsName none = Unit
IsName (some p) = (is_empty p ≡ false) × IsPlain p

abbrev pub grouped_by : Outer → Str
grouped_by bare = lit "model"
grouped_by (bare_by d) = dimension_name d
grouped_by summed = lit "model"
grouped_by (summed_by d) = dimension_name d
grouped_by (by_summed d) = dimension_name d

-- Rows, not totals: the bare word, with its filter at most.
abbrev pub is_bare : Inner → Outer → Bool
is_bare instant bare = true
is_bare instant _ = false
is_bare ranged _ = false
is_bare increased _ = false

-- The record that is read.
abbrev pub reads : Metric → Option Str → Inner → Outer → ParsedQuery
reads m p i u = record {
  is_cost = is_cost_of m;
  is_events = is_events_of m;
  raw_events = is_events_of m && is_bare i u;
  group_by = grouped_by u;
  provider = p;
}

abbrev pub labels_before : Outer → List Str
labels_before (by_summed d) = dimension_name d ∷ []
labels_before _ = []

abbrev pub is_summed : Outer → Bool
is_summed bare = false
is_summed (bare_by d) = false
is_summed summed = true
is_summed (summed_by d) = true
is_summed (by_summed d) = true

abbrev pub is_increased : Inner → Bool
is_increased instant = false
is_increased ranged = false
is_increased increased = true

abbrev pub is_ranged : Inner → Bool
is_ranged instant = false
is_ranged ranged = true
is_ranged increased = true
