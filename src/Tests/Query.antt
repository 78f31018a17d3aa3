-- ===== src/Tests/Query.antt =====
-- Runs of the query endpoint on concrete requests.
use toki_sync.Prelude.{
  ℕ, ◌+◌, ◌≡◌, ◌≢◌, refl, true, false, none, some, List, [], ◌∷◌, str_eq, str_cmp, lit, min, arith,
  pos, ◌+ℤ◌, ◌*ℤ◌, ◌-ℤ◌, if◌then◌else◌, err,
}
use toki_sync.Events.{ServerEvent, multiple}
use toki_sync.Query.Numbers.{digits_value, parse_i64, trim}
use toki_sync.Query.Duration.{compound, strip_suffix, parse_duration_secs}
use toki_sync.Query.Parts.{Part, parse_duration-written}
use toki_sync.Query.Cursor
use toki_sync.Query.Parse
use toki_sync.Query.Accepted.{parse_ends}
use toki_sync.Query.Bare.{IsBare}
use toki_sync.Query.Bare.Raw.{raw-IsBare}
use toki_sync.Query.Printed.{project}
use toki_sync.Query.Scope.{
  Directory, parse_scope, resolve_user_filter, IsEntitled, resolve_user_filter-IsEntitled,
}
use toki_sync.Query.Bounds.{min_step, validate_step}
use toki_sync.Query.Times.{Calendar, parse_toki_time, parse_toki_bound_ms}
use toki_sync.Query.Buckets.{quot, epoch_bucket, bucket_start_sec}
use toki_sync.Query.Aggregate.{
  Key, Float, ModelBucket, Request, Totals, by_model, find, aggregate_events, u64_max,
  aggregate_from, add_event, is_selected, accumulate, put, key_cmp, group_by_of,
}
use toki_sync.Query.Totals.{bucket_for}
use toki_sync.Query.Totals.Complete.{present_is_complete, untruncated_is_whole}
use toki_sync.Query.Totals.Ordered.{IsBounded, aggregate_events-IsBounded}
use toki_sync.Query.Totals.Sums.{sum_for, bucket_sums}
use toki_sync.Query.Endpoint.{time_range, Params, EventStore, toki_query}
use toki_sync.Query.Answered.{IsAnswered, toki_query-IsAnswered}

abbrev grouped : Parse.ParsedQuery
grouped = record {
  is_cost = true;
  is_events = false;
  raw_events = false;
  group_by = lit "project";
  provider = some (lit "codex");
}

abbrev rows : Parse.ParsedQuery
rows = record {
  is_cost = false;
  is_events = true;
  raw_events = true;
  group_by = lit "model";
  provider = some (lit "codex");
}

raw-IsBare_example : IsBare (lit " events {provider=\"codex\"} ") (some (lit "codex"))
unfolding Parse.parse_toki_virtual_query Parse.wrapper Parse.range_function Parse.metric
    Parse.filters Parse.filter_loop Parse.one_filter Parse.matcher Parse.bucket Parse.until_bracket
    Parse.no_offset Parse.close_parens Parse.trailing_by Parse.resolve Cursor.skip_ws Cursor.eat
    Cursor.ident Cursor.quoted Cursor.until_quote Cursor.by_labels Cursor.label_loop str_eq
    parse_duration_secs parse_i64 digits_value compound strip_suffix trim
raw-IsBare_example = raw-IsBare (lit " events {provider=\"codex\"} ") rows refl refl

parse_ends_example : Parse.parse_toki_virtual_query (lit "usage offset 7d") ≢ err Cursor.out_of_fuel
parse_ends_example = parse_ends (lit "usage offset 7d")

abbrev hour : Part
hour = record { digits = lit "1"; unit = 104; secs = 3600 }

abbrev half : Part
half = record { digits = lit "30"; unit = 109; secs = 60 }

parse_duration-written_example : parse_duration_secs (lit "1h30m") ≡ some 5400
parse_duration-written_example =
    parse_duration-written hour (half ∷ []) (((refl, tt), refl), (((refl, (refl, tt)), refl), tt))
      (omega arith) (omega arith)

abbrev directory : Directory
directory = record {
  max_query_scope = lit "team";
  user_is_admin = λ u. some false;
  get_team_member_role = λ t u. some (some (lit "member"));
  list_team_members = λ t. some (lit "ada" ∷ lit "bob" ∷ []);
}

resolve_user_filter-IsEntitled_example :
    IsEntitled directory (lit "ada") (multiple (lit "ada" ∷ lit "bob" ∷ []))
unfolding resolve_user_filter parse_scope str_eq
resolve_user_filter-IsEntitled_example =
    resolve_user_filter-IsEntitled directory (lit "ada") (lit "team:x") _ refl

abbrev calendar : Calendar
calendar = record {
  parse_date = λ s. if str_eq s (lit "20260101") then some (pos 20454) else some (pos 20455);
  parse_date_time = λ s. none;
}

abbrev cents : Float
cents = record { Carrier = ℕ; zero = 0; add = λ a b. a + b }

abbrev event : ℕ → ServerEvent
event n = record {
  device_id = lit "d";
  user_id = lit "ada";
  msg_id = lit "m";
  ts_ms = pos 7500000;
  provider = [];
  model = lit "opus";
  project = lit "p";
  session = lit "s";
  input_tokens = n;
  output_tokens = 1;
  cache_creation_input_tokens = 0;
  cache_read_input_tokens = 0;
  usage_total = n + 1;
}

abbrev events : List ServerEvent
events = event 4 ∷ event 6 ∷ []

abbrev request : Request cents
request = record {
  step_secs = 3600;
  since_ms = pos 0;
  until_ms = pos 9000000;
  is_events = false;
  group_dim = by_model;
  provider_filter = none;
  pricing = λ m. none;
  tz = none;
  start_of_week = 0;
  include_cost = true;
}

abbrev bucket_key : Key
bucket_key = (pos 7200, (lit "claude_code", lit "opus"))

abbrev both : ModelBucket cents
both = record {
  input = 10;
  output = 2;
  cache_create = 0;
  cache_read = 0;
  usage_total = 12;
  events = 2;
  cost_usd = none;
  provider = [];
}

present_is_complete_example : bucket_for cents request bucket_key none events ≡ some both
unfolding aggregate_events aggregate_from add_event is_selected accumulate find put key_cmp str_cmp
    bucket_start_sec epoch_bucket quot str_eq ◌*ℤ◌ ◌+ℤ◌ ◌-ℤ◌
present_is_complete_example = present_is_complete cents request events bucket_key both refl

untruncated_is_whole_example :
    find cents (aggregate_events cents request events).buckets bucket_key
    ≡ bucket_for cents request bucket_key none events
unfolding aggregate_events aggregate_from add_event is_selected accumulate find put key_cmp str_cmp
    bucket_start_sec epoch_bucket quot str_eq ◌*ℤ◌ ◌+ℤ◌ ◌-ℤ◌
untruncated_is_whole_example = untruncated_is_whole cents request events bucket_key refl

aggregate_events-IsBounded_example : IsBounded cents (aggregate_events cents request events).buckets
aggregate_events-IsBounded_example = aggregate_events-IsBounded cents request events

bucket_sums_example :
    (2 ≡ min (sum_for cents request (λ e. 1) bucket_key events) u64_max)
    × (false ≡ false
        → 12 ≡ min (sum_for cents request (λ e. e.usage_total) bucket_key events) u64_max)
unfolding aggregate_events aggregate_from add_event is_selected accumulate find put key_cmp str_cmp
    bucket_start_sec epoch_bucket quot str_eq ◌*ℤ◌ ◌+ℤ◌ ◌-ℤ◌
bucket_sums_example = bucket_sums cents request events bucket_key both refl

abbrev store : EventStore
store = record {
  query_events = λ since until users limit. some events;
  query_user_windows = λ u since. none;
}

abbrev params : Params
params = record {
  query = lit "usage";
  start = none;
  end = some (lit "9000");
  step = some (lit "1h");
  scope = none;
  tz = none;
  start_of_week = none;
  no_cost = false;
}

abbrev answer : Totals cents
answer = aggregate_events cents request events

toki_query-IsAnswered_example :
    IsAnswered cents store directory calendar (λ m. none) (lit "ada") 1000 params answer
unfolding Parse.parse_toki_virtual_query Parse.wrapper Parse.range_function Parse.metric
    Parse.filters Parse.filter_loop Parse.one_filter Parse.matcher Parse.bucket Parse.until_bracket
    Parse.no_offset Parse.close_parens Parse.trailing_by Parse.resolve Cursor.skip_ws Cursor.eat
    Cursor.ident Cursor.quoted Cursor.until_quote Cursor.by_labels Cursor.label_loop str_eq
    parse_duration_secs parse_i64 digits_value compound strip_suffix trim toki_query time_range
    parse_toki_bound_ms parse_toki_time resolve_user_filter parse_scope validate_step min_step
    group_by_of ◌*ℤ◌ ◌-ℤ◌
toki_query-IsAnswered_example =
    toki_query-IsAnswered cents store directory calendar (λ m. none) (lit "ada") 1000 params answer
      refl
