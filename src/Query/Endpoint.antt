-- ===== src/Query/Endpoint.antt =====
-- `toki_query` of src/server/handlers/metrics.rs, up to the JSON of its answer. The store is the trait
-- `EventStore`, each answer `none` when it fails; authentication gives the user's id.
use toki_sync.Prelude.{
  ℕ, ◌+◌, ◌*◌, ◌/◌, Bool, true, false, ◌&&◌, ◌||◌, not, Option, none, some, List, map, Str, lit,
  str_eq, length, take, filter, ltb, max, if◌then◌else◌, ℤ, pos, negsuc, ltb_ℤ, leb_ℤ, ◌+ℤ◌, ◌-ℤ◌,
  Result, ok, err, ◌>>=◌,
}
use toki_sync.Windows.{WireWindow}
use toki_sync.Events.{ServerEvent, UserFilter}
use toki_sync.Query.{QueryError, bad_request, forbidden, internal}
use toki_sync.Query.Numbers.{trim}
use toki_sync.Query.Duration.{parse_duration_secs}
use toki_sync.Query.Cursor.{Refusal}
use toki_sync.Query.Parse.{ParsedQuery, parse_toki_virtual_query}
use toki_sync.Query.Scope.{Directory, resolve_user_filter}
use toki_sync.Query.Bounds.{validate_step}
use toki_sync.Query.Times.{Zone, Calendar, in_i64, checked, parse_toki_bound_ms}
use toki_sync.Query.Aggregate.{
  Float, Price, Request, Totals, group_by_of, provider_key, wants, aggregate_events,
}

-- The parameters of the request, its time zone as the library reads it and its start of the week.
pub record Params : Type 0 where
  pub query : Str
  pub start : Option Str
  pub end : Option Str
  pub step : Option Str
  pub scope : Option Str
  pub tz : Option Zone
  pub start_of_week : Option ℕ
  pub no_cost : Bool

pub record EventStore : Type 0 where
  pub query_events : ℤ → ℤ → UserFilter → ℕ → Option (List ServerEvent)
  pub query_user_windows : Str → ℤ → Option (List (Str × WireWindow))

abbrev pub max_query_events : ℕ
max_query_events = 200000

abbrev pub bound_or : Calendar → Option Zone → Bool → ℤ → Option Str → Result ℤ QueryError
bound_or cal tz is_end default none = ok default
bound_or cal tz is_end default (some s) = parse_toki_bound_ms cal s is_end tz

-- The start, the end and the length of the range, when the start is not after the end.
abbrev pub checked_range : ℤ → ℤ → Result (ℤ × (ℤ × ℤ)) QueryError
checked_range start_ms end_ms =
    if ltb_ℤ end_ms start_ms
    then err bad_request
    else checked (in_i64 (end_ms -ℤ start_ms)) >>= λ range. ok (start_ms, (end_ms, range))

unfoldable pub time_range : Calendar → Params → ℕ → Result (ℤ × (ℤ × ℤ)) QueryError
time_range cal params now = bound_or cal params.tz false (pos 0) params.start >>= λ start_ms.
    bound_or cal params.tz true (pos (now * 1000)) params.end >>= λ end_ms.
    checked_range start_ms end_ms

abbrev pub magnitude_of : ℤ → ℕ
magnitude_of (pos n) = n
magnitude_of (negsuc n) = 0

-- `(range_ms / 1000).max(1)`
abbrev pub range_secs : ℤ → ℕ
range_secs range_ms = max (magnitude_of range_ms / 1000) 1

abbrev pub duration : Str → Result ℕ QueryError
duration s = elim (parse_duration_secs s) [ none ↦ err bad_request | some n ↦ ok n ]

-- The step of the buckets: the request's, if it passes, or the whole range.
abbrev pub effective_step : ℤ → Option Str → Result ℕ QueryError
effective_step range_ms none = ok (range_secs range_ms)
effective_step range_ms (some s) =
    duration s >>= λ step. validate_step step (range_secs range_ms) >>= λ _. ok step

abbrev pub query_of : Result ParsedQuery Refusal → Result ParsedQuery QueryError
query_of (ok q) = ok q
query_of (err e) = err bad_request

abbrev pub scope_of : Option Str → Str
scope_of none = lit "self"
scope_of (some s) = s

abbrev pub or_monday : Option ℕ → ℕ
or_monday none = 0
or_monday (some d) = d

-- A window whose reset has passed by three minutes is final.
abbrev pub is_final : ℕ → WireWindow → Bool
is_final now w = w.finalized || ltb_ℤ (w.raw_resets_at_ms +ℤ pos 180000) (pos (now * 1000))

module _ (R : Float) where
  pub data Answer : Type 0 where
    -- By provider, with whether each window is final.
    windows : List (Str × (WireWindow × Bool)) → Answer
    -- With whether some were cut off.
    raw_events : List ServerEvent → Bool → Answer
    totals : Totals R → Answer

  abbrev pub windows_answer : ℕ → ℤ → Option (List (Str × WireWindow)) → Result Answer QueryError
  windows_answer now end_ms none = err internal
  windows_answer now end_ms (some rows) = ok (
      windows (
        map (λ row. (row.0, (row.1, is_final now row.1)))
          (filter (λ row. not (leb_ℤ end_ms row.1.window_end_ms)) rows)))

  abbrev pub request_of : Params → (Str → Option (Price R)) → ParsedQuery → ℤ → ℤ → ℕ → Request R
  request_of params pricing q since_ms until_ms step = record {
    step_secs = step;
    since_ms = since_ms;
    until_ms = until_ms;
    is_events = q.is_events;
    group_dim = group_by_of q.group_by;
    provider_filter = q.provider;
    pricing = pricing;
    tz = params.tz;
    start_of_week = or_monday params.start_of_week;
    include_cost = not params.no_cost;
  }

  abbrev pub is_range : Option Str → Bool
  is_range none = false
  is_range (some s) = true

  abbrev pub events_answer :
      Params
      → (Str → Option (Price R))
      → ParsedQuery
      → ℤ
      → ℤ
      → ℕ
      → Option (List ServerEvent)
      → Result Answer QueryError
  events_answer params pricing q since_ms until_ms step none = err internal
  events_answer params pricing q since_ms until_ms step (some all_events) =
      let events = take max_query_events all_events in
      if q.raw_events && not (is_range params.step)
      then ok (
          raw_events (filter (λ e. wants R q.provider (provider_key e)) events)
            (ltb max_query_events (length all_events)))
      else ok
          (totals (aggregate_events R (request_of params pricing q since_ms until_ms step) events))

  module _ (store : EventStore) (db : Directory) (cal : Calendar) (pricing : Str → Option (Price R))
      (user_id : Str) (now : ℕ) where
    unfoldable pub toki_query : Params → Result Answer QueryError
    toki_query params = time_range cal params now >>= λ range.
        if str_eq (trim params.query) (lit "windows")
        then if str_eq (scope_of params.scope) (lit "self")
          then windows_answer now range.1.0 (store.query_user_windows user_id range.0)
          else err forbidden
        else query_of (parse_toki_virtual_query params.query) >>= λ q.
            effective_step range.1.1 params.step >>= λ step.
            resolve_user_filter db user_id (scope_of params.scope) >>= λ users.
            events_answer params pricing q range.0 range.1.0 step
              (store.query_events range.0 range.1.0 users (max_query_events + 1))
