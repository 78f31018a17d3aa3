-- ===== src/Query/Answered.antt =====
-- What stands behind an answer of `toki_query` of src/server/handlers/metrics.rs.
use toki_sync.Prelude.{
  ℕ, ◌+◌, ◌*◌, ◌≤◌, ◌≡◌, ◌≢◌, ◌-ℤ◌, pos, refl, sym, ap, ◌∙◌, subst, Bool, true, false, ◌&&◌, not,
  Option, none, some, List, Str, lit, str_eq, take, if◌then◌else◌, arith, ℤ, ltb_ℤ, ◌≤ℤ◌, Result,
  ok, err, ◌>>=◌, bind_inv, Bool-cases, inl, inr,
}
use toki_sync.Events.{ServerEvent, UserFilter}
use toki_sync.Windows.{WireWindow}
use toki_sync.Query.{QueryError, forbidden}
use toki_sync.Query.Numbers.{trim}
use toki_sync.Query.Cursor.{Refusal}
use toki_sync.Query.Parse.{ParsedQuery, parse_toki_virtual_query}
use toki_sync.Query.Scope.{
  Directory, resolve_user_filter, IsEntitled, resolve_user_filter-IsEntitled,
}
use toki_sync.Query.Bounds.{validate_step, validate_step_lem}
use toki_sync.Query.Times.{Calendar, in_i64, checked}
use toki_sync.Query.Aggregate.{Float, Price, Totals, aggregate_events}
use toki_sync.Query.Endpoint.{
  Params, EventStore, bound_or, checked_range, time_range, range_secs, duration, effective_step,
  query_of, scope_of, Answer, raw_events, totals, windows_answer, request_of, events_answer,
  toki_query, max_query_events, is_range,
}

-- 2000 buckets of the step cover the range, and no bucket is longer than it.
abbrev pub Covers : Option Str → ℕ → ℕ → Type 0
Covers none step range = step ≡ range
Covers (some s) step range = (step ≤ range) × (range ≤ step * 2000)

step-Covers :
    (range_ms : ℤ) (o : Option Str) (step : ℕ)
    → effective_step range_ms o ≡ ok step
    → Covers o step (range_secs range_ms)
step-Covers range_ms none step h = ground arith
step-Covers range_ms (some s) step h =
    let range = range_secs range_ms in
    let d = bind_inv (duration s) (λ n. validate_step n range >>= λ _. ok n) step h in
    let v = bind_inv (validate_step d.0 range) (λ _. ok d.0) step d.2 in
    let same : d.0 ≡ step = ground (arith, v.2) in
    subst (λ n. (n ≤ range) × (range ≤ n * 2000)) same
      ((validate_step_lem d.0 range (omega arith)).0 (v.1))

-- The three numbers of a range: its bounds in order, and its length.
record IsRange (start_ms end_ms : ℤ) (r : ℤ × (ℤ × ℤ)) : Type 0 where
  start : r.0 ≡ start_ms
  end : r.1.0 ≡ end_ms
  length_ms : r.1.1 ≡ end_ms -ℤ start_ms
  ordered : start_ms ≤ℤ end_ms

checked-in_i64 : (z y : ℤ) → checked (in_i64 z) ≡ ok y → y ≡ z
checked-in_i64 z y h = ground arith

checked_range-IsRange :
    (start_ms end_ms : ℤ) (r : ℤ × (ℤ × ℤ))
    → checked_range start_ms end_ms ≡ ok r
    → IsRange start_ms end_ms r
checked_range-IsRange start_ms end_ms r h = elim (Bool-cases (ltb_ℤ end_ms start_ms)) [
  | inl e ↦ absurd (ground arith)
  | inr e ↦
      let b =
        bind_inv (checked (in_i64 (end_ms -ℤ start_ms))) (λ range. ok (start_ms, (end_ms, range))) r
          (rw e at h) in
      let same : ◌≡◌ {A = ℤ × (ℤ × ℤ)} (start_ms, (end_ms, b.0)) r = ground arith in
      subst (IsRange start_ms end_ms) same (record {
        start = refl;
        end = refl;
        length_ms = checked-in_i64 (end_ms -ℤ start_ms) b.0 b.1;
        ordered = ground arith;
      })
]

-- The bounds that the parameters name, with the range between them.
record Bounds (cal : Calendar) (params : Params) (now : ℕ) (r : ℤ × (ℤ × ℤ)) : Type 0 where
  start : bound_or cal params.tz false (pos 0) params.start ≡ ok r.0
  end : bound_or cal params.tz true (pos (now * 1000)) params.end ≡ ok r.1.0
  length_ms : r.1.1 ≡ r.1.0 -ℤ r.0
  ordered : r.0 ≤ℤ r.1.0

time_range-Bounds :
    (cal : Calendar) (params : Params) (now : ℕ) (r : ℤ × (ℤ × ℤ))
    → time_range cal params now ≡ ok r
    → Bounds cal params now r
unfolding time_range
time_range-Bounds cal params now r h =
    let a =
      bind_inv (bound_or cal params.tz false (pos 0) params.start)
        (λ s. bound_or cal params.tz true (pos (now * 1000)) params.end >>= checked_range s) r h in
    let b =
      bind_inv (bound_or cal params.tz true (pos (now * 1000)) params.end) (checked_range a.0) r
        a.2 in
    let c = checked_range-IsRange a.0 b.0 r b.2 in
    record {
      start = a.1 ∙ ap ok (sym c.start);
      end = b.1 ∙ ap ok (sym c.end);
      length_ms = rw (c.start, c.end) c.length_ms;
      ordered = rw (c.start, c.end) c.ordered;
    }

query_inv : (r : Result ParsedQuery Refusal) (q : ParsedQuery) → query_of r ≡ ok q → r ≡ ok q
query_inv (ok p) q h = ground arith
query_inv (err e) q h = absurd (ground arith)

module _ (R : Float) (store : EventStore) (db : Directory) (cal : Calendar)
    (pricing : Str → Option (Price R)) (user_id : Str) (now : ℕ) (params : Params) where
  -- An answer of totals: the bounds, the accepted query, the users and the events that the totals are of.
  pub record IsAnswered (t : Totals R) : Type 0 where
    pub since_ms : ℤ
    pub until_ms : ℤ
    pub starts : bound_or cal params.tz false (pos 0) params.start ≡ ok since_ms
    pub ends : bound_or cal params.tz true (pos (now * 1000)) params.end ≡ ok until_ms
    pub ordered : since_ms ≤ℤ until_ms
    pub q : ParsedQuery
    pub accepted : parse_toki_virtual_query params.query ≡ ok q
    pub step : ℕ
    pub covered : Covers params.step step (range_secs (until_ms -ℤ since_ms))
    pub users : UserFilter
    pub entitled : IsEntitled db user_id users
    pub events : List ServerEvent
    pub stored : store.query_events since_ms until_ms users (max_query_events + 1) ≡ some events
    pub of_these :
        t
        ≡ aggregate_events R
            (request_of R params pricing q since_ms until_ms step)
            (take max_query_events events)

  events_totals :
      (q : ParsedQuery) (since_ms until_ms : ℤ) (step : ℕ) (o : Option (List ServerEvent))
      (t : Totals R)
      → events_answer R params pricing q since_ms until_ms step o ≡ ok (totals t)
      → (events : List ServerEvent) × (o ≡ some events)
        × (t
            ≡ aggregate_events R
                (request_of R params pricing q since_ms until_ms step)
                (take max_query_events events))
  events_totals q since_ms until_ms step none t h = absurd (ground arith)
  events_totals q since_ms until_ms step (some events) t h =
      elim (Bool-cases (q.raw_events && not (is_range R params.step))) [
        | inl e ↦ absurd (raw_ne (rw e at h))
        | inr e ↦ (events, refl, sym (totals_eq (rw e at h)))
      ]
    where
      raw_ne :
          {es : List ServerEvent} {b : Bool}
          → ◌≢◌ {A = Result (Answer R) QueryError} (ok (raw_events es b)) (ok (totals t))
      raw_ne h = absurd (ground arith)

      totals_eq :
          {u : Totals R}
          → ◌≡◌ {A = Result (Answer R) QueryError} (ok (totals u)) (ok (totals t))
          → u ≡ t
      totals_eq h = ground arith

  answered :
      (t : Totals R) (r : ℤ × (ℤ × ℤ))
      → time_range cal params now ≡ ok r
      → query_of (parse_toki_virtual_query params.query) >>= (λ q.
        effective_step r.1.1 params.step >>= λ step.
        resolve_user_filter db user_id (scope_of params.scope) >>= λ users.
        events_answer R params pricing q r.0 r.1.0 step
          (store.query_events r.0 r.1.0 users (max_query_events + 1)))
        ≡ ok (totals t)
      → IsAnswered t
  answered t r k h =
      let a = bind_inv (query_of (parse_toki_virtual_query params.query)) _ (totals t) h in
      let b = bind_inv (effective_step r.1.1 params.step) _ (totals t) a.2 in
      let c = bind_inv (resolve_user_filter db user_id (scope_of params.scope)) _ (totals t) b.2 in
      let d =
        events_totals a.0 r.0 r.1.0 b.0 (store.query_events r.0 r.1.0 c.0 (max_query_events + 1)) t
          c.2 in
      let w = time_range-Bounds cal params now r k in
      record {
        since_ms = r.0;
        until_ms = r.1.0;
        starts = w.start;
        ends = w.end;
        ordered = w.ordered;
        q = a.0;
        accepted = query_inv (parse_toki_virtual_query params.query) a.0 a.1;
        step = b.0;
        covered =
            subst (λ z. Covers params.step b.0 (range_secs z)) w.length_ms
              (step-Covers r.1.1 params.step b.0 b.1);
        users = c.0;
        entitled = resolve_user_filter-IsEntitled db user_id (scope_of params.scope) c.0 c.1;
        events = d.0;
        stored = d.1;
        of_these = d.2;
      }

  windows_ne :
      (o : Option (List (Str × WireWindow))) (end_ms : ℤ) (t : Totals R)
      → windows_answer R now end_ms o ≢ ok (totals t)
  windows_ne none end_ms t h = absurd (ground arith)
  windows_ne (some rows) end_ms t h = absurd (ground arith)

  by_branch :
      (t : Totals R) (r : ℤ × (ℤ × ℤ)) (w s : Bool) (rest : Result (Answer R) QueryError)
      → (if w
          then if s
            then windows_answer R now r.1.0 (store.query_user_windows user_id r.0)
            else err forbidden
          else rest)
        ≡ ok (totals t)
      → rest ≡ ok (totals t)
  by_branch t r true true rest h =
      absurd (windows_ne (store.query_user_windows user_id r.0) r.1.0 t h)
  by_branch t r true false rest h = absurd (ground arith)
  by_branch t r false s rest h = h

-- Totals are answered only to an accepted query, over the range from the start to the end that the
-- parameters name, which are in order. The step is the seconds between them, one at least, or, where the
-- parameters name one, is no longer than these and 2000 of it cover them. The totals are of the first 200000 events that the store has for
-- users that the caller is entitled to.
pub toki_query-IsAnswered :
    (R : Float) (store : EventStore) (db : Directory) (cal : Calendar)
    (pricing : Str → Option (Price R)) (user_id : Str) (now : ℕ) (params : Params) (t : Totals R)
    → toki_query R store db cal pricing user_id now params ≡ ok (totals t)
    → IsAnswered R store db cal pricing user_id now params t
unfolding toki_query
toki_query-IsAnswered R store db cal pricing user_id now params t h =
    let r = bind_inv (time_range cal params now) _ (totals t) h in
    answered R store db cal pricing user_id now params t r.0 r.1 (
      by_branch R store db cal pricing user_id now params t r.0
        (str_eq (trim params.query) (lit "windows")) (str_eq (scope_of params.scope) (lit "self")) _
        r.2)
