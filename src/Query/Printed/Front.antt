-- ===== src/Query/Printed/Front.antt =====
-- A query that is written out for src/server/handlers/metrics.rs, read up to its metric.
use toki_sync.Prelude.{◌≡◌, refl, true, false, Option, none, some, [], ◌++◌, Str, str_eq, ok}
use toki_sync.Query.Cursor.{skip_ws, eat, next_is, word, ident, label_loop, by_labels}
use toki_sync.Query.Parse.{wrapper, range_function, Metric, usage, cost, events, metric}
use toki_sync.Query.Printed.{
  Dimension, metric_name, Inner, Outer, after_metric, inner_text, written_query, labels_before,
  is_summed, is_increased, model, project, device_id, instant, ranged, increased, bare, bare_by,
  summed, summed_by, by_summed,
}

-- No word goes on after the metric, and no call opens.
pub no_word :
    (p : Option Str) (i : Inner) (u : Outer) → word (after_metric p i u) ≡ ([], after_metric p i u)
unfolding word
no_word (some p) i u = refl
no_word none ranged u = refl
no_word none increased u = refl
no_word none instant bare = refl
no_word none instant (bare_by d) = refl
no_word none instant summed = refl
no_word none instant (summed_by d) = refl
no_word none instant (by_summed d) = refl

pub no_call :
    (p : Option Str) (i : Inner) (u : Outer) → next_is 40 (skip_ws (after_metric p i u)) ≡ false
unfolding skip_ws
no_call (some p) i u = refl
no_call none ranged u = refl
no_call none increased u = refl
no_call none instant bare = refl
no_call none instant (bare_by d) = refl
no_call none instant summed = refl
no_call none instant (summed_by d) = refl
no_call none instant (by_summed d) = refl

pub ident_written :
    (m : Metric) (p : Option Str) (i : Inner) (u : Outer)
    → ident (metric_name m ++ after_metric p i u) ≡ (after_metric p i u, some (metric_name m))
unfolding ident skip_ws word
ident_written usage p i u = rw (no_word p i u) refl
ident_written cost p i u = rw (no_word p i u) refl
ident_written events p i u = rw (no_word p i u) refl

-- The wrapper reads a bare metric and leaves it.
pub bare_wrapper :
    (m : Metric) (p : Option Str) (i : Inner)
    → wrapper (inner_text m p i bare) ≡ ok ([], false, inner_text m p i bare)
unfolding wrapper ident skip_ws word str_eq
bare_wrapper m p increased = refl
bare_wrapper usage (some p) instant = refl
bare_wrapper cost (some p) instant = refl
bare_wrapper events (some p) instant = refl
bare_wrapper usage none instant = refl
bare_wrapper cost none instant = refl
bare_wrapper events none instant = refl
bare_wrapper usage (some p) ranged = refl
bare_wrapper cost (some p) ranged = refl
bare_wrapper events (some p) ranged = refl
bare_wrapper usage none ranged = refl
bare_wrapper cost none ranged = refl
bare_wrapper events none ranged = refl

-- So it does where a grouping follows that no parenthesis opens.
pub bare_by_wrapper :
    (m : Metric) (p : Option Str) (i : Inner) (d : Dimension)
    → wrapper (inner_text m p i (bare_by d)) ≡ ok ([], false, inner_text m p i (bare_by d))
unfolding wrapper ident skip_ws word str_eq by_labels label_loop eat
bare_by_wrapper m p increased d = refl
bare_by_wrapper usage (some p) instant d = refl
bare_by_wrapper cost (some p) instant d = refl
bare_by_wrapper events (some p) instant d = refl
bare_by_wrapper usage none instant model = refl
bare_by_wrapper usage none instant project = refl
bare_by_wrapper usage none instant device_id = refl
bare_by_wrapper cost none instant model = refl
bare_by_wrapper cost none instant project = refl
bare_by_wrapper cost none instant device_id = refl
bare_by_wrapper events none instant model = refl
bare_by_wrapper events none instant project = refl
bare_by_wrapper events none instant device_id = refl
bare_by_wrapper usage (some p) ranged d = refl
bare_by_wrapper cost (some p) ranged d = refl
bare_by_wrapper events (some p) ranged d = refl
bare_by_wrapper usage none ranged d = refl
bare_by_wrapper cost none ranged d = refl
bare_by_wrapper events none ranged d = refl

pub wrapper_written :
    (m : Metric) (p : Option Str) (i : Inner) (u : Outer)
    → wrapper (written_query m p i u) ≡ ok (labels_before u, is_summed u, inner_text m p i u)
unfolding wrapper ident skip_ws word str_eq by_labels label_loop eat
wrapper_written m p i bare = bare_wrapper m p i
wrapper_written m p i (bare_by d) = bare_by_wrapper m p i d
wrapper_written m p i summed = refl
wrapper_written m p i (summed_by d) = refl
wrapper_written m p i (by_summed model) = refl
wrapper_written m p i (by_summed project) = refl
wrapper_written m p i (by_summed device_id) = refl

pub increase_written :
    (m : Metric) (p : Option Str) (u : Outer)
    → range_function (inner_text m p increased u)
      ≡ ok (true, metric_name m ++ after_metric p increased u)
unfolding range_function ident skip_ws word str_eq eat
increase_written m p u = refl

pub range_written :
    (m : Metric) (p : Option Str) (i : Inner) (u : Outer)
    → range_function (inner_text m p i u) ≡ ok (is_increased i, metric_name m ++ after_metric p i u)
unfolding range_function eat
range_written m p instant u = rw (ident_written m p instant u, no_call p instant u) refl
range_written m p ranged u = rw (ident_written m p ranged u, no_call p ranged u) refl
range_written m p increased u = increase_written m p u

pub metric_written :
    (m : Metric) (p : Option Str) (i : Inner) (u : Outer)
    → metric (metric_name m ++ after_metric p i u) ≡ ok (m, after_metric p i u)
unfolding metric str_eq
metric_written usage p i u = rw (ident_written usage p i u) refl
metric_written cost p i u = rw (ident_written cost p i u) refl
metric_written events p i u = rw (ident_written events p i u) refl
