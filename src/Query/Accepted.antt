-- ===== src/Query/Accepted.antt =====
-- What the query parser of src/server/handlers/metrics.rs accepts, and that its loops end.
use toki_sync.Prelude.{
  ◌+◌, ◌≡◌, ◌≢◌, refl, subst, Bool, true, not, ◌||◌, Option, none, some, List, [], ◌∷◌, Str, str_eq,
  arith, Result, ok, err, ◌>>=◌, Bool-cases, inl, inr,
}
use toki_sync.Query.Cursor.{Refusal, out_of_fuel, skip_ws, ident, at_end}
use toki_sync.Query.Total.{Gives, Gives-bind}
use toki_sync.Query.Stages.{
  wrapper_named-Ends, range_named-Ends, metric_named-Ends, IsProvider, filters-Gives, bucket-Ends,
  offset_named-Ends, close_parens-Ends, trailing_named-Ends, is_dimension, IsSelected,
  resolve-Gives,
}
use toki_sync.Query.Parse.{
  wrapper, range_function, Metric, metric, filters, bucket, no_offset, close_parens, trailing_by,
  resolve, ParsedQuery, or_model, parsed_query, finish, count, parse_toki_virtual_query,
}

-- One dimension to group by, and a provider that is no empty text.
pub record IsExecutable (q : ParsedQuery) : Type 0 where
  pub one_dimension : is_dimension q.group_by ≡ true
  pub has_provider : IsProvider q.provider

or_model-dimension : (o : Option Str) → IsSelected o → is_dimension (or_model o) ≡ true
unfolding str_eq
or_model-dimension none h = refl
or_model-dimension (some l) h = h

executable :
    (m : Metric) (plain : Bool) (labels : List Str) (selected provider : Option Str)
    → IsSelected selected
    → IsProvider provider
    → IsExecutable (parsed_query m plain labels selected provider)
executable m plain labels selected provider h p = record {
  one_dimension = or_model-dimension selected h;
  has_provider = p;
}

resolved-IsExecutable :
    (m : Metric) (plain : Bool) (provider : Option Str) (labels : List Str)
    → IsProvider provider
    → Gives IsExecutable
        (resolve none labels >>= λ selected. ok (parsed_query m plain labels selected provider))
unfolding resolve
resolved-IsExecutable m plain provider [] p = executable m plain [] none provider tt p
resolved-IsExecutable m plain provider (l ∷ ls) p =
    Gives-bind IsSelected IsExecutable (resolve none (l ∷ ls))
      (λ selected. ok (parsed_query m plain (l ∷ ls) selected provider))
      (resolve-Gives none (l ∷ ls) tt)
      (λ selected h. executable m plain (l ∷ ls) selected provider h p)

finish-IsExecutable :
    (m : Metric) (plain : Bool) (provider : Option Str) (r : List Str × Str)
    → IsProvider provider
    → Gives IsExecutable (finish m plain provider r)
finish-IsExecutable m plain provider (labels, s) p = elim (Bool-cases (not (at_end s))) [
  | inl e ↦ rw e refl
  | inr e ↦ rw e (resolved-IsExecutable m plain provider labels p)
]

pub parsed-IsExecutable : (query : Str) → Gives IsExecutable (parse_toki_virtual_query query)
unfolding parse_toki_virtual_query wrapper range_function metric no_offset trailing_by
parsed-IsExecutable query = elim (Bool-cases (at_end query)) [
  | inl e ↦ rw e refl
  | inr e ↦ rw e (stages (skip_ws query))
]
  where
    stages :
        (s : Str)
        → Gives IsExecutable (
            wrapper s >>= λ w. range_function w.2 >>= λ r. metric r.1 >>= λ m. filters m.1 >>= λ f.
            bucket f.1 >>= λ b. no_offset b.1 >>= λ o.
            close_parens (count w.1 + count r.0) o >>= λ c.
            trailing_by w.0 c >>= finish m.0 (not (w.1 || r.0 || b.0)) f.0)
    stages s =
        Gives-bind (λ a. Unit) IsExecutable (wrapper s) _ (wrapper_named-Ends s (ident s))
          (λ w _.
            Gives-bind (λ a. Unit) IsExecutable (range_function w.2) _
              (range_named-Ends w.2 (ident w.2))
              (λ r _.
                Gives-bind (λ a. Unit) IsExecutable (metric r.1) _ (metric_named-Ends (ident r.1))
                  (λ m _.
                    Gives-bind (λ f. IsProvider f.0) IsExecutable (filters m.1) _
                      (filters-Gives m.1)
                      (λ f p.
                        Gives-bind (λ a. Unit) IsExecutable (bucket f.1) _ (bucket-Ends f.1)
                          (λ b _.
                            Gives-bind (λ a. Unit) IsExecutable (no_offset b.1) _
                              (offset_named-Ends b.1 (ident b.1))
                              (λ o _.
                                Gives-bind (λ a. Unit) IsExecutable
                                  (close_parens (count w.1 + count r.0) o) _
                                  (close_parens-Ends (count w.1 + count r.0) o)
                                  (λ c _.
                                    Gives-bind (λ a. Unit) IsExecutable (trailing_by w.0 c) _
                                      (trailing_named-Ends w.0 c (ident c))
                                      (λ t _.
                                        finish-IsExecutable m.0 (not (w.1 || r.0 || b.0)) f.0 t
                                          p))))))))

given :
    (r : Result ParsedQuery Refusal) (q : ParsedQuery)
    → Gives IsExecutable r
    → r ≡ ok q
    → IsExecutable q
given r q h e = subst (Gives IsExecutable) e h

-- A query that is accepted groups by `model`, `project` or `device_id`, and names no empty provider.
pub accepted-IsExecutable :
    (query : Str) (q : ParsedQuery) → parse_toki_virtual_query query ≡ ok q → IsExecutable q
accepted-IsExecutable query q e =
    given (parse_toki_virtual_query query) q (parsed-IsExecutable query) e

fuel_lem : (r : Result ParsedQuery Refusal) → Gives IsExecutable r → r ≢ err out_of_fuel
fuel_lem (ok q) h e = absurd (ground arith)
fuel_lem (err x) h e = absurd (ground arith)

-- The loops of the parser have turns enough: no query is refused for want of them.
pub parse_ends : (query : Str) → parse_toki_virtual_query query ≢ err out_of_fuel
parse_ends query = fuel_lem (parse_toki_virtual_query query) (parsed-IsExecutable query)
