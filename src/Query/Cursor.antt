-- ===== src/Query/Cursor.antt =====
-- `QueryCursor` of src/server/handlers/metrics.rs: the position is the text that is left, so that each
-- operation returns it. Refusals are told apart as the messages are; their text is left out.
use toki_sync.Prelude.{
  ℕ, zero, suc, Bool, true, false, ◌&&◌, ◌||◌, Option, none, some, List, [], ◌∷◌, ◌++◌, Str, length,
  leb, ◌==◌, if◌then◌else◌, Result, ok, err, ◌>>=◌,
}
use toki_sync.Query.Numbers.{is_digit}

pub data Refusal : Type 0 where
  empty_query : Refusal
  by_without_parens : Refusal
  label_expected : Refusal
  comma_or_paren_expected : Refusal
  no_label : Refusal
  unsupported_aggregation : Refusal
  unsupported_function : Refusal
  metric_expected : Refusal
  windows_not_bare : Refusal
  local_metric : Refusal
  unknown_metric : Refusal
  filter_expected : Refusal
  matcher_expected : Refusal
  unsupported_matcher : Refusal
  unsupported_filter : Refusal
  empty_provider : Refusal
  conflicting_providers : Refusal
  comma_or_brace_expected : Refusal
  quote_expected : Refusal
  escape_in_value : Refusal
  unterminated_value : Refusal
  unterminated_range : Refusal
  invalid_range : Refusal
  unsupported_offset : Refusal
  unbalanced_parens : Refusal
  duplicate_by : Refusal
  trailing_input : Refusal
  many_group_labels : Refusal
  unknown_group_label : Refusal
  out_of_fuel : Refusal

-- `u8::is_ascii_whitespace`
abbrev pub is_space : ℕ → Bool
is_space b = b == 32 || b == 9 || b == 10 || b == 12 || b == 13

unfoldable pub skip_ws : Str → Str
skip_ws [] = []
skip_ws (b ∷ bs) = let rest = skip_ws bs in if is_space b then rest else b ∷ bs

abbrev pub peek : Str → Option ℕ
peek [] = none
peek (b ∷ bs) = some b

abbrev pub next_is : ℕ → Str → Bool
next_is b [] = false
next_is b (c ∷ cs) = c == b

abbrev pub eat_here : ℕ → Str → Str × Bool
eat_here b [] = ([], false)
eat_here b (c ∷ cs) = if c == b then (cs, true) else (c ∷ cs, false)

unfoldable pub eat : ℕ → Str → Str × Bool
eat b s = eat_here b (skip_ws s)

abbrev pub is_word : ℕ → Bool
is_word b = is_digit b || (leb 65 b && leb b 90) || (leb 97 b && leb b 122) || b == 95

-- The longest run of letters, digits and underscores, and what follows it.
unfoldable pub word : Str → Str × Str
word [] = ([], [])
word (b ∷ bs) = let r = word bs in if is_word b then (b ∷ r.0, r.1) else ([], b ∷ bs)

abbrev pub named : Str × Str → Str × Option Str
named ([], rest) = (rest, none)
named (b ∷ bs, rest) = (rest, some (b ∷ bs))

unfoldable pub ident : Str → Str × Option Str
unfolding word
ident s = named (word (skip_ws s))

abbrev pub at_end : Str → Bool
at_end s = elim (skip_ws s) [ [] ↦ true | _ ∷ _ ↦ false ]

abbrev pub prefixed : ℕ → Result (Str × Str) Refusal → Result (Str × Str) Refusal
prefixed b (ok (value, rest)) = ok (b ∷ value, rest)
prefixed b (err e) = err e

-- The bytes up to the closing quote, and what follows it.
unfoldable pub until_quote : Str → Result (Str × Str) Refusal
until_quote [] = err unterminated_value
until_quote (b ∷ bs) =
    let rest = until_quote bs in
    if b == 34 then ok ([], bs) else if b == 92 then err escape_in_value else prefixed b rest

abbrev pub quoted_here : Str → Result (Str × Str) Refusal
quoted_here [] = err quote_expected
quoted_here (b ∷ bs) = if b == 34 then until_quote bs else err quote_expected

unfoldable pub quoted : Str → Result (Str × Str) Refusal
quoted s = quoted_here (skip_ws s)

abbrev pub Labels : Type 0
Labels = Result (List Str × Str) Refusal

-- After a label: a comma goes on, a parenthesis ends.
abbrev pub label_end : List Str → Str → Str × Bool → Labels → Labels
label_end labels s (s', true) rest = rest
label_end labels s (s', false) rest =
    let close = eat 41 s in if close.1 then ok (labels, close.0) else err comma_or_paren_expected

-- The loop of `by_labels`, by the number of its turns.
unfoldable pub label_loop : ℕ → List Str → Str → Labels
label_loop zero labels s = err out_of_fuel
label_loop (suc n) labels s =
    let close = eat 41 s in
    let id = ident close.0 in
    let comma = eat 44 id.0 in
    if close.1 then ok (labels, close.0) else elim id.1 [
      | none ↦ err label_expected
      | some label ↦
          label_end (labels ++ label ∷ []) comma.0 comma
            (label_loop n (labels ++ label ∷ []) comma.0)
    ]

abbrev pub some_labels : List Str × Str → Labels
some_labels ([], rest) = err no_label
some_labels (l ∷ ls, rest) = ok (l ∷ ls, rest)

unfoldable pub by_labels : Str → Labels
by_labels s =
    let open_paren = eat 40 s in
    if open_paren.1
    then label_loop (suc (length open_paren.0)) [] open_paren.0 >>= some_labels
    else err by_without_parens
