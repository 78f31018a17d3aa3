-- ===== src/Windows/Premerge.antt =====
-- `premerge_windows` of src/sync/handler.rs: duplicates of one logical window inside a batch are
-- merged before the store sees them. `sort_unstable_by` promises a sorted rearrangement and leaves
-- the order of equal elements open, so it is a parameter.
pub mod Unique
pub mod Coverage
use Prim.Native.Nat.{Ordering}
use mathlib.Core.List.{Perm, reverse}
use toki_sync.Prelude.{
  ◌≡◌, ◌≢◌, Bool, ◌&&◌, List, [], ◌∷◌, All, compare, str_cmp, str_eq, cmp_ℤ, eqb_ℤ, ◌==◌, then_with,
  if◌then◌else◌,
}
use toki_sync.Windows.{WireWindow}
use toki_sync.Windows.Merge.{merge_wire_windows}

-- The comparison that the sort is given.
unfoldable pub window_cmp : WireWindow → WireWindow → Ordering
window_cmp a b =
    then_with
      (then_with (then_with (compare a.window_kind b.window_kind) (str_cmp a.limit_id b.limit_id))
        (str_cmp a.account b.account))
      (cmp_ℤ a.window_end_ms b.window_end_ms)

abbrev pub IsSorted : List WireWindow → Type 0
IsSorted [] = Unit
IsSorted (w ∷ ws) = All (λ v. window_cmp w v ≢ Ordering.gt) ws × IsSorted ws

pub record UnstableSort : Type 0 where
  pub sort : List WireWindow → List WireWindow
  pub sort_perm : (ws : List WireWindow) → Perm (sort ws) ws
  pub sort-IsSorted : (ws : List WireWindow) → IsSorted (sort ws)

-- The guard of the match arm.
unfoldable pub is_duplicate : WireWindow → WireWindow → Bool
is_duplicate prev w =
    prev.window_kind == w.window_kind
    && str_eq prev.limit_id w.limit_id
    && str_eq prev.account w.account
    && eqb_ℤ prev.window_end_ms w.window_end_ms

-- One round of the loop. The head of the list is `merged.last_mut()`.
unfoldable pub push_or_merge : List WireWindow → WireWindow → List WireWindow
push_or_merge [] w = w ∷ []
push_or_merge (prev ∷ merged) w =
    if is_duplicate prev w then merge_wire_windows prev w ∷ merged else w ∷ prev ∷ merged

unfoldable pub premerge_loop : List WireWindow → List WireWindow → List WireWindow
premerge_loop merged [] = merged
premerge_loop merged (w ∷ ws) = premerge_loop (push_or_merge merged w) ws

unfoldable pub premerge_windows : UnstableSort → List WireWindow → List WireWindow
premerge_windows s items = reverse (premerge_loop [] (s.sort items))
