-- ===== src/Windows/Premerge/Coverage.antt =====
-- `premerge_windows` of src/sync/handler.rs loses nothing: each uploaded row is absorbed by a row of
-- the merged batch.
use mathlib.Core.List.Perm
use mathlib.Core.List.{Mem, Memᴰ, mem-cons_self, mem-cons_of_mem, mem-reverse}
use mathlib.Core.Logic.{∥∥₁_map}
use toki_sync.Prelude.{
  ◌≡◌, refl, sym, subst, ◌∙◌, ◌≤◌, ◌≤ℤ◌, true, List, [], ◌∷◌, All, arith, Bool-cases, inl, inr, ◌⊎◌,
}
use toki_sync.Windows.{WireWindow}
use toki_sync.Windows.Merge.{merge_wire_windows, latest}
use toki_sync.Windows.Premerge.{
  UnstableSort, is_duplicate, push_or_merge, premerge_loop, premerge_windows,
}
use toki_sync.Windows.Premerge.Unique.{window_key, is_duplicate_iff}

-- `v` is the same window as `w`, and knows at least as much.
pub record Absorbs (v w : WireWindow) : Type 0 where
  pub same : window_key v ≡ window_key w
  pub peak : w.peak_pct_x100 ≤ v.peak_pct_x100
  pub observed : w.observed_ts_ms ≤ℤ v.observed_ts_ms
  pub samples : w.n_samples ≤ v.n_samples
  pub reached : w.limit_reached_kind ≤ v.limit_reached_kind
  pub finalized : w.finalized ≡ true → v.finalized ≡ true
  pub maxed_out : w.maxed_out ≡ true → v.maxed_out ≡ true

Absorbs-refl : (w : WireWindow) → Absorbs w w
Absorbs-refl w = record {
  same = refl;
  peak = omega arith;
  observed = omega arith;
  samples = omega arith;
  reached = omega arith;
  finalized = λ h. h;
  maxed_out = λ h. h;
}

Absorbs-trans : (u v w : WireWindow) → Absorbs u v → Absorbs v w → Absorbs u w
Absorbs-trans u v w h k = record {
  same = h.same ∙ k.same;
  peak = omega arith;
  observed = omega arith;
  samples = omega arith;
  reached = omega arith;
  finalized = λ e. h.finalized (k.finalized e);
  maxed_out = λ e. h.maxed_out (k.maxed_out e);
}

-- The merge absorbs what was there, and what comes if it is the same window.
merge-Absorbs_old : (p w : WireWindow) → Absorbs (merge_wire_windows p w) p
unfolding merge_wire_windows latest
merge-Absorbs_old p w = record {
  same = refl;
  peak = omega arith;
  observed = ground arith;
  samples = omega arith;
  reached = omega arith;
  finalized = λ e. ground arith;
  maxed_out = λ e. ground arith;
}

merge-Absorbs_new :
    (p w : WireWindow) → window_key p ≡ window_key w → Absorbs (merge_wire_windows p w) w
unfolding merge_wire_windows latest
merge-Absorbs_new p w e = record {
  same = e;
  peak = omega arith;
  observed = ground arith;
  samples = omega arith;
  reached = omega arith;
  finalized = λ h. ground arith;
  maxed_out = λ h. ground arith;
}

-- Some row of the list absorbs `w`.
abbrev Covered : List WireWindow → WireWindow → Type 0
Covered [] w = ⊥
Covered (v ∷ vs) w = Absorbs v w ⊎ Covered vs w

push_or_merge-Covered_old :
    (merged : List WireWindow) (w u : WireWindow)
    → Covered merged u
    → Covered (push_or_merge merged w) u
unfolding push_or_merge
push_or_merge-Covered_old [] w u h = inr h
push_or_merge-Covered_old (p ∷ ms) w u h = elim (Bool-cases (is_duplicate p w)) [
  | inl e ↦ elim h [
    | inl a ↦ rw e (inl (Absorbs-trans (merge_wire_windows p w) p u (merge-Absorbs_old p w) a))
    | inr c ↦ rw e (inr c)
  ]
  | inr e ↦ rw e (inr h)
]

push_or_merge-Covered_new :
    (merged : List WireWindow) (w : WireWindow) → Covered (push_or_merge merged w) w
unfolding push_or_merge
push_or_merge-Covered_new [] w = inl (Absorbs-refl w)
push_or_merge-Covered_new (p ∷ ms) w = elim (Bool-cases (is_duplicate p w)) [
  | inl e ↦ rw e (inl (merge-Absorbs_new p w ((is_duplicate_iff p w).0 e)))
  | inr e ↦ rw e (inl (Absorbs-refl w))
]

loop-Covered_old :
    (merged ws : List WireWindow) (u : WireWindow)
    → Covered merged u
    → Covered (premerge_loop merged ws) u
unfolding premerge_loop
loop-Covered_old merged [] u h = h
loop-Covered_old merged (w ∷ ws) u h =
    loop-Covered_old (push_or_merge merged w) ws u (push_or_merge-Covered_old merged w u h)

loop-Covered : (merged ws : List WireWindow) → All (Covered (premerge_loop merged ws)) ws
unfolding premerge_loop
loop-Covered merged [] = tt
loop-Covered merged (w ∷ ws) = (
  loop-Covered_old (push_or_merge merged w) ws w (push_or_merge-Covered_new merged w),
  loop-Covered (push_or_merge merged w) ws,
)

-- The covering row, as a member.
abbrev pub IsAbsorbed : List WireWindow → WireWindow → Type 0
IsAbsorbed out w = ∥ ((v : WireWindow) × Mem v out × Absorbs v w) ∥₁

absorbed_of_Covered :
    (out : List WireWindow) (w : WireWindow)
    → Covered out w
    → (v : WireWindow) × Mem v out × Absorbs v w
absorbed_of_Covered [] w h = absurd h
absorbed_of_Covered (v ∷ vs) w (inl a) = (v, mem-cons_self, a)
absorbed_of_Covered (v ∷ vs) w (inr c) =
    let (u, m, a) = absorbed_of_Covered vs w c in (u, mem-cons_of_mem v m, a)

All-memᴰ :
    (P : WireWindow → Type 0) {w : WireWindow} (xs : List WireWindow) → All P xs → Memᴰ w xs → P w
All-memᴰ P [] h m = elim m [ ]
All-memᴰ P (x ∷ xs) h (Memᴰ.head e) = subst P (sym e) h.0
All-memᴰ P (x ∷ xs) h (Memᴰ.tail m) = All-memᴰ P xs h.1 m

-- Each uploaded row is absorbed by a row of the merged batch that is the same window, with a peak,
-- an observation time, a sample count, a limit kind and flags that are no lower.
pub premerge_covers :
    (s : UnstableSort) (items : List WireWindow) (w : WireWindow)
    → Mem w items
    → IsAbsorbed (premerge_windows s items) w
unfolding premerge_windows
premerge_covers s items w m =
    let out : List WireWindow = premerge_loop [] (s.sort items) in
    ∥∥₁_map ((Perm.mem_iff (s.sort_perm items)).1 m) (λ d.
      let (v, mv, a) =
        absorbed_of_Covered out w
          (All-memᴰ (Covered out) (s.sort items) (loop-Covered [] (s.sort items)) d) in
      (v, mem-reverse.1 mv, a))
