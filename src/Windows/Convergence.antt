-- ===== src/Windows/Convergence.antt =====
-- What several devices see of one window converges: `merge_wire_windows` of src/events/mod.rs over
-- sequences of observations.
use mathlib.Core.List.{Perm, Permᴰ}
use mathlib.Core.Logic.{∥∥₁_elim}
use toki_sync.Prelude.{
  ℕ, ◌≡◌, ◌≢◌, refl, sym, subst, ◌∙◌, ap, Bool, ◌||◌, ℤ, arith, List, [], ◌∷◌, All, max, min,
}
use toki_sync.Windows.{WireWindow, active_cap}
use toki_sync.Windows.Merge.{
  merge_wire_windows, merge_first_seen, merge_time_to_100, latest, merge_absorb,
}

first_seen_swap :
    (p a b : ℤ)
    → merge_first_seen (merge_first_seen p a) b ≡ merge_first_seen (merge_first_seen p b) a
unfolding merge_first_seen
first_seen_swap p a b = ground arith

time_swap :
    (p a b : ℤ)
    → merge_time_to_100 (merge_time_to_100 p a) b ≡ merge_time_to_100 (merge_time_to_100 p b) a
unfolding merge_time_to_100
time_swap p a b = ground arith

max_swap : (p a b : ℕ) → max (max p a) b ≡ max (max p b) a
max_swap p a b = omega arith

or_swap : (p a b : Bool) → ((p || a) || b) ≡ ((p || b) || a)
or_swap p a b = ground arith

cap_swap : (p a b c : ℕ) → min (max (min (max p a) c) b) c ≡ min (max (min (max p b) c) a) c
cap_swap p a b c = omega arith

-- Two observations of different times, of the same window length, may arrive in either order.
pub merge_swap :
    (p a b : WireWindow)
    → a.observed_ts_ms ≢ b.observed_ts_ms
    → a.window_minutes ≡ p.window_minutes
    → b.window_minutes ≡ p.window_minutes
    → merge_wire_windows (merge_wire_windows p a) b ≡ merge_wire_windows (merge_wire_windows p b) a
unfolding merge_wire_windows latest
merge_swap p a b apart ha hb = ground (
  arith,
  first_seen_swap p.first_seen_ms a.first_seen_ms b.first_seen_ms,
  time_swap p.time_to_100_ms a.time_to_100_ms b.time_to_100_ms,
  max_swap p.peak_pct_x100 a.peak_pct_x100 b.peak_pct_x100,
  max_swap p.limit_reached_kind a.limit_reached_kind b.limit_reached_kind,
  max_swap p.sampled_active_fraction a.sampled_active_fraction b.sampled_active_fraction,
  max_swap p.n_samples a.n_samples b.n_samples,
  or_swap p.finalized a.finalized b.finalized,
  or_swap p.maxed_out a.maxed_out b.maxed_out,
  cap_swap p.active_ms a.active_ms b.active_ms (active_cap p.window_minutes),
)

-- The stored row after a sequence of uploads of the same window.
unfoldable pub delivered : WireWindow → List WireWindow → WireWindow
delivered p [] = p
delivered p (w ∷ ws) = delivered (merge_wire_windows p w) ws

-- No two observations were made at the same instant.
abbrev pub Apart : WireWindow → List WireWindow → Type 0
Apart a = All (λ b. a.observed_ts_ms ≢ b.observed_ts_ms)

abbrev pub Distinct : List WireWindow → Type 0
Distinct [] = Unit
Distinct (w ∷ ws) = Apart w ws × Distinct ws

-- Every observation has the window length `m`.
abbrev pub HaveLength : ℕ → List WireWindow → Type 0
HaveLength m = All (λ w. w.window_minutes ≡ m)

minutes-merge :
    (m : ℕ) (p a : WireWindow)
    → p.window_minutes ≡ m
    → a.window_minutes ≡ m
    → (merge_wire_windows p a).window_minutes ≡ m
unfolding merge_wire_windows latest
minutes-merge m p a hp ha = ground arith

module _ (m : ℕ) where
  keeps_absorbing :
      (p x : WireWindow) (ws : List WireWindow)
      → p.window_minutes ≡ m
      → x.window_minutes ≡ m
      → HaveLength m ws
      → Apart x ws
      → merge_wire_windows p x ≡ p
      → merge_wire_windows (delivered p ws) x ≡ delivered p ws
  unfolding delivered
  keeps_absorbing p x [] hp hx hw hd e = e
  keeps_absorbing p x (w ∷ ws) hp hx hw hd e =
      keeps_absorbing (merge_wire_windows p w) x ws (minutes-merge m p w hp hw.0) hx hw.1 hd.1 (
        sym (merge_swap p x w hd.0 (hx ∙ sym hp) (hw.0 ∙ sym hp))
        ∙ ap (λ q. merge_wire_windows q w) e)

  absorbs-All :
      (p : WireWindow) (ws : List WireWindow)
      → p.window_minutes ≡ m
      → HaveLength m ws
      → Distinct ws
      → All (λ x. merge_wire_windows (delivered p ws) x ≡ delivered p ws) ws
  unfolding delivered
  absorbs-All p [] hp hw hd = tt
  absorbs-All p (w ∷ ws) hp hw hd =
      let hp' = minutes-merge m p w hp hw.0 in
      (
        keeps_absorbing (merge_wire_windows p w) w ws hp' hw.0 hw.1 hd.0 (merge_absorb p w),
        absorbs-All (merge_wire_windows p w) ws hp' hw.1 hd.1,
      )

delivered_fixed :
    (q : WireWindow) (ws : List WireWindow)
    → All (λ x. merge_wire_windows q x ≡ q) ws
    → delivered q ws ≡ q
unfolding delivered
delivered_fixed q [] h = refl
delivered_fixed q (w ∷ ws) h = rw h.0 (delivered_fixed q ws h.1)

-- When a device uploads again everything that it uploaded before, the stored row does not change.
-- The observations have distinct times and the window length of the stored row.
pub resend_idempotent :
    (p : WireWindow) (ws : List WireWindow)
    → HaveLength p.window_minutes ws
    → Distinct ws
    → delivered (delivered p ws) ws ≡ delivered p ws
resend_idempotent p ws hw hd =
    delivered_fixed (delivered p ws) ws (absorbs-All p.window_minutes p ws refl hw hd)

WireWindow-set : IsSet WireWindow
WireWindow-set = hlevel

HaveLength-perm :
    (m : ℕ) {xs ys : List WireWindow} → Permᴰ xs ys → HaveLength m xs → HaveLength m ys
HaveLength-perm m Permᴰ.nil h = tt
HaveLength-perm m (Permᴰ.cons e r) h =
    (subst (λ w. w.window_minutes ≡ m) e h.0, HaveLength-perm m r h.1)
HaveLength-perm m (Permᴰ.swap e f) h =
    (subst (λ w. w.window_minutes ≡ m) f h.1.0, (subst (λ w. w.window_minutes ≡ m) e h.0, h.1.1))
HaveLength-perm m (Permᴰ.trans r s) h = HaveLength-perm m s (HaveLength-perm m r h)

Apart-perm : (a : WireWindow) {xs ys : List WireWindow} → Permᴰ xs ys → Apart a xs → Apart a ys
Apart-perm a Permᴰ.nil h = tt
Apart-perm a (Permᴰ.cons e r) h =
    (subst (λ w. a.observed_ts_ms ≢ w.observed_ts_ms) e h.0, Apart-perm a r h.1)
Apart-perm a (Permᴰ.swap e f) h = (
  subst (λ w. a.observed_ts_ms ≢ w.observed_ts_ms) f h.1.0,
  (subst (λ w. a.observed_ts_ms ≢ w.observed_ts_ms) e h.0, h.1.1),
)
Apart-perm a (Permᴰ.trans r s) h = Apart-perm a s (Apart-perm a r h)

Distinct-perm : {xs ys : List WireWindow} → Permᴰ xs ys → Distinct xs → Distinct ys
Distinct-perm Permᴰ.nil h = tt
Distinct-perm (Permᴰ.cons {a = x} {l₂ = ys} e r) h =
    (subst (λ w. Apart w ys) e (Apart-perm x r h.0), Distinct-perm r h.1)
Distinct-perm (Permᴰ.swap {l = l} e f) h = (
  (
    λ g. h.0.0 (ap (λ w. w.observed_ts_ms) e ∙ sym g ∙ sym (ap (λ w. w.observed_ts_ms) f)),
    subst (λ w. Apart w l) f h.1.0,
  ),
  (subst (λ w. Apart w l) e h.0.1, h.1.1),
)
Distinct-perm (Permᴰ.trans r s) h = Distinct-perm s (Distinct-perm r h)

perm_delivered :
    (m : ℕ) {xs ys : List WireWindow}
    → Permᴰ xs ys
    → (p : WireWindow) → p.window_minutes ≡ m
    → HaveLength m xs
    → Distinct xs
    → delivered p xs ≡ delivered p ys
unfolding delivered
perm_delivered m Permᴰ.nil p hp hw hd = refl
perm_delivered m (Permᴰ.cons {a = a} {l₂ = ys} e r) p hp hw hd =
    perm_delivered m r (merge_wire_windows p a) (minutes-merge m p a hp hw.0) hw.1 hd.1
    ∙ ap (λ w. delivered (merge_wire_windows p w) ys) e
perm_delivered m (Permᴰ.swap {a = a} {b = b} {a' = a'} {l = l} e f) p hp hw hd =
    ap (λ q. delivered q l) (merge_swap p a b hd.0.0 (hw.0 ∙ sym hp) (hw.1.0 ∙ sym hp))
    ∙ ap (λ w. delivered (merge_wire_windows (merge_wire_windows p w) a) l) f
    ∙ ap (λ w. delivered (merge_wire_windows (merge_wire_windows p a') w) l) e
perm_delivered m (Permᴰ.trans r s) p hp hw hd =
    perm_delivered m r p hp hw hd
    ∙ perm_delivered m s p hp (HaveLength-perm m r hw) (Distinct-perm r hd)

-- In whatever order observations of one window arrive, from whichever devices, the same row is
-- stored. The observations have distinct times and the window length of the stored row.
pub delivery_order :
    (p : WireWindow) (xs ys : List WireWindow)
    → Perm xs ys
    → HaveLength p.window_minutes xs
    → Distinct xs
    → delivered p xs ≡ delivered p ys
delivery_order p xs ys r hw hd =
    ∥∥₁_elim r (WireWindow-set _ _) (λ d. perm_delivered p.window_minutes d p refl hw hd)
