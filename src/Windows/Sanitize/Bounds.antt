-- ===== src/Windows/Sanitize/Bounds.antt =====
-- What `sanitize_window_batch` of src/sync/handler.rs guarantees of the rows that it keeps, and how
-- it accounts for the rows that it leaves out.
use mathlib.Core.List.Perm
use mathlib.Core.List.{Perm, append-nil}
use toki_sync.Prelude.{
  ◌+◌, ◌≤◌, ◌<◌, ◌≡◌, ◌⊎◌, Bool, true, false, ℤ, pos, negsuc, ◌+ℤ◌, ◌-ℤ◌, ◌≤ℤ◌, min_ℤ, ◌<ℤ◌,
  +ℤ_parts, -ℤ_parts, List, [], ◌++◌, map, length, drop, filter, All, All-imp, All-both, All-intro,
  All-map, All-take, All-filter, All-filter_self, length-map, length-take, length-drop,
  length-filter-le, take-append-drop, ltb, Bool-cases, inl, inr, arith, min,
}
use toki_sync.Windows.{WireWindow, active_cap}
use toki_sync.Windows.Sanitize.{
  max_window_items, two_years_ms, horizon_ms, reset_horizon_ms, str_ok, window_item_stable_ok,
  window_item_transient_ok, raise_observed, clamp_active, lower_observed, lower_first_seen,
  enforce_cap, sanitize_window_batch,
}
use toki_sync.Windows.Sanitize.Sort.{
  sort_by_key_rev, All-sort_by_key_rev, sort_by_key_rev-IsNewestFirst, length-sort_by_key_rev,
  sort_by_key_rev-perm, cut_newest,
}

length-enforce_cap :
    (items : List WireWindow) → length (enforce_cap items).0 + (enforce_cap items).1 ≡ length items
unfolding enforce_cap
length-enforce_cap items = elim (Bool-cases (ltb max_window_items (length items))) [
  | inl e ↦ rw e (
      omega (
        arith,
        length-take max_window_items (sort_by_key_rev (λ w. w.window_end_ms) items),
        length-sort_by_key_rev {0} (λ (w : WireWindow). w.window_end_ms) items,
        cap_reached e,
      ))
  | inr e ↦ rw e (omega arith)
]
  where
    cap_reached : ltb max_window_items (length items) ≡ true → max_window_items < length items
    cap_reached e = ground arith

enforce_cap-le : (items : List WireWindow) → length (enforce_cap items).0 ≤ max_window_items
unfolding enforce_cap
enforce_cap-le items = elim (Bool-cases (ltb max_window_items (length items))) [
  | inl e ↦
      rw e
        (omega (arith, length-take max_window_items (sort_by_key_rev (λ w. w.window_end_ms) items)))
  | inr e ↦ rw e (ground arith)
]

-- Every row of an upload is either kept or counted once: as a permanent reject, as a reject that
-- waiting can mend, or as over the limit. At most `MAX_WINDOW_ITEMS` rows are kept.
pub sanitize_accounts :
    (items : List WireWindow) (now_ms : ℤ)
    → (length (sanitize_window_batch items now_ms).items
          + (sanitize_window_batch items now_ms).over_cap
          + (sanitize_window_batch items now_ms).transient_rejects
          + (sanitize_window_batch items now_ms).stable_rejects
        ≡ length items)
      × (length (sanitize_window_batch items now_ms).items ≤ max_window_items)
unfolding sanitize_window_batch
sanitize_accounts items now_ms =
    let raised : List WireWindow = map (raise_observed now_ms) items in
    let stable : List WireWindow = filter (λ w. window_item_stable_ok w now_ms) raised in
    let kept : List WireWindow = filter (λ w. window_item_transient_ok w now_ms) stable in
    let final : List WireWindow = (enforce_cap (map clamp_active kept)).0 in
    let h1 = length-map (raise_observed now_ms) items in
    let h2 = length-filter-le (λ w. window_item_stable_ok w now_ms) raised in
    let h3 = length-filter-le (λ w. window_item_transient_ok w now_ms) stable in
    let h4 = length-map clamp_active kept in
    let h5 = length-enforce_cap (map clamp_active kept) in
    let h6 = length-map (λ w. lower_first_seen (lower_observed now_ms w)) final in
    let h7 = enforce_cap-le (map clamp_active kept) in (omega arith, omega arith)

-- The rows over the limit are the oldest: the kept and the left-out rows together are the given
-- ones, each left-out row ends no later than each kept row, and the count is that of the left-out.
pub enforce_cap_newest :
    (items : List WireWindow)
    → (rest : List WireWindow) × Perm ((enforce_cap items).0 ++ rest) items
      × (length rest ≡ (enforce_cap items).1)
      × All (λ a. All (λ b. b.window_end_ms ≤ℤ a.window_end_ms) rest) (enforce_cap items).0
unfolding enforce_cap
enforce_cap_newest items = elim (Bool-cases (ltb max_window_items (length items))) [
  | inl e ↦ (
    drop max_window_items (sort_by_key_rev key items),
    rw (e, take-append-drop max_window_items (sort_by_key_rev key items))
        (sort_by_key_rev-perm key items),
    rw (
      e,
      length-drop max_window_items (sort_by_key_rev key items),
      length-sort_by_key_rev key items,
    ),
    rw e (
        cut_newest key max_window_items (sort_by_key_rev key items)
          (sort_by_key_rev-IsNewestFirst key items)),
  )
  | inr e ↦ (
    [],
    rw (e, append-nil items) (Perm.refl items),
    rw e,
    rw e (All-intro (λ a. All (λ b. key b ≤ℤ key a) []) (λ a. tt) items),
  )
]
  where
    key : WireWindow → ℤ
    key w = w.window_end_ms

-- What holds of every row that is kept.
pub record IsClean (now_ms : ℤ) (w : WireWindow) : Type 0 where
  pub limit_id_ok : str_ok w.limit_id 64 ≡ true
  pub account_ok : str_ok w.account 64 ≡ true
  pub plan_ok : str_ok w.plan 64 ≡ true
  pub kind : w.window_kind ≤ 1
  pub some_minutes : 0 < w.window_minutes
  pub minutes : w.window_minutes ≤ 44640
  pub reached : w.limit_reached_kind ≤ 2
  pub fraction : w.sampled_active_fraction ≤ 1000
  pub gap : negsuc 86399999 ≤ℤ w.last_sample_gap_ms
  pub active : w.active_ms ≤ active_cap w.window_minutes
  pub observed_low : now_ms -ℤ two_years_ms ≤ℤ w.observed_ts_ms
  pub observed_high : w.observed_ts_ms ≤ℤ now_ms +ℤ pos 60000
  pub first_low : pos 0 ≤ℤ w.first_seen_ms
  pub first_high : w.first_seen_ms ≤ℤ w.observed_ts_ms
  pub end_low : now_ms -ℤ two_years_ms <ℤ w.window_end_ms
  pub end_high : w.window_end_ms <ℤ now_ms +ℤ horizon_ms
  pub reset_low : now_ms -ℤ two_years_ms <ℤ w.raw_resets_at_ms
  pub reset_high : w.raw_resets_at_ms <ℤ now_ms +ℤ reset_horizon_ms

-- The rows that reach the caps: raised, and past both filters.
record IsAccepted (now_ms : ℤ) (w : WireWindow) : Type 0 where
  floor : now_ms -ℤ two_years_ms ≤ℤ w.observed_ts_ms
  stable : window_item_stable_ok w now_ms ≡ true
  transient : window_item_transient_ok w now_ms ≡ true

raise_observed-floor :
    (now_ms : ℤ) (w : WireWindow)
    → now_ms -ℤ two_years_ms ≤ℤ (raise_observed now_ms w).observed_ts_ms
unfolding raise_observed
raise_observed-floor now_ms w = ground arith

-- What the two filters test, as facts.
record Facts (now_ms : ℤ) (w : WireWindow) : Type 0 where
  limit_id_ok : str_ok w.limit_id 64 ≡ true
  account_ok : str_ok w.account 64 ≡ true
  plan_ok : str_ok w.plan 64 ≡ true
  kind : w.window_kind ≤ 1
  some_minutes : 0 < w.window_minutes
  minutes : w.window_minutes ≤ 44640
  reached : w.limit_reached_kind ≤ 2
  fraction : w.sampled_active_fraction ≤ 1000
  gap : negsuc 86399999 ≤ℤ w.last_sample_gap_ms
  first_low : pos 0 ≤ℤ w.first_seen_ms
  first_high : (w.first_seen_ms ≡ pos 0) ⊎ (w.first_seen_ms ≤ℤ w.observed_ts_ms)
  end_low : now_ms -ℤ two_years_ms <ℤ w.window_end_ms
  end_high : w.window_end_ms <ℤ now_ms +ℤ horizon_ms
  reset_low : now_ms -ℤ two_years_ms <ℤ w.raw_resets_at_ms
  reset_high : w.raw_resets_at_ms <ℤ now_ms +ℤ reset_horizon_ms

stable-Facts :
    (now_ms : ℤ) (w : WireWindow)
    → window_item_stable_ok w now_ms ≡ true
    → window_item_transient_ok w now_ms ≡ true
    → Facts now_ms w
unfolding window_item_stable_ok window_item_transient_ok
stable-Facts now_ms w h k = ground arith

-- The clamps touch three fields.
finish : ℤ → WireWindow → WireWindow
unfolding clamp_active lower_observed lower_first_seen
finish now_ms w = lower_first_seen (lower_observed now_ms (clamp_active w))

record Finished (now_ms : ℤ) (w v : WireWindow) : Type 0 where
  limit_id : v.limit_id ≡ w.limit_id
  account : v.account ≡ w.account
  plan : v.plan ≡ w.plan
  window_kind : v.window_kind ≡ w.window_kind
  window_minutes : v.window_minutes ≡ w.window_minutes
  limit_reached_kind : v.limit_reached_kind ≡ w.limit_reached_kind
  fraction : v.sampled_active_fraction ≡ w.sampled_active_fraction
  gap : v.last_sample_gap_ms ≡ w.last_sample_gap_ms
  window_end_ms : v.window_end_ms ≡ w.window_end_ms
  raw_resets_at_ms : v.raw_resets_at_ms ≡ w.raw_resets_at_ms
  active_ms : v.active_ms ≡ min w.active_ms (active_cap w.window_minutes)
  observed_ts_ms : v.observed_ts_ms ≡ min_ℤ w.observed_ts_ms (now_ms +ℤ pos 60000)
  first_seen_ms : v.first_seen_ms ≡ min_ℤ w.first_seen_ms v.observed_ts_ms

finish-Finished : (now_ms : ℤ) (w : WireWindow) → Finished now_ms w (finish now_ms w)
unfolding finish
finish-Finished now_ms w = ground arith

module _ (now_ms : ℤ) (w v : WireWindow) where
  final-IsClean :
      two_years_ms ≤ℤ now_ms → IsAccepted now_ms w → Finished now_ms w v → IsClean now_ms v
  final-IsClean late a d =
      let f = stable-Facts now_ms w a.stable a.transient in
      let p60 = +ℤ_parts now_ms (pos 60000) in
      let m2y = -ℤ_parts now_ms two_years_ms in
      record {
        limit_id_ok = rw d.limit_id f.limit_id_ok;
        account_ok = rw d.account f.account_ok;
        plan_ok = rw d.plan f.plan_ok;
        kind = rw d.window_kind f.kind;
        some_minutes = rw d.window_minutes f.some_minutes;
        minutes = rw d.window_minutes f.minutes;
        reached = rw d.limit_reached_kind f.reached;
        fraction = rw d.fraction f.fraction;
        gap = rw d.gap f.gap;
        active = rw (d.active_ms, d.window_minutes) (omega arith);
        observed_low = ground arith;
        observed_high = ground arith;
        first_low = ground arith;
        first_high = ground arith;
        end_low = rw d.window_end_ms f.end_low;
        end_high = rw d.window_end_ms f.end_high;
        reset_low = rw d.raw_resets_at_ms f.reset_low;
        reset_high = rw d.raw_resets_at_ms f.reset_high;
      }

accepted :
    (now_ms : ℤ) (items : List WireWindow)
    → All (IsAccepted now_ms) (
        filter
          (λ w. window_item_transient_ok w now_ms)
          (filter (λ w. window_item_stable_ok w now_ms) (map (raise_observed now_ms) items)))
accepted now_ms items =
    let raised : List WireWindow = map (raise_observed now_ms) items in
    let stable : List WireWindow = filter (λ w. window_item_stable_ok w now_ms) raised in
    let kept : List WireWindow = filter (λ w. window_item_transient_ok w now_ms) stable in
    let floors : All Floor kept = All-filter Floor transient_test stable (
      All-filter Floor stable_test raised (
        All-map (λ w. Unit {0}) Floor (raise_observed now_ms) (λ w _. raise_observed-floor now_ms w)
          items (All-intro (λ w. Unit {0}) (λ w. tt) items))) in
    let passed : All Stable kept =
      All-filter Stable transient_test stable
        (All-filter_self Stable stable_test (λ w h. h) raised) in
    let passed' : All Transient kept = All-filter_self Transient transient_test (λ w h. h) stable in
    All-imp (λ w h. record { floor = h.0; stable = h.1.0; transient = h.1.1 }) kept
      (All-both Floor (λ w. Stable w × Transient w) kept floors
        (All-both Stable Transient kept passed passed'))
  where
    stable_test : WireWindow → Bool
    stable_test w = window_item_stable_ok w now_ms

    transient_test : WireWindow → Bool
    transient_test w = window_item_transient_ok w now_ms

    Floor : WireWindow → Type 0
    Floor w = now_ms -ℤ two_years_ms ≤ℤ w.observed_ts_ms

    Stable : WireWindow → Type 0
    Stable w = window_item_stable_ok w now_ms ≡ true

    Transient : WireWindow → Type 0
    Transient w = window_item_transient_ok w now_ms ≡ true

All-enforce_cap :
    (P : WireWindow → Type 0) (items : List WireWindow) → All P items → All P (enforce_cap items).0
unfolding enforce_cap
All-enforce_cap P items h = elim (Bool-cases (ltb max_window_items (length items))) [
  | inl e ↦
      rw e (All-take P max_window_items _ (All-sort_by_key_rev (λ w. w.window_end_ms) P items h))
  | inr e ↦ rw e h
]

-- Every kept row passes each check after the clamps as well: its texts are short and hold no control
-- characters, its numbers, its sample gap and its times are in range, its first sight is no later than
-- its observation, and its active time fits the window. The server's clock is past two years.
pub sanitize-IsClean :
    (items : List WireWindow) (now_ms : ℤ)
    → two_years_ms ≤ℤ now_ms
    → All (IsClean now_ms) (sanitize_window_batch items now_ms).items
unfolding sanitize_window_batch finish
sanitize-IsClean items now_ms late =
    let raised : List WireWindow = map (raise_observed now_ms) items in
    let stable : List WireWindow = filter (λ w. window_item_stable_ok w now_ms) raised in
    let kept : List WireWindow = filter (λ w. window_item_transient_ok w now_ms) stable in
    All-map Ready (IsClean now_ms) (λ w. lower_first_seen (lower_observed now_ms w)) (λ w h. h)
      (enforce_cap (map clamp_active kept)).0
      (All-enforce_cap Ready (map clamp_active kept) (
        All-map (IsAccepted now_ms) Ready clamp_active
          (λ w h. final-IsClean now_ms w (finish now_ms w) late h (finish-Finished now_ms w)) kept
          (accepted now_ms items)))
  where
    Ready : WireWindow → Type 0
    Ready w = IsClean now_ms (lower_first_seen (lower_observed now_ms w))

-- A row that the permanent checks refuse is refused by them at every later time.
pub stable_reject_permanent :
    (w : WireWindow) (now_ms later_ms : ℤ)
    → now_ms ≤ℤ later_ms
    → window_item_stable_ok w now_ms ≡ false
    → window_item_stable_ok w later_ms ≡ false
unfolding window_item_stable_ok
stable_reject_permanent w now_ms later_ms h r =
    let a = -ℤ_parts now_ms two_years_ms in let b = -ℤ_parts later_ms two_years_ms in ground arith

-- A row that is refused for its horizon passes it once its two dates have come.
pub transient_reject_heals :
    (w : WireWindow) (later_ms : ℤ)
    → w.window_end_ms ≤ℤ later_ms
    → w.raw_resets_at_ms ≤ℤ later_ms
    → window_item_transient_ok w later_ms ≡ true
unfolding window_item_transient_ok
transient_reject_heals w later_ms p q =
    let d = +ℤ_parts later_ms horizon_ms in
    let f = +ℤ_parts later_ms reset_horizon_ms in ground arith
