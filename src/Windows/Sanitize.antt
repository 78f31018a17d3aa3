-- ===== src/Windows/Sanitize.antt =====
-- `window_item_stable_ok`, `window_item_transient_ok` and `sanitize_window_batch` of
-- src/sync/handler.rs: what the server keeps of one uploaded batch of windows.
pub mod Sort
pub mod Bounds
use Prim.Native.Nat.{Ordering}
use toki_sync.Prelude.{
  ℕ, ◌+◌, ◌-◌, ◌*◌, ◌≡◌, Bool, true, false, ◌&&◌, not, ◌||◌, ℤ, pos, negsuc, ◌+ℤ◌, ◌-ℤ◌, List, [],
  ◌∷◌, map, Str, length, take, filter, any, if◌then◌else◌, ltb, leb, ◌==◌, ltb_ℤ, leb_ℤ, eqb_ℤ,
  cmp_ℤ, min,
}
use toki_sync.Windows.{WireWindow, active_cap}
use Sort.{sort_by_key_rev}

abbrev pub max_window_items : ℕ
max_window_items = 2000

-- `2 * 365 * 86_400_000`, `40 * 86_400_000` and `41 * 86_400_000`
abbrev pub two_years_ms : ℤ
two_years_ms = pos 63072000000

abbrev pub horizon_ms : ℤ
horizon_ms = pos 3456000000

abbrev pub reset_horizon_ms : ℤ
reset_horizon_ms = pos 3542400000

-- `char::is_control` over the bytes of a valid text: C0 and DEL are single bytes, and U+0080 to
-- U+009F are the byte 0xC2 with 0x80 to 0x9F after it.
unfoldable pub has_control : Str → Bool
has_control [] = false
has_control (a ∷ []) = ltb a 32 || a == 127
has_control (a ∷ b ∷ s) =
    (ltb a 32 || a == 127 || (a == 194 && leb 128 b && ltb b 160)) || has_control (b ∷ s)

unfoldable pub str_ok : Str → ℕ → Bool
str_ok s limit = leb (length s) limit && not (has_control s)

unfoldable pub window_item_stable_ok : WireWindow → ℤ → Bool
window_item_stable_ok w now_ms =
    str_ok w.limit_id 64
    && str_ok w.account 64
    && str_ok w.plan 64
    && leb w.window_kind 1
    && ltb 0 w.window_minutes
    && leb w.window_minutes 44640
    && leb_ℤ (pos 0) w.first_seen_ms
    && leb w.limit_reached_kind 2
    && leb w.sampled_active_fraction 1000
    && leb_ℤ (negsuc 86399999) w.last_sample_gap_ms
    && (eqb_ℤ w.first_seen_ms (pos 0) || leb_ℤ w.first_seen_ms w.observed_ts_ms)
    && ltb_ℤ (now_ms -ℤ two_years_ms) w.window_end_ms
    && ltb_ℤ (now_ms -ℤ two_years_ms) w.raw_resets_at_ms

unfoldable pub window_item_transient_ok : WireWindow → ℤ → Bool
window_item_transient_ok w now_ms =
    ltb_ℤ w.window_end_ms (now_ms +ℤ horizon_ms)
    && ltb_ℤ w.raw_resets_at_ms (now_ms +ℤ reset_horizon_ms)

-- The first loop: observation times are raised to the floor.
unfoldable pub raise_observed : ℤ → WireWindow → WireWindow
raise_observed now_ms w =
    let observed_floor = now_ms -ℤ two_years_ms in
    if ltb_ℤ w.observed_ts_ms observed_floor
    then record w { observed_ts_ms = observed_floor }
    else w

-- The loop that caps the active time.
unfoldable pub clamp_active : WireWindow → WireWindow
clamp_active w =
    let cap = active_cap w.window_minutes in
    if ltb cap w.active_ms then record w { active_ms = cap } else w

-- The two steps of the last loop: times from the future are lowered, and then the first sight.
unfoldable pub lower_observed : ℤ → WireWindow → WireWindow
lower_observed now_ms w =
    let clamp = now_ms +ℤ pos 60000 in
    if ltb_ℤ clamp w.observed_ts_ms then record w { observed_ts_ms = clamp } else w

unfoldable pub lower_first_seen : WireWindow → WireWindow
lower_first_seen w =
    if ltb_ℤ w.observed_ts_ms w.first_seen_ms
    then record w { first_seen_ms = w.observed_ts_ms }
    else w

pub record SanitizedWindows : Type 0 where
  pub items : List WireWindow
  pub stable_rejects : ℕ
  pub transient_rejects : ℕ
  pub over_cap : ℕ

-- `if items.len() > MAX_WINDOW_ITEMS { … }`: the newest rows, and how many were left out.
unfoldable pub enforce_cap : List WireWindow → List WireWindow × ℕ
enforce_cap items =
    if ltb max_window_items (length items)
    then (
      take max_window_items (sort_by_key_rev (λ w. w.window_end_ms) items),
      length items - max_window_items,
    )
    else (items, 0)

unfoldable pub sanitize_window_batch : List WireWindow → ℤ → SanitizedWindows
sanitize_window_batch items now_ms =
    let raised = map (raise_observed now_ms) items in
    let stable = filter (λ w. window_item_stable_ok w now_ms) raised in
    let kept = filter (λ w. window_item_transient_ok w now_ms) stable in
    let capped = enforce_cap (map clamp_active kept) in
    record {
      items = map (λ w. lower_first_seen (lower_observed now_ms w)) capped.0;
      stable_rejects = length raised - length stable;
      transient_rejects = length stable - length kept;
      over_cap = capped.1;
    }
