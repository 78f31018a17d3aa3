-- ===== src/Windows.antt =====
-- The rate-limit window record that a device uploads (`WireWindow` of the toki-sync-protocol crate,
-- by the fields that src/events/mod.rs and src/sync/handler.rs read and write), and what identifies
-- a window. `u8`, `u16`, `u32` and `u64` fields are natural numbers, `i64` fields are integers.
pub mod Merge
pub mod Convergence
pub mod Sanitize
pub mod Premerge
use toki_sync.Prelude.{ℕ, ◌*◌, ◌^◌, ◌-◌, ◌≤◌, ◌≡◌, Str, ℤ, Bool, min}

pub record WireWindow : Type 0 where
  pub window_kind : ℕ
  pub limit_id : Str
  pub account : Str
  pub window_end_ms : ℤ
  pub raw_resets_at_ms : ℤ
  pub window_minutes : ℕ
  pub peak_pct_x100 : ℕ
  pub last_pct_x100 : ℕ
  pub observed_ts_ms : ℤ
  pub first_seen_ms : ℤ
  pub finalized : Bool
  pub maxed_out : Bool
  pub limit_reached_kind : ℕ
  pub time_to_100_ms : ℤ
  pub active_ms : ℕ
  pub last_sample_gap_ms : ℤ
  pub sampled_active_fraction : ℕ
  pub n_samples : ℕ
  pub plan : Str

abbrev pub u64_max : ℕ
u64_max = 2 ^ 64 - 1

-- `(window_minutes as u64).saturating_mul(60_000)`
unfoldable pub active_cap : ℕ → ℕ
active_cap minutes = min (minutes * 60000) u64_max

-- The same logical window: what `premerge_windows` and the row key compare.
pub record SameWindow (a b : WireWindow) : Type 0 where
  pub kind : a.window_kind ≡ b.window_kind
  pub limit : a.limit_id ≡ b.limit_id
  pub owner : a.account ≡ b.account
  pub anchor : a.window_end_ms ≡ b.window_end_ms
