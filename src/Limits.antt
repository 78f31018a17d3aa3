-- ===== src/Limits.antt =====
-- The tables that bound what a client may do: src/auth/brute_force.rs, the window limiter of
-- src/sync/handler.rs and the write limiter of src/server/handlers/monitor.rs. `Instant` and
-- `Duration` are nanoseconds; each call of `Instant::now()` is an argument.
pub mod BruteForce
pub mod WindowsRate
pub mod MonitorRate
use toki_sync.Prelude.{ℕ, ◌*◌, ◌/◌}

abbrev pub nanos_per_sec : ℕ
nanos_per_sec = 1000000000

-- `Duration::from_secs` and `Duration::as_secs`.
abbrev pub from_secs : ℕ → ℕ
from_secs n = n * nanos_per_sec

abbrev pub as_secs : ℕ → ℕ
as_secs d = d / nanos_per_sec
