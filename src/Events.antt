-- ===== src/Events.antt =====
-- The event store: `ServerEvent` and `UserFilter` of src/events/mod.rs, and the bytes of an `i64`.
pub mod Bytes
pub mod Store
pub mod Upsert
pub mod Delete
pub mod Query
pub mod Rows
use toki_sync.Prelude.{ℕ, Str, ℤ, List}

-- `u64` fields are natural numbers and the timestamp is an integer.
pub record ServerEvent : Type 0 where
  pub device_id : Str
  pub user_id : Str
  pub msg_id : Str
  pub ts_ms : ℤ
  pub provider : Str
  pub model : Str
  pub project : Str
  pub session : Str
  pub input_tokens : ℕ
  pub output_tokens : ℕ
  pub cache_creation_input_tokens : ℕ
  pub cache_read_input_tokens : ℕ
  pub usage_total : ℕ

pub data UserFilter : Type 0 where
  single : Str → UserFilter
  multiple : List Str → UserFilter
  everyone : UserFilter
