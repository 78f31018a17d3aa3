-- ===== src/Sync.antt =====
-- The synchronisation handler of src/sync/handler.rs: a batch of events of one device.
pub mod Batch
pub mod Ack
pub mod Connection
pub mod Frames
use toki_sync.Prelude.{
  ℕ, ◌≡◌, Bool, true, false, ◌&&◌, Option, none, some, List, [], ◌∷◌, Str, String, lit, str_eq,
  is_empty, ltb, leb, not, if◌then◌else◌, ℤ,
}

-- `StoredEvent`, `SyncItem` and `SyncBatchPayload` of the protocol crate, by the fields that are read.
pub record StoredEvent : Type 0 where
  pub model_id : ℕ
  pub session_id : ℕ
  pub project_name_id : ℕ
  pub tokens : List ℕ

pub record SyncItem : Type 0 where
  pub ts_ms : ℤ
  pub message_id : Str
  pub event : StoredEvent
  pub usage_total : ℕ

pub record SyncBatchPayload : Type 0 where
  pub provider : Str
  pub items : List SyncItem
  pub dict : List (ℕ × Str)
  pub token_columns : List Str
