-- ===== src/Db/Settings.antt =====
-- `upsert_monitor_setting` and `delete_monitor_setting` of src/db/sqlite.rs: settings with optimistic
-- versions and quotas. A row is found by user and key; a version starts at 1.
pub mod Cas
pub mod Quota
use toki_sync.Prelude.{
  ℕ, ◌+◌, ◌-◌, Bool, true, false, ◌&&◌, not, Option, none, some, List, [], ◌∷◌, Str, str_eq, ℤ, pos,
  eqb_ℤ, length, filter, ltb, if◌then◌else◌,
}

pub record Setting : Type 0 where
  pub user_id : Str
  pub key : Str
  pub value : Str
  pub size_bytes : ℕ
  pub version : ℕ
  pub updated_at : ℕ

pub record MonitorQuota : Type 0 where
  pub max_entries : ℕ
  pub max_total_bytes : ℕ

pub data Quantity : Type 0 where
  entries bytes : Quantity

pub data MonitorWriteOutcome : Type 0 where
  written : ℕ → ℕ → Option ℕ → MonitorWriteOutcome
  version_mismatch : Option ℕ → Option ℕ → MonitorWriteOutcome
  quota_exceeded : Quantity → ℕ → ℕ → MonitorWriteOutcome

pub data MonitorDeleteOutcome : Type 0 where
  deleted : MonitorDeleteOutcome
  not_found : MonitorDeleteOutcome
  delete_mismatch : ℕ → ℕ → MonitorDeleteOutcome

-- `WHERE user_id = ? AND key = ?`
unfoldable pub is_row : Str → Str → Setting → Bool
is_row user_id key r = str_eq r.user_id user_id && str_eq r.key key

unfoldable pub find : List Setting → Str → Str → Option Setting
find [] user_id key = none
find (r ∷ rows) user_id key = if is_row user_id key r then some r else find rows user_id key

-- `SELECT COUNT(*), COALESCE(SUM(size_bytes), 0) … WHERE user_id = ?`
unfoldable pub count_of : List Setting → Str → ℕ
count_of [] user_id = 0
count_of (r ∷ rows) user_id = (if str_eq r.user_id user_id then 1 else 0) + count_of rows user_id

unfoldable pub bytes_of : List Setting → Str → ℕ
bytes_of [] user_id = 0
bytes_of (r ∷ rows) user_id =
    (if str_eq r.user_id user_id then r.size_bytes else 0) + bytes_of rows user_id

-- `INSERT … ON CONFLICT(user_id, key) DO UPDATE SET … version = monitor_settings.version + 1`
unfoldable pub put : List Setting → Setting → List Setting
put [] new = new ∷ []
put (r ∷ rows) new =
    if is_row new.user_id new.key r
    then record new { version = r.version + 1 } ∷ rows
    else r ∷ put rows new

abbrev pub version_of : Option Setting → Option ℕ
version_of none = none
version_of (some r) = some r.version

abbrev pub updated_of : Option Setting → Option ℕ
updated_of none = none
updated_of (some r) = some r.updated_at

abbrev pub size_of : Option Setting → ℕ
size_of none = 0
size_of (some r) = r.size_bytes

abbrev pub is_new : Option Setting → ℕ
is_new none = 1
is_new (some r) = 0

-- The stored version, with 0 for nothing stored.
abbrev pub actual : Option Setting → ℕ
actual none = 0
actual (some r) = r.version

-- `if let Some(expected) = if_version { … }`: whether the guard lets the write go on.
unfoldable pub passes : Option Setting → Option ℤ → Bool
passes current none = true
passes current (some expected) = eqb_ℤ (pos (actual current)) expected

abbrev pub new_row : Str → Str → Str → ℕ → Setting
new_row user_id key value now = record {
  user_id = user_id;
  key = key;
  value = value;
  size_bytes = length value;
  version = 1;
  updated_at = now;
}

unfoldable pub upsert_monitor_setting :
    List Setting
    → Str
    → Str
    → Str
    → Option ℤ
    → MonitorQuota
    → ℕ
    → List Setting × MonitorWriteOutcome
upsert_monitor_setting rows user_id key value if_version quota now =
    let current = find rows user_id key in
    let size = length value in
    let new_count = count_of rows user_id + is_new current in
    let new_total = bytes_of rows user_id - size_of current + size in
    if not (passes current if_version)
    then (rows, version_mismatch (version_of current) (updated_of current))
    else if ltb quota.max_entries new_count
    then (rows, quota_exceeded entries new_count quota.max_entries)
    else if ltb quota.max_total_bytes new_total
    then (rows, quota_exceeded bytes new_total quota.max_total_bytes)
    else (
      put rows (new_row user_id key value now),
      written (actual current + 1) now (version_of current),
    )

-- `AND version = ?`, where a version is given.
unfoldable pub is_doomed : Str → Str → Option ℤ → Setting → Bool
is_doomed user_id key none r = is_row user_id key r
is_doomed user_id key (some expected) r = is_row user_id key r && eqb_ℤ (pos r.version) expected

abbrev refusal : Option Setting → Option ℤ → MonitorDeleteOutcome
refusal (some r) (some expected) = delete_mismatch r.version r.updated_at
refusal (some r) none = not_found
refusal none if_version = not_found

unfoldable pub delete_monitor_setting :
    List Setting → Str → Str → Option ℤ → List Setting × MonitorDeleteOutcome
unfolding is_doomed
delete_monitor_setting rows user_id key if_version =
    let kept = filter (λ r. not (is_doomed user_id key if_version r)) rows in
    if ltb (length kept) (length rows)
    then (kept, deleted)
    else (kept, refusal (find kept user_id key) if_version)
