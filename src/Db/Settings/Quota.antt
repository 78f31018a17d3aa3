-- ===== src/Db/Settings/Quota.antt =====
-- Quotas: whatever is written and deleted through src/db/sqlite.rs, no user holds more entries or
-- bytes than the quota allows.
use toki_sync.Prelude.{
  ℕ, ◌+◌, ◌-◌, ◌≤◌, ◌≡◌, Bool, not, Option, List, [], ◌∷◌, Str, str_eq, str_eq_iff, ℤ, filter,
  if◌then◌else◌, arith,
}
use toki_sync.Db.Settings.{
  Setting, MonitorQuota, is_row, find, put, upsert_monitor_setting, delete_monitor_setting,
  is_doomed, new_row, count_of, bytes_of, is_new, size_of,
}

count_of-put :
    (rows : List Setting) (new : Setting) (u : Str)
    → count_of (put rows new) u ≡ (
        if str_eq new.user_id u
        then count_of rows u + is_new (find rows new.user_id new.key)
        else count_of rows u)
unfolding count_of put find is_row
count_of-put [] new u = ground arith
count_of-put (r ∷ rows) new u = ground (
  arith,
  count_of-put rows new u,
  str_eq_iff r.user_id new.user_id,
  str_eq_iff new.user_id u,
  str_eq_iff r.user_id u,
)

size_of-le : (rows : List Setting) (u k : Str) → size_of (find rows u k) ≤ bytes_of rows u
unfolding bytes_of find is_row
size_of-le [] u k = omega arith
size_of-le (r ∷ rows) u k = ground (arith, size_of-le rows u k)

bytes_of-put :
    (rows : List Setting) (new : Setting) (u : Str)
    → bytes_of (put rows new) u ≡ (
        if str_eq new.user_id u
        then bytes_of rows u - size_of (find rows new.user_id new.key) + new.size_bytes
        else bytes_of rows u)
unfolding bytes_of put find is_row
bytes_of-put [] new u = ground arith
bytes_of-put (r ∷ rows) new u = ground (
  arith,
  bytes_of-put rows new u,
  size_of-le rows new.user_id new.key,
  str_eq_iff r.user_id new.user_id,
  str_eq_iff new.user_id u,
  str_eq_iff r.user_id u,
)

count_of-filter-le :
    (p : Setting → Bool) (rows : List Setting) (u : Str)
    → count_of (filter p rows) u ≤ count_of rows u
unfolding count_of
count_of-filter-le p [] u = omega arith
count_of-filter-le p (r ∷ rows) u = ground (arith, count_of-filter-le p rows u)

bytes_of-filter-le :
    (p : Setting → Bool) (rows : List Setting) (u : Str)
    → bytes_of (filter p rows) u ≤ bytes_of rows u
unfolding bytes_of
bytes_of-filter-le p [] u = omega arith
bytes_of-filter-le p (r ∷ rows) u = ground (arith, bytes_of-filter-le p rows u)

-- Every user is within the quota.
abbrev pub WithinQuota : MonitorQuota → List Setting → Type 0
WithinQuota quota rows =
    (u : Str) → (count_of rows u ≤ quota.max_entries) × (bytes_of rows u ≤ quota.max_total_bytes)

-- If every user is within the quota, every user is after a write, whether it goes through or is
-- refused.
pub upsert-WithinQuota :
    (rows : List Setting) (u k v : Str) (if_version : Option ℤ) (quota : MonitorQuota) (now : ℕ)
    → WithinQuota quota rows
    → WithinQuota quota (upsert_monitor_setting rows u k v if_version quota now).0
unfolding upsert_monitor_setting
upsert-WithinQuota rows u k v if_version quota now h j =
    let c = count_of-put rows (new_row u k v now) j in
    let b = bytes_of-put rows (new_row u k v now) j in
    let hu = h u in let hj = h j in (ground (arith, str_eq_iff u j), ground (arith, str_eq_iff u j))

-- If every user is within the quota, every user is after a deletion, whatever its outcome.
pub delete-WithinQuota :
    (rows : List Setting) (u k : Str) (if_version : Option ℤ) (quota : MonitorQuota)
    → WithinQuota quota rows
    → WithinQuota quota (delete_monitor_setting rows u k if_version).0
unfolding delete_monitor_setting
delete-WithinQuota rows u k if_version quota h j =
    let hj = h j in
    let c = count_of-filter-le (λ r. not (is_doomed u k if_version r)) rows j in
    let b = bytes_of-filter-le (λ r. not (is_doomed u k if_version r)) rows j in
    (ground arith, ground arith)
