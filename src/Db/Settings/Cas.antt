-- ===== src/Db/Settings/Cas.antt =====
-- Optimistic writes: `upsert_monitor_setting` of src/db/sqlite.rs by its guard and its result.
use toki_sync.Prelude.{
  ℕ, ◌+◌, ◌-◌, ◌≤◌, ◌≡◌, ◌≢◌, refl, ◌∙◌, ap, sym, inl, inr, true, Option, none, some, List, [], ◌∷◌,
  Str, str_eq_iff, str_eq_refl, ℤ, pos, eqb_ℤ, eqb_ℤ_iff, length, if◌then◌else◌, arith, Bool-cases,
}
use toki_sync.Db.Settings.{
  Setting, MonitorQuota, written, version_mismatch, is_row, find, put, passes, version_of, actual,
  upsert_monitor_setting, new_row, count_of, bytes_of, is_new, size_of,
}

-- The row that `put` leaves under its key.
abbrev pub stored : Option Setting → Setting → Setting
stored none new = new
stored (some r) new = record new { version = r.version + 1 }

pub find-put :
    (rows : List Setting) (new : Setting) (u k : Str)
    → find (put rows new) u k
      ≡ (if is_row u k new then some (stored (find rows u k) new) else find rows u k)
unfolding find put is_row
find-put [] new u k = refl
find-put (r ∷ rows) new u k = ground (
  arith,
  str_eq_iff r.user_id new.user_id,
  str_eq_iff r.key new.key,
  str_eq_iff new.user_id u,
  str_eq_iff new.key k,
  str_eq_iff r.user_id u,
  str_eq_iff r.key k,
  find-put rows new u k,
)

is_row-new : (u k v : Str) (now : ℕ) → is_row u k (new_row u k v now) ≡ true
unfolding is_row
is_row-new u k v now = rw (str_eq_refl u, str_eq_refl k)

is_row_inv :
    (u k v u' k' : Str) (now : ℕ) → is_row u' k' (new_row u k v now) ≡ true → (u ≡ u') × (k ≡ k')
unfolding is_row
is_row_inv u k v u' k' now h = (ground (arith, str_eq_iff u u'), ground (arith, str_eq_iff k k'))

-- A write that is refused, by its version or by a quota, changes no row.
pub refused_keeps :
    (rows : List Setting) (u k v : Str) (if_version : Option ℤ) (quota : MonitorQuota) (now : ℕ)
    → ((version : ℕ) (prev : Option ℕ)
        → (upsert_monitor_setting rows u k v if_version quota now).1 ≢ written version now prev)
    → (upsert_monitor_setting rows u k v if_version quota now).0 ≡ rows
unfolding upsert_monitor_setting
refused_keeps rows u k v if_version quota now h =
    ground (arith, h (actual (find rows u k) + 1) (version_of (find rows u k)))

pub written_path :
    (rows : List Setting) (u k v : Str) (if_version : Option ℤ) (quota : MonitorQuota) (now : ℕ)
    (version : ℕ) (prev : Option ℕ)
    → (upsert_monitor_setting rows u k v if_version quota now).1 ≡ written version now prev
    → (passes (find rows u k) if_version ≡ true)
      × (version ≡ actual (find rows u k) + 1)
      × (prev ≡ version_of (find rows u k))
      × (count_of rows u + is_new (find rows u k) ≤ quota.max_entries)
      × (bytes_of rows u - size_of (find rows u k) + length v ≤ quota.max_total_bytes)
      × ((upsert_monitor_setting rows u k v if_version quota now).0 ≡ put rows (new_row u k v now))
unfolding upsert_monitor_setting
written_path rows u k v if_version quota now version prev h =
    (ground arith, ground arith, ground arith, ground arith, ground arith, ground arith)

stored-new :
    (o : Option Setting) (u k v : Str) (now : ℕ)
    → stored o (new_row u k v now) ≡ record (new_row u k v now) { version = actual o + 1 }
stored-new none u k v now = ground arith
stored-new (some r) u k v now = refl

-- A write that goes through met the expected version and stores the value under the next version,
-- which it reports with the one it replaced. No other entry of any user changes.
pub written_stores :
    (rows : List Setting) (u k v u' k' : Str) (if_version : Option ℤ) (quota : MonitorQuota)
    (now : ℕ) (version : ℕ) (prev : Option ℕ)
    → (upsert_monitor_setting rows u k v if_version quota now).1 ≡ written version now prev
    → (passes (find rows u k) if_version ≡ true)
      × (version ≡ actual (find rows u k) + 1)
      × (prev ≡ version_of (find rows u k))
      × (find (upsert_monitor_setting rows u k v if_version quota now).0 u' k' ≡ (
          if is_row u' k' (new_row u k v now)
          then some (record (new_row u k v now) { version = version })
          else find rows u' k'))
unfolding is_row
written_stores rows u k v u' k' if_version quota now version prev h =
    let w = written_path rows u k v if_version quota now version prev h in
    (
      w.0,
      w.1,
      w.2,
      ap (λ t. find t u' k') w.5
          ∙ find-put rows (new_row u k v now) u' k'
          ∙ elim (Bool-cases (is_row u' k' (new_row u k v now))) [
            | inl e ↦
                let same = is_row_inv u k v u' k' now e in
                rw e (
                  ap (λ o. some (stored o (new_row u k v now)))
                    (sym (ap (λ x. find rows x k) same.0 ∙ ap (find rows u') same.1))
                  ∙ ap some (stored-new (find rows u k) u k v now)
                  ∙ ap (λ n. some (record (new_row u k v now) { version = n })) (sym w.1))
            | inr e ↦ rw e refl
          ],
    )

stale_refused :
    (rows : List Setting) (u k v : Str) (expected : ℤ) (quota : MonitorQuota) (later a : ℕ)
    (r : Setting)
    → find rows u k ≡ some r
    → r.version ≡ a + 1
    → eqb_ℤ (pos a) expected ≡ true
    → upsert_monitor_setting rows u k v (some expected) quota later
      ≡ (rows, version_mismatch (some r.version) (some r.updated_at))
unfolding upsert_monitor_setting passes
stale_refused rows u k v expected quota later a r found next was =
    rw (found, upsert_monitor_setting) (ground (arith, eqb_ℤ_iff (pos a) expected))

-- No update is lost. After a conditional write went through, a second conditional write that
-- expected the same version is refused, and is told the version that the first one stored.
pub no_lost_update :
    (rows : List Setting) (u k v v' : Str) (expected : ℤ) (quota : MonitorQuota) (now later : ℕ)
    (version : ℕ) (prev : Option ℕ)
    → (upsert_monitor_setting rows u k v (some expected) quota now).1 ≡ written version now prev
    → upsert_monitor_setting
        (upsert_monitor_setting rows u k v (some expected) quota now).0
        u
        k
        v'
        (some expected)
        quota
        later
      ≡ (
        (upsert_monitor_setting rows u k v (some expected) quota now).0,
        version_mismatch (some version) (some now),
      )
unfolding passes
no_lost_update rows u k v v' expected quota now later version prev h =
    let w = written_stores rows u k v u k (some expected) quota now version prev h in
    stale_refused (upsert_monitor_setting rows u k v (some expected) quota now).0 u k v' expected
      quota later (actual (find rows u k)) (record (new_row u k v now) { version = version })
      (w.3 ∙ rw (is_row-new u k v now)) w.1 w.0
