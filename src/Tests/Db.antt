-- ===== src/Tests/Db.antt =====
-- The theorems on the tables at concrete rows.
use toki_sync.Prelude.{
  ◌≡◌, refl, true, false, none, some, List, [], ◌∷◌, Str, lit, str_eq, err, arith, pos,
}
use toki_sync.Db.Settings
use toki_sync.Db.Settings.{
  Setting, MonitorQuota, MonitorWriteOutcome, written, version_mismatch, upsert_monitor_setting,
  delete_monitor_setting, count_of, bytes_of, passes, is_row, put,
}
use toki_sync.Db.Settings.Cas.{no_lost_update}
use toki_sync.Db.Settings.Quota.{WithinQuota, upsert-WithinQuota}
use toki_sync.Db.Tokens.{
  RefreshToken, new_token, TokenError, already_used, rotate_refresh_token, is_refresh_token_revoked,
  revoke_refresh_token, store_refresh_token, cleanup_expired_tokens,
}
use toki_sync.Db.Tokens
use toki_sync.Db.Tokens.Rotation.{
  done, more, cleaned, rotates_once, rotation_conserves, live_count, IsKeyed,
}
use toki_sync.Db.Cursors.{Cursor}

abbrev quota : MonitorQuota
quota = record { max_entries = 2; max_total_bytes = 100 }

abbrev ada : Str
ada = 97 ∷ []

abbrev theme : Str
theme = 116 ∷ []

no_lost_update_example :
    upsert_monitor_setting
      (upsert_monitor_setting [] ada theme (1 ∷ []) (some (pos 0)) quota 7).0
      ada
      theme
      (2 ∷ [])
      (some (pos 0))
      quota
      8
    ≡ (
      (upsert_monitor_setting [] ada theme (1 ∷ []) (some (pos 0)) quota 7).0,
      version_mismatch (some 1) (some 7),
    )
unfolding upsert_monitor_setting Settings.find count_of bytes_of passes
no_lost_update_example = no_lost_update [] ada theme (1 ∷ []) (2 ∷ []) (pos 0) quota 7 8 1 none refl

upsert-WithinQuota_example :
    WithinQuota quota (upsert_monitor_setting [] ada theme (1 ∷ []) none quota 7).0
unfolding count_of bytes_of
upsert-WithinQuota_example =
    upsert-WithinQuota [] ada theme (1 ∷ []) none quota 7 (λ u. (omega arith, omega arith))

abbrev first : List RefreshToken
first = new_token (1 ∷ []) ada none 100 0 ∷ []

abbrev after : List RefreshToken
after =
    new_token (2 ∷ []) ada none 200 5
    ∷ (record (new_token (1 ∷ []) ada none 100 0) { revoked = true })
    ∷ []

rotates_once_example :
    rotate_refresh_token (cleanup_expired_tokens after 9) (1 ∷ []) (3 ∷ []) ada none 300 9
    ≡ err already_used
unfolding rotate_refresh_token is_refresh_token_revoked revoke_refresh_token store_refresh_token
    Tokens.find str_eq
rotates_once_example =
    rotates_once first after (cleanup_expired_tokens after 9) (1 ∷ []) (2 ∷ []) ada (3 ∷ []) ada
      none none 200 5 300 9 refl (λ e. absurd (ground arith)) (more done (cleaned 9) tt)

rotation_conserves_example :
    (live_count after ≡ live_count first)
    × IsKeyed after
    × (is_refresh_token_revoked after (2 ∷ []) ≡ false)
unfolding rotate_refresh_token is_refresh_token_revoked revoke_refresh_token store_refresh_token
    Tokens.find str_eq
rotation_conserves_example =
    rotation_conserves first after (1 ∷ []) (2 ∷ []) ada none 200 5 (refl, tt) refl

abbrev cursor : Cursor
cursor = record { device_id = lit "d"; provider = lit "p"; last_ts = pos 9; updated_at = 0 }
