-- ===== src/Db/Cursors.antt =====
-- The `cursors` table of src/db/sqlite.rs: how far a device has synchronised each provider.
use toki_sync.Prelude.{
  ℕ, ◌≡◌, Bool, true, false, ◌&&◌, Option, none, some, List, [], ◌∷◌, map, Str, str_eq, str_eq_iff,
  if◌then◌else◌, arith, ℤ, pos, max_ℤ,
}

pub record Cursor : Type 0 where
  pub device_id : Str
  pub provider : Str
  pub last_ts : ℤ
  pub updated_at : ℕ

abbrev pub is_cursor : Str → Str → Cursor → Bool
is_cursor device_id provider c = str_eq c.device_id device_id && str_eq c.provider provider

unfoldable pub find_cursor : List Cursor → Str → Str → Option ℤ
find_cursor [] device_id provider = none
find_cursor (c ∷ cs) device_id provider =
    if is_cursor device_id provider c then some c.last_ts else find_cursor cs device_id provider

abbrev pub present : Option ℤ → Bool
present none = false
present (some ts) = true

-- `INSERT OR IGNORE`: the primary key is the device and the provider.
unfoldable pub ensure_cursor : List Cursor → Str → Str → ℕ → List Cursor
ensure_cursor cs device_id provider now =
    if present (find_cursor cs device_id provider)
    then cs
    else record { device_id = device_id; provider = provider; last_ts = pos 0; updated_at = now }
      ∷ cs

abbrev pub or_zero : Option ℤ → ℤ
or_zero none = pos 0
or_zero (some ts) = ts

unfoldable pub get_last_ts : List Cursor → Str → Str → ℤ
get_last_ts cs device_id provider = or_zero (find_cursor cs device_id provider)

abbrev pub advance_row : Str → Str → ℤ → ℕ → Cursor → Cursor
advance_row device_id provider ts now c =
    if is_cursor device_id provider c
    then record c { last_ts = max_ℤ c.last_ts ts; updated_at = now }
    else c

unfoldable pub advance_cursor : List Cursor → Str → Str → ℤ → ℕ → List Cursor
advance_cursor cs device_id provider ts now = map (advance_row device_id provider ts now) cs

unfoldable pub reset_cursor : List Cursor → Str → Str → ℕ → List Cursor
reset_cursor cs device_id provider now =
    map
      (λ c.
        if is_cursor device_id provider c
        then record c { last_ts = pos 0; updated_at = now }
        else c)
      cs

abbrev pub raised : ℤ → Option ℤ → Option ℤ
raised ts none = none
raised ts (some t) = some (max_ℤ t ts)

-- Advancing a cursor moves that cursor and no other, and never makes one.
pub find_cursor-advance_cursor :
    (cs : List Cursor) (device_id provider d p : Str) (ts : ℤ) (now : ℕ)
    → find_cursor (advance_cursor cs device_id provider ts now) d p ≡ (
        if str_eq device_id d && str_eq provider p
        then raised ts (find_cursor cs d p)
        else find_cursor cs d p)
unfolding find_cursor advance_cursor
find_cursor-advance_cursor [] device_id provider d p ts now = ground arith
find_cursor-advance_cursor (c ∷ cs) device_id provider d p ts now = ground (
  arith,
  str_eq_iff device_id d,
  str_eq_iff provider p,
  str_eq_iff c.device_id d,
  str_eq_iff c.provider p,
  str_eq_iff c.device_id device_id,
  str_eq_iff c.provider provider,
  find_cursor-advance_cursor cs device_id provider d p ts now,
)
