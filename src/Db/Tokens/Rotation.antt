-- ===== src/Db/Tokens/Rotation.antt =====
-- A refresh token serves once: rotation in src/db/sqlite.rs against everything else that happens to
-- the table.
use toki_sync.Prelude.{
  ℕ, ◌+◌, ◌≡◌, ◌≢◌, refl, Bool, true, false, ◌&&◌, ◌||◌, not, Option, none, List, [], ◌∷◌, Str,
  str_eq, str_eq_iff, str_eq_refl, filter, map, ltb, ok, err, if◌then◌else◌, arith, Bool-cases, inl,
  inr,
}
use toki_sync.Db.Tokens.{
  RefreshToken, new_token, already_used, find, is_refresh_token_revoked, store_refresh_token,
  revoke_if, revoke_refresh_token, revoke_user_refresh_tokens, rotate_refresh_token,
  cleanup_expired_tokens,
}

-- No row of the table, however often it stands there, lets `jti` through.
abbrev pub IsSpent : Str → List RefreshToken → Type 0
IsSpent jti [] = Unit
IsSpent jti (t ∷ ts) = (str_eq t.jti jti && not t.revoked ≡ false) × IsSpent jti ts

spent_revoked :
    (jti : Str) (ts : List RefreshToken) → IsSpent jti ts → is_refresh_token_revoked ts jti ≡ true
unfolding is_refresh_token_revoked find
spent_revoked jti [] h = refl
spent_revoked jti (t ∷ ts) h = ground (arith, spent_revoked jti ts h.1)

map-IsSpent :
    (jti : Str) (test : RefreshToken → Bool) (ts : List RefreshToken)
    → IsSpent jti ts
    → IsSpent jti (map (revoke_if test) ts)
map-IsSpent jti test [] h = tt
map-IsSpent jti test (t ∷ ts) h = (ground arith, map-IsSpent jti test ts h.1)

filter-IsSpent :
    (jti : Str) (test : RefreshToken → Bool) (ts : List RefreshToken)
    → IsSpent jti ts
    → IsSpent jti (filter test ts)
filter-IsSpent jti test [] h = tt
filter-IsSpent jti test (t ∷ ts) h = elim (Bool-cases (test t)) [
  | inl e ↦ rw e (h.0, filter-IsSpent jti test ts h.1)
  | inr e ↦ rw e (filter-IsSpent jti test ts h.1)
]

revoke-IsSpent : (jti : Str) (ts : List RefreshToken) → IsSpent jti (revoke_refresh_token ts jti)
unfolding revoke_refresh_token
revoke-IsSpent jti [] = tt
revoke-IsSpent jti (t ∷ ts) = (ground arith, revoke-IsSpent jti ts)

-- An insert that goes through adds its row in front, and its key was not there.
store_inv :
    (ts ts' : List RefreshToken) (new user_id : Str) (device_id : Option Str) (expires_at now : ℕ)
    → store_refresh_token ts new user_id device_id expires_at now ≡ ok ts'
    → (ts' ≡ new_token new user_id device_id expires_at now ∷ ts) × (find ts new ≡ none)
unfolding store_refresh_token
store_inv ts ts' new user_id device_id expires_at now e = (ground arith, ground arith)

store-IsSpent :
    (jti : Str) (ts ts' : List RefreshToken) (new user_id : Str) (device_id : Option Str)
    (expires_at now : ℕ)
    → jti ≢ new
    → store_refresh_token ts new user_id device_id expires_at now ≡ ok ts'
    → IsSpent jti ts
    → IsSpent jti ts'
store-IsSpent jti ts ts' new user_id device_id expires_at now ne e h =
    rw (store_inv ts ts' new user_id device_id expires_at now e).0
      (ground (arith, str_eq_iff new jti), h)

-- A rotation that goes through found the old token live, and inserts after revoking it.
rotate_inv :
    (ts ts' : List RefreshToken) (old new user_id : Str) (device_id : Option Str)
    (expires_at now : ℕ)
    → rotate_refresh_token ts old new user_id device_id expires_at now ≡ ok ts'
    → (is_refresh_token_revoked ts old ≡ false)
      × (store_refresh_token (revoke_refresh_token ts old) new user_id device_id expires_at now
          ≡ ok ts')
unfolding rotate_refresh_token
rotate_inv ts ts' old new user_id device_id expires_at now e = (ground arith, ground arith)

-- What can happen to the table.
pub data Step : List RefreshToken → List RefreshToken → Type 0 where
  stored :
      {ts ts' : List RefreshToken} (jti user_id : Str) (device_id : Option Str) (expires_at now : ℕ)
      → store_refresh_token ts jti user_id device_id expires_at now ≡ ok ts'
      → Step ts ts'
  rotated :
      {ts ts' : List RefreshToken} (old jti user_id : Str) (device_id : Option Str)
      (expires_at now : ℕ)
      → rotate_refresh_token ts old jti user_id device_id expires_at now ≡ ok ts'
      → Step ts ts'
  revoked_one : {ts : List RefreshToken} (jti : Str) → Step ts (revoke_refresh_token ts jti)
  revoked_user :
      {ts : List RefreshToken} (user_id : Str) → Step ts (revoke_user_refresh_tokens ts user_id)
  cleaned : {ts : List RefreshToken} (now : ℕ) → Step ts (cleanup_expired_tokens ts now)

-- The step issues no token with this id. Ids are fresh random UUIDs.
abbrev pub IssuesOther : Str → {ts ts' : List RefreshToken} → Step ts ts' → Type 0
IssuesOther jti (stored new user_id device_id expires_at now e) = jti ≢ new
IssuesOther jti (rotated old new user_id device_id expires_at now e) = jti ≢ new
IssuesOther jti (revoked_one j) = Unit
IssuesOther jti (revoked_user u) = Unit
IssuesOther jti (cleaned now) = Unit

pub data Steps (jti : Str) (ts : List RefreshToken) : List RefreshToken → Type 0 where
  done : Steps jti ts ts
  more :
      {us vs : List RefreshToken}
      → Steps jti ts us
      → (st : Step us vs) → IssuesOther jti st
      → Steps jti ts vs

Step-IsSpent :
    (jti : Str) {ts ts' : List RefreshToken} (st : Step ts ts')
    → IssuesOther jti st
    → IsSpent jti ts
    → IsSpent jti ts'
unfolding revoke_refresh_token revoke_user_refresh_tokens cleanup_expired_tokens
Step-IsSpent jti (stored {ts} {ts'} new user_id device_id expires_at now e) o h =
    store-IsSpent jti ts ts' new user_id device_id expires_at now o e h
Step-IsSpent jti (rotated {ts} {ts'} old new user_id device_id expires_at now e) o h =
    store-IsSpent jti (revoke_refresh_token ts old) ts' new user_id device_id expires_at now o
      (rotate_inv ts ts' old new user_id device_id expires_at now e).1
      (map-IsSpent jti (λ t. str_eq t.jti old) ts h)
Step-IsSpent jti (revoked_one {ts} j) o h = map-IsSpent jti (λ t. str_eq t.jti j) ts h
Step-IsSpent jti (revoked_user {ts} u) o h =
    map-IsSpent jti (λ t. str_eq t.user_id u && not t.revoked) ts h
Step-IsSpent jti (cleaned {ts} now) o h =
    filter-IsSpent jti (λ t. not (ltb t.expires_at now || t.revoked)) ts h

Steps-IsSpent :
    (jti : Str) {ts ts' : List RefreshToken} → IsSpent jti ts → Steps jti ts ts' → IsSpent jti ts'
Steps-IsSpent jti h done = h
Steps-IsSpent jti h (more r st o) = Step-IsSpent jti st o (Steps-IsSpent jti h r)

-- A refresh token serves once. After a rotation that used it, whatever tokens are stored, rotated,
-- revoked or cleaned up, as long as none is issued with the same id, rotating it again is refused and
-- changes nothing.
pub rotates_once :
    (ts ts' us : List RefreshToken) (old new user_id again user_id' : Str)
    (device_id device_id' : Option Str) (expires_at now expires_at' later : ℕ)
    → rotate_refresh_token ts old new user_id device_id expires_at now ≡ ok ts'
    → old ≢ new
    → Steps old ts' us
    → rotate_refresh_token us old again user_id' device_id' expires_at' later ≡ err already_used
unfolding rotate_refresh_token
rotates_once ts ts' us old new user_id again user_id' d d' expires_at now expires_at' later e ne
      steps =
    let r = rotate_inv ts ts' old new user_id d expires_at now e in
    let spent =
      store-IsSpent old (revoke_refresh_token ts old) ts' new user_id d expires_at now ne r.1
        (revoke-IsSpent old ts) in
    rw (spent_revoked old us (Steps-IsSpent old spent steps))

-- The number of tokens that are not revoked.
unfoldable pub live_count : List RefreshToken → ℕ
live_count [] = 0
live_count (t ∷ ts) = (if t.revoked then 0 else 1) + live_count ts

-- The primary key.
abbrev pub IsKeyed : List RefreshToken → Type 0
IsKeyed [] = Unit
IsKeyed (t ∷ ts) = (find ts t.jti ≡ none) × IsKeyed ts

find-revoke :
    (ts : List RefreshToken) (old jti : Str)
    → find ts jti ≡ none
    → find (revoke_refresh_token ts old) jti ≡ none
unfolding find revoke_refresh_token
find-revoke [] old jti h = refl
find-revoke (t ∷ ts) old jti h = ground (arith, find-revoke ts old jti)

revoke-IsKeyed :
    (ts : List RefreshToken) (old : Str) → IsKeyed ts → IsKeyed (revoke_refresh_token ts old)
unfolding revoke_refresh_token
revoke-IsKeyed [] old h = tt
revoke-IsKeyed (t ∷ ts) old h =
    (ground (arith, find-revoke ts old t.jti h.0), revoke-IsKeyed ts old h.1)

revoke_absent :
    (ts : List RefreshToken) (old : Str)
    → find ts old ≡ none
    → live_count (revoke_refresh_token ts old) ≡ live_count ts
unfolding find revoke_refresh_token live_count
revoke_absent [] old h = refl
revoke_absent (t ∷ ts) old h = ground (arith, revoke_absent ts old)

revoke_live :
    (ts : List RefreshToken) (old : Str)
    → IsKeyed ts
    → is_refresh_token_revoked ts old ≡ false
    → live_count (revoke_refresh_token ts old) + 1 ≡ live_count ts
unfolding find revoke_refresh_token live_count is_refresh_token_revoked
revoke_live [] old k h = ground arith
revoke_live (t ∷ ts) old k h =
    ground (arith, revoke_live ts old, revoke_absent ts old, str_eq_iff t.jti old)

-- A rotation neither adds nor removes a live token, and keeps the primary key: one token takes the
-- place of the other.
pub rotation_conserves :
    (ts ts' : List RefreshToken) (old new user_id : Str) (device_id : Option Str)
    (expires_at now : ℕ)
    → IsKeyed ts
    → rotate_refresh_token ts old new user_id device_id expires_at now ≡ ok ts'
    → (live_count ts' ≡ live_count ts) × IsKeyed ts' × (is_refresh_token_revoked ts' new ≡ false)
rotation_conserves ts ts' old new user_id d expires_at now k e =
    let r = rotate_inv ts ts' old new user_id d expires_at now e in
    let s = store_inv (revoke_refresh_token ts old) ts' new user_id d expires_at now r.1 in
    let l = revoke_live ts old k r.0 in
    rw s.0 (
      unfold live_count in omega arith,
      (s.1, revoke-IsKeyed ts old k),
      unfold is_refresh_token_revoked find in ground (arith, str_eq_refl new),
    )
