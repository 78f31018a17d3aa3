-- ===== src/Auth/Jwt.antt =====
-- `JwtManager` of src/auth/jwt.rs. Signing and checking belong to the jsonwebtoken crate and are a
-- parameter, with the behaviour that the code relies on.
use toki_sync.Prelude.{
  ℕ, ◌+◌, ◌<◌, ◌≡◌, refl, ◌∙◌, sym, ap, subst, Option, none, some, Str, lit, str_eq, is_empty,
  Result, ok, err, if◌then◌else◌, arith, List,
}
use toki_sync.Db.Tokens.{RefreshToken, TokenError, rotate_refresh_token}

pub record Claims : Type 0 where
  pub sub : Str
  pub jti : Str
  pub typ : Str
  pub exp : ℕ
  pub iat : ℕ
  pub iss : Option Str
  pub did : Option Str

-- `encode` with the signing key, and `decode` with HS256, an expiry check and no leeway, at a time.
pub record Signer : Type 0 where
  pub encode : Claims → Option Str
  pub decode : ℕ → Str → Option Claims
  -- A signed token reads back until it expires.
  pub decode-encode :
      (c : Claims) (token : Str) (now : ℕ)
      → encode c ≡ some token
      → now < c.exp
      → decode now token ≡ some c
  -- The claims that a token reads back as do not depend on the time.
  pub decode_once :
      (token : Str) (now later : ℕ) (c c' : Claims)
      → decode now token ≡ some c
      → decode later token ≡ some c'
      → c ≡ c'

pub record JwtManager : Type 0 where
  pub signer : Signer
  pub access_ttl_secs : ℕ
  pub refresh_ttl_secs : ℕ
  pub issuer : Str

unfoldable pub iss_claim : JwtManager → Option Str
iss_claim m = if is_empty m.issuer then none else some m.issuer

abbrev pub access_claims : JwtManager → Str → ℕ → Str → Claims
access_claims m user_id now uuid = record {
  sub = user_id;
  jti = uuid;
  typ = lit "access";
  exp = now + m.access_ttl_secs;
  iat = now;
  iss = iss_claim m;
  did = none;
}

unfoldable pub issue_access_token : JwtManager → Str → ℕ → Str → Option Str
issue_access_token m user_id now uuid = m.signer.encode (access_claims m user_id now uuid)

abbrev pub refresh_claims : JwtManager → Str → Option Str → ℕ → Str → Claims
refresh_claims m user_id device_id now uuid = record {
  sub = user_id;
  jti = uuid;
  typ = lit "refresh";
  exp = now + m.refresh_ttl_secs;
  iat = now;
  iss = iss_claim m;
  did = device_id;
}

unfoldable pub issue_refresh_token : JwtManager → Str → Option Str → ℕ → Str → Option (Str × Claims)
issue_refresh_token m user_id device_id now uuid =
    let claims = refresh_claims m user_id device_id now uuid in
    elim (m.signer.encode claims) [ none ↦ none | some token ↦ some (token, claims) ]

unfoldable pub has_type : Str → Option Claims → Option Claims
has_type typ none = none
has_type typ (some c) = if str_eq c.typ typ then some c else none

unfoldable pub verify_access : JwtManager → Str → ℕ → Option Claims
verify_access m token now = has_type (lit "access") (m.signer.decode now token)

unfoldable pub verify_refresh : JwtManager → Str → ℕ → Option Claims
verify_refresh m token now = has_type (lit "refresh") (m.signer.decode now token)

pub data JwtError : Type 0 where
  invalid_token issue_failed : JwtError
  database : TokenError → JwtError

abbrev stored :
    Str
    → Str
    → Result (List RefreshToken) TokenError
    → Result (Str × Str × List RefreshToken) JwtError
stored access refresh (ok tokens) = ok (access, refresh, tokens)
stored access refresh (err e) = err (database e)

abbrev rotated :
    List RefreshToken
    → Claims
    → Option Str
    → ℕ
    → Option Str
    → Option (Str × Claims)
    → Result (Str × Str × List RefreshToken) JwtError
rotated tokens claims device_id now (some access) (some (refresh, new)) =
    stored access refresh
      (rotate_refresh_token tokens claims.jti new.jti new.sub device_id new.exp now)
rotated tokens claims device_id now (some access) none = err issue_failed
rotated tokens claims device_id now none refresh = err issue_failed

-- The pair of tokens, with the table that holds the new one.
unfoldable pub rotate :
    JwtManager
    → List RefreshToken
    → Str
    → Option Str
    → ℕ
    → Str
    → Str
    → Result (Str × Str × List RefreshToken) JwtError
rotate m tokens old_token device_id now access_uuid refresh_uuid =
    elim (verify_refresh m old_token now) [
      | none ↦ err invalid_token
      | some claims ↦
          rotated tokens claims device_id now (issue_access_token m claims.sub now access_uuid)
            (issue_refresh_token m claims.sub device_id now refresh_uuid)
    ]

-- A token issued for access is accepted for access, with the claims that it was issued with, until it
-- expires; for a refresh it is not accepted.
pub access_token_use :
    (m : JwtManager) (user_id uuid : Str) (issued now : ℕ) (token : Str)
    → issue_access_token m user_id issued uuid ≡ some token
    → now < issued + m.access_ttl_secs
    → (verify_access m token now ≡ some (access_claims m user_id issued uuid))
      × (verify_refresh m token now ≡ none)
unfolding issue_access_token verify_access verify_refresh has_type str_eq
access_token_use m user_id uuid issued now token h before =
    let d = m.signer.decode-encode (access_claims m user_id issued uuid) token now h before in
    (rw d, rw d)

issue_refresh_inv :
    (m : JwtManager) (user_id uuid : Str) (device_id : Option Str) (issued : ℕ) (token : Str)
    (c : Claims)
    → issue_refresh_token m user_id device_id issued uuid ≡ some (token, c)
    → (m.signer.encode c ≡ some token) × (c ≡ refresh_claims m user_id device_id issued uuid)
unfolding issue_refresh_token
issue_refresh_inv m user_id uuid device_id issued token c h = ground arith

-- A token issued for a refresh is accepted for a refresh, with the claims that it was issued with,
-- until it expires; for access it is not accepted.
pub refresh_token_use :
    (m : JwtManager) (user_id uuid : Str) (device_id : Option Str) (issued now : ℕ) (token : Str)
    (c : Claims)
    → issue_refresh_token m user_id device_id issued uuid ≡ some (token, c)
    → now < issued + m.refresh_ttl_secs
    → (verify_refresh m token now ≡ some (refresh_claims m user_id device_id issued uuid))
      × (verify_access m token now ≡ none)
unfolding verify_access verify_refresh has_type str_eq
refresh_token_use m user_id uuid device_id issued now token c h before =
    let i = issue_refresh_inv m user_id uuid device_id issued token c h in
    let claims = refresh_claims m user_id device_id issued uuid in
    let d = m.signer.decode-encode claims token now (ap m.signer.encode (sym i.1) ∙ i.0) before in
    (rw d, rw d)

stored_inv :
    (access refresh access' refresh' : Str) (r : Result (List RefreshToken) TokenError)
    (tokens : List RefreshToken)
    → stored access refresh r ≡ ok (access', refresh', tokens)
    → (access ≡ access') × (refresh ≡ refresh') × (r ≡ ok tokens)
stored_inv access refresh access' refresh' (ok ts) tokens h =
    (ground arith, ground arith, ground arith)
stored_inv access refresh access' refresh' (err e) tokens h = absurd (ground arith)

rotated_inv :
    (tokens : List RefreshToken) (c : Claims) (d : Option Str) (now : ℕ) (a : Option Str)
    (r : Option (Str × Claims)) (access refresh : Str) (tokens' : List RefreshToken)
    → rotated tokens c d now a r ≡ ok (access, refresh, tokens')
    → (new : Claims) × (a ≡ some access)
      × (r ≡ some (refresh, new))
      × (rotate_refresh_token tokens c.jti new.jti new.sub d new.exp now ≡ ok tokens')
rotated_inv tokens c d now none r access refresh tokens' h = absurd (ground arith)
rotated_inv tokens c d now (some a) none access refresh tokens' h = absurd (ground arith)
rotated_inv tokens c d now (some a) (some (b, new)) access refresh tokens' h =
    let i =
      stored_inv a b access refresh
        (rotate_refresh_token tokens c.jti new.jti new.sub d new.exp now) tokens' h in
    (new, ap some i.0, ap (λ x. some (x, new)) i.1, i.2)

-- What a rotation that goes through did: it read valid refresh claims, replaced their token in the
-- table by the new one, and issued both new tokens for the same user.
pub record Rotated (m : JwtManager) (tokens : List RefreshToken) (old_token : Str)
    (device_id : Option Str) (now : ℕ) (access_uuid refresh_uuid access refresh : Str)
    (tokens' : List RefreshToken) : Type 0 where
  pub claims : Claims
  pub verified : verify_refresh m old_token now ≡ some claims
  pub access_issued : issue_access_token m claims.sub now access_uuid ≡ some access
  pub refresh_issued :
      issue_refresh_token m claims.sub device_id now refresh_uuid
      ≡ some (refresh, refresh_claims m claims.sub device_id now refresh_uuid)
  pub replaced :
      rotate_refresh_token tokens claims.jti refresh_uuid claims.sub device_id
        (now + m.refresh_ttl_secs)
        now
      ≡ ok tokens'

pub rotate-Rotated :
    (m : JwtManager) (tokens : List RefreshToken) (old_token : Str) (device_id : Option Str)
    (now : ℕ) (access_uuid refresh_uuid access refresh : Str) (tokens' : List RefreshToken)
    → rotate m tokens old_token device_id now access_uuid refresh_uuid
      ≡ ok (access, refresh, tokens')
    → Rotated m tokens old_token device_id now access_uuid refresh_uuid access refresh tokens'
unfolding rotate
rotate-Rotated m tokens old_token d now au ru access refresh tokens' h =
    by_claims (verify_refresh m old_token now) refl
  where
    by_claims :
        (o : Option Claims)
        → verify_refresh m old_token now ≡ o
        → Rotated m tokens old_token d now au ru access refresh tokens'
    by_claims none e = absurd (ground arith)
    by_claims (some c) e =
        let i =
          rotated_inv tokens c d now (issue_access_token m c.sub now au)
            (issue_refresh_token m c.sub d now ru) access refresh tokens' (rw (rotate, e) at h) in
        let new = (issue_refresh_inv m c.sub ru d now refresh i.0 i.2).1 in
        record {
          claims = c;
          verified = e;
          access_issued = i.1;
          refresh_issued = i.2 ∙ ap (λ x. some (refresh, x)) new;
          replaced =
              subst (λ n. rotate_refresh_token tokens c.jti n.jti n.sub d n.exp now ≡ ok tokens')
                new i.3;
        }

has_type_inv : (typ : Str) (o : Option Claims) (c : Claims) → has_type typ o ≡ some c → o ≡ some c
unfolding has_type
has_type_inv typ none c h = ground arith
has_type_inv typ (some x) c h = ground arith

-- A token is verified with the same claims at all times.
pub verify_refresh_once :
    (m : JwtManager) (token : Str) (now later : ℕ) (c c' : Claims)
    → verify_refresh m token now ≡ some c
    → verify_refresh m token later ≡ some c'
    → c ≡ c'
unfolding verify_refresh
verify_refresh_once m token now later c c' h k =
    m.signer.decode_once token now later c c'
      (has_type_inv (lit "refresh") (m.signer.decode now token) c h)
      (has_type_inv (lit "refresh") (m.signer.decode later token) c' k)
