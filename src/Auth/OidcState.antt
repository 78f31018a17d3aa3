-- ===== src/Auth/OidcState.antt =====
-- `OidcStateStore` of src/auth/oidc.rs. Each method holds the lock of the map, so that calls of several
-- tasks are a sequence of calls. The clock is monotonic.
pub mod Once
use toki_sync.Prelude.{
  ℕ, ◌-◌, ◌≡◌, refl, ap, ◌∙◌, Bool, true, false, not, ◌&&◌, Option, none, some, List, [], ◌∷◌, Str,
  HashMap, get, insert, remove, retain, IsMap, keep_if, get-insert, get-remove, get-retain,
  insert-IsMap, remove-IsMap, retain-IsMap, str_eq, str_eq_refl, ltb, leb, if◌then◌else◌, arith,
  Bool-cases, inl, inr, all,
}
use toki_sync.Limits.{from_secs}

pub record Pending : Type 0 where
  pub redirect_uri : Str
  pub nonce : Str
  pub created : ℕ

pub record OidcStateStore : Type 0 where
  pub states : HashMap Pending
  pub ttl : ℕ

unfoldable pub new_store : ℕ → OidcStateStore
new_store ttl_secs = record { states = []; ttl = from_secs ttl_secs }

abbrev pub is_unexpired : ℕ → ℕ → Pending → Bool
is_unexpired ttl now p = ltb (now - p.created) ttl

unfoldable pub insert_state : OidcStateStore → Str → Str → Str → ℕ → OidcStateStore
insert_state s state redirect_uri nonce now = record s {
  states =
      insert (retain (is_unexpired s.ttl now) s.states) state
        (record { redirect_uri = redirect_uri; nonce = nonce; created = now });
}

abbrev pub answer_of : Option Pending → Option (Str × Str)
answer_of none = none
answer_of (some p) = some (p.redirect_uri, p.nonce)

unfoldable pub validate : OidcStateStore → Str → ℕ → OidcStateStore × Option (Str × Str)
validate s state now = (
  record s { states = remove s.states state },
  answer_of (keep_if (is_unexpired s.ttl now) (get s.states state)),
)
