-- ===== src/Auth/OidcState/Once.antt =====
-- A state of `OidcStateStore` of src/auth/oidc.rs, from its insertion on.
use toki_sync.Prelude.{
  ℕ, ◌-◌, ◌≡◌, refl, ap, ◌∙◌, Bool, true, false, not, ◌&&◌, Option, none, some, List, [], ◌∷◌, Str,
  get, remove, retain, IsMap, keep_if, get-insert, get-remove, get-retain, insert-IsMap,
  remove-IsMap, retain-IsMap, str_eq, str_eq_refl, ltb, leb, if◌then◌else◌, arith, Bool-cases, inl,
  inr, all,
}
use toki_sync.Auth.OidcState.{
  Pending, OidcStateStore, is_unexpired, insert_state, answer_of, validate,
}

pub data StoreCall : Type 0 where
  inserted : Str → Str → Str → ℕ → StoreCall
  validated : Str → ℕ → StoreCall

unfoldable pub after_state_call : OidcStateStore → StoreCall → OidcStateStore
after_state_call s (inserted state redirect_uri nonce now) =
    insert_state s state redirect_uri nonce now
after_state_call s (validated state now) = (validate s state now).0

unfoldable pub after_state_calls : OidcStateStore → List StoreCall → OidcStateStore
after_state_calls s [] = s
after_state_calls s (c ∷ cs) = after_state_calls (after_state_call s c) cs

-- The call is for another state, and an insertion is not after `now`.
abbrev pub is_other : Str → ℕ → StoreCall → Bool
is_other state now (inserted other redirect_uri nonce at) = not (str_eq other state) && leb at now
is_other state now (validated other at) = not (str_eq other state)

keep_if_later :
    (ttl now at : ℕ) (o : Option Pending)
    → leb at now ≡ true
    → keep_if (is_unexpired ttl now) (keep_if (is_unexpired ttl at) o)
      ≡ keep_if (is_unexpired ttl now) o
keep_if_later ttl now at none h = refl
keep_if_later ttl now at (some p) h = elim (Bool-cases (is_unexpired ttl at p)) [
  | inl e ↦ rw e refl
  | inr e ↦ rw (e, expired e) refl
]
  where
    expired : ltb (at - p.created) ttl ≡ false → ltb (now - p.created) ttl ≡ false
    expired e = ground arith

abbrev unexpired : OidcStateStore → Str → ℕ → Option Pending
unexpired s state now = keep_if (is_unexpired s.ttl now) (get s.states state)

-- What a call for another state leaves of a state, as far as it is not expired.
after_state_call_keeps :
    (s : OidcStateStore) (c : StoreCall) (state : Str) (now : ℕ)
    → IsMap s.states
    → is_other state now c ≡ true
    → unexpired (after_state_call s c) state now ≡ unexpired s state now
unfolding after_state_call insert_state validate
after_state_call_keeps s (inserted other redirect_uri nonce at) state now m h =
    elim (Bool-cases (str_eq other state)) [
      | inl e ↦ absurd (refused (rw e at h))
      | inr e ↦
          ap (keep_if (is_unexpired s.ttl now)) (
            get-insert (retain (is_unexpired s.ttl at) s.states) other state _
            ∙ rw e (get-retain _ s.states state m))
          ∙ keep_if_later s.ttl now at (get s.states state) (rw e at h)
    ]
  where
    refused : false ≡ true → ⊥
    refused q = ground arith
after_state_call_keeps s (validated other at) state now m h =
    elim (Bool-cases (str_eq other state)) [
      | inl e ↦ absurd (refused (rw e at h))
      | inr e ↦ ap (keep_if (is_unexpired s.ttl now)) (get-remove s.states other state ∙ rw e refl)
    ]
  where
    refused : false ≡ true → ⊥
    refused q = ground arith

after_state_call-IsMap :
    (s : OidcStateStore) (c : StoreCall) → IsMap s.states → IsMap (after_state_call s c).states
unfolding after_state_call insert_state validate
after_state_call-IsMap s (inserted other redirect_uri nonce at) m =
    insert-IsMap (retain (is_unexpired s.ttl at) s.states) other _ (retain-IsMap _ s.states m)
after_state_call-IsMap s (validated other at) m = remove-IsMap s.states other m

inserted-IsMap :
    (s : OidcStateStore) (state redirect_uri nonce : Str) (created : ℕ)
    → IsMap s.states
    → IsMap (insert_state s state redirect_uri nonce created).states
unfolding insert_state
inserted-IsMap s state redirect_uri nonce created m =
    insert-IsMap (retain (is_unexpired s.ttl created) s.states) state _ (retain-IsMap _ s.states m)

validate-IsMap :
    (s : OidcStateStore) (state : Str) (now : ℕ)
    → IsMap s.states
    → IsMap (validate s state now).0.states
unfolding validate
validate-IsMap s state now m = remove-IsMap s.states state m

after_state_calls-IsMap :
    (s : OidcStateStore) (cs : List StoreCall)
    → IsMap s.states
    → IsMap (after_state_calls s cs).states
unfolding after_state_calls
after_state_calls-IsMap s [] m = m
after_state_calls-IsMap s (c ∷ cs) m =
    after_state_calls-IsMap (after_state_call s c) cs (after_state_call-IsMap s c m)

after_state_calls_keep :
    (s : OidcStateStore) (cs : List StoreCall) (state : Str) (now : ℕ)
    → IsMap s.states
    → all (is_other state now) cs ≡ true
    → unexpired (after_state_calls s cs) state now ≡ unexpired s state now
unfolding after_state_calls
after_state_calls_keep s [] state now m h = refl
after_state_calls_keep s (c ∷ cs) state now m h = elim (Bool-cases (is_other state now c)) [
  | inl e ↦
      after_state_calls_keep (after_state_call s c) cs state now (after_state_call-IsMap s c m)
        (rw e at h)
      ∙ after_state_call_keeps s c state now m e
  | inr e ↦ absurd (refused (rw e at h))
]
  where
    refused : false ≡ true → ⊥
    refused q = ground arith

validate_answer :
    (s : OidcStateStore) (state : Str) (now : ℕ)
    → (validate s state now).1 ≡ answer_of (unexpired s state now)
unfolding validate
validate_answer s state now = refl

inserted_unexpired :
    (s : OidcStateStore) (state redirect_uri nonce : Str) (created now : ℕ)
    → answer_of (unexpired (insert_state s state redirect_uri nonce created) state now)
      ≡ (if ltb (now - created) s.ttl then some (redirect_uri, nonce) else none)
unfolding insert_state
inserted_unexpired s state redirect_uri nonce created now =
    ap (λ o. answer_of (keep_if (is_unexpired s.ttl now) o)) found ∙ decided
  where
    found :
        get (insert_state s state redirect_uri nonce created).states state
        ≡ some (record { redirect_uri = redirect_uri; nonce = nonce; created = created })
    found =
        get-insert (retain (is_unexpired s.ttl created) s.states) state state _
        ∙ rw (str_eq_refl state) refl

    decided :
        answer_of (
          keep_if
            (is_unexpired s.ttl now)
            (some (record { redirect_uri = redirect_uri; nonce = nonce; created = created })))
        ≡ (if ltb (now - created) s.ttl then some (redirect_uri, nonce) else none)
    decided = elim (Bool-cases (ltb (now - created) s.ttl)) [
      | inl e ↦ rw e refl
      | inr e ↦ rw e refl
    ]

consumed_unexpired :
    (s : OidcStateStore) (state : Str) (at now : ℕ)
    → unexpired (validate s state at).0 state now ≡ none
unfolding validate
consumed_unexpired s state at now = ap (keep_if (is_unexpired s.ttl now)) gone
  where
    gone : get (remove s.states state) state ≡ none
    gone = get-remove s.states state state ∙ rw (str_eq_refl state) refl

-- A state that is put into the store is good for one validation. Whatever calls for other states come
-- between, with no insertion after `now`, the first validation of the state, at `now`, gives its redirect
-- URI and its nonce exactly when less than the time to live has passed. After further calls for other
-- states, with no insertion after `later`, a second validation, at `later`, gives nothing. The store has
-- each state once.
pub validated_once :
    (s : OidcStateStore) (state redirect_uri nonce : Str) (created now later : ℕ)
    (calls others : List StoreCall)
    → IsMap s.states
    → all (is_other state now) calls ≡ true
    → all (is_other state later) others ≡ true
    → ((validate
          (after_state_calls (insert_state s state redirect_uri nonce created) calls)
          state
          now).1
        ≡ (if ltb (now - created) s.ttl then some (redirect_uri, nonce) else none))
      × ((validate
            (after_state_calls
              (validate
                (after_state_calls (insert_state s state redirect_uri nonce created) calls)
                state
                now).0
              others)
            state
            later).1
          ≡ none)
validated_once s state redirect_uri nonce created now later calls others m h h' = (
  validate_answer _ state now
      ∙ ap answer_of (after_state_calls_keep opened calls state now opened-IsMap h)
      ∙ inserted_unexpired s state redirect_uri nonce created now,
  validate_answer _ state later
      ∙ ap answer_of (
          after_state_calls_keep (validate (after_state_calls opened calls) state now).0 others
            state later consumed-IsMap h'
          ∙ consumed_unexpired (after_state_calls opened calls) state now later),
)
  where
    opened : OidcStateStore
    opened = insert_state s state redirect_uri nonce created

    opened-IsMap : IsMap opened.states
    opened-IsMap = inserted-IsMap s state redirect_uri nonce created m

    consumed-IsMap : IsMap (validate (after_state_calls opened calls) state now).0.states
    consumed-IsMap =
        validate-IsMap (after_state_calls opened calls) state now
          (after_state_calls-IsMap opened calls opened-IsMap)
