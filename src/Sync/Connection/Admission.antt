-- ===== src/Sync/Connection/Admission.antt =====
-- What the handshake of src/sync/handler.rs has checked when it admits a device, and what it leaves alone
-- when it does not.
use toki_sync.Prelude.{
  ℕ, ◌≡◌, ◌≢◌, refl, sym, ap, subst, ◌∙◌, Bool, true, false, ◌==◌, Option, none, some, List, Str,
  arith, Bool-cases, inl, inr,
}
use toki_sync.Windows.{WireWindow}
use toki_sync.Windows.Premerge.{UnstableSort}
use toki_sync.Db.Cursors.{ensure_cursor}
use toki_sync.Db.Devices.{
  Device, find_or_create_device, truncate_device_name, IsTable, Adopted,
  find_or_create_device-Adopted,
}
use toki_sync.Auth.Jwt.{Claims, JwtManager, verify_access}
use toki_sync.Auth.ActiveCache.{ActiveCache, is_user_active_cached}
use toki_sync.Events.Store.{Fjall, Bincode, PersistedEvent}
use toki_sync.Sync.Connection.{
  MsgType, auth, get_last_ts_msg, sync_batch, sync_batch_zstd, sync_windows, ping, other, Wire,
  Session, Moment, AuthPayload, Server, Handshake, failed, refused, welcome, AuthRefusal,
  with_device, with_active, with_claims, with_auth, handshake,
}

module _ (F : Fjall) (codec : Bincode PersistedEvent) (window_codec : Bincode WireWindow)
    (sorting : UnstableSort) (wire : Wire) (jwt : JwtManager) (retention : ℕ)
    (s s' : Server F codec window_codec sorting wire jwt retention) (m : Moment)
    (session : Session) where
  pub record IsAdmitted (payload : Str) : Type 0 where
    pub hello : AuthPayload
    pub decoded : wire.decode_auth payload ≡ some hello
    pub same_protocol : (hello.protocol_version == wire.protocol_version) ≡ true
    pub same_schema : (hello.schema_version == wire.schema_version) ≡ true
    pub claims : Claims
    pub verified : verify_access jwt hello.jwt m.wall_secs ≡ some claims
    pub own_session : session.user_id ≡ claims.sub
    pub active : (is_user_active_cached s.cache claims.sub m.clock m.user).1 ≡ some true
    pub is_uuid : wire.is_uuid hello.device_key ≡ true
    pub device :
        find_or_create_device s.devices claims.sub
          (truncate_device_name hello.device_name)
          hello.device_key
          m.wall_secs
        ≡ some (s'.devices, session.device_id)
    pub same_store : s'.sync.store ≡ s.sync.store
    pub same_windows : s'.windows ≡ s.windows
    pub cursors :
        s'.sync.cursors ≡ ensure_cursor s.sync.cursors session.device_id hello.provider m.wall_secs

  abbrev Out : Type 0
  Out = Server F codec window_codec sorting wire jwt retention × Handshake

  refused_ne :
      {t : Server F codec window_codec sorting wire jwt retention} {e : AuthRefusal}
      → ◌≢◌ {A = Out} (t, refused e) (s', welcome session)
  refused_ne h = absurd (ground arith)

  failed_ne :
      {t : Server F codec window_codec sorting wire jwt retention}
      → ◌≢◌ {A = Out} (t, failed) (s', welcome session)
  failed_ne h = absurd (ground arith)

  abbrev session_of : Handshake → Session
  session_of (welcome x) = x
  session_of _ = session

  welcomed :
      {t : Server F codec window_codec sorting wire jwt retention} {x : Session}
      → ◌≡◌ {A = Out} (t, welcome x) (s', welcome session)
      → (t ≡ s') × (x ≡ session)
  welcomed h = (ap (λ r. r.0) h, ap (λ r. session_of r.1) h)

  module _ (payload : Str) (hello : AuthPayload) (decoded : wire.decode_auth payload ≡ some hello)
      (same_protocol : (hello.protocol_version == wire.protocol_version) ≡ true) (claims : Claims)
      (verified : verify_access jwt hello.jwt m.wall_secs ≡ some claims) where
    device_admits :
        (cache : ActiveCache) (o : Option (List Device × Str))
        → find_or_create_device s.devices claims.sub
            (truncate_device_name hello.device_name)
            hello.device_key
            m.wall_secs
          ≡ o
        → wire.is_uuid hello.device_key ≡ true
        → (is_user_active_cached s.cache claims.sub m.clock m.user).1 ≡ some true
        → with_device F codec window_codec sorting wire jwt retention
            (record s { cache = cache })
            hello
            claims.sub
            m
            o
          ≡ (s', welcome session)
        → IsAdmitted payload
    device_admits cache none f u a h = absurd (failed_ne h)
    device_admits cache (some (devices, id)) f u a h =
        elim (Bool-cases (hello.schema_version == wire.schema_version)) [
          | inr q ↦ absurd (refused_ne (rw q at h))
          | inl q ↦
              let w = welcomed (rw q at h) in
              record {
                hello = hello;
                decoded = decoded;
                same_protocol = same_protocol;
                same_schema = q;
                claims = claims;
                verified = verified;
                own_session = sym (ap (λ x. x.user_id) w.1);
                active = a;
                is_uuid = u;
                device =
                    f
                    ∙ ap (λ x. some (x.devices, id)) w.0
                    ∙ ap (λ x. some (s'.devices, x.device_id)) w.1;
                same_store = sym (ap (λ x. x.sync.store) w.0);
                same_windows = sym (ap (λ x. x.windows) w.0);
                cursors =
                    sym (ap (λ x. x.sync.cursors) w.0)
                    ∙ ap (λ x. ensure_cursor s.sync.cursors x.device_id hello.provider m.wall_secs)
                        w.1;
              }
        ]

    active_admits :
        (r : ActiveCache × Option Bool)
        → is_user_active_cached s.cache claims.sub m.clock m.user ≡ r
        → with_active F codec window_codec sorting wire jwt retention s hello claims.sub m r
          ≡ (s', welcome session)
        → IsAdmitted payload
    active_admits (cache, none) e h = absurd (refused_ne h)
    active_admits (cache, some false) e h = absurd (refused_ne h)
    active_admits (cache, some true) e h = elim (Bool-cases (wire.is_uuid hello.device_key)) [
      | inr u ↦ absurd (refused_ne (rw u at h))
      | inl u ↦
          device_admits cache
            (find_or_create_device s.devices claims.sub (truncate_device_name hello.device_name)
              hello.device_key m.wall_secs)
            refl u (ap (λ r. r.1) e) (rw u at h)
    ]

  claims_admit :
      (payload : Str) (hello : AuthPayload) (o : Option Claims)
      → wire.decode_auth payload ≡ some hello
      → (hello.protocol_version == wire.protocol_version) ≡ true
      → verify_access jwt hello.jwt m.wall_secs ≡ o
      → with_claims F codec window_codec sorting wire jwt retention s hello m o
        ≡ (s', welcome session)
      → IsAdmitted payload
  claims_admit payload hello none d p v h = absurd (refused_ne h)
  claims_admit payload hello (some claims) d p v h =
      active_admits payload hello d p claims v
        (is_user_active_cached s.cache claims.sub m.clock m.user) refl h

  auth_admits :
      (payload : Str) (o : Option AuthPayload)
      → wire.decode_auth payload ≡ o
      → with_auth F codec window_codec sorting wire jwt retention s m o ≡ (s', welcome session)
      → IsAdmitted payload
  auth_admits payload none d h = absurd (failed_ne h)
  auth_admits payload (some hello) d h =
      elim (Bool-cases (hello.protocol_version == wire.protocol_version)) [
        | inr p ↦ absurd (refused_ne (rw p at h))
        | inl p ↦
            claims_admit payload hello (verify_access jwt hello.jwt m.wall_secs) d p refl
              (rw p at h)
      ]

-- A handshake that ends with a session read a hello of the server's protocol and schema versions, checked
-- its token, found the token's user active and the device key a UUID, and gave the session that user and
-- the device that the key stands for; it makes the cursor, and changes no events and no windows.
pub handshake-IsAdmitted :
    (F : Fjall) (codec : Bincode PersistedEvent) (window_codec : Bincode WireWindow)
    (sorting : UnstableSort) (wire : Wire) (jwt : JwtManager) (retention : ℕ)
    (s s' : Server F codec window_codec sorting wire jwt retention) (m : Moment) (session : Session)
    (t : MsgType) (payload : Str)
    → handshake F codec window_codec sorting wire jwt retention s t payload m
      ≡ (s', welcome session)
    → IsAdmitted F codec window_codec sorting wire jwt retention s s' m session payload
unfolding handshake
handshake-IsAdmitted F codec window_codec sorting wire jwt retention s s' m session auth payload h =
    auth_admits F codec window_codec sorting wire jwt retention s s' m session payload
      (wire.decode_auth payload) refl h
handshake-IsAdmitted F codec window_codec sorting wire jwt retention s s' m session get_last_ts_msg
      payload h =
    absurd (ground arith)
handshake-IsAdmitted F codec window_codec sorting wire jwt retention s s' m session sync_batch
      payload h =
    absurd (ground arith)
handshake-IsAdmitted F codec window_codec sorting wire jwt retention s s' m session sync_batch_zstd
      payload h =
    absurd (ground arith)
handshake-IsAdmitted F codec window_codec sorting wire jwt retention s s' m session sync_windows
      payload h =
    absurd (ground arith)
handshake-IsAdmitted F codec window_codec sorting wire jwt retention s s' m session ping payload h =
    absurd (ground arith)
handshake-IsAdmitted F codec window_codec sorting wire jwt retention s s' m session (other n)
      payload h =
    absurd (ground arith)

-- The device of a session belongs to the session's user, and no device changes hands in the handshake.
pub handshake_owner :
    (F : Fjall) (codec : Bincode PersistedEvent) (window_codec : Bincode WireWindow)
    (sorting : UnstableSort) (wire : Wire) (jwt : JwtManager) (retention : ℕ)
    (s s' : Server F codec window_codec sorting wire jwt retention) (m : Moment) (session : Session)
    (t : MsgType) (payload : Str)
    → IsTable s.devices
    → handshake F codec window_codec sorting wire jwt retention s t payload m
      ≡ (s', welcome session)
    → Adopted s.devices s'.devices session.user_id session.device_id
handshake_owner F codec window_codec sorting wire jwt retention s s' m session t payload i h =
    let a =
      handshake-IsAdmitted F codec window_codec sorting wire jwt retention s s' m session t payload
        h in
    subst (λ u. Adopted s.devices s'.devices u session.device_id) (sym a.own_session)
      (find_or_create_device-Adopted s.devices s'.devices a.claims.sub
        (truncate_device_name a.hello.device_name) a.hello.device_key session.device_id m.wall_secs
        i a.device)
