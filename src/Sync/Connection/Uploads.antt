-- ===== src/Sync/Connection/Uploads.antt =====
-- What src/sync/handler.rs has stored when it acknowledges an upload of windows.
use toki_sync.Prelude.{
  ℕ, ◌+◌, ◌≤◌, ◌≡◌, ◌≢◌, refl, sym, ap, Bool, true, false, ◌==◌, Option, none, some, List, [], ◌∷◌,
  Str, HashMap, ltb, length, ℤ, arith, Bool-cases, inl, inr,
}
use toki_sync.Windows.{WireWindow}
use toki_sync.Windows.Sanitize.{SanitizedWindows, sanitize_window_batch}
use toki_sync.Windows.Premerge.{UnstableSort, premerge_windows}
use toki_sync.Limits.WindowsRate.{allow}
use toki_sync.Auth.Jwt.{JwtManager}
use toki_sync.Auth.ActiveCache.{ActiveCache}
use toki_sync.Events.Store.{Fjall, Bincode, PersistedEvent}
use toki_sync.Events.Rows.{upsert_windows}
use toki_sync.Sync.Connection.{
  sync_windows, Wire, Session, Moment, Server, Turn, Reply, sync_ack, sync_err, SyncRefusal, Next,
  SyncWindowsPayload, max_windows_payload, provider_ok, max_observed, windows_reply, if_allowed,
  with_windows, on_windows, if_active, active_now, handle_frame,
}

module _ (F : Fjall) (codec : Bincode PersistedEvent) (window_codec : Bincode WireWindow)
    (sorting : UnstableSort) (wire : Wire) (jwt : JwtManager) (retention : ℕ)
    (s s' : Server F codec window_codec sorting wire jwt retention) (session : Session) (m : Moment)
    (payload : Str) (ts : ℤ) (n : Next) where
  abbrev pub sanitized : SyncWindowsPayload → SanitizedWindows
  sanitized win = sanitize_window_batch win.items m.wall_ms

  abbrev pub merged : SyncWindowsPayload → List WireWindow
  merged win = premerge_windows sorting (sanitized win).items

  abbrev pub stored : SyncWindowsPayload → F.Keyspace × ℕ
  stored win =
      upsert_windows window_codec F session.user_id win.provider (s.windows, 0) (merged win)

  pub record IsAccepted : Type 0 where
    pub active :
        (active_now F codec window_codec sorting wire jwt retention s session m).1 ≡ some true
    pub in_size : length payload ≤ max_windows_payload
    pub win : SyncWindowsPayload
    pub decoded : wire.decode_windows payload ≡ some win
    pub same_schema : (win.windows_schema == wire.windows_schema_version) ≡ true
    pub good_provider : provider_ok win.provider ≡ true
    pub allowed : (allow s.limiter session.user_id win.provider session.device_id m.clock).1 ≡ true
    pub none_deferred : (sanitized win).transient_rejects ≡ 0
    pub none_skipped : (stored win).1 ≡ 0
    pub written : s'.windows ≡ (stored win).0
    pub newest : ts ≡ max_observed (merged win)

  abbrev Out : Type 0
  Out = Turn F codec window_codec sorting wire jwt retention

  abbrev acked : Out
  acked = (s', (sync_ack ts ∷ [], n))

  abbrev first_ack : List Reply → Option ℤ
  first_ack (sync_ack t ∷ rs) = some t
  first_ack _ = none

  err_ne :
      {t : Server F codec window_codec sorting wire jwt retention} {e : SyncRefusal} {k : Next}
      → ◌≢◌ {A = Out} (t, (sync_err e ∷ [], k)) acked
  err_ne h = absurd (some_ne (ap (λ r. first_ack r.1.0) h))
    where
      some_ne : ◌≢◌ {A = Option ℤ} none (some ts)
      some_ne h = absurd (ground arith)

  silent_ne :
      {t : Server F codec window_codec sorting wire jwt retention} {k : Next}
      → ◌≢◌ {A = Out} (t, ([], k)) acked
  silent_ne h = absurd (some_ne (ap (λ r. first_ack r.1.0) h))
    where
      some_ne : ◌≢◌ {A = Option ℤ} none (some ts)
      some_ne h = absurd (ground arith)

  reply_acks :
      (items : List WireWindow) (dropped : ℕ)
      → first_ack (windows_reply items dropped) ≡ some ts
      → (dropped ≡ 0) × (ts ≡ max_observed items)
  unfolding windows_reply
  reply_acks items dropped h = elim (Bool-cases (dropped == 0)) [
    | inl e ↦ (ground arith, sym (same (rw e at h)))
    | inr e ↦ absurd (none_ne (rw e at h))
  ]
    where
      same : {t : ℤ} → some t ≡ some ts → t ≡ ts
      same h = ground arith

      none_ne : ◌≢◌ {A = Option ℤ} none (some ts)
      none_ne h = absurd (ground arith)

  module _ (cache : ActiveCache)
      (active : (active_now F codec window_codec sorting wire jwt retention s session m).1
        ≡ some true)
      (in_size : length payload ≤ max_windows_payload) where
    allowed_acks :
        (win : SyncWindowsPayload) (r : HashMap ℕ × Bool)
        → wire.decode_windows payload ≡ some win
        → (win.windows_schema == wire.windows_schema_version) ≡ true
        → provider_ok win.provider ≡ true
        → allow s.limiter session.user_id win.provider session.device_id m.clock ≡ r
        → if_allowed F codec window_codec sorting wire jwt retention session win m
            (record s { cache = cache })
            r
          ≡ acked
        → IsAccepted
    allowed_acks win (limiter, false) d c p e h = absurd (err_ne h)
    allowed_acks win (limiter, true) d c p e h =
        let dropped = (sanitized win).transient_rejects + (stored win).1 in
        let a = reply_acks (merged win) dropped (ap (λ r. first_ack r.1.0) h) in
        record {
          active = active;
          in_size = in_size;
          win = win;
          decoded = d;
          same_schema = c;
          good_provider = p;
          allowed = ap (λ r. r.1) e;
          none_deferred = omega (arith, a.0);
          none_skipped = omega (arith, a.0);
          written = sym (ap (λ r. r.0.windows) h);
          newest = a.1;
        }

    windows_ack :
        (o : Option SyncWindowsPayload)
        → wire.decode_windows payload ≡ o
        → with_windows F codec window_codec sorting wire jwt retention session m
            (record s { cache = cache })
            o
          ≡ acked
        → IsAccepted
    windows_ack none d h = absurd (silent_ne h)
    windows_ack (some win) d h =
        elim (Bool-cases (win.windows_schema == wire.windows_schema_version)) [
          | inr c ↦ absurd (err_ne (rw c at h))
          | inl c ↦ elim (Bool-cases (provider_ok win.provider)) [
            | inr p ↦ absurd (err_ne (rw (c, p) at h))
            | inl p ↦
                allowed_acks win
                  (allow s.limiter session.user_id win.provider session.device_id m.clock) d c p
                  refl (rw (c, p) at h)
          ]
        ]

  upload_acks :
      (r : ActiveCache × Option Bool)
      → active_now F codec window_codec sorting wire jwt retention s session m ≡ r
      → if_active F codec window_codec sorting wire jwt retention s r
          (on_windows F codec window_codec sorting wire jwt retention session payload m)
        ≡ acked
      → IsAccepted
  unfolding on_windows
  upload_acks (cache, none) a h = absurd (silent_ne h)
  upload_acks (cache, some false) a h = absurd (err_ne h)
  upload_acks (cache, some true) a h =
      elim (Bool-cases (ltb max_windows_payload (length payload))) [
        | inl e ↦ absurd (err_ne (rw e at h))
        | inr e ↦
            windows_ack cache (ap (λ r. r.1) a) (ground (arith, e)) (wire.decode_windows payload)
              refl (rw e at h)
      ]

-- An upload of windows that is acknowledged came from an active user, within the size, of the right
-- schema and a well-formed provider, and passed the limiter; no item of it was deferred by the
-- sanitizing or skipped by the store, the rest are stored under the session's user, merged, and the
-- timestamp is that of the newest of them.
pub upload-IsAccepted :
    (F : Fjall) (codec : Bincode PersistedEvent) (window_codec : Bincode WireWindow)
    (sorting : UnstableSort) (wire : Wire) (jwt : JwtManager) (retention : ℕ)
    (s s' : Server F codec window_codec sorting wire jwt retention) (session : Session) (m : Moment)
    (payload : Str) (ts : ℤ) (n : Next)
    → handle_frame F codec window_codec sorting wire jwt retention s session sync_windows payload m
      ≡ (s', (sync_ack ts ∷ [], n))
    → IsAccepted F codec window_codec sorting wire jwt retention s s' session m payload ts n
unfolding handle_frame
upload-IsAccepted F codec window_codec sorting wire jwt retention s s' session m payload ts n h =
    upload_acks F codec window_codec sorting wire jwt retention s s' session m payload ts n
      (active_now F codec window_codec sorting wire jwt retention s session m) refl h
