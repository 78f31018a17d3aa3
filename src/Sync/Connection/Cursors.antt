-- ===== src/Sync/Connection/Cursors.antt =====
-- The cursors over a connection of src/sync/handler.rs: the loop moves those of its own device, and never
-- back.
use toki_sync.Prelude.{
  ℕ, ◌≡◌, refl, sym, ap, subst, ◌∙◌, Bool, true, false, not, ◌==◌, ◌&&◌, Option, none, some, List,
  [], ◌∷◌, Str, str_eq, str_eq_iff, arith, ltb, length, ℤ, pos, ◌≤ℤ◌, Result, ok, err, Bool-cases,
  Option-cases, inl, inr, HashMap,
}
use toki_sync.Windows.{WireWindow}
use toki_sync.Windows.Premerge.{UnstableSort}
use toki_sync.Limits.WindowsRate.{allow}
use toki_sync.Db.Cursors.{
  Cursor, find_cursor, present, ensure_cursor, or_zero, get_last_ts, advance_cursor, raised,
  find_cursor-advance_cursor,
}
use toki_sync.Auth.Jwt.{JwtManager}
use toki_sync.Auth.ActiveCache.{ActiveCache}
use toki_sync.Events.Store.{Fjall, Bincode, PersistedEvent}
use toki_sync.Sync.{SyncItem, SyncBatchPayload}
use toki_sync.Sync.Batch.{
  SyncState, SyncError, by_items, apply_batch, handle_sync_batch, max_batch_size, max_ts,
}
use toki_sync.Sync.Connection.{
  MsgType, auth, get_last_ts_msg, sync_batch, sync_batch_zstd, sync_windows, ping, other, Wire,
  Session, Moment, Server, Turn, if_active, batch_reply, with_batch, decoded_batch, raw_batch,
  on_batch, on_windows, with_windows, if_allowed, on_get_last_ts, handle_frame, Frame, go_on, stop,
  broken, main_loop, SyncWindowsPayload, provider_ok, max_windows_payload, then_frames, Reply, Next,
}

module _ (F : Fjall) (codec : Bincode PersistedEvent) (window_codec : Bincode WireWindow)
    (sorting : UnstableSort) (wire : Wire) (jwt : JwtManager) (retention : ℕ) (session : Session)
    (P : List Cursor → Type 0)
    (ensured : (cs : List Cursor) (p : Str) (now : ℕ)
      → P cs
      → P (ensure_cursor cs session.device_id p now))
    (advanced : (cs : List Cursor) (p : Str) (ts : ℤ) (now : ℕ)
      → P cs
      → P (advance_cursor cs session.device_id p ts now)) where
  abbrev Good : Server F codec window_codec sorting wire jwt retention → Type 0
  Good s = P s.sync.cursors

  items-Good :
      (s : SyncState F codec) (batch : SyncBatchPayload) (user p : Str) (now : ℕ)
      (items : List SyncItem)
      → P s.cursors
      → P (by_items F codec s batch user session.device_id p retention now items).0.cursors
  unfolding apply_batch
  items-Good s batch user p now [] h = h
  items-Good s batch user p now (i ∷ is) h =
      elim (Bool-cases (ltb max_batch_size (length (i ∷ is)))) [
        | inl e ↦ rw e h
        | inr e ↦ rw e (advanced s.cursors p (max_ts (i ∷ is)) now h)
      ]

  reply-Good :
      (s : Server F codec window_codec sorting wire jwt retention)
      (r : SyncState F codec × Result ℤ SyncError)
      → P r.0.cursors
      → Good (batch_reply F codec window_codec sorting wire jwt retention s r).0
  reply-Good s (sync, ok ts) h = h
  reply-Good s (sync, err e) h = h

  batch-Good :
      (m : Moment) (o : Option SyncBatchPayload)
      (s : Server F codec window_codec sorting wire jwt retention)
      → Good s
      → Good (with_batch F codec window_codec sorting wire jwt retention session m o s).0
  unfolding handle_sync_batch
  batch-Good m none s h = h
  batch-Good m (some batch) s h =
      let start : SyncState F codec = record {
        store = s.sync.store;
        cursors = ensure_cursor s.sync.cursors session.device_id batch.provider m.wall_secs;
      } in
      reply-Good s
        (by_items F codec start batch session.user_id session.device_id batch.provider retention
          m.wall_secs batch.items)
        (items-Good start batch session.user_id batch.provider m.wall_secs batch.items
          (ensured s.sync.cursors batch.provider m.wall_secs h))

  allowed-Good :
      (win : SyncWindowsPayload) (m : Moment)
      (s : Server F codec window_codec sorting wire jwt retention) (r : HashMap ℕ × Bool)
      → Good s
      → Good (if_allowed F codec window_codec sorting wire jwt retention session win m s r).0
  allowed-Good win m s (limiter, false) h = h
  allowed-Good win m s (limiter, true) h = h

  windows-Good :
      (m : Moment) (s : Server F codec window_codec sorting wire jwt retention)
      (o : Option SyncWindowsPayload)
      → Good s
      → Good (with_windows F codec window_codec sorting wire jwt retention session m s o).0
  windows-Good m s none h = h
  windows-Good m s (some win) h =
      elim (Bool-cases (not (win.windows_schema == wire.windows_schema_version))) [
        | inl e ↦ rw e h
        | inr e ↦ elim (Bool-cases (not (provider_ok win.provider))) [
          | inl f ↦ rw (e, f) h
          | inr f ↦
              rw (e, f)
                (allowed-Good win m s
                  (allow s.limiter session.user_id win.provider session.device_id m.clock) h)
        ]
      ]

  upload-Good :
      (payload : Str) (m : Moment) (s : Server F codec window_codec sorting wire jwt retention)
      → Good s
      → Good (on_windows F codec window_codec sorting wire jwt retention session payload m s).0
  unfolding on_windows
  upload-Good payload m s h = elim (Bool-cases (ltb max_windows_payload (length payload))) [
    | inl e ↦ rw e h
    | inr e ↦ rw e (windows-Good m s (wire.decode_windows payload) h)
  ]

  active-Good :
      (s : Server F codec window_codec sorting wire jwt retention) (r : ActiveCache × Option Bool)
      (f : Server F codec window_codec sorting wire jwt retention
        → Turn F codec window_codec sorting wire jwt retention)
      → ((t : Server F codec window_codec sorting wire jwt retention) → Good t → Good (f t).0)
      → Good s
      → Good (if_active F codec window_codec sorting wire jwt retention s r f).0
  active-Good s (cache, none) f k h = h
  active-Good s (cache, some false) f k h = h
  active-Good s (cache, some true) f k h = k (record s { cache = cache }) h

  asked-Good :
      (s : Server F codec window_codec sorting wire jwt retention) (o : Option Str)
      → Good s
      → Good (on_get_last_ts F codec window_codec sorting wire jwt retention session s o).0
  asked-Good s none h = h
  asked-Good s (some p) h = h

  frame-Good :
      (s : Server F codec window_codec sorting wire jwt retention) (t : MsgType) (payload : Str)
      (m : Moment)
      → Good s
      → Good (handle_frame F codec window_codec sorting wire jwt retention s session t payload m).0
  unfolding handle_frame on_batch
  frame-Good s get_last_ts_msg payload m h = asked-Good s (wire.decode_get_last_ts payload) h
  frame-Good s sync_batch payload m h =
      active-Good s _ _
        (batch-Good m (
          decoded_batch F codec window_codec sorting wire jwt retention
            (raw_batch F codec window_codec sorting wire jwt retention sync_batch payload)))
        h
  frame-Good s sync_batch_zstd payload m h =
      active-Good s _ _
        (batch-Good m (
          decoded_batch F codec window_codec sorting wire jwt retention
            (raw_batch F codec window_codec sorting wire jwt retention sync_batch_zstd payload)))
        h
  frame-Good s sync_windows payload m h = active-Good s _ _ (upload-Good payload m) h
  frame-Good s ping payload m h = h
  frame-Good s auth payload m h = h
  frame-Good s (other n) payload m h = h

  then-Good :
      (r : List Reply × Next)
      (rest : Server F codec window_codec sorting wire jwt retention × List Reply)
      (s : Server F codec window_codec sorting wire jwt retention)
      → Good rest.0
      → Good s
      → Good (then_frames F codec window_codec sorting wire jwt retention r rest s).0
  then-Good (replies, go_on) rest s h k = h
  then-Good (replies, stop) rest s h k = k
  then-Good (replies, broken) rest s h k = k

  -- What each step on the cursors of the session's device keeps, the loop keeps.
  pub main_loop_keeps :
      (s : Server F codec window_codec sorting wire jwt retention) (fs : List Frame)
      → P s.sync.cursors
      → P (main_loop F codec window_codec sorting wire jwt retention s session fs).0.sync.cursors
  unfolding main_loop
  main_loop_keeps s [] h = h
  main_loop_keeps s (f ∷ fs) h =
      let turn =
        handle_frame F codec window_codec sorting wire jwt retention s session f.msg_type f.payload
          f.moment in
      let k = frame-Good s f.msg_type f.payload f.moment h in
      then-Good turn.1 (main_loop F codec window_codec sorting wire jwt retention turn.0 session fs)
        turn.0 (main_loop_keeps turn.0 fs k) k

none_found :
    (cs : List Cursor) (d p : Str)
    → present (find_cursor cs d p) ≡ false
    → or_zero (find_cursor cs d p) ≡ pos 0
none_found cs d p h = elim (Option-cases (find_cursor cs d p)) [
  | inl e ↦ rw e refl
  | inr (t, e) ↦ absurd (ground arith)
]

-- A cursor that is made says nothing new.
ensured_same :
    (cs : List Cursor) (d p d' p' : Str) (now : ℕ)
    → get_last_ts (ensure_cursor cs d p now) d' p' ≡ get_last_ts cs d' p'
unfolding get_last_ts ensure_cursor find_cursor
ensured_same cs d p d' p' now = elim (Bool-cases (present (find_cursor cs d p))) [
  | inl e ↦ rw e refl
  | inr e ↦ elim (Bool-cases (str_eq d d' && str_eq p p')) [
    | inr q ↦ rw (e, q) refl
    | inl q ↦
        let dd : d ≡ d' = (str_eq_iff d d').0 (ground arith) in
        let pp : p ≡ p' = (str_eq_iff p p').0 (ground arith) in
        rw (e, q)
          (sym (none_found cs d p e)
            ∙ ap (λ x. or_zero (find_cursor cs x p)) dd
            ∙ ap (λ x. or_zero (find_cursor cs d' x)) pp)
  ]
]

advanced_other :
    (cs : List Cursor) (d p d' p' : Str) (ts : ℤ) (now : ℕ)
    → str_eq d d' ≡ false
    → get_last_ts (advance_cursor cs d p ts now) d' p' ≡ get_last_ts cs d' p'
unfolding get_last_ts
advanced_other cs d p d' p' ts now h = rw (find_cursor-advance_cursor cs d p d' p' ts now, h) refl

raised_later : (o : Option ℤ) (ts : ℤ) → or_zero o ≤ℤ or_zero (raised ts o)
raised_later none ts = ground arith
raised_later (some t) ts = ground arith

advanced_later :
    (cs : List Cursor) (d p d' p' : Str) (ts : ℤ) (now : ℕ)
    → get_last_ts cs d' p' ≤ℤ get_last_ts (advance_cursor cs d p ts now) d' p'
unfolding get_last_ts
advanced_later cs d p d' p' ts now = elim (Bool-cases (str_eq d d' && str_eq p p')) [
  | inl q ↦
      rw (find_cursor-advance_cursor cs d p d' p' ts now, q)
        (raised_later (find_cursor cs d' p') ts)
  | inr q ↦ rw (find_cursor-advance_cursor cs d p d' p' ts now, q) (ground arith)
]

later_trans : (a b c : ℤ) → a ≤ℤ b → b ≤ℤ c → a ≤ℤ c
later_trans a b c h k = ground arith

-- Whatever frames come, the loop moves no cursor of another device, and takes no cursor back.
pub main_loop_cursors :
    (F : Fjall) (codec : Bincode PersistedEvent) (window_codec : Bincode WireWindow)
    (sorting : UnstableSort) (wire : Wire) (jwt : JwtManager) (retention : ℕ)
    (s s' : Server F codec window_codec sorting wire jwt retention) (session : Session)
    (fs : List Frame) (replies : List Reply) (d p : Str)
    → main_loop F codec window_codec sorting wire jwt retention s session fs ≡ (s', replies)
    → (str_eq session.device_id d ≡ false
        → get_last_ts s'.sync.cursors d p ≡ get_last_ts s.sync.cursors d p)
      × (get_last_ts s.sync.cursors d p ≤ℤ get_last_ts s'.sync.cursors d p)
main_loop_cursors F codec window_codec sorting wire jwt retention s s' session fs replies d p h = (
  λ apart.
      subst (λ r. get_last_ts r.0.sync.cursors d p ≡ get_last_ts s.sync.cursors d p) h
        (main_loop_keeps F codec window_codec sorting wire jwt retention session
          (λ cs. get_last_ts cs d p ≡ get_last_ts s.sync.cursors d p)
          (λ cs q now k. ensured_same cs session.device_id q d p now ∙ k)
          (λ cs q ts now k. advanced_other cs session.device_id q d p ts now apart ∙ k) s fs refl),
  subst (λ r. get_last_ts s.sync.cursors d p ≤ℤ get_last_ts r.0.sync.cursors d p) h
      (main_loop_keeps F codec window_codec sorting wire jwt retention session
        (λ cs. get_last_ts s.sync.cursors d p ≤ℤ get_last_ts cs d p)
        (λ cs q now k.
          subst (λ x. get_last_ts s.sync.cursors d p ≤ℤ x)
            (sym (ensured_same cs session.device_id q d p now)) k)
        (λ cs q ts now k.
          later_trans (get_last_ts s.sync.cursors d p) (get_last_ts cs d p) _ k
            (advanced_later cs session.device_id q d p ts now))
        s fs (ground arith)),
)
