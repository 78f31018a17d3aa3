-- ===== src/Sync/Connection/Deactivation.antt =====
-- A user whom the database does not call active, on a connection of src/sync/handler.rs.
use toki_sync.Prelude.{
  ℕ, ◌≡◌, refl, Bool, true, false, Option, none, some, List, [], ◌∷◌, Str, All, All-append, arith,
}
use toki_sync.Windows.{WireWindow}
use toki_sync.Windows.Premerge.{UnstableSort}
use toki_sync.Auth.Jwt.{JwtManager}
use toki_sync.Auth.ActiveCache.{ActiveCache, get_fresh, is_user_active_cached, fresh_or_read}
use toki_sync.Events.Store.{Fjall, Bincode, PersistedEvent}
use toki_sync.Sync.Connection.{
  MsgType, auth, get_last_ts_msg, sync_batch, sync_batch_zstd, sync_windows, ping, other, Wire,
  Session, Moment, Server, Turn, Reply, sync_ack, Frame, go_on, stop, broken, if_active, active_now,
  on_batch, on_windows, on_get_last_ts, handle_frame, main_loop, then_frames,
}

abbrev pub says_active : Option Bool → Bool
says_active none = false
says_active (some active) = active

-- What the database says: `none` when it fails, and no row for a deleted user.
abbrev pub called_active : Option (Option Bool) → Bool
called_active none = false
called_active (some user) = says_active user

-- The answer to a frame is no acknowledgement.
abbrev pub is_ack : Reply → Bool
is_ack (sync_ack ts) = true
is_ack _ = false

-- The database does not call the user active when the frame comes, and the cache holds no fresh word that
-- it is.
pub record IsBarred (cache : ActiveCache) (user_id : Str) (f : Frame) : Type 0 where
  pub in_database : called_active f.moment.user ≡ false
  pub in_cache : says_active (get_fresh cache user_id f.moment.clock) ≡ false

read_inactive :
    (c : ActiveCache) (user_id : Str) (now : ℕ) (user : Option (Option Bool)) (fresh : Option Bool)
    → called_active user ≡ false
    → says_active fresh ≡ false
    → says_active (fresh_or_read c user_id now user fresh).1 ≡ false
read_inactive c user_id now user (some active) h k = k
read_inactive c user_id now none none h k = refl
read_inactive c user_id now (some none) none h k = refl
read_inactive c user_id now (some (some active)) none h k = h

answered_inactive :
    (c : ActiveCache) (user_id : Str) (now : ℕ) (user : Option (Option Bool))
    → called_active user ≡ false
    → says_active (get_fresh c user_id now) ≡ false
    → says_active (is_user_active_cached c user_id now user).1 ≡ false
unfolding is_user_active_cached
answered_inactive c user_id now user h k =
    read_inactive c user_id now user (get_fresh c user_id now) h k

module _ (F : Fjall) (codec : Bincode PersistedEvent) (window_codec : Bincode WireWindow)
    (sorting : UnstableSort) (wire : Wire) (jwt : JwtManager) (retention : ℕ) where
  -- Nothing was written: the events with their cursors, the windows with their limiter, the devices.
  pub record Untouched (s s' : Server F codec window_codec sorting wire jwt retention)
      : Type 0 where
    pub sync : s'.sync ≡ s.sync
    pub windows : s'.windows ≡ s.windows
    pub limiter : s'.limiter ≡ s.limiter
    pub devices : s'.devices ≡ s.devices

  same : (s : Server F codec window_codec sorting wire jwt retention) → Untouched s s
  same s = record { sync = refl; windows = refl; limiter = refl; devices = refl }

  -- A turn writes nothing and acknowledges nothing. If the loop goes on, then the server is as it was.
  GoesOn :
      (s : Server F codec window_codec sorting wire jwt retention)
      → Turn F codec window_codec sorting wire jwt retention
      → Type 0
  GoesOn s (s', (replies, go_on)) = s' ≡ s
  GoesOn s (s', (replies, stop)) = Unit
  GoesOn s (s', (replies, broken)) = Unit

  record IsIdle (s : Server F codec window_codec sorting wire jwt retention)
      (turn : Turn F codec window_codec sorting wire jwt retention) : Type 0 where
    untouched : Untouched s turn.0
    silent : All (λ r. is_ack r ≡ false) turn.1.0
    goes_on : GoesOn s turn

  refused-IsIdle :
      (s : Server F codec window_codec sorting wire jwt retention) (r : ActiveCache × Option Bool)
      (f : Server F codec window_codec sorting wire jwt retention
        → Turn F codec window_codec sorting wire jwt retention)
      → says_active r.1 ≡ false
      → IsIdle s (if_active F codec window_codec sorting wire jwt retention s r f)
  unfolding GoesOn
  refused-IsIdle s (cache, none) f h = record {
    untouched = record { sync = refl; windows = refl; limiter = refl; devices = refl };
    silent = tt;
    goes_on = tt;
  }
  refused-IsIdle s (cache, some false) f h = record {
    untouched = record { sync = refl; windows = refl; limiter = refl; devices = refl };
    silent = (refl, tt);
    goes_on = tt;
  }
  refused-IsIdle s (cache, some true) f h = absurd (ground arith)

  module _ (session : Session) where
    asked-IsIdle :
        (s : Server F codec window_codec sorting wire jwt retention) (o : Option Str)
        → IsIdle s (on_get_last_ts F codec window_codec sorting wire jwt retention session s o)
    unfolding GoesOn
    asked-IsIdle s none = record { untouched = same s; silent = tt; goes_on = tt }
    asked-IsIdle s (some p) = record { untouched = same s; silent = (refl, tt); goes_on = refl }

    frame-IsIdle :
        (s : Server F codec window_codec sorting wire jwt retention) (t : MsgType) (payload : Str)
        (m : Moment)
        → says_active (active_now F codec window_codec sorting wire jwt retention s session m).1
          ≡ false
        → IsIdle s
            (handle_frame F codec window_codec sorting wire jwt retention s session t payload m)
    unfolding handle_frame GoesOn
    frame-IsIdle s get_last_ts_msg payload m h = asked-IsIdle s (wire.decode_get_last_ts payload)
    frame-IsIdle s sync_batch payload m h =
        refused-IsIdle s (active_now F codec window_codec sorting wire jwt retention s session m)
          (on_batch F codec window_codec sorting wire jwt retention session sync_batch payload m) h
    frame-IsIdle s sync_batch_zstd payload m h =
        refused-IsIdle s (active_now F codec window_codec sorting wire jwt retention s session m)
          (on_batch F codec window_codec sorting wire jwt retention session sync_batch_zstd payload
            m)
          h
    frame-IsIdle s sync_windows payload m h =
        refused-IsIdle s (active_now F codec window_codec sorting wire jwt retention s session m)
          (on_windows F codec window_codec sorting wire jwt retention session payload m) h
    frame-IsIdle s ping payload m h = record {
      untouched = same s;
      silent = (refl, tt);
      goes_on = refl;
    }
    frame-IsIdle s auth payload m h = record { untouched = same s; silent = tt; goes_on = refl }
    frame-IsIdle s (other n) payload m h = record {
      untouched = same s;
      silent = tt;
      goes_on = refl;
    }

  -- What a whole loop leaves.
  pub record WritesNothing (s : Server F codec window_codec sorting wire jwt retention)
      (r : Server F codec window_codec sorting wire jwt retention × List Reply) : Type 0 where
    pub untouched : Untouched s r.0
    pub silent : All (λ r. is_ack r ≡ false) r.1

  then-WritesNothing :
      (s : Server F codec window_codec sorting wire jwt retention)
      (turn : Turn F codec window_codec sorting wire jwt retention)
      (rest : Server F codec window_codec sorting wire jwt retention
        → Server F codec window_codec sorting wire jwt retention × List Reply)
      → IsIdle s turn
      → WritesNothing s (rest s)
      → WritesNothing s
          (then_frames F codec window_codec sorting wire jwt retention turn.1 (rest turn.0) turn.0)
  unfolding GoesOn
  then-WritesNothing s (s', (replies, go_on)) rest i w = rw i.goes_on (record {
    untouched = w.untouched;
    silent = All-append (λ r. is_ack r ≡ false) replies (rest s).1 i.silent w.silent;
  })
  then-WritesNothing s (s', (replies, stop)) rest i w = record {
    untouched = i.untouched;
    silent = i.silent;
  }
  then-WritesNothing s (s', (replies, broken)) rest i w = record {
    untouched = i.untouched;
    silent = i.silent;
  }

-- While the database does not call the session's user active and the cache of active users has no fresh
-- word that it is, a connection writes nothing, whatever frames come: the events, the cursors, the windows,
-- the limiter and the devices stay as they were, and no reply is an acknowledgement.
pub main_loop-WritesNothing :
    (F : Fjall) (codec : Bincode PersistedEvent) (window_codec : Bincode WireWindow)
    (sorting : UnstableSort) (wire : Wire) (jwt : JwtManager) (retention : ℕ)
    (s : Server F codec window_codec sorting wire jwt retention) (session : Session)
    (fs : List Frame)
    → All (IsBarred s.cache session.user_id) fs
    → WritesNothing F codec window_codec sorting wire jwt retention s
        (main_loop F codec window_codec sorting wire jwt retention s session fs)
unfolding main_loop
main_loop-WritesNothing F codec window_codec sorting wire jwt retention s session [] h = record {
  untouched = same F codec window_codec sorting wire jwt retention s;
  silent = tt;
}
main_loop-WritesNothing F codec window_codec sorting wire jwt retention s session (f ∷ fs) h =
    then-WritesNothing F codec window_codec sorting wire jwt retention s
      (handle_frame F codec window_codec sorting wire jwt retention s session f.msg_type f.payload
        f.moment)
      (λ t. main_loop F codec window_codec sorting wire jwt retention t session fs)
      (frame-IsIdle F codec window_codec sorting wire jwt retention session s f.msg_type f.payload
        f.moment
        (answered_inactive s.cache session.user_id f.moment.clock f.moment.user h.0.in_database
          h.0.in_cache))
      (main_loop-WritesNothing F codec window_codec sorting wire jwt retention s session fs h.1)
