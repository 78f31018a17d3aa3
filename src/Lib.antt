-- ===== src/Lib.antt =====
-- The server of toki-sync: devices upload token usage and rate-limit windows over a sync connection,
-- and clients sign in and query over HTTP. This library models the server's own logic.
--
-- Parts and files:
-- * Windows models rate-limit windows. Windows/Merge is `merge_wire_windows` of src/events/mod.rs,
--   which every store calls; Windows/Sanitize and Windows/Premerge are `sanitize_window_batch` and
--   `premerge_windows` of src/sync/handler.rs, through which each upload goes first. The unstable sort
--   of the premerge is any function that returns a sorted permutation.
-- * Limits models the limiters, which keep tables in memory: Limits/BruteForce is `BruteForceGuard` of
--   src/auth/brute_force.rs, Limits/WindowsRate is `WindowsRateLimiterInner` of src/sync/handler.rs,
--   Limits/MonitorRate is `MonitorWriteRateLimiterInner` of src/server/handlers/monitor.rs. A method is
--   a function from the table and its clock readings to the table and the answer.
-- * Db models tables of src/db/sqlite.rs as lists of rows: Db/Settings the monitor settings with their
--   versions and quotas, Db/Tokens the refresh tokens, Db/Cursors how far a device has synchronised,
--   Db/Devices the devices, Db/DeviceCodes the codes of the device grant. A transaction is one function.
-- * Auth models signing in: Auth/Jwt is `JwtManager` of src/auth/jwt.rs, Auth/Login and Auth/Refresh
--   are `login` and `token_refresh` of src/server/handlers/auth.rs, on a state (Auth/State) that holds
--   the guard and the tables. Auth/Device is the device grant of that file: `device_code_request`,
--   `device_token_poll` and `device_approve`. Auth/OidcState is `OidcStateStore` of src/auth/oidc.rs.
--   Auth/ActiveCache is `ActiveCacheInner` and `is_user_active_cached` of
--   src/server/http.rs; what other tasks do to the cache is a list of steps.
-- * Events models `FjallEventStore` of src/events/fjall_store.rs: Events/Store its keys, values and
--   batches, Events/Upsert the writes, Events/Query the scans, Events/Delete the clean-up of pointers
--   and the deletion of a device, Events/Rows the keyspace of windows.
-- * Sync models src/sync/handler.rs: Sync/Batch is `handle_sync_batch`, which drives the event store and
--   the cursors; Sync/Connection is `handle_connection`, a handshake and then one turn for each frame, a
--   function from the server's state to the state, the replies and whether the loop goes on. It drives
--   the batches, the windows with their limiter, the devices and the active cache. Sync/Frames is
--   src/sync/protocol.rs. What the protocol crate, bincode, zstd and uuid read is a parameter.
-- * Query models `toki_query` of src/server/handlers/metrics.rs: Query/Numbers, Query/Duration and
--   Query/Times read its parameters, Query/Cursor and Query/Parse its query language (the position of
--   the cursor is the text that is left), Query/Scope resolves whose events it may read, Query/Buckets
--   and Query/Aggregate accumulate them, and Query/Endpoint composes these. The calendar and the time
--   zones are parameters, and so is `f64` addition.
-- * Prelude holds what the parts share; Tests holds the theorems at concrete inputs and, for these, a
--   keyspace in memory and codecs.
--
-- Conventions. Strings are lists of UTF-8 bytes. An `i64` is an integer, an unsigned number is natural,
-- and wrap-around is written out where the code can reach it. Durations are nanoseconds. A random id
-- and a clock reading are arguments. Hash maps are association lists. The crates fjall, bincode,
-- jsonwebtoken and bcrypt are parameters: records of operations with the behaviour that the code
-- relies on.
--
-- Bounds. The loops of the query parser take a turn for each byte that is left and one more, and the
-- chunked read of a frame one for each byte of its payload and one more; each turn takes a byte at
-- least, so these are enough. The clean-up of windows takes the number of its passes, and says so by `none` where they
-- do not suffice.
--
-- Not modelled: errors of the disk and of the database connection, the log, time-outs, the JSON of the
-- answers, the rows of a raw listing of events, registration, OIDC but for its states, the ClickHouse store,
-- the other HTTP handlers, configuration and start-up. src/db/postgres.rs repeats the SQL of
-- src/db/sqlite.rs.
pub mod Prelude
pub mod Windows
pub mod Limits
pub mod Db
pub mod Auth
pub mod Events
pub mod Sync
pub mod Query
pub mod Tests
