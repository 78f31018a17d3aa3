-- ===== src/Db.antt =====
-- The metadata database, src/db/sqlite.rs: each table is the list of its rows, each method is its SQL
-- statements on that list, inside one transaction. The PostgreSQL repository runs the same statements.
pub mod Settings
pub mod Tokens
pub mod Cursors
pub mod Devices
pub mod DeviceCodes
