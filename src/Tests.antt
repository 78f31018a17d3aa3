-- ===== src/Tests.antt =====
-- The theorems at concrete inputs, and the concrete keyspaces and codecs that they run on.
mod Codec
mod Sorting
mod Windows
mod Limits
mod Db
mod Auth
mod Grant
mod Events
mod Query
mod Sync
