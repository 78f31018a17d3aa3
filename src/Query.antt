-- ===== src/Query.antt =====
-- The remote query endpoint of src/server/handlers/metrics.rs.
pub mod Numbers
pub mod Duration
pub mod Parts
pub mod Cursor
pub mod Parse
pub mod Total
pub mod Stages
pub mod Bare
pub mod Accepted
pub mod Printed
pub mod Scope
pub mod Bounds
pub mod Times
pub mod Buckets
pub mod Aggregate
pub mod Totals
pub mod Endpoint
pub mod Answered
use toki_sync.Prelude.{Str}

-- A request that is refused, by the handler's status.
pub data QueryError : Type 0 where
  bad_request : QueryError
  forbidden : QueryError
  internal : QueryError
