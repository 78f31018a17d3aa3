-- ===== src/Query/Printed/Whole.antt =====
-- A query that is written out for src/server/handlers/metrics.rs is read back.
