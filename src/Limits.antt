-- ===== src/Limits.antt =====
-- Admission: the token bucket of a log source (business/sdk/ingest/limiter.go), the keyed token bucket
-- of the query API (business/sdk/ratelimit/ratelimit.go), and the severity and sampling rules that a
-- record passes on its way in.
pub mod Source
pub mod Keyed
pub mod Severity
