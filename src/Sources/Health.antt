-- ===== src/Sources/Health.antt =====
-- business/domain/sourcebus/health.go. The error rate is an exact fraction in place of a `float64`.
use logingestor.Prelude.{
  ℕ, ◌*◌, Bool, true, false, not, ◌&&◌, Option, none, some, leb, ◌==◌, if◌then◌else◌,
}
use logingestor.Prelude.Clock.{Time}
use logingestor.Sources.Model.{Source, expired}

pub data HealthStatus : Type 0 where
  disconnected expired_key never_connected silent degraded healthy : HealthStatus

pub record HealthCounters : Type 0 where
  pub events : ℕ
  pub errors : ℕ
  pub dropped : ℕ

abbrev pub degraded_min_events : ℕ
degraded_min_events = 20

-- `ErrorRate() >= DegradedErrorRate`, for a rate of a tenth.
unfoldable pub is_error_prone : HealthCounters → Bool
is_error_prone c = leb c.events (c.errors * 10)

abbrev is_none : Option Time → Bool
is_none none = true
is_none (some t) = false

unfoldable pub health_status : Source → Time → HealthCounters → HealthStatus
health_status s now c =
    if not s.is_active
    then disconnected
    else if expired s now
    then expired_key
    else if is_none s.last_seen_at
    then never_connected
    else if c.events == 0
    then silent
    else if leb degraded_min_events c.events && is_error_prone c
    then degraded
    else healthy
