-- ===== src/Retention/Model.antt =====
-- business/sdk/retention/retention.go: the configuration, the result of a run, the rows that retention
-- reads and deletes, and what it takes from outside. A column that retention does not read is left out
-- of the rows of logs, audit, counters and rejects; client errors have the rows of their own component.
use logingestor.Prelude.{
  ℕ, zero, suc, ◌+◌, ◌-◌, ◌*◌, ◌%◌, Bool, true, false, Option, List, if◌then◌else◌,
}
use logingestor.Prelude.Int.{ℤ, pos, negsuc, ◌*ℤ◌, leb_ℤ, ltb_ℤ, wrap64}
use logingestor.Prelude.Text.{Text}
use logingestor.Prelude.Clock.{Time, Duration, day, hour, minute}
use logingestor.Alerting.Model.{Uuid}
use logingestor.ClientErrors.Model.{Issue}
use logingestor.ClientErrors.World.{Row, Facet, Artifact}

-- `sourceTypeApp` and `sourceTypeInfra`
pub data SourceType : Type 0 where
  app infra : SourceType

abbrev pub same_type : SourceType → SourceType → Bool
same_type app app = true
same_type infra infra = true
same_type _ _ = false

abbrev pub keep_forever : ℤ
keep_forever = negsuc 0

abbrev pub default_source_stats_days : ℤ
default_source_stats_days = pos 14

abbrev pub default_client_error_event_days : ℤ
default_client_error_event_days = pos 30

abbrev pub default_client_error_issue_days : ℤ
default_client_error_issue_days = pos 180

abbrev pub map_grace_period : ℕ
map_grace_period = 7 * day

abbrev pub default_reject_days : ℤ
default_reject_days = pos 7

pub record Config : Type 0 where
  pub audit_days : ℤ
  pub batch_size : ℤ
  pub max_rows : ℤ
  pub max_runtime : Duration
  pub source_stats_days : ℤ
  pub reject_days : ℤ
  pub client_error_event_days : ℤ
  pub client_error_issue_days : ℤ

abbrev pub default_config : Config
default_config = record {
  audit_days = keep_forever;
  batch_size = pos 10_000;
  max_rows = pos 2_000_000;
  max_runtime = pos (10 * minute);
  source_stats_days = default_source_stats_days;
  reject_days = pos 0;
  client_error_event_days = pos 0;
  client_error_issue_days = pos 0;
}

abbrev zero_or : ℤ → ℤ → ℤ
zero_or default (pos zero) = default
zero_or default (pos (suc n)) = pos (suc n)
zero_or default (negsuc n) = negsuc n

-- `withDefaults`
unfoldable pub config_defaults : Config → Config
config_defaults c = record c {
  batch_size = (if leb_ℤ c.batch_size (pos 0) then pos 10_000 else c.batch_size);
  source_stats_days = zero_or default_source_stats_days c.source_stats_days;
  reject_days = zero_or default_reject_days c.reject_days;
  client_error_event_days = zero_or default_client_error_event_days c.client_error_event_days;
  client_error_issue_days = zero_or default_client_error_issue_days c.client_error_issue_days;
}

pub record RunResult : Type 0 where
  pub infra_deleted : ℕ
  pub app_deleted : ℕ
  pub audit_deleted : ℕ
  pub rejects_deleted : ℕ
  pub source_stats_deleted : ℕ
  pub client_error_events_deleted : ℕ
  pub client_error_issues_deleted : ℕ
  pub incomplete : Bool

abbrev pub total : RunResult → ℕ
total r = r.infra_deleted + r.app_deleted + r.audit_deleted

unfoldable pub expires : ℤ → Bool
expires days = ltb_ℤ keep_forever days

-- `time.Now().UTC().Add(-time.Duration(days) * 24 * time.Hour)`: the product is an `int64`.
abbrev pub add_duration : Time → Duration → Time
add_duration t (pos n) = t + n
add_duration t (negsuc n) = t - suc n

abbrev pub negated : ℤ → ℤ
negated days = negsuc 0 *ℤ days

unfoldable pub cutoff_of : Time → ℤ → Time
cutoff_of now days = add_duration now (wrap64 (negated days *ℤ pos day))

-- `boundaryHour`: the start and the end of the hour, in UTC.
unfoldable pub boundary_hour : Time → Time × Time
boundary_hour t = (t - t % hour, t - t % hour + hour)

pub record LogRow : Type 0 where
  pub id : Uuid
  pub project_id : Uuid
  pub source_type : SourceType
  pub source : Text
  pub level : Text
  pub ts : Time

-- A row of log_stats_hourly, but for its count its primary key.
pub record StatKey : Type 0 where
  pub project_id : Uuid
  pub hour_start : Time
  pub source_type : SourceType
  pub source : Text
  pub level : Text

pub record AuditRow : Type 0 where
  pub id : Uuid
  pub timestamp : Time

pub record Project : Type 0 where
  pub id : Uuid
  pub org_id : Uuid
  pub retention_days : Option ℤ

pub record Subscription : Type 0 where
  pub org_id : Uuid
  pub plan_id : Option Uuid

pub record Plan : Type 0 where
  pub id : Uuid
  pub log_retention_days : Option ℤ
  pub infra_retention_days : Option ℤ

pub record Target : Type 0 where
  pub project_id : Uuid
  pub app_days : ℤ
  pub infra_days : ℤ

-- `statements` counts the statements that were sent, which orders the readings of the clock.
pub record Tables : Type 0 where
  pub statements : ℕ
  pub projects : List Project
  pub subscriptions : List Subscription
  pub plans : List Plan
  pub logs : List LogRow
  pub stats : List (StatKey × ℕ)
  pub audit : List AuditRow
  pub source_stats : List Time
  pub rejects : List Time
  pub events : List Row
  pub issues : List Issue
  pub facets : List Facet
  pub artifacts : List Artifact

pub data RetentionCall : Type 0 where
  status_check select_targets delete_logs oldest_row begin_tx drop_hours rebuild_hour :
      RetentionCall
  commit_tx delete_audit delete_source_stats delete_events delete_issues : RetentionCall
  drop_maps delete_rejects : RetentionCall

pub data RetentionError : Type 0 where
  statement_failed : RetentionCall → RetentionError
  out_of_fuel : RetentionError

-- Outside the repository: after so many statements, which statement fails, what the clock says and
-- whether the context was cancelled. The driver never fails to tell the number of affected rows.
pub record RetentionEnv : Type 0 where
  pub fails : ℕ → RetentionCall → Bool
  pub now : ℕ → Time
  pub cancelled : ℕ → Bool
