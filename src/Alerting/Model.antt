-- ===== src/Alerting/Model.antt =====
-- The records of alerting: business/domain/integrationbus/model.go and suppress.go. An identifier (a
-- UUID) is a number; `none` is a nil pointer.
use logingestor.Prelude.{List, ℕ, Bool, Option}
use logingestor.Prelude.Int.{ℤ}
use logingestor.Prelude.Text.{Text}
use logingestor.Prelude.Clock.{Time}
use logingestor.Alerting.Condition.{Condition}

abbrev pub Uuid : Type 0
Uuid = ℕ

-- The column `state` has a CHECK constraint on these three.
pub data AlertState : Type 0 where
  firing acknowledged resolved : AlertState

pub data SuppressReason : Type 0 where
  deliver dedup snoozed maintenance owned inactive : SuppressReason

pub record MaintenanceWindow : Type 0 where
  pub id : Uuid
  pub org_id : Uuid
  pub project_id : Option Uuid
  pub reason : Text
  pub starts_at : Time
  pub ends_at : Time
  pub created_by : Option Uuid
  pub date_created : Time

pub record AlertEvent : Type 0 where
  pub id : Uuid
  pub rule_id : Uuid
  pub org_id : Uuid
  pub project_id : Uuid
  pub dedup_key : Text
  pub state : AlertState
  pub summary : Text
  pub level : Text
  pub match_count : ℕ
  pub sample_log_id : Option Uuid
  pub first_seen_at : Time
  pub last_seen_at : Time
  pub last_notified_at : Option Time
  pub resolved_at : Option Time
  pub acknowledged_at : Option Time
  pub acknowledged_by : Option Uuid

pub record AlertPayload : Type 0 where
  pub project_name : Text
  pub level : Text
  pub message : Text
  pub source : Text
  pub log_id : Text
  pub timestamp : Time

pub record Credential : Type 0 where
  pub key : Text
  pub value : Text

pub record Integration : Type 0 where
  pub id : Uuid
  pub org_id : Uuid
  pub project_id : Uuid
  pub provider_id : Text
  pub name : Text
  pub credentials : List Credential
  pub enabled : Bool
  pub date_created : Time
  pub date_updated : Time

pub record AlertRule : Type 0 where
  pub id : Uuid
  pub org_id : Uuid
  pub project_id : Uuid
  pub connection_id : Uuid
  pub user_id : Option Uuid
  pub name : Text
  pub level : Text
  pub condition : Condition
  pub dedup_window_seconds : ℤ
  pub snooze_until : Option Time
  pub is_active : Bool
  pub created_at : Time
  pub updated_at : Time
