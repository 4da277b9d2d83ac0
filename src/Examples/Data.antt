-- ===== src/Examples/Data.antt =====
-- A healthy environment, one whose provider refuses every message, and a small store.
use logingestor.Prelude.{suc, true, false, none, some, [], ◌∷◌, length, ◌*◌}
use logingestor.Prelude.Int.{pos}
use logingestor.Prelude.Text.{codes, ascii}
use logingestor.Prelude.Clock.{Time, hour}
use logingestor.Alerting.Condition.{
  Condition, Query, warn, error, condition_threshold, comparator_gte,
}
use logingestor.Alerting.Model.{
  AlertEvent, firing, AlertPayload, Integration, AlertRule, MaintenanceWindow,
}
use logingestor.Alerting.World.{World, Env}

abbrev pub healthy : Env
healthy = record {
  unicode = ascii;
  fails = λ c. false;
  callers = λ p. some (λ creds m. true);
  parse_uuid = λ t. none;
  fresh = λ es. suc (length es);
  duration_text = λ d. codes "5m0s";
  count_matching = λ project q from to. 0;
}

abbrev pub refusing : Env
refusing = record healthy { callers = λ p. some (λ creds m. false) }

-- The count of every query is five.
abbrev pub busy : Env
busy = record healthy { count_matching = λ project q from to. 5 }

abbrev pub noon : Time
noon = 12 * hour

abbrev pub at_warn : Condition
at_warn = record {
  type = codes "level";
  level = warn;
  query = none;
  window_seconds = pos 0;
  count = pos 0;
  comparator = [];
}

abbrev pub timeouts : Query
timeouts = record { levels = error ∷ []; contains = codes "timeout"; source = [] }

abbrev pub many_timeouts : Condition
many_timeouts = record {
  type = condition_threshold;
  level = [];
  query = some timeouts;
  window_seconds = pos 300;
  count = pos 3;
  comparator = comparator_gte;
}

abbrev pub warn_rule : AlertRule
warn_rule = record {
  id = 7;
  org_id = 1;
  project_id = 2;
  connection_id = 3;
  user_id = none;
  name = codes "warnings";
  level = warn;
  condition = at_warn;
  dedup_window_seconds = pos 600;
  snooze_until = none;
  is_active = true;
  created_at = 0;
  updated_at = 0;
}

abbrev pub timeout_rule : AlertRule
timeout_rule = record warn_rule { id = 8; condition = many_timeouts }

abbrev pub boom : AlertPayload
boom = record {
  project_name = codes "shop";
  level = error;
  message = codes "boom";
  source = codes "api";
  log_id = [];
  timestamp = 0;
}

abbrev pub pager : Integration
pager = record {
  id = 3;
  org_id = 1;
  project_id = 2;
  provider_id = codes "slack";
  name = codes "pager";
  credentials = [];
  enabled = true;
  date_created = 0;
  date_updated = 0;
}

abbrev pub open_alert : AlertEvent
open_alert = record {
  id = 1;
  rule_id = 7;
  org_id = 1;
  project_id = 2;
  dedup_key = error;
  state = firing;
  summary = codes "boom";
  level = error;
  match_count = 1;
  sample_log_id = none;
  first_seen_at = 0;
  last_seen_at = 0;
  last_notified_at = some 0;
  resolved_at = none;
  acknowledged_at = none;
  acknowledged_by = none;
}

abbrev pub quiet_store : World
quiet_store = record {
  rules = warn_rule ∷ timeout_rule ∷ [];
  events = [];
  windows = [];
  integrations = pager ∷ [];
  outbox = [];
  log = [];
}

abbrev pub alerted_store : World
alerted_store = record quiet_store { events = open_alert ∷ [] }

-- The evaluator's alert.
abbrev pub timeout_alert : AlertEvent
timeout_alert = record open_alert { id = 2; rule_id = 8; dedup_key = condition_threshold }

abbrev pub planned : MaintenanceWindow
planned = record {
  id = 1;
  org_id = 1;
  project_id = some 2;
  reason = [];
  starts_at = 10;
  ends_at = 20;
  created_by = none;
  date_created = 0;
}
