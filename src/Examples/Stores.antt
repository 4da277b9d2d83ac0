-- ===== src/Examples/Stores.antt =====
-- Instances of the theorems on the store: events, rules and connections.
use logingestor.Alerting.Rules.{check_update, is_valid_level, save_rule}
use logingestor.Alerting.Condition.{validate, severity_rank}
use logingestor.Alerting.Engine.{query_integration}
use logingestor.Alerting.Rules.{
  is_valid_level, create_with, create_valid, condition_or_level, insert_rule,
}
use logingestor.Prelude.{◌++◌, ◌≡◌, refl, ◌≢◌, true, none, some, [], ◌∷◌}
use logingestor.Prelude.Int.{pos}
use logingestor.Prelude.Text.{text_eq, codes}
use logingestor.Prelude.Result.{ok}
use logingestor.Alerting.Condition.{level_condition, error}
use logingestor.Alerting.Model.{AlertRule}
use logingestor.Alerting.Events.{record_firing, resolve_event}
use logingestor.Alerting.Events.Unique.{IsIndexed, next, here, records, resolves, Reach-IsIndexed}
use logingestor.Alerting.Rules.{
  updated_rule, new_rule, NewAlertRule, UpdateAlertRule, create_rule, update_rule,
}
use logingestor.Alerting.Connections.{
  disable_rules_by_connection, save_integration, disable_integration,
}
use logingestor.Alerting.Connections.Silent.{disable_integration_silences}
use logingestor.Alerting.Engine.{fire_alerts, active_rules}
use logingestor.Alerting.Engine.Grows.{Grows}
use logingestor.Examples.Data.{
  healthy, noon, open_alert, warn_rule, at_warn, boom, pager, quiet_store,
}

-- An alert opens in an empty table and is resolved.
Reach-IsIndexed_example : IsIndexed (resolve_event 1 9 (record_firing 1 open_alert []).1)
Reach-IsIndexed_example =
    Reach-IsIndexed (next (next here (records 1 open_alert [] tt)) (resolves 1 9 _)) tt

abbrev request : NewAlertRule
request = record {
  org_id = 1;
  project_id = 2;
  connection_id = 3;
  user_id = 4;
  name = codes "errors";
  level = error;
  condition = record at_warn { type = [] };
  dedup_window_seconds = pos 60;
  is_active = true;
}

abbrev created_rule : AlertRule
created_rule = new_rule 9 noon request

create_rule_runs :
    create_rule healthy 9 noon request quiet_store
    ≡ (ok created_rule, record quiet_store { rules = quiet_store.rules ++ created_rule ∷ [] })
unfolding create_rule is_valid_level text_eq query_integration create_with create_valid validate
    condition_or_level level_condition severity_rank insert_rule
create_rule_runs = refl

-- Only the level changes.
abbrev louder_rule : UpdateAlertRule
louder_rule = record {
  name = none;
  level = some error;
  condition = none;
  dedup_window_seconds = none;
  connection_id = none;
  is_active = none;
  snooze_until = none;
}

update_rule_runs : update_rule healthy noon warn_rule louder_rule quiet_store ≡ (
  ok (updated_rule noon warn_rule louder_rule),
  (update_rule healthy noon warn_rule louder_rule quiet_store).1,
)
unfolding update_rule check_update is_valid_level text_eq save_rule
update_rule_runs = refl

disabled :
    disable_integration healthy noon pager quiet_store
    ≡ (ok tt, (disable_integration healthy noon pager quiet_store).1)
unfolding disable_integration save_integration disable_rules_by_connection
disabled = refl

disable_integration_silences_example :
    Grows
      (λ r d. d.0 ≢ 3)
      (active_rules 2 (disable_integration healthy noon pager quiet_store).1.rules)
      (disable_integration healthy noon pager quiet_store).1
      (fire_alerts healthy 2
        (boom ∷ [])
        noon
        (disable_integration healthy noon pager quiet_store).1).1
disable_integration_silences_example =
    disable_integration_silences healthy healthy noon noon pager 2 (boom ∷ []) quiet_store _
      disabled
