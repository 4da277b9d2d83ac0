-- ===== src/Examples/Alerts.antt =====
-- Runs of `raise`, `FireAlerts` and `EvaluateThresholds`.
use logingestor.Alerting.Events.{is_open_for}
use logingestor.Examples.Data.{open_alert, alerted_store}
use logingestor.Alerting.Engine.Deliver.{resolved_in, resolved_delivers}
use logingestor.Alerting.Engine.Raise.{key_of}
use logingestor.Alerting.Condition.{dedup_key}
use logingestor.Alerting.Engine.Since.{Firing, here, raised}
use logingestor.Alerting.World.{World}
use logingestor.Prelude.{some, Option, ◌*◌, ◌+◌, true, none, [], ◌∷◌, ◌≡◌, refl, arith}
use logingestor.Prelude.Clock.{minute}
use logingestor.Prelude.Result.{ok, err}
use logingestor.Alerting.World.{provider_rejected}
use logingestor.Alerting.Engine.{
  suppress_input, raise, fire_alerts, open_event, save_firing, firing_of, conclude,
}
use logingestor.Alerting.Engine.Raise.{decision_of}
use logingestor.Alerting.Engine.Quiet.{raise_then_quiet}
use logingestor.Alerting.Suppress.{
  should_notify, alert_decision, rule_dedup_window, effective_window,
}
use logingestor.Alerting.Events.{query_open_event}
use logingestor.Alerting.Engine.{
  suppress_input, send_alert, query_integration, send_by, deliver_to, save_notified,
}
use logingestor.Prelude.Int.{pos, wrap64, ◌*ℤ◌}
use logingestor.Prelude.Clock.{Time}
use logingestor.Alerting.Model.{AlertEvent}
use logingestor.Alerting.Condition.{dedup_key, satisfied, condition_threshold}
use logingestor.Alerting.Suppress.Decision.{IsAwake}
use logingestor.Alerting.Events.{is_open_for}
use logingestor.Prelude.Text.{text_eq}
use logingestor.Alerting.Engine.{active_rules}
use logingestor.Alerting.Engine.Grows.{Grows}
use logingestor.Alerting.Engine.Justified.{IsJustified, fire_alerts-IsJustified}
use logingestor.Alerting.Engine.Deliver.{IsHealthy, raise_retries}
use logingestor.Alerting.Threshold.{Pass, threshold_rules, evaluate_thresholds, evaluate_rule}
use logingestor.Alerting.Threshold.Evaluate.{IsBreach, evaluate_thresholds_justified}
use logingestor.Alerting.Threshold.Resolve.{evaluate_rule_resolves}
use logingestor.Examples.Data.{
  healthy, refusing, busy, noon, warn_rule, timeout_rule, timeouts, boom, pager, timeout_alert,
  quiet_store,
}

decided : (decision_of healthy warn_rule boom [] noon quiet_store).0 ≡ true
unfolding suppress_input should_notify alert_decision query_open_event
decided = refl

paged :
    raise healthy warn_rule boom 1 [] noon quiet_store
    ≡ (ok tt, (raise healthy warn_rule boom 1 [] noon quiet_store).1)
unfolding raise open_event save_firing firing_of conclude suppress_input should_notify
    alert_decision query_open_event send_alert query_integration send_by deliver_to save_notified
paged = refl

ten_minutes : effective_window (rule_dedup_window warn_rule) ≡ pos (10 * minute)
unfolding rule_dedup_window effective_window wrap64 ◌*ℤ◌
ten_minutes = refl

-- A minute after the page another rule fires.
abbrev other_firing : Firing
other_firing = record {
  env = healthy;
  rule = timeout_rule;
  rep = boom;
  matched = 2;
  windows = [];
  now = noon + minute;
}

abbrev after_page : World
after_page = (raise healthy warn_rule boom 1 [] noon quiet_store).1

abbrev after_both : World
after_both = (raise healthy timeout_rule boom 2 [] (noon + minute) after_page).1

raise_then_quiet_example :
    (raise healthy warn_rule boom 5 [] (noon + 9 * minute) after_both).1.outbox ≡ after_both.outbox
raise_then_quiet_example =
    raise_then_quiet healthy healthy warn_rule warn_rule boom boom 1 5 [] [] noon
      (noon + 9 * minute) (10 * minute) quiet_store after_page after_both refl refl decided paged
      (raised other_firing (omega arith) here) ten_minutes (omega arith) (omega arith)

refused_page :
    raise refusing warn_rule boom 1 [] noon quiet_store
    ≡ (err provider_rejected, (raise refusing warn_rule boom 1 [] noon quiet_store).1)
unfolding raise open_event save_firing firing_of conclude suppress_input should_notify
    alert_decision query_open_event send_alert query_integration send_by deliver_to save_notified
refused_page = refl

decided_too : (decision_of refusing warn_rule boom [] noon quiet_store).0 ≡ true
unfolding suppress_input should_notify alert_decision query_open_event
decided_too = refl

awake : (prior : Option AlertEvent) (now : Time) → IsAwake (suppress_input warn_rule prior [] now)
unfolding suppress_input
awake prior now = record { is_on = refl; not_snoozed = λ x. x; not_covered = λ x. ground arith }

raise_retries_example :
    (decision_of refusing warn_rule boom []
      (noon + 1)
      (raise refusing warn_rule boom 1 [] noon quiet_store).1).0
    ≡ true
raise_retries_example =
    raise_retries refusing warn_rule boom boom 1 [] [] noon (noon + 1) (10 * minute) quiet_store _
      decided_too refused_page refl ten_minutes (omega arith) (omega arith) (awake _ _)

-- The connection takes the page.
fit : IsHealthy healthy warn_rule boom 1 noon quiet_store
fit = record {
  connection = pager;
  send = λ creds m. true;
  open_answers = refl;
  record_answers = refl;
  connection_answers = refl;
  notified_answers = refl;
  found = refl;
  enabled = refl;
  registered = refl;
  accepts = refl;
}

fire_alerts-IsJustified_example :
    Grows
      (IsJustified healthy 2 quiet_store.rules (boom ∷ []))
      (active_rules 2 quiet_store.rules)
      quiet_store
      (fire_alerts healthy 2 (boom ∷ []) noon quiet_store).1
fire_alerts-IsJustified_example = fire_alerts-IsJustified healthy 2 (boom ∷ []) noon quiet_store

evaluate_thresholds_justified_example :
    Grows
      (IsBreach busy noon quiet_store.rules)
      (threshold_rules quiet_store.rules)
      quiet_store
      (evaluate_thresholds busy noon quiet_store).1
evaluate_thresholds_justified_example = evaluate_thresholds_justified busy noon quiet_store

-- A pass that starts with the evaluator's alert open.
abbrev started : Pass
started = record {
  world = record quiet_store { events = timeout_alert ∷ [] };
  windows_by_org = [];
  fired = 0;
}

evaluate_rule_resolves_example :
    query_open_event 8 condition_threshold
      (evaluate_rule healthy noon timeout_rule started).world.events
    ≡ none
unfolding dedup_key query_open_event satisfied is_open_for text_eq
evaluate_rule_resolves_example =
    evaluate_rule_resolves healthy noon timeout_rule timeouts timeout_alert started (tt, tt) refl
      refl refl refl refl refl refl

found_open :
    query_open_event 7 (key_of healthy warn_rule boom) alerted_store.events ≡ some open_alert
unfolding query_open_event dedup_key is_open_for text_eq logingestor.Prelude.Text.to_upper
    logingestor.Prelude.Text.trim_space
found_open = refl

resolved_delivers_example :
    (decision_of healthy warn_rule boom [] 5 (resolved_in 1 3 alerted_store)).0 ≡ true
resolved_delivers_example =
    resolved_delivers healthy warn_rule boom [] 3 5 alerted_store open_alert (tt, tt) found_open
      (awake _ 5)
