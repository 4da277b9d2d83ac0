-- ===== src/Alerting/Threshold/Resolve.antt =====
-- A threshold rule that is back under its count: its open alert is closed.
use logingestor.Prelude.{◌≡◌, false, none, some, [], ap}
use logingestor.Prelude.Clock.{Time}
use logingestor.Prelude.Text.{text_eq_iff}
use logingestor.Alerting.Condition.{Query, satisfied, condition_threshold, dedup_key}
use logingestor.Alerting.Model.{AlertEvent, AlertRule}
use logingestor.Alerting.Events.{query_open_event}
use logingestor.Alerting.Events.Unique.{IsIndexed}
use logingestor.Alerting.Events.Resolve.{resolve_event_frees}
use logingestor.Alerting.World.{Env, query_open, count_logs, resolve_row}
use logingestor.Alerting.Threshold.{
  Pass, window_start, resolve_open, after_resolve, evaluate_query, evaluate_with, evaluate_rule,
}

-- The round of a threshold rule that has a query.
evaluate_rule_asks :
    (env : Env) (now : Time) (rule : AlertRule) (q : Query) (p : Pass)
    → rule.condition.type ≡ condition_threshold
    → rule.condition.query ≡ some q
    → evaluate_rule env now rule p ≡ evaluate_query env rule q now p
unfolding evaluate_rule
evaluate_rule_asks env now rule q p t asks =
    rw ((text_eq_iff rule.condition.type condition_threshold).1 t)
      (ap (λ o. evaluate_with env rule o now p) asks)

evaluate_query_resolves :
    (env : Env) (now : Time) (rule : AlertRule) (q : Query) (e : AlertEvent) (p : Pass)
    → IsIndexed p.world.events
    → env.fails (count_logs rule.id) ≡ false
    → env.fails (query_open rule.id (dedup_key env.unicode rule.condition [])) ≡ false
    → env.fails (resolve_row e.id) ≡ false
    → query_open_event rule.id (dedup_key env.unicode rule.condition []) p.world.events ≡ some e
    → satisfied rule.condition
        (env.count_matching rule.project_id q (window_start rule.condition now) now)
      ≡ false
    → query_open_event rule.id
        (dedup_key env.unicode rule.condition [])
        (evaluate_query env rule q now p).world.events
      ≡ none
unfolding evaluate_query resolve_open after_resolve
evaluate_query_resolves env now rule q e p i c o r found under = rw c (
    rw under (
      rw o (
        rw found (
          rw r (
            resolve_event_frees rule.id (dedup_key env.unicode rule.condition []) now e
              p.world.events i found)))))

-- A rule whose count is back under its threshold has its open alert resolved: after its round none is
-- open for its key, if the statements succeed, so the next breach opens a new one.
pub evaluate_rule_resolves :
    (env : Env) (now : Time) (rule : AlertRule) (q : Query) (e : AlertEvent) (p : Pass)
    → IsIndexed p.world.events
    → rule.condition.type ≡ condition_threshold
    → rule.condition.query ≡ some q
    → env.fails (count_logs rule.id) ≡ false
    → env.fails (query_open rule.id (dedup_key env.unicode rule.condition [])) ≡ false
    → env.fails (resolve_row e.id) ≡ false
    → query_open_event rule.id (dedup_key env.unicode rule.condition []) p.world.events ≡ some e
    → satisfied rule.condition
        (env.count_matching rule.project_id q (window_start rule.condition now) now)
      ≡ false
    → query_open_event rule.id
        (dedup_key env.unicode rule.condition [])
        (evaluate_rule env now rule p).world.events
      ≡ none
evaluate_rule_resolves env now rule q e p i t asks c o r found under =
    rw (evaluate_rule_asks env now rule q p t asks)
      (evaluate_query_resolves env now rule q e p i c o r found under)
