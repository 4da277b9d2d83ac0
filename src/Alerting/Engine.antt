-- ===== src/Alerting/Engine.antt =====
-- business/domain/integrationbus/integrationbus.go: matching a batch, raising an alert and sending
-- it. `time.Now()` is the argument `now`.
pub mod Batch
pub mod Raise
pub mod Since
pub mod Quiet
pub mod Deliver
pub mod Grows
pub mod Justified
use logingestor.Prelude.{
  not, ℕ, suc, ◌+◌, ◌-◌, Bool, true, false, Option, none, some, List, [], ◌∷◌, ◌++◌, select, find,
  any, ltb, ◌==◌, ◌&&◌, if◌then◌else◌,
}
use logingestor.Prelude.Int.{ltb_ℤ}
use logingestor.Prelude.Text.{Text, CaseTable, codes, decimal}
use logingestor.Prelude.Clock.{Time, before}
use logingestor.Prelude.Result.{Result, ok, err}
use logingestor.Alerting.Condition.{
  Condition, severity_rank, matches_log, needs_evaluator, dedup_key,
}
use logingestor.Alerting.Model.{
  Uuid, firing, SuppressReason, MaintenanceWindow, AlertEvent, AlertPayload, Credential,
  Integration, AlertRule,
}
use logingestor.Alerting.Suppress.{SuppressInput, should_notify, rule_dedup_window}
use logingestor.Alerting.Events.{query_open_event, record_firing, mark_notified}
use logingestor.Alerting.World.{
  Call, query_open, record_row, notified_row, query_active_rules, query_active_maintenance,
  query_connection, AlertError, failed, not_found, unknown_provider, provider_rejected, LogLine,
  suppressed, raise_failed, maintenance_failed, World, Env, Exec, continue, ◌>>=◌, ◌>>◌, pure,
  raise_error, reads, writes, or_error, note,
}

-- The loop of `matchPayloads`: `matched` and `rep` so far.
abbrev pub louder : Option AlertPayload → AlertPayload → Option AlertPayload
louder none p = some p
louder (some r) p = if ltb_ℤ (severity_rank r.level) (severity_rank p.level) then some p else some r

unfoldable pub match_from :
    CaseTable → Condition → ℕ → Option AlertPayload → List AlertPayload → ℕ × Option AlertPayload
match_from u c matched rep [] = (matched, rep)
match_from u c matched rep (p ∷ ps) =
    let fires = matches_log u c p.level p.message p.source in
    match_from u c (if fires then matched + 1 else matched) (if fires then louder rep p else rep) ps

unfoldable pub match_payloads : CaseTable → Condition → List AlertPayload → ℕ × Option AlertPayload
unfolding match_from
match_payloads u c ps = match_from u c 0 none ps

-- The calls of the store that `raise` makes.
unfoldable pub open_event : Env → Uuid → Text → Exec (Option AlertEvent)
open_event env rule key = reads env (query_open rule key) (λ w. query_open_event rule key w.events)

unfoldable pub save_firing : Env → AlertEvent → Exec AlertEvent
save_firing env e w =
    if env.fails (record_row e.rule_id)
    then (err (failed (record_row e.rule_id)), w)
    else (let (row, table) = record_firing (env.fresh w.events) e w.events in
        (ok row, record w { events = table }))

unfoldable pub save_notified : Env → Uuid → Time → Exec (Unit {0})
save_notified env id at =
    writes env (notified_row id) (λ w. record w { events = mark_notified id at w.events })

unfoldable pub query_integration : Env → Uuid → Exec Integration
query_integration env id w =
    if env.fails (query_connection id)
    then (err (failed (query_connection id)), w)
    else or_error not_found (find (λ (i : Integration). i.id == id) w.integrations) w

-- `caller.Send`: what reaches the provider is the outbox.
unfoldable pub deliver_to :
    Uuid
    → List Credential
    → AlertPayload
    → Option (List Credential → AlertPayload → Bool)
    → Exec (Unit {0})
deliver_to conn creds payload none w = (err unknown_provider, w)
deliver_to conn creds payload (some send) w =
    if send creds payload
    then (ok tt, record w { outbox = w.outbox ++ (conn, payload) ∷ [] })
    else (err provider_rejected, w)

unfoldable pub send_by : Env → Uuid → AlertPayload → Integration → Exec (Unit {0})
send_by env conn payload i w =
    if i.enabled
    then deliver_to conn i.credentials payload (env.callers i.provider_id) w
    else (ok tt, w)

-- `SendAlert`
unfoldable pub send_alert : Env → Uuid → AlertPayload → Exec (Unit {0})
send_alert env conn payload = do i ← query_integration env conn; send_by env conn payload i

-- `summary` of `raise`
unfoldable pub summarize : Text → ℕ → Text
summarize message matched =
    if ltb 1 matched
    then message ++ (codes " (+" ++ (decimal (matched - 1) ++ codes " more matching logs)"))
    else message

-- The event that `raise` hands to `RecordFiring`. The store reads neither the fields that the source
-- leaves at zero nor the id.
unfoldable pub firing_of : Env → AlertRule → AlertPayload → ℕ → Time → AlertEvent
firing_of env rule rep matched now = record {
  id = 0;
  rule_id = rule.id;
  org_id = rule.org_id;
  project_id = rule.project_id;
  dedup_key = dedup_key env.unicode rule.condition rep.level;
  state = firing;
  summary = summarize rep.message matched;
  level = rep.level;
  match_count = matched;
  sample_log_id = env.parse_uuid rep.log_id;
  first_seen_at = 0;
  last_seen_at = now;
  last_notified_at = none;
  resolved_at = none;
  acknowledged_at = none;
  acknowledged_by = none;
}

unfoldable pub suppress_input :
    AlertRule → Option AlertEvent → List MaintenanceWindow → Time → SuppressInput
suppress_input rule prior windows now = record {
  now = now;
  rule_active = rule.is_active;
  snooze_until = rule.snooze_until;
  dedup_window = rule_dedup_window rule;
  project_id = rule.project_id;
  existing = prior;
  maintenances = windows;
}

-- The end of `raise`: the decision, and what follows it.
unfoldable pub conclude :
    Env → AlertRule → AlertPayload → AlertEvent → Time → Bool × SuppressReason → Exec (Unit {0})
conclude env rule payload event now (false, why) = note (suppressed rule.id event.id why)
conclude env rule payload event now (true, why) = do
  send_alert env rule.connection_id payload
  save_notified env event.id now

unfoldable pub raise :
    Env → AlertRule → AlertPayload → ℕ → List MaintenanceWindow → Time → Exec (Unit {0})
raise env rule rep matched windows now = do
  prior ← open_event env rule.id (dedup_key env.unicode rule.condition rep.level)
  event ← save_firing env (firing_of env rule rep matched now)
  conclude env rule (record rep { message = summarize rep.message matched }) event now
      (should_notify (suppress_input rule prior windows now))

-- An error of one rule is logged, and the loop goes on.
unfoldable pub log_raise : Uuid → Result AlertError (Unit {0}) × World → World
log_raise rule (ok a, w) = w
log_raise rule (err e, w) = record w { log = w.log ++ raise_failed rule e ∷ [] }

-- One round of the loop of `FireAlerts`.
unfoldable pub fire_matched :
    Env → AlertRule → List MaintenanceWindow → Time → ℕ × Option AlertPayload → World → World
fire_matched env rule windows now (matched, none) w = w
fire_matched env rule windows now (matched, some rep) w =
    if matched == 0 then w else log_raise rule.id (raise env rule rep matched windows now w)

unfoldable pub fire_rule :
    Env → List AlertPayload → List MaintenanceWindow → Time → AlertRule → World → World
fire_rule env payloads windows now rule w =
    if needs_evaluator rule.condition
    then w
    else fire_matched env rule windows now (match_payloads env.unicode rule.condition payloads) w

unfoldable pub fire_rules :
    Env → List AlertPayload → List MaintenanceWindow → Time → List AlertRule → World → World
fire_rules env payloads windows now [] w = w
fire_rules env payloads windows now (r ∷ rs) w =
    fire_rules env payloads windows now rs (fire_rule env payloads windows now r w)

-- `QueryActiveRules` and `QueryActiveMaintenance` of alertevents.go
unfoldable pub active_rules : Uuid → List AlertRule → List AlertRule
active_rules project rules =
    select (λ (r : AlertRule). r.project_id == project && r.is_active) rules

unfoldable pub active_windows : Uuid → Time → List MaintenanceWindow → List MaintenanceWindow
active_windows org at ws =
    select
      (λ (w : MaintenanceWindow).
        w.org_id == org && (not (before at w.starts_at) && before at w.ends_at))
      ws

-- The windows of an organization; a failing look-up is logged and gives none.
unfoldable pub load_windows : Env → Uuid → Time → World → List MaintenanceWindow × World
load_windows env org now w =
    if env.fails (query_active_maintenance org)
    then (
      [],
      record w {
        log = w.log ++ maintenance_failed org (failed (query_active_maintenance org)) ∷ [];
      },
    )
    else (active_windows org now w.windows, w)

abbrev pub fire_active : Env → List AlertPayload → Time → List AlertRule → Exec (Unit {0})
fire_active env payloads now [] w = (ok tt, w)
fire_active env payloads now (r ∷ rs) w =
    let (windows, w') = load_windows env r.org_id now w in
    (ok tt, fire_rules env payloads windows now (r ∷ rs) w')

-- `FireAlerts`
unfoldable pub fire_alerts : Env → Uuid → List AlertPayload → Time → Exec (Unit {0})
fire_alerts env project [] now w = (ok tt, w)
fire_alerts env project (p ∷ ps) now w =
    if env.fails (query_active_rules project)
    then (err (failed (query_active_rules project)), w)
    else fire_active env (p ∷ ps) now (active_rules project w.rules) w
