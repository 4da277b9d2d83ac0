-- ===== src/Alerting/Threshold.antt =====
-- business/domain/integrationbus/threshold.go: the evaluator of threshold rules, and the methods on
-- alert events and maintenance windows. `time.Now()` is the argument `now`.
pub mod Evaluate
pub mod Resolve
use logingestor.Prelude.{
  ◌&&◌, ℕ, ◌+◌, ◌-◌, Bool, true, false, not, ◌||◌, Option, none, some, List, [], ◌∷◌, ◌++◌, select,
  ltb, ◌==◌, if◌then◌else◌,
}
use logingestor.Prelude.Int.{ℤ, pos, ltb_ℤ, leb_ℤ, pos_part, neg_part}
use logingestor.Prelude.Text.{Text, codes, decimal, text_eq}
use logingestor.Prelude.Clock.{Time, Duration, before}
use logingestor.Prelude.Result.{Result, ok, err}
use logingestor.Alerting.Condition.{
  Query, Condition, severity_rank, error, window, satisfied, dedup_key, condition_threshold,
}
use logingestor.Alerting.Model.{Uuid, MaintenanceWindow, AlertEvent, AlertPayload, AlertRule}
use logingestor.Alerting.Events.{
  query_open_event, acknowledge_event, resolve_event, query_event_by_id,
}
use logingestor.Alerting.World.{
  Call, query_open, query_event, resolve_row, acknowledge_row, query_threshold_rules, count_logs,
  create_row, delete_row, AlertError, failed, event_not_found, bad_range, LogLine, raise_failed,
  resolve_failed, count_failed, World, Env, Exec, continue, ◌>>=◌, ◌>>◌, pure, raise_error, reads,
  writes, or_error,
}
use logingestor.Alerting.Engine.{load_windows, raise}

-- The loop of `thresholdLevel`.
unfoldable pub loudest_level : Text → List Text → Text
loudest_level best [] = best
loudest_level best (l ∷ ls) =
    loudest_level (if ltb_ℤ (severity_rank best) (severity_rank l) then l else best) ls

abbrev or_level : Text → Text
or_level [] = error
or_level (c ∷ s) = c ∷ s

unfoldable pub threshold_level : Query → Text
threshold_level q = or_level (loudest_level [] q.levels)

-- `%d` of a signed number.
abbrev decimal_ℤ : ℤ → Text
decimal_ℤ z = if ltb 0 (neg_part z) then b'-' ∷ decimal (neg_part z) else decimal (pos_part z)

unfoldable pub threshold_message : Env → AlertRule → ℕ → Text
threshold_message env rule matched =
    rule.name
    ++ (codes ": "
        ++ (decimal matched
            ++ (codes " matching logs in the last "
                ++ (env.duration_text (window rule.condition)
                    ++ (codes " (threshold "
                        ++ (rule.condition.comparator
                            ++ (codes " " ++ (decimal_ℤ rule.condition.count ++ codes ")"))))))))

unfoldable pub threshold_payload : Env → AlertRule → Query → ℕ → Time → AlertPayload
threshold_payload env rule q matched now = record {
  project_name = rule.name;
  level = threshold_level q;
  message = threshold_message env rule matched;
  source = codes "alerting";
  log_id = [];
  timestamp = now;
}

-- `now.Add(-cond.Window())`; a window that wrapped below zero reaches forward.
unfoldable pub window_start : Condition → Time → Time
window_start c now = now + neg_part (window c) - pos_part (window c)

-- `resolveOpen`: nothing open, or no answer, is no error.
abbrev resolve_found : Env → Time → Option AlertEvent → Exec (Unit {0})
resolve_found env now none = pure tt
resolve_found env now (some e) =
    writes env (resolve_row e.id) (λ w. record w { events = resolve_event e.id now w.events })

unfoldable pub resolve_open : Env → AlertRule → Time → Exec (Unit {0})
resolve_open env rule now w =
    if env.fails (query_open rule.id (dedup_key env.unicode rule.condition []))
    then (ok tt, w)
    else resolve_found env now
        (query_open_event rule.id (dedup_key env.unicode rule.condition []) w.events) w

-- The state of the loop: the world, the windows that were looked up by organization, `fired`.
pub record Pass : Type 0 where
  pub world : World
  pub windows_by_org : List (Uuid × List MaintenanceWindow)
  pub fired : ℕ

unfoldable pub cached :
    Uuid → List (Uuid × List MaintenanceWindow) → Option (List MaintenanceWindow)
cached org [] = none
cached org ((o, ws) ∷ rest) = if o == org then some ws else cached org rest

-- The windows of the rule's organization, looked up once in a pass; a look-up that fails is kept too.
unfoldable pub windows_for : Env → Uuid → Time → Pass → List MaintenanceWindow × Pass
windows_for env org now p = elim (cached org p.windows_by_org) [
  | some ws ↦ (ws, p)
  | none ↦
      let (ws, w) = load_windows env org now p.world in
      (ws, record p { world = w; windows_by_org = (org, ws) ∷ p.windows_by_org })
]

unfoldable pub after_raise : Uuid → Pass → Result AlertError (Unit {0}) × World → Pass
after_raise rule p (ok a, w) = record p { world = w; fired = p.fired + 1 }
after_raise rule p (err e, w) = record p {
  world = record w { log = w.log ++ raise_failed rule e ∷ [] };
}

unfoldable pub after_resolve : Uuid → Pass → Result AlertError (Unit {0}) × World → Pass
after_resolve rule p (ok a, w) = record p { world = w }
after_resolve rule p (err e, w) = record p {
  world = record w { log = w.log ++ resolve_failed rule e ∷ [] };
}

-- A rule that is over its threshold.
unfoldable pub breach : Env → AlertRule → Query → ℕ → Time → Pass → Pass
breach env rule q matched now p =
    let (ws, p') = windows_for env rule.org_id now p in
    after_raise rule.id p'
      (raise env rule (threshold_payload env rule q matched now) matched ws now p'.world)

unfoldable pub evaluate_query : Env → AlertRule → Query → Time → Pass → Pass
evaluate_query env rule q now p =
    if env.fails (count_logs rule.id)
    then record p {
      world = record p.world {
        log = p.world.log ++ count_failed rule.id (failed (count_logs rule.id)) ∷ [];
      };
    }
    else (let matched =
          env.count_matching rule.project_id q (window_start rule.condition now) now in
        if not (satisfied rule.condition matched)
        then after_resolve rule.id p (resolve_open env rule now p.world)
        else breach env rule q matched now p)

-- One round of the loop: a rule of another kind, or with no query, is passed over.
abbrev pub evaluate_with : Env → AlertRule → Option Query → Time → Pass → Pass
evaluate_with env rule none now p = p
evaluate_with env rule (some q) now p = evaluate_query env rule q now p

unfoldable pub evaluate_rule : Env → Time → AlertRule → Pass → Pass
evaluate_rule env now rule p =
    if not (text_eq rule.condition.type condition_threshold)
    then p
    else evaluate_with env rule rule.condition.query now p

unfoldable pub evaluate_rules : Env → Time → List AlertRule → Pass → Pass
evaluate_rules env now [] p = p
evaluate_rules env now (r ∷ rs) p = evaluate_rules env now rs (evaluate_rule env now r p)

-- `QueryThresholdRules` of alertevents.go
unfoldable pub threshold_rules : List AlertRule → List AlertRule
threshold_rules rules =
    select (λ (r : AlertRule). r.is_active && text_eq r.condition.type condition_threshold) rules

-- `EvaluateThresholds`: how many rules fired.
unfoldable pub evaluate_thresholds : Env → Time → Exec ℕ
evaluate_thresholds env now w =
    if env.fails query_threshold_rules
    then (err (failed query_threshold_rules), w)
    else (let p =
          evaluate_rules env now (threshold_rules w.rules)
            (record { world = w; windows_by_org = []; fired = 0 }) in
        (ok p.fired, p.world))

-- `QueryEventByID`
unfoldable pub query_event_row : Env → Uuid → Exec AlertEvent
query_event_row env id w =
    if env.fails (query_event id)
    then (err (failed (query_event id)), w)
    else or_error event_not_found (query_event_by_id id w.events) w

unfoldable pub acknowledge_alert : Env → Uuid → Uuid → Time → Exec AlertEvent
acknowledge_alert env id user now = do
  writes env (acknowledge_row id)
      (λ w. record w { events = acknowledge_event id user now w.events })
  query_event_row env id

unfoldable pub resolve_alert : Env → Uuid → Time → Exec AlertEvent
resolve_alert env id now = do
  writes env (resolve_row id) (λ w. record w { events = resolve_event id now w.events })
  query_event_row env id

-- The rows of a page of alert history: a limit out of range is 100.
unfoldable pub history_limit : ℤ → ℕ
history_limit n = if leb_ℤ n (pos 0) || ltb_ℤ (pos 500) n then 100 else pos_part n

unfoldable pub create_maintenance_window :
    Env → Uuid → Uuid → Uuid → Option Uuid → Text → Time → Time → Time → Exec MaintenanceWindow
create_maintenance_window env id org actor project reason starts ends now w =
    if not (before starts ends)
    then (err bad_range, w)
    else (let row : MaintenanceWindow = record {
      id = id;
      org_id = org;
      project_id = project;
      reason = reason;
      starts_at = starts;
      ends_at = ends;
      created_by = some actor;
      date_created = now;
    } in
        if env.fails (create_row id)
        then (err (failed (create_row id)), w)
        else (ok row, record w { windows = w.windows ++ row ∷ [] }))

unfoldable pub delete_maintenance_window : Env → Uuid → Exec (Unit {0})
delete_maintenance_window env id =
    writes env (delete_row id)
      (λ w. record w { windows = select (λ (v : MaintenanceWindow). not (v.id == id)) w.windows })
