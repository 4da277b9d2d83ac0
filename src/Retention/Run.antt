-- ===== src/Retention/Run.antt =====
-- business/sdk/retention/retention.go: `Run`, `purgeAudit`, `pruneSourceStats`, `pruneRejects` and
-- `pruneClientErrors`. What is logged is left out.
pub mod Counts
pub mod Keeps
pub mod Logs
pub mod Errors
use logingestor.Prelude.{
  ℕ, suc, ◌+◌, ◌-◌, Bool, true, false, not, ◌&&◌, ◌||◌, Option, none, some, List, [], ◌∷◌, ◌++◌,
  any, select, map, length, ltb, leb, ◌==◌, if◌then◌else◌,
}
use logingestor.Prelude.Int.{ℤ, pos, pos_part, leb_ℤ}
use logingestor.Prelude.Text.{text_eq}
use logingestor.Prelude.Clock.{Time, Duration, before}
use logingestor.Alerting.Model.{Uuid}
use logingestor.ClientErrors.Model.{Issue}
use logingestor.ClientErrors.Issues.{is_event_of}
use logingestor.ClientErrors.World.{Row, Facet, Artifact}
use logingestor.Retention.Model.{
  SourceType, app, infra, keep_forever, map_grace_period, Config, config_defaults, RunResult, total,
  expires, add_duration, cutoff_of, AuditRow, Project, Subscription, Plan, Target, Tables,
  RetentionCall, status_check, select_targets, delete_audit, delete_source_stats, delete_events,
  delete_issues, drop_maps, delete_rejects, RetentionError, statement_failed, RetentionEnv,
}
use logingestor.Retention.Batches.{delete_oldest, Purged, Turn, halt, go_on, run_batches}
use logingestor.Retention.Purge.{Pass, sent, halted, outcome, purge}

-- `COALESCE`
abbrev or_else : Option ℤ → ℤ → ℤ
or_else none d = d
or_else (some n) d = n

abbrev or_try : Option ℤ → Option ℤ → Option ℤ
or_try none o = o
or_try (some n) o = some n

abbrev plan_days : (Plan → Option ℤ) → Option Plan → Option ℤ
plan_days f none = none
plan_days f (some plan) = f plan

-- `LEFT JOIN`: a row without a partner is joined to none.
abbrev joined : {A : Type 0} → List A → List (Option A)
joined [] = none ∷ []
joined (x ∷ xs) = map (λ y. some y) (x ∷ xs)

abbrev is_plan : Option Uuid → Plan → Bool
is_plan none plan = false
is_plan (some id) plan = plan.id == id

abbrev plan_of : List Plan → Option Subscription → List (Option Plan)
plan_of plans none = none ∷ []
plan_of plans (some s) = joined (select (is_plan s.plan_id) plans)

unfoldable pub target_of : Project → Option Plan → Target
target_of p plan = record {
  project_id = p.id;
  app_days =
      or_else (or_try p.retention_days (plan_days (λ (l : Plan). l.log_retention_days) plan))
        keep_forever;
  infra_days = or_else (plan_days (λ (l : Plan). l.infra_retention_days) plan) keep_forever;
}

abbrev each_plan : List Plan → List (Option Subscription) → List (Option Plan)
each_plan plans [] = []
each_plan plans (s ∷ ss) = plan_of plans s ++ each_plan plans ss

unfoldable pub project_targets : Tables → Project → List Target
project_targets w p = map (target_of p) (
    each_plan w.plans
      (joined (select (λ (s : Subscription). s.org_id == p.org_id) w.subscriptions)))

unfoldable pub targets_of : Tables → List Project → List Target
targets_of w [] = []
targets_of w (p ∷ ps) = project_targets w p ++ targets_of w ps

-- The passes of a target, with their days.
abbrev pub passes_of : Target → List (Pass × ℤ)
passes_of t =
    (record { project_id = t.project_id; source_type = app }, t.app_days)
    ∷ (record { project_id = t.project_id; source_type = infra }, t.infra_days)
    ∷ []

abbrev pub all_passes : List Target → List (Pass × ℤ)
all_passes [] = []
all_passes (t ∷ ts) = passes_of t ++ all_passes ts

-- What `Run` returns, and the tables: a part that fails or leaves the run incomplete ends it.
abbrev pub Ran : Type 0
Ran = (RunResult × Option RetentionError) × Tables

abbrev pub and_then : Ran → (RunResult → Tables → Ran) → Ran
and_then ((res, some e), w) f = ((res, some e), w)
and_then ((res, none), w) f = if res.incomplete then ((res, none), w) else f res w

abbrev pub add_deleted : SourceType → ℕ → RunResult → RunResult
add_deleted app n res = record res { app_deleted = res.app_deleted + n }
add_deleted infra n res = record res { infra_deleted = res.infra_deleted + n }

abbrev pub counted : SourceType → RunResult → Purged × Tables → Ran
counted t res (o, w) = elim o.failure [
  | some e ↦ ((add_deleted t o.deleted res, some e), w)
  | none ↦ ((record (add_deleted t o.deleted res) { incomplete = o.incomplete }, none), w)
]

module _ (env : RetentionEnv) (cfg : Config) (deadline : Option Time) where
  unfoldable pub run_pass : Pass × ℤ → RunResult → Tables → Ran
  run_pass (p, days) res w =
      if expires days
      then counted p.source_type res (purge env cfg p days (total res) deadline w)
      else ((res, none), w)

  unfoldable pub run_passes : List (Pass × ℤ) → RunResult → Tables → Ran
  run_passes [] res w = ((res, none), w)
  run_passes (p ∷ ps) res w = and_then (run_pass p res w) (λ res' w'. run_passes ps res' w')

  -- `purgeAudit`
  abbrev audit_id : AuditRow → Uuid
  audit_id r = r.id

  abbrev audit_at : AuditRow → Time
  audit_at r = r.timestamp

  abbrev after_audit : ℕ → Tables → ℕ × List AuditRow → Turn
  after_audit deleted w (n, rows) =
      if ltb n (pos_part cfg.batch_size)
      then halt (outcome (deleted + n) false none) (record (sent w) { audit = rows })
      else go_on (deleted + n) (record (sent w) { audit = rows })

  unfoldable pub audit_turn : Time → ℕ → Tables → Turn
  audit_turn cutoff deleted w =
      if halted env deadline w
      then halt (outcome deleted false none) w
      else if env.fails w.statements delete_audit
      then halt (outcome deleted false (some (statement_failed delete_audit))) (sent w)
      else after_audit deleted w (
          delete_oldest audit_id audit_at (pos_part cfg.batch_size)
            (λ (r : AuditRow). before r.timestamp cutoff) w.audit)

  abbrev audited : RunResult → Purged × Tables → Ran
  audited res (o, w) = ((record res { audit_deleted = o.deleted }, o.failure), w)

  unfoldable pub purge_audit : RunResult → Tables → Ran
  purge_audit res w =
      if expires cfg.audit_days
      then audited res (
          run_batches (audit_turn (cutoff_of (env.now w.statements) cfg.audit_days))
            (suc (length w.audit)) 0 w)
      else ((record res { audit_deleted = 0 }, none), w)

  abbrev aged : ℤ → Tables → Time → Bool
  aged days w t = before t (cutoff_of (env.now w.statements) days)

  unfoldable pub prune_source_stats : RunResult → Tables → Ran
  prune_source_stats res w =
      if not (expires cfg.source_stats_days)
      then ((res, none), w)
      else if env.fails w.statements delete_source_stats
      then ((res, some (statement_failed delete_source_stats)), sent w)
      else (
        (
          record res {
            source_stats_deleted = length (select (aged cfg.source_stats_days w) w.source_stats);
          },
          none,
        ),
        record (sent w) {
          source_stats = select (λ t. not (aged cfg.source_stats_days w t)) w.source_stats;
        },
      )

  unfoldable pub prune_rejects : RunResult → Tables → Ran
  prune_rejects res w =
      if not (expires cfg.reject_days)
      then ((res, none), w)
      else if env.fails w.statements delete_rejects
      then ((res, some (statement_failed delete_rejects)), sent w)
      else (
        (record res { rejects_deleted = length (select (aged cfg.reject_days w) w.rejects) }, none),
        record (sent w) { rejects = select (λ t. not (aged cfg.reject_days w t)) w.rejects },
      )

  -- `pruneClientErrors`: the events, then the issues, then the source maps.
  abbrev pub old_event : Tables → Row → Bool
  old_event w r = aged cfg.client_error_event_days w r.event.received_at

  unfoldable pub prune_events : RunResult → Tables → Ran
  prune_events res w =
      if not (expires cfg.client_error_event_days)
      then ((res, none), w)
      else if env.fails w.statements delete_events
      then ((res, some (statement_failed delete_events)), sent w)
      else (
        (record res { client_error_events_deleted = length (select (old_event w) w.events) }, none),
        record (sent w) { events = select (λ r. not (old_event w r)) w.events },
      )

  abbrev pub dead_issue : Tables → Issue → Bool
  dead_issue w i =
      aged cfg.client_error_issue_days w i.last_seen_at && not (any (is_event_of i.id) w.events)

  -- The facets go with their issue.
  abbrev facet_of_any : List Issue → Facet → Bool
  facet_of_any is f = any (λ (i : Issue). f.issue_id == i.id) is

  unfoldable pub prune_issues : RunResult → Tables → Ran
  prune_issues res w =
      if not (expires cfg.client_error_issue_days)
      then ((res, none), w)
      else if env.fails w.statements delete_issues
      then ((res, some (statement_failed delete_issues)), sent w)
      else (
        (
          record res { client_error_issues_deleted = length (select (dead_issue w) w.issues) },
          none,
        ),
        record (sent w) {
          issues = select (λ i. not (dead_issue w i)) w.issues;
          facets = select (λ f. not (facet_of_any (select (dead_issue w) w.issues) f)) w.facets;
        },
      )

  abbrev pub dead_map : Tables → Artifact → Bool
  dead_map w a =
      before a.date_created (env.now w.statements - map_grace_period)
      && not (any (λ (r : Row). text_eq r.event.release a.release) w.events)

  unfoldable pub prune_maps : RunResult → Tables → Ran
  prune_maps res w =
      if env.fails w.statements drop_maps
      then ((res, some (statement_failed drop_maps)), sent w)
      else (
        (res, none),
        record (sent w) { artifacts = select (λ a. not (dead_map w a)) w.artifacts },
      )

  unfoldable pub prune_client_errors : RunResult → Tables → Ran
  prune_client_errors res w = and_then (and_then (prune_events res w) prune_issues) prune_maps

  unfoldable pub run_rest : RunResult → Tables → Ran
  run_rest res w =
      and_then (and_then (and_then (purge_audit res w) prune_source_stats) prune_client_errors)
        prune_rejects

abbrev pub nothing_deleted : RunResult
nothing_deleted = record {
  infra_deleted = 0;
  app_deleted = 0;
  audit_deleted = 0;
  rejects_deleted = 0;
  source_stats_deleted = 0;
  client_error_events_deleted = 0;
  client_error_issues_deleted = 0;
  incomplete = false;
}

abbrev pub deadline_of : Config → Time → Option Time
deadline_of cfg start =
    if leb_ℤ cfg.max_runtime (pos 0) then none else some (add_duration start cfg.max_runtime)

-- `Run` behind its defaults and its first two statements.
unfoldable pub run_targets : RetentionEnv → Config → Tables → Ran
run_targets env cfg w =
    let deadline = deadline_of cfg (env.now w.statements) in
    and_then (run_passes env cfg deadline (all_passes (targets_of w w.projects)) nothing_deleted w)
      (run_rest env cfg deadline)

unfoldable pub run : RetentionEnv → Config → Tables → Ran
run env cfg w =
    if env.fails w.statements status_check
    then ((nothing_deleted, some (statement_failed status_check)), sent w)
    else if env.fails (suc w.statements) select_targets
    then ((nothing_deleted, some (statement_failed select_targets)), sent (sent w))
    else run_targets env (config_defaults cfg) (sent (sent w))
