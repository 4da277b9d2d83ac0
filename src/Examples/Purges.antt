-- ===== src/Examples/Purges.antt =====
-- Instances of the theorems on retention.
use logingestor.Retention.Run.Counts.{rows_of}
use logingestor.Retention.Purge.Finishes.{purge_finishes}
use logingestor.Prelude.{
  ◌≤◌, arith, ◌&&◌, All, not, leb, Bool, select, ℕ, ◌+◌, ◌*◌, ◌≡◌, refl, true, false, none, some,
  List, [], ◌∷◌,
}
use logingestor.Prelude.Int.{◌*ℤ◌, wrap64, pos}
use logingestor.Prelude.Text.{codes}
use logingestor.Prelude.Clock.{Time, day}
use logingestor.Retention.Model.{RetentionEnv, Tables, Config, default_config, LogRow, app, infra}
use logingestor.ClientErrors.Reports.{new_row}
use logingestor.Prelude.Rows.{IsKeyed}
use logingestor.Retention.Batches.{by_age, delete_oldest, doomed, insert_aged, run_batches}
use logingestor.Retention.Cutoff.{cutoff_exact, purge-wraps}
use logingestor.Retention.Model.{boundary_hour, config_defaults, cutoff_of, expires}
use logingestor.Examples.Errors.{stored_crash, closed_issue}
use logingestor.Retention.Purge.{
  Pass, delete_expired, delete_turn, group_rows, in_pass, is_expired, log_id, oldest_of, next_batch,
  purge, repair_rollup, repaired,
}
use logingestor.Retention.Purge.Drains.{Harmless}
use logingestor.Retention.Purge.Stats.{AgreesWith, stat_of-group_rows}
use logingestor.Retention.Run.{
  nothing_deleted, project_targets, prune_client_errors, run, target_of, targets_of,
}
use logingestor.Retention.Run.Errors.{for_release, is_filed, prune_client_errors-KeepsUsed}
use logingestor.Retention.Run.Logs.{passes_in, run-AgreesWith, run-IsBounded, run_spares}

abbrev retention_env : RetentionEnv
retention_env = record { fails = λ n call. false; now = λ n. 100 * day; cancelled = λ n. false }

abbrev log_row : ℕ → Time → LogRow
log_row id ts = record {
  id = id;
  project_id = 1;
  source_type = app;
  source = codes "web";
  level = codes "error";
  ts = ts;
}

-- Two rows that have expired, a recent one, and an old one of a source type that is kept.
abbrev log_rows : List LogRow
log_rows =
    log_row 1 (10 * day)
    ∷ log_row 2 (20 * day)
    ∷ log_row 3 (99 * day)
    ∷ record (log_row 4 day) { source_type = infra }
    ∷ []

abbrev log_keys : IsKeyed log_id log_rows
log_keys = ((refl, (refl, (refl, tt))), ((refl, (refl, tt)), ((refl, tt), (tt, tt))))

abbrev log_tables : Tables
log_tables = record {
  statements = 0;
  projects = record { id = 1; org_id = 1; retention_days = some (pos 30) } ∷ [];
  subscriptions = [];
  plans = [];
  logs = log_rows;
  stats = group_rows log_rows;
  audit = [];
  source_stats = [];
  rejects = [];
  events = [];
  issues = [];
  facets = [];
  artifacts = [];
}

-- One row to a statement, and one row to a run.
abbrev small_config : Config
small_config = record default_config { batch_size = pos 1; max_rows = pos 1 }

run-AgreesWith_example :
    AgreesWith
      (run retention_env small_config log_tables).1.logs
      (run retention_env small_config log_tables).1.stats
run-AgreesWith_example =
    run-AgreesWith retention_env small_config log_tables log_keys
      (λ k. stat_of-group_rows k log_rows) (λ n c h. refl)

abbrev is_recent : LogRow → Bool
is_recent r = leb (80 * day) r.ts

abbrev app_pass : Pass
app_pass = record { project_id = 1; source_type = app }

recent_kept : Harmless app_pass (cutoff_of (100 * day) (pos 30)) is_recent
unfolding is_expired in_pass
recent_kept r h = ground (arith, h, cutoff_exact (100 * day) 30 (ground arith))

recent_spared :
    All
      (λ p.
        (n : ℕ) → expires p.1 ≡ true → Harmless p.0 (cutoff_of (retention_env.now n) p.1) is_recent)
      (passes_in log_tables)
unfolding targets_of project_targets target_of expires
recent_spared = (λ n h. recent_kept, (λ n h. absurd (ground (arith, h)), tt))

run_spares_example :
    select is_recent (run retention_env small_config log_tables).1.logs ≡ select is_recent log_rows
run_spares_example =
    run_spares retention_env small_config log_tables log_keys is_recent recent_spared

run-IsBounded_example :
    (let ((res, failure), u) = run retention_env small_config log_tables in
      ((rows_of app u + res.app_deleted ≡ rows_of app log_tables)
        × (rows_of infra u + res.infra_deleted ≡ rows_of infra log_tables))
      × (res.infra_deleted + res.app_deleted ≤ 1))
run-IsBounded_example = run-IsBounded retention_env small_config log_tables log_keys (ground arith)

-- One row to a statement, and no bound on the run.
abbrev unbounded : Config
unbounded = record default_config { batch_size = pos 1; max_rows = pos 0 }

purge_finishes_example :
    (let (o, u) = purge retention_env unbounded app_pass (pos 30) 0 none log_tables in
      ((o.failure ≡ none) × (o.incomplete ≡ false))
      × (u.logs
          ≡ select (λ r. not (is_expired app_pass (cutoff_of (100 * day) (pos 30)) r)) log_rows))
purge_finishes_example =
    purge_finishes retention_env unbounded app_pass (ground arith) 0 (λ n c. refl) (λ n. refl) refl
      (pos 30) log_tables log_keys

wrapped_done :
    (purge retention_env default_config app_pass (pos 106_752) 0 none log_tables).0.failure ≡ none
unfolding purge delete_expired run_batches delete_turn next_batch delete_oldest doomed by_age
    insert_aged is_expired in_pass cutoff_of wrap64 ◌*ℤ◌ boundary_hour repair_rollup repaired
    oldest_of
wrapped_done = refl

wrapped_whole :
    (purge retention_env default_config app_pass (pos 106_752) 0 none log_tables).0.incomplete
    ≡ false
unfolding purge delete_expired run_batches delete_turn next_batch delete_oldest doomed by_age
    insert_aged is_expired in_pass cutoff_of wrap64 ◌*ℤ◌ boundary_hour repair_rollup repaired
    oldest_of
wrapped_whole = refl

purge-wraps_example :
    select
      (λ r. in_pass app_pass r && leb r.ts (100 * day))
      (purge retention_env default_config app_pass (pos 106_752) 0 none log_tables).1.logs
    ≡ []
purge-wraps_example =
    purge-wraps retention_env default_config app_pass 106_752 0 none log_tables (ground arith)
      (ground arith) (ground arith) log_keys wrapped_done wrapped_whole

-- An old report under an old issue, and a recent one under another.
abbrev report_tables : Tables
report_tables = record log_tables {
  events =
      new_row (record stored_crash { issue_id = some 100 })
      ∷ new_row (record stored_crash { id = 51; issue_id = some 101; received_at = 99 * day })
      ∷ [];
  issues = closed_issue ∷ record closed_issue { id = 101 } ∷ [];
}

prune_client_errors-KeepsUsed_example :
    (let u =
        (prune_client_errors retention_env
          (config_defaults default_config)
          none
          nothing_deleted
          report_tables).1 in
      All
        (λ r.
          (is_filed u.issues r ≡ true)
          × (select (for_release r.event.release) u.artifacts
              ≡ select (for_release r.event.release) report_tables.artifacts))
        u.events)
prune_client_errors-KeepsUsed_example =
    prune_client_errors-KeepsUsed retention_env (config_defaults default_config) none
      nothing_deleted report_tables (refl, (refl, tt))
