-- ===== src/Retention/Purge.antt =====
-- business/sdk/retention/retention.go: `purge`, `deleteExpired`, `nextBatch` and `repairRollup`.
pub mod Turns
pub mod Drains
pub mod Stats
pub mod Order
pub mod Rollup
pub mod Agrees
pub mod Whole
pub mod Finishes
use logingestor.Prelude.{
  ℕ, suc, ◌+◌, ◌-◌, Bool, true, false, not, ◌&&◌, ◌||◌, Option, none, some, List, [], ◌∷◌, any,
  find, select, length, min, ltb, leb, ◌==◌, if◌then◌else◌,
}
use logingestor.Prelude.Int.{ℤ, pos, pos_part, leb_ℤ, ltb_ℤ, sub_ℕ}
use logingestor.Prelude.Text.{text_eq}
use logingestor.Prelude.Clock.{Time, before}
use logingestor.Prelude.Result.{Result, ok, err}
use logingestor.Prelude.Exec.{Exec, ◌>>=◌, ◌>>◌}
use logingestor.Alerting.Model.{Uuid}
use logingestor.Retention.Model.{
  SourceType, same_type, Config, cutoff_of, boundary_hour, LogRow, StatKey, Tables, RetentionCall,
  delete_logs, oldest_row, begin_tx, drop_hours, rebuild_hour, commit_tx, RetentionError,
  statement_failed, RetentionEnv,
}
use logingestor.Retention.Batches.{delete_oldest, Purged, Turn, halt, go_on, run_batches}

-- One source type of one project.
pub record Pass : Type 0 where
  pub project_id : Uuid
  pub source_type : SourceType

unfoldable pub in_pass : Pass → LogRow → Bool
in_pass p r = r.project_id == p.project_id && same_type r.source_type p.source_type

unfoldable pub is_expired : Pass → Time → LogRow → Bool
is_expired p cutoff r = in_pass p r && before r.ts cutoff

-- `nextBatch`, for a batch size that is positive: `none` where the budget is spent.
unfoldable pub next_batch : Config → ℕ → Option ℕ
next_batch cfg gone =
    if leb_ℤ cfg.max_rows (pos 0)
    then some (pos_part cfg.batch_size)
    else if leb (pos_part cfg.max_rows) gone
    then none
    else some (min (pos_part cfg.batch_size) (pos_part cfg.max_rows - gone))

abbrev pub sent : Tables → Tables
sent w = record w { statements = suc w.statements }

-- The context is cancelled, or the deadline has passed where there is one.
abbrev past : Option Time → Time → Bool
past none now = false
past (some deadline) now = before deadline now

abbrev pub halted : RetentionEnv → Option Time → Tables → Bool
halted env deadline w = env.cancelled w.statements || past deadline (env.now w.statements)

abbrev pub log_id : LogRow → Uuid
log_id r = r.id

abbrev pub log_ts : LogRow → Time
log_ts r = r.ts

abbrev pub outcome : ℕ → Bool → Option RetentionError → Purged
outcome n incomplete failure = record { deleted = n; incomplete = incomplete; failure = failure }

module _ (env : RetentionEnv) (cfg : Config) (p : Pass) (cutoff : Time) where
  -- A batch that was sent: a short one means that the pass is drained.
  abbrev pub after_batch : ℕ → ℕ → Tables → ℕ × List LogRow → Turn
  after_batch batch deleted w (n, rows) =
      if ltb n batch
      then halt (outcome (deleted + n) false none) (record (sent w) { logs = rows })
      else go_on (deleted + n) (record (sent w) { logs = rows })

  abbrev pub send_batch : Option ℕ → ℕ → Tables → Turn
  send_batch none deleted w = halt (outcome deleted true none) w
  send_batch (some batch) deleted w =
      if env.fails w.statements delete_logs
      then halt (outcome deleted false (some (statement_failed delete_logs))) (sent w)
      else after_batch batch deleted w
          (delete_oldest log_id log_ts batch (is_expired p cutoff) w.logs)

  -- One turn of the loop of `deleteExpired`.
  unfoldable pub delete_turn : ℕ → Option Time → ℕ → Tables → Turn
  delete_turn spent deadline deleted w =
      if halted env deadline w
      then halt (outcome deleted true none) w
      else send_batch (next_batch cfg (spent + deleted)) deleted w

  unfoldable pub delete_expired : ℕ → Option Time → Tables → Purged × Tables
  delete_expired spent deadline w =
      run_batches (delete_turn spent deadline) (suc (length w.logs)) 0 w

-- `SELECT min(ts)`
abbrev earlier : Time → Option Time → Option Time
earlier t none = some t
earlier t (some u) = some (min t u)

unfoldable pub oldest_of : Pass → List LogRow → Option Time
oldest_of p [] = none
oldest_of p (r ∷ rs) = let rest = oldest_of p rs in if in_pass p r then earlier r.ts rest else rest

-- `GROUP BY`: the group of a row, and the rows counted by group.
abbrev pub key_of_row : LogRow → StatKey
key_of_row r = record {
  project_id = r.project_id;
  hour_start = (boundary_hour r.ts).0;
  source_type = r.source_type;
  source = r.source;
  level = r.level;
}

unfoldable pub same_key : StatKey → StatKey → Bool
same_key j k =
    (j.project_id == k.project_id && j.hour_start == k.hour_start)
    && same_type j.source_type k.source_type
    && text_eq j.source k.source
    && text_eq j.level k.level

-- `ON CONFLICT (…) DO UPDATE SET count = EXCLUDED.count`, by the function of the stored count.
unfoldable pub put_stat : StatKey → (ℕ → ℕ) → ℕ → List (StatKey × ℕ) → List (StatKey × ℕ)
put_stat k f n [] = (k, n) ∷ []
put_stat k f n ((j, c) ∷ stats) =
    let rest = put_stat k f n stats in if same_key j k then (j, f c) ∷ stats else (j, c) ∷ rest

unfoldable pub group_rows : List LogRow → List (StatKey × ℕ)
group_rows [] = []
group_rows (r ∷ rs) = put_stat (key_of_row r) (λ c. suc c) 1 (group_rows rs)

unfoldable pub upsert_stats : List (StatKey × ℕ) → List (StatKey × ℕ) → List (StatKey × ℕ)
upsert_stats [] stats = stats
upsert_stats ((k, n) ∷ gs) stats = put_stat k (λ _. n) n (upsert_stats gs stats)

abbrev pub stat_of_pass : Pass → StatKey × ℕ → Bool
stat_of_pass p (k, n) = k.project_id == p.project_id && same_type k.source_type p.source_type

abbrev pub is_drained : Pass → Time → StatKey × ℕ → Bool
is_drained p start (k, n) = stat_of_pass p (k, n) && leb k.hour_start start

abbrev pub in_hour : Pass → Time × Time → LogRow → Bool
in_hour p (start, end) r = in_pass p r && (not (before r.ts start) && before r.ts end)

-- The rollup that the transaction commits.
unfoldable pub repaired : Pass → Option Time → List LogRow → List (StatKey × ℕ) → List (StatKey × ℕ)
repaired p none logs stats = select (λ s. not (stat_of_pass p s)) stats
repaired p (some t) logs stats =
    upsert_stats (group_rows (select (in_hour p (boundary_hour t)) logs))
      (select (λ s. not (is_drained p (boundary_hour t).0 s)) stats)

abbrev pub RetentionExec : Type 0 → Type 0
RetentionExec A = Exec Tables RetentionError A

-- A statement that is sent.
abbrev pub send :
    {A : Type 0} → RetentionEnv → RetentionCall → (Tables → A) → (Tables → Tables) → RetentionExec A
send env call answer write w =
    if env.fails w.statements call
    then (err (statement_failed call), sent w)
    else (ok (answer w), sent (write w))

abbrev pub tell : RetentionEnv → RetentionCall → RetentionExec (Unit {0})
tell env call = send env call (λ _. tt) (λ w. w)

-- What the transaction writes is kept by its commit alone.
abbrev pub rewrite_stats : RetentionEnv → Pass → Option Time → RetentionExec (Unit {0})
rewrite_stats env p none = do
  tell env drop_hours
  send env commit_tx (λ _. tt) λ w. record w { stats = repaired p none w.logs w.stats }
rewrite_stats env p (some t) = do
  tell env drop_hours
  tell env rebuild_hour
  send env commit_tx (λ _. tt) λ w. record w { stats = repaired p (some t) w.logs w.stats }

unfoldable pub repair_rollup : RetentionEnv → Pass → RetentionExec (Unit {0})
repair_rollup env p = do
  oldest ← send env oldest_row (λ w. oldest_of p w.logs) (λ w. w)
  tell env begin_tx
  rewrite_stats env p oldest

-- The error of the delete comes before that of the repair.
abbrev pub or_failure :
    Option RetentionError → Result RetentionError (Unit {0}) → Option RetentionError
or_failure (some e) r = some e
or_failure none (err e) = some e
or_failure none (ok u) = none

abbrev pub repair_after : RetentionEnv → Pass → Purged × Tables → Purged × Tables
repair_after env p (o, w) =
    if ltb 0 o.deleted
    then (let (r, w') = repair_rollup env p w in
        (record o { failure = or_failure o.failure r }, w'))
    else (o, w)

unfoldable pub purge : RetentionEnv → Config → Pass → ℤ → ℕ → Option Time → Tables → Purged × Tables
purge env cfg p days spent deadline w =
    repair_after env p
      (delete_expired env cfg p (cutoff_of (env.now w.statements) days) spent deadline w)
