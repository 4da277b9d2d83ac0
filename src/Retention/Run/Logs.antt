-- ===== src/Retention/Run/Logs.antt =====
-- What a run does to the logs and their rollup, whatever fails, is cancelled or runs out.
use logingestor.Prelude.{
  ℕ, suc, ◌+◌, ◌≤◌, ◌≡◌, refl, ◌∙◌, Bool, true, false, Option, List, select, All, All-map, arith,
  Bool-cases, Option-cases, inl, inr,
}
use logingestor.Prelude.Int.{ℤ, pos, pos_part, ◌≤ℤ◌}
use logingestor.Prelude.Clock.{Time}
use logingestor.Prelude.Rows.{IsKeyed, All-every}
use logingestor.Retention.Model.{
  SourceType, app, infra, Config, config_defaults, RunResult, total, expires, cutoff_of, LogRow,
  Tables, RetentionEnv, status_check, select_targets,
}
use logingestor.Retention.Batches.{Purged}
use logingestor.Retention.Purge.{Pass, log_id, purge, sent}
use logingestor.Retention.Purge.Drains.{Spares, Harmless}
use logingestor.Retention.Purge.Stats.{AgreesWith}
use logingestor.Retention.Purge.Whole.{Repairs, purge-Spares, purge_within, purge-AgreesWith}
use logingestor.Retention.Run.{
  Ran, project_targets, targets_of, all_passes, counted, run_pass, run_passes, run_rest,
  nothing_deleted, deadline_of, run_targets, run,
}
use logingestor.Retention.Run.Keeps.{
  Invariant, Holds, Keeps, and_then-Holds, run_passes-Keeps, Aside, run_rest-Keeps,
}
use logingestor.Retention.Run.Counts.{rows_of, counted_deleted, purge_takes}

abbrev Stable : Invariant → Type 0
Stable Final =
    (res res' : RunResult) (w w' : Tables) → Final res w → Aside res w res' w' → Final res' w'

batch_size_positive : (cfg : Config) → pos 1 ≤ℤ (config_defaults cfg).batch_size
unfolding config_defaults
batch_size_positive cfg = ground arith

-- The passes that a run makes.
abbrev pub passes_in : Tables → List (Pass × ℤ)
passes_in w = all_passes (targets_of w w.projects)

-- What every pass keeps, and what is left of it when the rest has run.
run_rule :
    (Inv Final : Invariant) (env : RetentionEnv) (cfg : Config) (w : Tables)
    → ((res : RunResult) (u : Tables) → Inv res u → Final res u)
    → Stable Final
    → ((deadline : Option Time)
        → All (λ p. Keeps Inv (run_pass env (config_defaults cfg) deadline p)) (passes_in w))
    → Inv nothing_deleted (sent w)
    → Inv nothing_deleted (sent (sent w))
    → Holds Final (run env cfg w)
unfolding run run_targets targets_of project_targets
run_rule Inv Final env cfg w weaken stable keep start start' =
    elim (Bool-cases (env.fails w.statements status_check)) [
      | inl t ↦ rw t (weaken nothing_deleted (sent w) start)
      | inr f ↦ elim (Bool-cases (env.fails (suc w.statements) select_targets)) [
        | inl t ↦ rw (f, t) (weaken nothing_deleted (sent (sent w)) start')
        | inr e ↦
            rw (f, e)
              (and_then-Holds Final passes (run_rest env (config_defaults cfg) deadline)
                (weaken passes.0.0 passes.1 (
                  run_passes-Keeps Inv env (config_defaults cfg) deadline (passes_in w)
                    (keep deadline) nothing_deleted (sent (sent w)) start'))
                (λ res u j. stable res _ u _ j (
                  run_rest-Keeps env (config_defaults cfg) deadline res u res u
                    (refl, refl, refl, refl))))
      ]
    ]
  where
    deadline : Option Time
    deadline = deadline_of (config_defaults cfg) (env.now (suc (suc w.statements)))

    passes : Ran
    passes =
        run_passes env (config_defaults cfg) deadline (passes_in w) nothing_deleted (sent (sent w))

-- A pass ends with what its purge left, and counts what it deleted.
counted-tables :
    (t : SourceType) (res : RunResult) (x : Purged × Tables) → (counted t res x).1 ≡ x.1
counted-tables t res (o, u) = elim (Option-cases o.failure) [
  | inl e ↦ rw e refl
  | inr (f, e) ↦ rw e refl
]

counted_sum :
    (t : SourceType) (res : RunResult) (x : Purged × Tables)
    → (let ((res', failure), u) = counted t res x in
        (res'.infra_deleted + res'.app_deleted ≡ res.infra_deleted + res.app_deleted + x.0.deleted)
        × (res'.audit_deleted ≡ res.audit_deleted))
counted_sum app res (o, u) = elim (Option-cases o.failure) [
  | inl e ↦ rw e (omega arith, refl)
  | inr (f, e) ↦ rw e (omega arith, refl)
]
counted_sum infra res (o, u) = elim (Option-cases o.failure) [
  | inl e ↦ rw e (omega arith, refl)
  | inr (f, e) ↦ rw e (omega arith, refl)
]

pass_tables :
    (env : RetentionEnv) (cfg : Config) (deadline : Option Time) (p : Pass) (days : ℤ)
    (R : Tables → Type 0) (res : RunResult) (u : Tables)
    → R u
    → (expires days ≡ true → R (purge env cfg p days (total res) deadline u).1)
    → R (run_pass env cfg deadline (p, days) res u).1
unfolding run_pass
pass_tables env cfg deadline p days R res u h k = elim (Bool-cases (expires days)) [
  | inl t ↦
      rw (t, counted-tables p.source_type res (purge env cfg p days (total res) deadline u)) (k t)
  | inr f ↦ rw f h
]

module _ (env : RetentionEnv) (cfg : Config) (w : Tables) (keyed : IsKeyed log_id w.logs) where
  -- In a table with one row to an id, a run spares every row that no pass of it expires at any time that
  -- the clock shows, whatever fails.
  pub run_spares :
      (q : LogRow → Bool)
      → All
          (λ p. (n : ℕ) → expires p.1 ≡ true → Harmless p.0 (cutoff_of (env.now n) p.1) q)
          (passes_in w)
      → select q (run env cfg w).1.logs ≡ select q w.logs
  run_spares q harmless =
      let (k, same) : Spares q w (run env cfg w).1 =
        run_rule (λ res u. Spares q w u) (λ res u. Spares q w u) env cfg w (λ res u h. h)
          (λ res res' u u' h a. rw a.2 h)
          (λ deadline.
            All-map _ (passes_in w)
              (λ p h res u s. pass_tables env _ deadline p.0 p.1 (Spares q w) res u s λ t.
                (let (k', same') =
                    purge-Spares env _ p.0 p.1 (batch_size_positive cfg) (total res) deadline u s.0
                      q (h u.statements t) in
                  (k', same' ∙ s.1)))
              harmless)
          (keyed, refl) (keyed, refl) in
      same

  -- After a run the rollup agrees with the logs, whatever stopped it, if it did before, the table has one
  -- row to an id and the statements of the repair succeed.
  pub run-AgreesWith :
      AgreesWith w.logs w.stats
      → Repairs env
      → AgreesWith (run env cfg w).1.logs (run env cfg w).1.stats
  run-AgreesWith agrees works =
      (run_rule (λ res u. Sound u) (λ res u. Sound u) env cfg w (λ res u h. h)
        (λ res res' u u' h a. rw (a.2, a.3) h)
        (λ deadline. All-every _ (passes_in w) λ p res u s.
          pass_tables env _ deadline p.0 p.1 Sound res u s λ t. (
            (purge-Spares env _ p.0 p.1 (batch_size_positive cfg) (total res) deadline u s.0
                (λ r. false) (λ r e. refl)).0,
            purge-AgreesWith env _ p.0 p.1 (batch_size_positive cfg) (total res) deadline u s.0 s.1
                works,
          ))
        (keyed, agrees) (keyed, agrees)).1
    where
      Sound : Tables → Type 0
      Sound u = IsKeyed log_id u.logs × AgreesWith u.logs u.stats

  abbrev Counts : Invariant
  Counts res u =
      IsKeyed log_id u.logs
      × (((rows_of app u + res.app_deleted ≡ rows_of app w)
            × (rows_of infra u + res.infra_deleted ≡ rows_of infra w))
          × (pos 1 ≤ℤ cfg.max_rows → res.infra_deleted + res.app_deleted ≤ pos_part cfg.max_rows))

  abbrev Early : Invariant
  Early res u = (res.audit_deleted ≡ 0) × Counts res u

  pass_counts :
      (deadline : Option Time) (p : Pass) (days : ℤ)
      → Keeps Early (run_pass env (config_defaults cfg) deadline (p, days))
  unfolding run_pass config_defaults
  pass_counts deadline p days res u (a, (k, (gone, room))) = elim (Bool-cases (expires days)) [
    | inr f ↦ rw f (a, (k, (gone, room)))
    | inl t ↦
        let x = purge env (config_defaults cfg) p days (total res) deadline u in
        let (sum, same) = counted_sum p.source_type res x in
        let sized = batch_size_positive cfg in
        let takes = purge_takes env (config_defaults cfg) p days sized (total res) deadline u k in
        let kept : IsKeyed log_id x.1.logs =
          (purge-Spares env _ p days sized (total res) deadline u k (λ r. false) (λ r e. refl)).0 in
        rw (t, counted-tables p.source_type res x)
          (
            same ∙ a,
            (
              kept,
              (
                (
                  omega (arith, gone.0, counted_deleted app p.source_type res x, takes app),
                  omega (arith, gone.1, counted_deleted infra p.source_type res x, takes infra),
                ),
                λ limited. omega (
                  arith,
                  sum,
                  a,
                  room limited,
                  purge_within env _ p days sized (total res) deadline u k limited
                      (omega (arith, a, room limited)),
                ),
              ),
            ),
          )
  ]

  -- With a row budget a run counts for each source type as many logs as are gone of that type, and they are
  -- no more than the budget together, if the table has one row to an id.
  pub run-IsBounded :
      pos 1 ≤ℤ cfg.max_rows
      → (let ((res, failure), u) = run env cfg w in
          ((rows_of app u + res.app_deleted ≡ rows_of app w)
            × (rows_of infra u + res.infra_deleted ≡ rows_of infra w))
          × (res.infra_deleted + res.app_deleted ≤ pos_part cfg.max_rows))
  run-IsBounded limited =
      let start : Counts nothing_deleted w =
        (keyed, ((omega arith, omega arith), λ _. omega arith)) in
      let (k, (sum, room)) =
        run_rule Early Counts env cfg w (λ res u h. h.1) (λ res res' u u' h a. rw (a.0, a.1, a.2) h)
          (λ deadline. All-every _ (passes_in w) λ p. pass_counts deadline p.0 p.1) (refl, start)
          (refl, start) in
      (sum, room limited)
