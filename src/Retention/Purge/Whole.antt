-- ===== src/Retention/Purge/Whole.antt =====
-- What a whole `purge` does, whatever stops it.
use logingestor.Prelude.{
  ℕ, suc, ◌+◌, ◌≤◌, ◌≡◌, refl, sym, ◌∙◌, Bool, true, false, not, Option, none, some, select, length,
  ltb, arith, Bool-cases, Option-cases, inl, inr,
}
use logingestor.Prelude.Int.{ℤ, pos, pos_part, ◌≤ℤ◌}
use logingestor.Prelude.Clock.{Time}
use logingestor.Prelude.Result.{Result}
use logingestor.Prelude.Exec.{◌>>=◌}
use logingestor.Prelude.Exec.Keeps.{Moves, Chains, Moves-bind}
use logingestor.Prelude.Rows.{IsKeyed}
use logingestor.Retention.Model.{
  Config, cutoff_of, LogRow, Tables, RetentionCall, oldest_row, begin_tx, drop_hours, rebuild_hour,
  commit_tx, RetentionError, RetentionEnv,
}
use logingestor.Retention.Batches.{Purged}
use logingestor.Retention.Purge.{
  Pass, is_expired, log_id, delete_expired, oldest_of, repaired, send, tell, rewrite_stats,
  repair_rollup, or_failure, purge, RetentionExec,
}
use logingestor.Retention.Purge.Drains.{
  Spares, Harmless, delete_expired-Spares, delete_expired_drains, delete_expired-splits,
  delete_expired_within,
}
use logingestor.Retention.Purge.Stats.{AgreesWith}
use logingestor.Retention.Purge.Order.{Ordered, delete_expired-Ordered}
use logingestor.Retention.Purge.Agrees.{repaired-AgreesWith}

-- The repair leaves the logs alone.
abbrev SameLogs : Tables → Tables → Type 0
SameLogs w w' = w'.logs ≡ w.logs

abbrev same_logs : Chains SameLogs
same_logs = record { same = λ w. refl; chain = λ a b c h k. k ∙ h }

Moves-send :
    {A : Type 0} (env : RetentionEnv) (call : RetentionCall) (answer : Tables → A)
    (write : Tables → Tables)
    → ((w : Tables) → (write w).logs ≡ w.logs)
    → Moves SameLogs (send env call answer write)
Moves-send env call answer write h w = elim (Bool-cases (env.fails w.statements call)) [
  | inl t ↦ rw t refl
  | inr f ↦ rw f (h w)
]

Moves-tell : (env : RetentionEnv) (call : RetentionCall) → Moves SameLogs (tell env call)
Moves-tell env call = Moves-send env call (λ _. tt) (λ w. w) (λ w. refl)

commit_stats : RetentionEnv → Pass → Option Time → RetentionExec (Unit {0})
commit_stats env p o =
    send env commit_tx (λ _. tt) λ w. record w { stats = repaired p o w.logs w.stats }

Moves-commit :
    (env : RetentionEnv) (p : Pass) (o : Option Time) → Moves SameLogs (commit_stats env p o)
unfolding commit_stats
Moves-commit env p o = Moves-send env commit_tx (λ _. tt) _ (λ w. refl)

rewrite_stats-SameLogs :
    (env : RetentionEnv) (p : Pass) (o : Option Time) → Moves SameLogs (rewrite_stats env p o)
unfolding commit_stats
rewrite_stats-SameLogs env p none =
    Moves-bind same_logs (tell env drop_hours) (λ _. commit_stats env p none)
      (Moves-tell env drop_hours) (λ _. Moves-commit env p none)
rewrite_stats-SameLogs env p (some t) =
    Moves-bind same_logs (tell env drop_hours)
      (λ _. tell env rebuild_hour >>= λ _. commit_stats env p (some t)) (Moves-tell env drop_hours)
      (λ _.
        Moves-bind same_logs (tell env rebuild_hour) (λ _. commit_stats env p (some t))
          (Moves-tell env rebuild_hour) (λ _. Moves-commit env p (some t)))

repair_rollup-SameLogs : (env : RetentionEnv) (p : Pass) → Moves SameLogs (repair_rollup env p)
unfolding repair_rollup
repair_rollup-SameLogs env p =
    Moves-bind same_logs (send env oldest_row (λ w. oldest_of p w.logs) (λ w. w))
      (λ o. tell env begin_tx >>= λ _. rewrite_stats env p o)
      (Moves-send env oldest_row _ _ (λ w. refl))
      (λ o.
        Moves-bind same_logs (tell env begin_tx) (λ _. rewrite_stats env p o)
          (Moves-tell env begin_tx) (λ _. rewrite_stats-SameLogs env p o))

-- The statements of the repair.
abbrev pub is_repair : RetentionCall → Bool
is_repair oldest_row = true
is_repair begin_tx = true
is_repair drop_hours = true
is_repair rebuild_hour = true
is_repair commit_tx = true
is_repair _ = false

abbrev pub Repairs : RetentionEnv → Type 0
Repairs env = (n : ℕ) (c : RetentionCall) → is_repair c ≡ true → env.fails n c ≡ false

repair_rollup_done :
    (env : RetentionEnv) (p : Pass) (w : Tables)
    → Repairs env
    → (repair_rollup env p w).1.stats ≡ repaired p (oldest_of p w.logs) w.logs w.stats
unfolding repair_rollup
repair_rollup_done env p w works = elim (Option-cases (oldest_of p w.logs)) [
  | inl e ↦
      rw
        (
          works w.statements oldest_row refl,
          works (suc w.statements) begin_tx refl,
          e,
          works (suc (suc w.statements)) drop_hours refl,
          works (suc (suc (suc w.statements))) commit_tx refl,
        )
        refl
  | inr (t, e) ↦
      rw
        (
          works w.statements oldest_row refl,
          works (suc w.statements) begin_tx refl,
          e,
          works (suc (suc w.statements)) drop_hours refl,
          works (suc (suc (suc w.statements))) rebuild_hour refl,
          works (suc (suc (suc (suc w.statements)))) commit_tx refl,
        )
        refl
]

first_failure :
    (o : Option RetentionError) (r : Result RetentionError (Unit {0}))
    → or_failure o r ≡ none
    → o ≡ none
first_failure none r h = refl
first_failure (some e) r h = absurd (ground (arith, h))

module _ (env : RetentionEnv) (cfg : Config) (p : Pass) (days : ℤ) (sized : pos 1 ≤ℤ cfg.batch_size)
    (spent : ℕ) (deadline : Option Time) (w : Tables) (keyed : IsKeyed log_id w.logs) where
  abbrev cutoff : Time
  cutoff = cutoff_of (env.now w.statements) days

  abbrev emptied : Purged × Tables
  emptied = delete_expired env cfg p cutoff spent deadline w

  abbrev purged : Purged × Tables
  purged = purge env cfg p days spent deadline w

  purged-logs : purged.1.logs ≡ emptied.1.logs
  unfolding purge
  purged-logs = elim (Bool-cases (ltb 0 emptied.0.deleted)) [
    | inl t ↦ rw t (repair_rollup-SameLogs env p emptied.1)
    | inr f ↦ rw f refl
  ]

  purged_counts :
      (purged.0.deleted ≡ emptied.0.deleted) × (purged.0.incomplete ≡ emptied.0.incomplete)
  unfolding purge
  purged_counts = elim (Bool-cases (ltb 0 emptied.0.deleted)) [
    | inl t ↦ rw t (refl, refl)
    | inr f ↦ rw f (refl, refl)
  ]

  purged-failure : purged.0.failure ≡ none → emptied.0.failure ≡ none
  unfolding purge
  purged-failure = elim (Bool-cases (ltb 0 emptied.0.deleted)) [
    | inl t ↦ rw t (λ f. first_failure _ _ f)
    | inr f ↦ rw f (λ e. e)
  ]

  -- A purge spares every row that it does not expire, whatever stops it.
  pub purge-Spares : (q : LogRow → Bool) → Harmless p cutoff q → Spares q w purged.1
  purge-Spares q h =
      rw purged-logs (delete_expired-Spares env cfg p cutoff sized spent deadline w keyed q h)

  -- A purge that reports neither a failure nor an early stop has deleted exactly the expired rows, for a
  -- batch size of at least one and one row to an id.
  pub purge_drains :
      purged.0.failure ≡ none
      → purged.0.incomplete ≡ false
      → purged.1.logs ≡ select (λ r. not (is_expired p cutoff r)) w.logs
  purge_drains f i =
      purged-logs
      ∙ delete_expired_drains env cfg p cutoff sized spent deadline w keyed (purged-failure f)
          (sym purged_counts.1 ∙ i)

  -- The rows that were deleted before and by the purge keep to the budget.
  pub purge_within :
      pos 1 ≤ℤ cfg.max_rows
      → spent ≤ pos_part cfg.max_rows
      → spent + purged.0.deleted ≤ pos_part cfg.max_rows
  purge_within limited room =
      rw purged_counts.0
        (delete_expired_within env cfg p cutoff sized spent deadline w keyed limited room)

  -- The count that a purge reports is that of the rows that are gone.
  pub purge-splits : length purged.1.logs + purged.0.deleted ≡ length w.logs
  purge-splits =
      rw (purged-logs, purged_counts.0)
        (delete_expired-splits env cfg p cutoff sized spent deadline w keyed)

  -- After a purge the rollup agrees with the logs, whatever stopped it, if it did before and the
  -- statements of the repair succeed.
  pub purge-AgreesWith :
      AgreesWith w.logs w.stats → Repairs env → AgreesWith purged.1.logs purged.1.stats
  unfolding purge
  purge-AgreesWith agrees works k =
      let o : Ordered p w emptied.0.deleted emptied.1 =
        delete_expired-Ordered env cfg p cutoff sized spent deadline w keyed in
      elim (Bool-cases (ltb 0 emptied.0.deleted)) [
        | inl t ↦
            rw (t, repair_rollup_done env p emptied.1 works, repair_rollup-SameLogs env p emptied.1)
              (repaired-AgreesWith p k w emptied.1 _ o agrees)
        | inr f ↦ rw (f, o.same_stats, o.untouched (ground (arith, f))) (agrees k)
      ]
