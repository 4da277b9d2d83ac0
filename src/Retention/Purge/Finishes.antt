-- ===== src/Retention/Purge/Finishes.antt =====
-- A purge that nothing stops runs to its end.
use logingestor.Prelude.{
  ℕ, suc, ◌<◌, ◌≡◌, refl, true, false, not, none, List, select, length, ltb, arith, Bool-cases,
  Option-cases, inl, inr,
}
use logingestor.Prelude.Int.{ℤ, pos, pos_part, ◌≤ℤ◌, leb_ℤ}
use logingestor.Prelude.Clock.{Time}
use logingestor.Prelude.Result.{ok}
use logingestor.Prelude.Rows.{IsKeyed}
use logingestor.Retention.Model.{
  Config, LogRow, cutoff_of, Tables, RetentionCall, delete_logs, oldest_row, begin_tx, drop_hours,
  rebuild_hour, commit_tx, RetentionEnv,
}
use logingestor.Retention.Batches.{delete_oldest, Purged}
use logingestor.Retention.Batches.Deletes.{delete_oldest-splits}
use logingestor.Retention.Batches.Loop.{Ends, batches_rule}
use logingestor.Retention.Purge.{
  Pass, log_id, log_ts, is_expired, next_batch, delete_turn, delete_expired, oldest_of,
  repair_rollup, purge,
}
use logingestor.Retention.Purge.Whole.{purge_drains}

abbrev Done : Purged → Tables → Type 0
Done o w = (o.failure ≡ none) × (o.incomplete ≡ false)

module _ (env : RetentionEnv) (cfg : Config) (p : Pass) (sized : pos 1 ≤ℤ cfg.batch_size)
    (spent : ℕ) (works : (n : ℕ) (c : RetentionCall) → env.fails n c ≡ false)
    (running : (n : ℕ) → env.cancelled n ≡ false)
    (unlimited : leb_ℤ cfg.max_rows (pos 0) ≡ true) where
  abbrev size : ℕ
  size = pos_part cfg.batch_size

  abbrev batch : Time → Tables → ℕ × List LogRow
  batch cutoff w = delete_oldest log_id log_ts size (is_expired p cutoff) w.logs

  turn-Ends :
      (cutoff : Time) (d : ℕ) (w : Tables)
      → Unit {0}
      → Ends
          (λ d' w'. Unit {0} × (length w'.logs < length w.logs))
          Done
          (delete_turn env cfg p cutoff spent none d w)
  unfolding delete_turn next_batch
  turn-Ends cutoff d w i = elim (Bool-cases (ltb (batch cutoff w).0 size)) [
    | inl t ↦ rw (running w.statements, unlimited, works w.statements delete_logs, t) (refl, refl)
    | inr f ↦
        rw (running w.statements, unlimited, works w.statements delete_logs, f)
          (
            tt,
            ground (
              arith,
              f,
              sized,
              delete_oldest-splits log_id log_ts size (is_expired p cutoff) w.logs,
            ),
          )
  ]

  delete_expired-Done :
      (cutoff : Time) (w : Tables)
      → Done
          (delete_expired env cfg p cutoff spent none w).0
          (delete_expired env cfg p cutoff spent none w).1
  unfolding delete_expired
  delete_expired-Done cutoff w =
      batches_rule (delete_turn env cfg p cutoff spent none) (λ u. length u.logs) (λ d u. Unit {0})
        Done (turn-Ends cutoff) (suc (length w.logs)) 0 w (omega arith) tt

  repair_rollup_works : (w : Tables) → (repair_rollup env p w).0 ≡ ok tt
  unfolding repair_rollup
  repair_rollup_works w = elim (Option-cases (oldest_of p w.logs)) [
    | inl e ↦
        rw
          (
            works w.statements oldest_row,
            works (suc w.statements) begin_tx,
            e,
            works (suc (suc w.statements)) drop_hours,
            works (suc (suc (suc w.statements))) commit_tx,
          )
          refl
    | inr (t, e) ↦
        rw
          (
            works w.statements oldest_row,
            works (suc w.statements) begin_tx,
            e,
            works (suc (suc w.statements)) drop_hours,
            works (suc (suc (suc w.statements))) rebuild_hour,
            works (suc (suc (suc (suc w.statements)))) commit_tx,
          )
          refl
  ]

  purge-Done :
      (days : ℤ) (w : Tables)
      → Done (purge env cfg p days spent none w).0 (purge env cfg p days spent none w).1
  unfolding purge
  purge-Done days w =
      let cutoff = cutoff_of (env.now w.statements) days in
      let o = delete_expired env cfg p cutoff spent none w in
      let (f, i) = delete_expired-Done cutoff w in
      elim (Bool-cases (ltb 0 o.0.deleted)) [
        | inl t ↦ rw (t, f, repair_rollup_works o.1) (refl, i)
        | inr n ↦ rw n (f, i)
      ]

  -- Where no statement fails, the context is not cancelled and there is neither a deadline nor a row
  -- budget, a purge ends, reports neither a failure nor an early stop, and has deleted exactly the expired
  -- rows, for a batch size of at least one and one row to an id.
  pub purge_finishes :
      (days : ℤ) (w : Tables)
      → IsKeyed log_id w.logs
      → (let (o, u) = purge env cfg p days spent none w in
          ((o.failure ≡ none) × (o.incomplete ≡ false))
          × (u.logs
              ≡ select (λ r. not (is_expired p (cutoff_of (env.now w.statements) days) r)) w.logs))
  purge_finishes days w keyed =
      let (f, i) = purge-Done days w in
      ((f, i), purge_drains env cfg p days sized spent none w keyed f i)
