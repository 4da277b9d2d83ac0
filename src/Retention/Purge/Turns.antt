-- ===== src/Retention/Purge/Turns.antt =====
-- The rule for the loop of `deleteExpired`, by what a turn of it does.
use logingestor.Prelude.{
  ℕ, suc, ◌+◌, ◌≤◌, ◌<◌, ◌≡◌, true, false, Option, none, some, List, length, ltb, arith, Bool-cases,
  Option-cases, inl, inr,
}
use logingestor.Prelude.Int.{pos, pos_part, ◌≤ℤ◌}
use logingestor.Prelude.Clock.{Time}
use logingestor.Retention.Model.{
  Config, LogRow, Tables, RetentionEnv, delete_logs, statement_failed,
}
use logingestor.Retention.Batches.{delete_oldest, Purged}
use logingestor.Retention.Batches.Deletes.{delete_oldest-splits}
use logingestor.Retention.Batches.Loop.{Ends, batches_rule}
use logingestor.Retention.Purge.{
  Pass, is_expired, next_batch, sent, halted, outcome, log_id, log_ts, after_batch, delete_turn,
  delete_expired,
}

-- The next batch is at least one row and within the batch size.
pub next_batch_positive :
    (cfg : Config) (gone b : ℕ) → pos 1 ≤ℤ cfg.batch_size → next_batch cfg gone ≡ some b → 1 ≤ b
unfolding next_batch
next_batch_positive cfg gone b h e = ground (arith, h, e)

-- The next batch keeps to the budget, where there is one.
pub next_batch-IsWithin :
    (cfg : Config) (gone b : ℕ)
    → pos 1 ≤ℤ cfg.max_rows
    → next_batch cfg gone ≡ some b
    → gone + b ≤ pos_part cfg.max_rows
unfolding next_batch
next_batch-IsWithin cfg gone b h e = ground (arith, h, e)

module _ (env : RetentionEnv) (cfg : Config) (p : Pass) (cutoff : Time) where
  -- A batch of the pass, and the state after it.
  abbrev pub batch_of : ℕ → Tables → ℕ × List LogRow
  batch_of b w = delete_oldest log_id log_ts b (is_expired p cutoff) w.logs

  abbrev pub left_by : ℕ → Tables → Tables
  left_by b w = record (sent w) { logs = (batch_of b w).1 }

  -- What a turn does with the invariant: it stops, fails, ends with a short batch or goes on.
  pub record TurnRule (spent : ℕ) (inv : ℕ → Tables → Type 0) (post : Purged → Tables → Type 0)
      : Type 0 where
    pub stops : (d : ℕ) (w : Tables) → inv d w → post (outcome d true none) w
    pub breaks :
        (d : ℕ) (w : Tables)
        → inv d w
        → post (outcome d false (some (statement_failed delete_logs))) (sent w)
    pub drains :
        (d b : ℕ) (w : Tables)
        → inv d w
        → next_batch cfg (spent + d) ≡ some b
        → (batch_of b w).0 < b
        → post (outcome (d + (batch_of b w).0) false none) (left_by b w)
    pub goes_on :
        (d b : ℕ) (w : Tables)
        → inv d w
        → next_batch cfg (spent + d) ≡ some b
        → b ≤ (batch_of b w).0
        → inv (d + (batch_of b w).0) (left_by b w)

  module _ (sized : pos 1 ≤ℤ cfg.batch_size) (spent : ℕ) (deadline : Option Time)
      (inv : ℕ → Tables → Type 0) (post : Purged → Tables → Type 0)
      (rule : TurnRule spent inv post) where
    abbrev Goes : ℕ → Tables → Tables → Type 0
    Goes d' w w' = inv d' w' × (length w'.logs < length w.logs)

    batch-Ends :
        (d b : ℕ) (w : Tables)
        → inv d w
        → next_batch cfg (spent + d) ≡ some b
        → Ends (λ d' w'. Goes d' w w') post (after_batch env cfg p cutoff b d w (batch_of b w))
    batch-Ends d b w i e = elim (Bool-cases (ltb (batch_of b w).0 b)) [
      | inl t ↦ rw t (rule.drains d b w i e (ground (arith, t)))
      | inr f ↦
          let enough : b ≤ (batch_of b w).0 = ground (arith, f) in
          rw f (
            rule.goes_on d b w i e enough,
            omega (
              arith,
              next_batch_positive cfg (spent + d) b sized e,
              delete_oldest-splits log_id log_ts b (is_expired p cutoff) w.logs,
              enough,
            ),
          )
    ]

    turn-Ends :
        (d : ℕ) (w : Tables)
        → inv d w
        → Ends (λ d' w'. Goes d' w w') post (delete_turn env cfg p cutoff spent deadline d w)
    unfolding delete_turn
    turn-Ends d w i = elim (Bool-cases (halted env deadline w)) [
      | inl h ↦ rw h (rule.stops d w i)
      | inr h ↦ elim (Option-cases (next_batch cfg (spent + d))) [
        | inl e ↦ rw (h, e) (rule.stops d w i)
        | inr (b, e) ↦ elim (Bool-cases (env.fails w.statements delete_logs)) [
          | inl f ↦ rw (h, e, f) (rule.breaks d w i)
          | inr f ↦ rw (h, e, f) (batch-Ends d b w i e)
        ]
      ]
    ]

    pub delete_expired_rule :
        (w : Tables)
        → inv 0 w
        → post
            (delete_expired env cfg p cutoff spent deadline w).0
            (delete_expired env cfg p cutoff spent deadline w).1
    unfolding delete_expired
    delete_expired_rule w i =
        batches_rule (delete_turn env cfg p cutoff spent deadline) (λ u. length u.logs) inv post
          turn-Ends (suc (length w.logs)) 0 w (omega arith) i
