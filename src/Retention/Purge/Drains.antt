-- ===== src/Retention/Purge/Drains.antt =====
-- What a purge deletes: only expired rows, all of them where it says so, and within the budget.
use logingestor.Prelude.{
  ℕ, ◌+◌, ◌≤◌, ◌≡◌, refl, ◌∙◌, Bool, true, false, not, Option, none, some, select, length, arith,
}
use logingestor.Prelude.Int.{pos, pos_part, ◌≤ℤ◌}
use logingestor.Prelude.Clock.{Time}
use logingestor.Prelude.Rows.{All-every, IsKeyed}
use logingestor.Retention.Model.{Config, LogRow, Tables, RetentionEnv}
use logingestor.Retention.Batches.{Purged}
use logingestor.Retention.Batches.Deletes.{
  delete_oldest-IsBounded, delete_oldest-IsKeyed, delete_oldest-splits, delete_oldest_drains,
  delete_oldest_spares,
}
use logingestor.Retention.Purge.{
  next_batch, delete_oldest, Pass, is_expired, log_id, log_ts, delete_expired,
}
use logingestor.Retention.Purge.Turns.{next_batch-IsWithin, delete_expired_rule}

-- The rows that pass a test are those of before.
abbrev pub Spares : (LogRow → Bool) → Tables → Tables → Type 0
Spares q w w' = IsKeyed log_id w'.logs × (select q w'.logs ≡ select q w.logs)

abbrev pub Harmless : Pass → Time → (LogRow → Bool) → Type 0
Harmless p cutoff q = (r : LogRow) → is_expired p cutoff r ≡ true → q r ≡ false

module _ (env : RetentionEnv) (cfg : Config) (p : Pass) (cutoff : Time)
    (sized : pos 1 ≤ℤ cfg.batch_size) (spent : ℕ) (deadline : Option Time) (w : Tables)
    (keyed : IsKeyed log_id w.logs) where
  abbrev result : Purged × Tables
  result = delete_expired env cfg p cutoff spent deadline w

  batch-Spares :
      (q : LogRow → Bool) (b : ℕ) (u : Tables)
      → Harmless p cutoff q
      → Spares q w u
      → (select q (delete_oldest log_id log_ts b (is_expired p cutoff) u.logs).1 ≡ select q w.logs)
  batch-Spares q b u harmless s =
      delete_oldest_spares log_id log_ts b (is_expired p cutoff) q u.logs s.0
        (All-every _ u.logs harmless)
      ∙ s.1

  pub delete_expired-Spares : (q : LogRow → Bool) → Harmless p cutoff q → Spares q w result.1
  delete_expired-Spares q harmless =
      delete_expired_rule env cfg p cutoff sized spent deadline (λ d u. Spares q w u)
        (λ o u. Spares q w u)
        (record {
          stops = λ d u s. s;
          breaks = λ d u s. s;
          drains = λ d b u s e short.
              (delete_oldest-IsKeyed log_id log_ts b _ u.logs s.0, batch-Spares q b u harmless s);
          goes_on = λ d b u s e more.
              (delete_oldest-IsKeyed log_id log_ts b _ u.logs s.0, batch-Spares q b u harmless s);
        })
        w (keyed, refl)

  -- What a delete that reports the pass as drained leaves is what is not expired.
  pub delete_expired_drains :
      result.0.failure ≡ none
      → result.0.incomplete ≡ false
      → result.1.logs ≡ select (λ r. not (is_expired p cutoff r)) w.logs
  delete_expired_drains =
      let live : LogRow → Bool = λ r. not (is_expired p cutoff r) in
      let harmless : Harmless p cutoff live = λ r e. rw e refl in
      delete_expired_rule env cfg p cutoff sized spent deadline (λ d u. Spares live w u)
        (λ o u. o.failure ≡ none → o.incomplete ≡ false → u.logs ≡ select live w.logs)
        (record {
          stops = λ d u s f i. absurd (ground (arith, i));
          breaks = λ d u s f i. absurd (ground (arith, f));
          drains = λ d b u s e short f i.
              delete_oldest_drains log_id log_ts b (is_expired p cutoff) u.logs s.0 short ∙ s.1;
          goes_on = λ d b u s e more. (
            delete_oldest-IsKeyed log_id log_ts b _ u.logs s.0,
            batch-Spares live b u harmless s,
          );
        })
        w (keyed, refl)

  -- The count is that of the rows that are gone.
  pub delete_expired-splits : length result.1.logs + result.0.deleted ≡ length w.logs
  delete_expired-splits =
      delete_expired_rule env cfg p cutoff sized spent deadline
        (λ d u. length u.logs + d ≡ length w.logs)
        (λ o u. length u.logs + o.deleted ≡ length w.logs)
        (record {
          stops = λ d u s. s;
          breaks = λ d u s. s;
          drains = λ d b u s e short.
              omega (arith, s, delete_oldest-splits log_id log_ts b (is_expired p cutoff) u.logs);
          goes_on = λ d b u s e more.
              omega (arith, s, delete_oldest-splits log_id log_ts b (is_expired p cutoff) u.logs);
        })
        w (omega arith)

  -- The rows that were deleted before and by the pass keep to the budget.
  pub delete_expired_within :
      pos 1 ≤ℤ cfg.max_rows
      → spent ≤ pos_part cfg.max_rows
      → spent + result.0.deleted ≤ pos_part cfg.max_rows
  delete_expired_within limited room =
      delete_expired_rule env cfg p cutoff sized spent deadline
        (λ d u. IsKeyed log_id u.logs × (spent + d ≤ pos_part cfg.max_rows))
        (λ o u. spent + o.deleted ≤ pos_part cfg.max_rows)
        (record {
          stops = λ d u s. s.1;
          breaks = λ d u s. s.1;
          drains = λ d b u s e short. within d b u s.0 e;
          goes_on = λ d b u s e more.
              (delete_oldest-IsKeyed log_id log_ts b _ u.logs s.0, within d b u s.0 e);
        })
        w (keyed, omega arith)
    where
      within :
          (d b : ℕ) (u : Tables)
          → IsKeyed log_id u.logs
          → next_batch cfg (spent + d) ≡ some b
          → spent + (d + (delete_oldest log_id log_ts b (is_expired p cutoff) u.logs).0)
            ≤ pos_part cfg.max_rows
      within d b u k e = omega (
        arith,
        next_batch-IsWithin cfg (spent + d) b limited e,
        delete_oldest-IsBounded log_id log_ts b (is_expired p cutoff) u.logs k,
      )
