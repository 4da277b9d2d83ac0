-- ===== src/Ingest/Pipeline/Accounts.antt =====
-- What an accepted batch adds, and that a refused one adds nothing.
use logingestor.Prelude.{
  ap, ◌∙◌, ℕ, suc, ◌+◌, ◌≡◌, refl, Bool, not, ◌&&◌, List, [], ◌∷◌, ◌++◌, length, arith, Bool-cases,
  inl, inr,
}
use logingestor.Prelude.Clock.{Time}
use logingestor.Prelude.Result.{Result, ok, err}
use logingestor.Prelude.Exec.{◌>>◌, pure}
use logingestor.Limits.Source.{Buckets, allow_n}
use logingestor.Sources.Model.{Source}
use logingestor.Ingest.Record.{Record, NewLog}
use logingestor.Ingest.Body.{RecordError}
use logingestor.Ingest.Pipeline.{
  IngestState, IngestError, BulkResponse, IngestEnv, IngestExec, limit_rate, used_today, exceeded,
  check_quota, sample_records, record_usage, store_rejects, touch_last_seen, usage_of, count_errors,
  store_batch, process,
}

module _ (env : IngestEnv) (src : Source) (now : Time) where
  -- Every record is kept or dropped.
  pub length-sample_records :
      (n : ℕ) (recs : List Record)
      → length (sample_records env src now n recs).0 + (sample_records env src now n recs).1
        ≡ length recs
  unfolding sample_records
  length-sample_records n [] = refl
  length-sample_records n (r ∷ recs) = ground (arith, length-sample_records (suc n) recs)

  module _ (es : List RecordError) (bytes : ℕ) where
    abbrev response : List NewLog → BulkResponse
    response kept = record { accepted = length kept; rejected = length es; errors = es }

    -- The steps after the logs are stored.
    abbrev count_batch : List NewLog → ℕ → IngestExec BulkResponse
    count_batch kept dropped =
        record_usage env
          (usage_of src now (length kept) bytes dropped (count_errors kept) (length es))
        >> (store_rejects env src es >> (touch_last_seen env src.id now >> pure (response kept)))

    count_batch_answer :
        (kept : List NewLog) (dropped : ℕ) (w : IngestState)
        → (count_batch kept dropped w).0 ≡ ok (response kept)
    unfolding record_usage store_rejects touch_last_seen
    count_batch_answer kept dropped w = ground arith

    count_batch_logs :
        (kept : List NewLog) (dropped : ℕ) (w : IngestState)
        → (count_batch kept dropped w).1.logs ≡ w.logs
    unfolding record_usage store_rejects touch_last_seen
    count_batch_logs kept dropped w = ground arith

    -- What the answer says of the state before and after: an error that nothing was stored, counted or
    -- touched, a response that exactly these logs were stored.
    abbrev pub Accounts :
        List NewLog → Result IngestError BulkResponse → IngestState → IngestState → Type 0
    Accounts kept (err e) v w =
        (w.logs ≡ v.logs)
        × ((w.usage ≡ v.usage) × ((w.rejects ≡ v.rejects) × (w.touches ≡ v.touches)))
    Accounts kept (ok r) v w = (w.logs ≡ v.logs ++ kept) × (r ≡ response kept)

    append-nil : (logs : List NewLog) → logs ≡ logs ++ []
    append-nil [] = refl
    append-nil (l ∷ logs) = ap (λ ls. l ∷ ls) (append-nil logs)

    counted-Accounts :
        (kept : List NewLog) (dropped : ℕ) (v w : IngestState)
        → w.logs ≡ v.logs ++ kept
        → Accounts kept (count_batch kept dropped w).0 v (count_batch kept dropped w).1
    counted-Accounts kept dropped v w e =
        rw (count_batch_answer kept dropped w) (count_batch_logs kept dropped w ∙ e, refl)

    abbrev charged : Buckets → IngestState → IngestState
    charged bs w = record w { buckets = bs }

    store_batch-Accounts :
        (kept : List NewLog) (dropped : ℕ) (bs : Buckets) (w : IngestState)
        → Accounts kept
            (store_batch env src now es bytes (kept, dropped) (charged bs w)).0
            w
            (store_batch env src now es bytes (kept, dropped) (charged bs w)).1
    unfolding store_batch
    store_batch-Accounts [] dropped bs w =
        counted-Accounts [] dropped w (charged bs w) (append-nil w.logs)
    store_batch-Accounts (l ∷ ls) dropped bs w = elim (Bool-cases (env.insert_fails (l ∷ ls))) [
      | inl f ↦ rw f (refl, (refl, (refl, refl)))
      | inr f ↦ rw f (
          counted-Accounts (l ∷ ls) dropped w (record w { buckets = bs; logs = w.logs ++ l ∷ ls })
            refl)
    ]

    abbrev over_quota : IngestState → Bool
    over_quota w =
        env.counts_usage
        && (not env.quota_fails
            && exceeded (env.quota src.org_id) (used_today src.org_id now w.usage))

    charged-Accounts :
        (recs : List Record) (w : IngestState)
        → Accounts
            (sample_records env src now 0 recs).0
            (process env src now recs es bytes w).0
            w
            (process env src now recs es bytes w).1
    unfolding process limit_rate check_quota
    charged-Accounts recs w =
        let answer =
          allow_n src.id src.rate_limit_per_sec src.rate_limit_burst (length recs) now w.buckets in
        elim (Bool-cases answer.0.0) [
          | inl q ↦ rw q (elim (Bool-cases (over_quota w)) [
            | inl f ↦ rw f (refl, (refl, (refl, refl)))
            | inr f ↦ rw f (
                store_batch-Accounts (sample_records env src now 0 recs).0
                  (sample_records env src now 0 recs).1 answer.1 w)
          ])
          | inr q ↦ rw q (refl, (refl, (refl, refl)))
        ]

    -- The answer of the pipeline accounts for what it did. On an error no log was stored, nothing was
    -- counted, no reject kept and nothing touched. A response has added the logs of the records that the
    -- sampling kept, in their order; it says how many they are and how many errors the batch had; and
    -- each record was kept or dropped.
    pub process-Accounts :
        (recs : List Record) (w : IngestState)
        → Accounts
            (sample_records env src now 0 recs).0
            (process env src now recs es bytes w).0
            w
            (process env src now recs es bytes w).1
          × (length (sample_records env src now 0 recs).0 + (sample_records env src now 0 recs).1
              ≡ length recs)
    process-Accounts recs w = (charged-Accounts recs w, length-sample_records 0 recs)
