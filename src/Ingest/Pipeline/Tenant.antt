-- ===== src/Ingest/Pipeline/Tenant.antt =====
-- A key can only write into its own tenant.
use logingestor.Prelude.{
  ap, ℕ, suc, ◌+◌, ◌≤◌, ◌≡◌, refl, List, [], ◌∷◌, ◌++◌, All, leb, length, arith, Bool-cases, inl,
  inr, ◌⊎◌,
}
use logingestor.Prelude.Clock.{Time}
use logingestor.Prelude.Text.{Text}
use logingestor.Prelude.Bytes.{byte_length}
use logingestor.Prelude.Result.{Result, ok, err, Result-cases}
use logingestor.Limits.Severity.{keep_record}
use logingestor.Sources.Model.{Source}
use logingestor.Sources.Auth.{AuthError, authenticate_source}
use logingestor.Sources.Admit.{HasKey, MayWrite, authenticate_source-MayWrite}
use logingestor.Ingest.Record.{
  Record, NewLog, normalize, normalize_timestamp, max_future_skew, record_to_new_log,
}
use logingestor.Ingest.Body.{RecordError, parse_records}
use logingestor.Ingest.Pipeline.{
  refused, is_no_record, max_body_bytes, max_records, IngestError, IngestState, BulkResponse,
  IngestEnv, sample_records, process, bulk, post_bulk,
}
use logingestor.Ingest.Pipeline.Accounts.{Accounts, process-Accounts}

-- A log of the source's own project, under its id, and at most a day ahead.
pub record IsOwn (src : Source) (now : Time) (l : NewLog) : Type 0 where
  pub project : l.project_id ≡ src.project_id
  pub source : l.source_id ≡ src.id
  pub time : l.timestamp ≤ now + max_future_skew

module _ (env : IngestEnv) (src : Source) (now : Time) where
  normalize_timestamp_le : (t : Time) → normalize_timestamp t now ≤ now + max_future_skew
  unfolding normalize_timestamp
  normalize_timestamp_le t = ground arith

  new_log-IsOwn :
      (r : Record) → IsOwn src now (record_to_new_log src (normalize env.body.codecs now r))
  unfolding record_to_new_log normalize
  new_log-IsOwn r = record {
    project = refl;
    source = refl;
    time = normalize_timestamp_le r.timestamp;
  }

  sampled-IsOwn :
      (n : ℕ) (recs : List Record) → All (IsOwn src now) (sample_records env src now n recs).0
  unfolding sample_records
  sampled-IsOwn n [] = tt
  sampled-IsOwn n (r ∷ recs) =
      elim (Bool-cases (keep_record env.sources.unit r.level src.sample_debug_info (env.draw n))) [
        | inl q ↦ rw q (new_log-IsOwn r, sampled-IsOwn (suc n) recs)
        | inr q ↦ rw q (sampled-IsOwn (suc n) recs)
      ]

  -- The logs after a call that answers with a response: those before, and own ones.
  abbrev pub AddsOwn : Result IngestError BulkResponse → IngestState → IngestState → Type 0
  AddsOwn (err e) v w = w.logs ≡ v.logs
  AddsOwn (ok r) v w =
      (new : List NewLog) × ((w.logs ≡ v.logs ++ new)
        × (All (IsOwn src now) new × (r.accepted ≡ length new)))

  process-AddsOwn :
      (recs : List Record) (es : List RecordError) (bytes : ℕ) (w : IngestState)
      → AddsOwn (process env src now recs es bytes w).0 w (process env src now recs es bytes w).1
  process-AddsOwn recs es bytes w =
      owned (process env src now recs es bytes w).0 (process-Accounts env src now es bytes recs w).0
    where
      kept : List NewLog
      kept = (sample_records env src now 0 recs).0

      owned :
          (r : Result IngestError BulkResponse)
          → Accounts env src now es bytes kept r w (process env src now recs es bytes w).1
          → AddsOwn r w (process env src now recs es bytes w).1
      owned (err e) h = h.0
      owned (ok r) h =
          (kept, (h.0, (sampled-IsOwn 0 recs, ap (λ (r : BulkResponse). r.accepted) h.1)))

  bulk-AddsOwn :
      (content_type body : Text) (w : IngestState)
      → AddsOwn (bulk env src now content_type body w).0 w (bulk env src now content_type body w).1
  unfolding bulk
  bulk-AddsOwn content_type body w = elim (Bool-cases (leb (byte_length body) max_body_bytes)) [
    | inr q ↦ rw q refl
    | inl q ↦ rw q (elim (Bool-cases (is_no_record (parse_records env.body content_type body))) [
      | inl n ↦ rw n refl
      | inr n ↦
          rw n
            (elim (Bool-cases
              (leb (length (parse_records env.body content_type body).0) max_records)) [
                | inr m ↦ rw m refl
                | inl m ↦ rw m (process-AddsOwn _ _ (byte_length body) w)
              ])
    ])
  ]

-- What a request to the route does: the middleware refuses it and nothing changes, or it comes from a
-- source of the table whose stored hash is that of the presented key, which is active, not expired and of
-- an enabled organization, and then it adds no log when it fails, and when it answers it adds as many logs
-- as it says, all of the source's project, under the source's id and at most a day ahead of the clock.
pub post_bulk-AddsOwn :
    (env : IngestEnv) (now : Time) (header : Text) (sources : List Source)
    (content_type body : Text) (w : IngestState)
    → ((e : AuthError) × (post_bulk env now header sources content_type body w
          ≡ (err (refused e), w)))
      ⊎ ((src : Source) × ((HasKey env.sources header sources src × MayWrite env.sources now src)
            × AddsOwn env src now
                (post_bulk env now header sources content_type body w).0
                w
                (post_bulk env now header sources content_type body w).1))
unfolding post_bulk
post_bulk-AddsOwn env now header sources content_type body w =
    elim (Result-cases (authenticate_source env.sources now header sources)) [
      | inl (e, q) ↦ inl (e, rw q refl)
      | inr (src, q) ↦ inr (
        src,
        (
          authenticate_source-MayWrite env.sources now src header sources q,
          rw q (bulk-AddsOwn env src now content_type body w),
        ),
      )
    ]
