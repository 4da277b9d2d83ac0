-- ===== src/Ingest/Pipeline.antt =====
-- `bulk` and `process` of app/domain/ingestapp/ingestapp.go: the order of limiting, quota,
-- normalization, sampling, storing and counting. The goroutines that count and touch are run where they
-- are started, and their failures are only logged; live tail, metrics and what the reject domain keeps
-- of a batch of rejects are left out.
-- `CheckQuota` is that of business/domain/usagebus, over the counts of the day.
pub mod Accounts
pub mod Tenant
use logingestor.Prelude.{
  ◌*◌, ℕ, suc, ◌+◌, ◌-◌, ◌/◌, max, Bool, true, false, not, ◌&&◌, ◌||◌, Option, none, some, List, [],
  ◌∷◌, ◌++◌, find, map, length, ltb, leb, ◌==◌, if◌then◌else◌,
}
use logingestor.Prelude.Int.{ℤ, pos, negsuc, leb_ℤ, ltb_ℤ}
use logingestor.Prelude.Text.{Text, codes}
use logingestor.Prelude.Bytes.{byte_length}
use logingestor.Prelude.Clock.{Time, second, day, sub_time}
use logingestor.Prelude.Result.{Result, ok, err}
use logingestor.Prelude.Exec.{Exec, ◌>>=◌, ◌>>◌, pure, raise_error, require}
use logingestor.Alerting.Model.{Uuid}
use logingestor.Limits.Severity.{Level, level_error, keep_record}
use logingestor.Limits.Source.{Buckets, allow_n}
use logingestor.Sources.Model.{Source, SourceEnv}
use logingestor.Sources.Auth.{AuthError, authenticate_source}
use logingestor.Ingest.Record.{
  Record, NewLog, BulkRecord, IngestCodecs, normalize, record_to_new_log,
}
use logingestor.Ingest.Body.{RecordError, BodyCodecs, parse_records, map_records}

abbrev pub max_body_bytes : ℕ
max_body_bytes = 8 * 1024 * 1024

abbrev pub max_records : ℕ
max_records = 10000

abbrev pub touch_interval : ℕ
touch_interval = 10 * second

pub record Usage : Type 0 where
  pub source_id : Uuid
  pub org_id : Uuid
  pub project_id : Uuid
  pub at : Time
  pub event_count : ℕ
  pub byte_count : ℕ
  pub dropped_count : ℕ
  pub error_count : ℕ
  pub reject_count : ℕ

pub record Reject : Type 0 where
  pub source_id : Uuid
  pub error : RecordError

pub record IngestState : Type 0 where
  pub buckets : Buckets
  pub logs : List NewLog
  pub usage : List Usage
  pub rejects : List Reject
  pub last_touch : List (Uuid × Time)
  pub touches : List (Uuid × Time)

-- `retry_after` is in whole seconds, as the header is.
pub data IngestError : Type 0 where
  refused : AuthError → IngestError
  rate_limited quota_exceeded : ℕ → IngestError
  body_too_large no_records too_many_records store_failed : IngestError

pub record BulkResponse : Type 0 where
  pub accepted : ℕ
  pub rejected : ℕ
  pub errors : List RecordError

-- Outside the component: whether there are a usage and a reject domain, whether their statements fail,
-- the quota of an org, -1 for none, whether the logs cannot be stored, and the draws of math/rand.
pub record IngestEnv : Type 0 where
  pub sources : SourceEnv
  pub body : BodyCodecs
  pub counts_usage : Bool
  pub keeps_rejects : Bool
  pub usage_fails : Bool
  pub quota_fails : Bool
  pub rejects_fail : Bool
  pub touch_fails : Bool
  pub insert_fails : List NewLog → Bool
  pub quota : Uuid → ℤ
  pub draw : ℕ → ℕ

abbrev pub IngestExec : Type 0 → Type 0
IngestExec A = Exec IngestState IngestError A

-- `throttled`: the header has whole seconds, rounded down.
unfoldable pub retry_seconds : ℕ → ℕ
retry_seconds retry = max (retry / second) 1

unfoldable pub limit_rate : Source → ℕ → Time → IngestExec (Unit {0})
limit_rate src n now w =
    let ((allowed, retry), bs) =
      allow_n src.id src.rate_limit_per_sec src.rate_limit_burst n now w.buckets in
    (if allowed then ok tt else err (rate_limited (retry_seconds retry)), record w { buckets = bs })

-- `UsedToday`: the events of the org in the day.
unfoldable pub used_today : Uuid → Time → List Usage → ℕ
used_today org now [] = 0
used_today org now (u ∷ us) =
    let rest = used_today org now us in
    if u.org_id == org && u.at / day == now / day then u.event_count + rest else rest

-- `QuotaStatus.Exceeded`
unfoldable pub exceeded : ℤ → ℕ → Bool
exceeded (negsuc q) used = false
exceeded (pos q) used = leb q used

unfoldable pub check_quota : IngestEnv → Source → Time → IngestExec (Unit {0})
check_quota env src now w =
    if env.counts_usage
      && (not env.quota_fails
          && exceeded (env.quota src.org_id) (used_today src.org_id now w.usage))
    then (err (quota_exceeded 3600), w)
    else (ok tt, w)

-- The loop: the logs that are kept, and how many records the sampling dropped. `n` counts the draws.
unfoldable pub sample_records : IngestEnv → Source → Time → ℕ → List Record → List NewLog × ℕ
sample_records env src now n [] = ([], 0)
sample_records env src now n (r ∷ rs) =
    let (kept, dropped) = sample_records env src now (suc n) rs in
    if keep_record env.sources.unit r.level src.sample_debug_info (env.draw n)
    then (record_to_new_log src (normalize env.body.codecs now r) ∷ kept, dropped)
    else (kept, suc dropped)

-- `BulkCreate` stores every log or none.
abbrev pub store_logs : IngestEnv → List NewLog → IngestExec (Unit {0})
store_logs env [] w = (ok tt, w)
store_logs env (l ∷ ls) w =
    if env.insert_fails (l ∷ ls)
    then (err store_failed, w)
    else (ok tt, record w { logs = w.logs ++ l ∷ ls })

abbrev is_error : Level → Bool
is_error level_error = true
is_error _ = false

unfoldable pub count_errors : List NewLog → ℕ
count_errors [] = 0
count_errors (l ∷ ls) = let rest = count_errors ls in if is_error l.level then suc rest else rest

abbrev pub usage_of : Source → Time → ℕ → ℕ → ℕ → ℕ → ℕ → Usage
usage_of src now accepted bytes dropped errored rejected = record {
  source_id = src.id;
  org_id = src.org_id;
  project_id = src.project_id;
  at = now;
  event_count = accepted;
  byte_count = bytes;
  dropped_count = dropped;
  error_count = errored;
  reject_count = rejected;
}

unfoldable pub record_usage : IngestEnv → Usage → IngestExec (Unit {0})
record_usage env u w =
    if env.counts_usage && not env.usage_fails
    then (ok tt, record w { usage = w.usage ++ u ∷ [] })
    else (ok tt, w)

unfoldable pub store_rejects : IngestEnv → Source → List RecordError → IngestExec (Unit {0})
store_rejects env src es w =
    if env.keeps_rejects && not env.rejects_fail
    then (
      ok tt,
      record w { rejects = w.rejects ++ map (λ e. record { source_id = src.id; error = e }) es },
    )
    else (ok tt, w)

-- `touchLastSeen`: the map of the last times, and the calls that were made.
abbrev is_touch_of : Uuid → Uuid × Time → Bool
is_touch_of id t = t.0 == id

abbrev recent : Time → Option (Uuid × Time) → Bool
recent now none = false
recent now (some (id, last)) = ltb_ℤ (sub_time now last) (pos touch_interval)

unfoldable pub touch_last_seen : IngestEnv → Uuid → Time → IngestExec (Unit {0})
touch_last_seen env id now w =
    if recent now (find (is_touch_of id) w.last_touch) then (ok tt, w) else (
      ok tt,
      record w {
        last_touch = (id, now) ∷ w.last_touch;
        touches = (if env.touch_fails then w.touches else w.touches ++ (id, now) ∷ []);
      },
    )

-- What follows on the sampling.
unfoldable pub store_batch :
    IngestEnv → Source → Time → List RecordError → ℕ → List NewLog × ℕ → IngestExec BulkResponse
store_batch env src now es bytes (kept, dropped) = do
  store_logs env kept
  record_usage env (usage_of src now (length kept) bytes dropped (count_errors kept) (length es))
  store_rejects env src es
  touch_last_seen env src.id now
  pure record { accepted = length kept; rejected = length es; errors = es }

unfoldable pub process :
    IngestEnv → Source → Time → List Record → List RecordError → ℕ → IngestExec BulkResponse
process env src now recs es bytes = do
  limit_rate src (length recs) now
  check_quota env src now
  store_batch env src now es bytes (sample_records env src now 0 recs)

-- `bulk`, for the source that was authenticated.
abbrev is_no_record : List BulkRecord × List RecordError → Bool
is_no_record ([], []) = true
is_no_record _ = false

abbrev process_mapped :
    IngestEnv
    → Source
    → Time
    → ℕ
    → List RecordError
    → List Record × List RecordError
    → IngestExec BulkResponse
process_mapped env src now bytes es (recs, more) = process env src now recs (es ++ more) bytes

unfoldable pub bulk : IngestEnv → Source → Time → Text → Text → IngestExec BulkResponse
bulk env src now content_type body = do
  require (leb (byte_length body) max_body_bytes) body_too_large
  let parsed = parse_records env.body content_type body
  require (not (is_no_record parsed)) no_records
  require (leb (length parsed.0) max_records) too_many_records
  process_mapped env src now (byte_length body) parsed.1 (map_records env.body src now 0 parsed.0)

-- The route: the middleware and the handler.
abbrev bulk_for : IngestEnv → Time → Text → Text → Result AuthError Source → IngestExec BulkResponse
bulk_for env now content_type body (err e) = raise_error (refused e)
bulk_for env now content_type body (ok src) = bulk env src now content_type body

unfoldable pub post_bulk :
    IngestEnv → Time → Text → List Source → Text → Text → IngestExec BulkResponse
post_bulk env now header sources content_type body =
    bulk_for env now content_type body (authenticate_source env.sources now header sources)
