-- ===== src/ClientErrors/Group.antt =====
-- The queue and the worker's step: `ClaimUnprocessed`, `AttachToIssue` and `MarkFailed` of
-- stores/clienterrordb/clienterrordb.go, `group` and `ProcessBatch` of clienterrorbus.go. A claim that
-- leaves out the rows of another worker is one on a table without them. `NOW()` and `time.Now()` are
-- the argument `now`. What is stored of an error's text is `reason`; no facet is as long as the 200
-- bytes that the store cuts a value at.
pub mod Steps
pub mod Queue
pub mod OneIssue
use logingestor.Prelude.{
  zero, suc, suc, ℕ, ◌+◌, Bool, true, false, not, ◌&&◌, Option, none, some, List, [], ◌∷◌, ◌++◌,
  any, select, take, map, update, length, ltb, leb, ◌==◌, if◌then◌else◌,
}
use logingestor.Prelude.Text.{Text, codes}
use logingestor.Prelude.Clock.{Time}
use logingestor.Prelude.Result.{Result, ok, err}
use logingestor.Prelude.Exec.{◌>>=◌, ◌>>◌, pure, raise_error, reads, writes}
use logingestor.Alerting.Model.{Uuid}
use logingestor.ClientErrors.Model.{ErrorLevel, Event, Issue, unresolved}
use logingestor.ClientErrors.Scrub.{truncate}
use logingestor.ClientErrors.Fingerprint.{Subject, Grouping, fingerprint_of, fingerprint_version}
use logingestor.ClientErrors.Maps.{resolve_stack, resolved_fingerprint_version}
use logingestor.ClientErrors.Issues.{
  upsert_issue, touch_issue, record_facets, detach_from_issue, has_issue_id, eq_id,
}
use logingestor.ClientErrors.World.{
  Row, Facet, user_facet, org_facet, release_facet, Notice, issue_opened, issue_regressed,
  ErrorStore, claim_rows, attach_row, fail_row, find_issue, insert_issue, ReportError, call_failed,
  ErrorEnv, ErrorExec,
}

abbrev pub max_process_attempts : ℕ
max_process_attempts = 3

abbrev pub is_waiting : Option Time → Bool
is_waiting none = true
is_waiting (some t) = false

-- `WHERE processed_at IS NULL AND process_attempts < $2 ORDER BY received_at LIMIT $1`
unfoldable pub claimable : ℕ → Row → Bool
claimable most r = is_waiting r.processed_at && ltb r.attempts most

unfoldable pub insert_received : Row → List Row → List Row
insert_received r [] = r ∷ []
insert_received r (s ∷ rs) =
    let rest = insert_received r rs in
    if leb r.event.received_at s.event.received_at then r ∷ s ∷ rs else s ∷ rest

unfoldable pub oldest_first : List Row → List Row
oldest_first [] = []
oldest_first (r ∷ rs) = insert_received r (oldest_first rs)

unfoldable pub claimed : ℕ → ℕ → List Row → List Row
claimed limit most rows = take limit (oldest_first (select (claimable most) rows))

abbrev pub has_row_id : Uuid → Row → Bool
has_row_id id r = r.event.id == id

abbrev pub is_claimed : List Row → Row → Bool
is_claimed taken r = any (has_row_id r.event.id) taken

abbrev pub one_attempt : Row → Row
one_attempt r = record r { attempts = r.attempts + 1 }

abbrev pub count_attempts : List Row → List Row → List Row
count_attempts taken rows = update (is_claimed taken) one_attempt rows

unfoldable pub claim_unprocessed : ErrorEnv → ℕ → ℕ → ErrorExec (List Event)
claim_unprocessed env limit most w =
    if env.fails claim_rows then (err (call_failed claim_rows), w) else (
      ok (map (λ (r : Row). r.event) (claimed limit most w.rows)),
      record w { rows = count_attempts (claimed limit most w.rows) w.rows },
    )

-- `AttachToIssue`; `NULLIF` stores no resolved stack where it is empty.
abbrev pub attached : Time → Uuid → Text → ℕ → Text → Row → Row
attached now issue fingerprint version resolved r = record r {
  event = record r.event {
    issue_id = some issue;
    fingerprint = fingerprint;
    resolved_stack = resolved;
  };
  fingerprint_version = version;
  processed_at = some now;
  process_error = none;
}

unfoldable pub attach_to_issue :
    ErrorEnv → Time → Uuid → Uuid → Text → ℕ → Text → ErrorExec (Unit {0})
attach_to_issue env now event issue fingerprint version resolved =
    writes (env.fails (attach_row event)) (call_failed (attach_row event)) λ w. record w {
      rows = update (has_row_id event) (attached now issue fingerprint version resolved) w.rows;
    }

-- `MarkFailed`
abbrev pub failed_row : Time → Text → ℕ → Row → Row
failed_row now reason most r = record r {
  process_error = some reason;
  processed_at = (if leb most r.attempts then some now else none);
}

unfoldable pub mark_failed : ErrorEnv → Time → Uuid → Text → ℕ → ErrorExec (Unit {0})
mark_failed env now event reason most =
    writes (env.fails (fail_row event)) (call_failed (fail_row event))
      λ w. record w { rows = update (has_row_id event) (failed_row now reason most) w.rows }

-- What is grouped: the event, with the resolved stack where there is one.
abbrev stack_or : Text → Option Text → Text
stack_or stack none = stack
stack_or stack (some s) = s

abbrev resolved_or_empty : Option Text → Text
resolved_or_empty none = []
resolved_or_empty (some s) = s

abbrev version_of : Option Text → ℕ
version_of none = fingerprint_version
version_of (some s) = resolved_fingerprint_version

unfoldable pub subject_of : Event → Option Text → Subject
subject_of e resolved = record {
  kind = e.kind;
  name = e.name;
  message = e.message;
  stack = stack_or e.stack resolved;
  url = e.url;
  api = e.api;
}

unfoldable pub new_issue : Uuid → Event → Grouping → Issue
new_issue id e g = record {
  id = id;
  org_id = e.org_id;
  project_id = e.project_id;
  fingerprint = g.fingerprint;
  title = g.title;
  culprit = g.culprit;
  level = e.level;
  kind = e.kind;
  status = unresolved;
  regressed = false;
  event_count = 0;
  first_seen_at = e.occurred_at;
  last_seen_at = e.occurred_at;
  resolved_at = none;
  assignee_id = none;
  sample_event_id = some e.id;
}

unfoldable pub facets_of : (Uuid → Text) → Uuid → Event → List Facet
facets_of text issue e = of_user e.user_id ++ (of_org e.org_id ++ of_release e.release)
  where
    of_user : Option Uuid → List Facet
    of_user none = []
    of_user (some u) = record { issue_id = issue; kind = user_facet; value = text u } ∷ []

    of_org : Option Uuid → List Facet
    of_org none = []
    of_org (some o) = record { issue_id = issue; kind = org_facet; value = text o } ∷ []

    of_release : Text → List Facet
    of_release [] = []
    of_release (c ∷ s) = record { issue_id = issue; kind = release_facet; value = c ∷ s } ∷ []

-- The steps of `group`.
unfoldable pub resolve_stored : ErrorEnv → Event → ErrorExec (Option Text)
resolve_stored env e w =
    let (answer, cache) = resolve_stack env w.artifacts e.stack e.release w.maps in
    (ok answer, record w { maps = cache })

unfoldable pub file_issue : ErrorEnv → Event → Grouping → ErrorExec (Issue × Bool)
file_issue env e g w =
    let i = new_issue (env.fresh_issue w.issues) e g in
    if env.fails (find_issue e.id)
    then (err (call_failed (find_issue e.id)), w)
    else (let ((issue, created), table) = upsert_issue i w.issues in
        if created && env.fails (insert_issue e.id)
        then (err (call_failed (insert_issue e.id)), w)
        else (ok (issue, created), record w { issues = table }))

abbrev pub touch_unless : ErrorEnv → Bool → Uuid → Event → ErrorExec Bool
touch_unless env true issue e = pure false
touch_unless env false issue e = touch_issue env issue e.occurred_at e.level e.id e.sampled_count

-- An event that moved to another issue is taken off the one that it was on.
abbrev pub leave_issue : ErrorEnv → Event → Option Uuid → Uuid → ErrorExec (Unit {0})
leave_issue env e none issue w = (ok tt, w)
leave_issue env e (some old) issue w =
    if old == issue then (ok tt, w) else detach_from_issue env old e.sampled_count w

abbrev pub is_new : Option Uuid → Bool
is_new none = true
is_new (some i) = false

abbrev pub notice_of : Bool → Bool → Issue → Event → List Notice
notice_of true reopened i e = issue_opened i e ∷ []
notice_of false true i e = issue_regressed (record i { regressed = true }) e ∷ []
notice_of false false i e = []

unfoldable pub notify : ErrorEnv → Bool → Bool → Issue → Event → ErrorExec (Unit {0})
notify env created reopened i e w =
    if env.notifies && is_new e.issue_id
    then (ok tt, record w { notices = w.notices ++ notice_of created reopened i e })
    else (ok tt, w)

unfoldable pub group : ErrorEnv → Time → Event → ErrorExec (Unit {0})
group env now e = do
  resolved ← resolve_stored env e
  let g = fingerprint_of env.matchers (subject_of e resolved)
  (issue, created) ← file_issue env e g
  reopened ← touch_unless env created issue.id e
  record_facets env issue.id (facets_of env.uuid_text issue.id e)
  attach_to_issue env now e.id issue.id g.fingerprint (version_of resolved)
      (resolved_or_empty resolved)
  leave_issue env e e.issue_id issue.id
  notify env created reopened issue e

-- One event of the batch: what fails is recorded, and only a failure of that stops the batch.
abbrev pub after_group :
    ErrorEnv
    → Time
    → Event
    → (ReportError → Text)
    → Result ReportError (Unit {0})
    → ErrorExec (Unit {0})
after_group env now e reason (ok u) w = (ok tt, w)
after_group env now e reason (err f) w = mark_failed env now e.id (reason f) max_process_attempts w

unfoldable pub group_or_mark : ErrorEnv → Time → (ReportError → Text) → Event → ErrorExec (Unit {0})
group_or_mark env now reason e w =
    let (r, w') = group env now e w in after_group env now e reason r w'

unfoldable pub group_all :
    ErrorEnv → Time → (ReportError → Text) → List Event → ErrorExec (Unit {0})
group_all env now reason [] = pure tt
group_all env now reason (e ∷ es) = group_or_mark env now reason e >> group_all env now reason es

unfoldable pub process_batch : ErrorEnv → Time → (ReportError → Text) → ℕ → ErrorExec ℕ
process_batch env now reason limit = do
  events ← claim_unprocessed env limit max_process_attempts
  group_all env now reason events
  pure (length events)

-- The loop of `runClientErrorGrouping` in api/services/ingestor/main.go between two ticks, with the
-- times of its rounds: whether it stops before its bound, and what it leaves.
abbrev pub max_rounds : ℕ
max_rounds = 20

unfoldable pub drain :
    ErrorEnv → (ReportError → Text) → ℕ → ℕ → (ℕ → Time) → ErrorStore → Bool × ErrorStore
drain env reason limit zero now w = (false, w)
drain env reason limit (suc n) now w =
    let (r, w') = process_batch env (now n) reason limit w in
    elim r [
      | err e ↦ (true, w')
      | ok k ↦ elim (ltb k limit) [ true ↦ (true, w') | false ↦ drain env reason limit n now w' ]
    ]
