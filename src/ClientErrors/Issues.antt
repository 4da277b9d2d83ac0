-- ===== src/ClientErrors/Issues.antt =====
-- The issue table: the statements of stores/clienterrordb/clienterrordb.go that write it, and
-- `UpdateIssue` of clienterrorbus.go. Two workers that insert one issue at once are not modelled.
pub mod Touch
pub mod Unique
use logingestor.Prelude.{
  ℕ, ◌+◌, ◌-◌, min, max, Bool, true, false, not, ◌&&◌, ◌||◌, Option, none, some, List, [], ◌∷◌,
  ◌++◌, any, find, select, update, ◌==◌, if◌then◌else◌,
}
use logingestor.Prelude.Text.{Text, text_eq}
use logingestor.Prelude.Clock.{Time}
use logingestor.Prelude.Result.{ok, err}
use logingestor.Prelude.Exec.{◌>>=◌, ◌>>◌, pure, raise_error, writes, or_error}
use logingestor.Alerting.Model.{Uuid}
use logingestor.Alerting.Rules.{given}
use logingestor.ClientErrors.Model.{
  ErrorLevel, fatal, error, warning, IssueStatus, unresolved, resolved, ignored, parse_status,
  Issue, UpdateIssue,
}
use logingestor.ClientErrors.World.{
  Row, FacetKind, user_facet, org_facet, release_facet, Facet, ErrorStore, insert_issue, find_issue,
  touch_row, add_facets, detach_row, save_issue, call_failed, invalid_status, ErrorEnv, ErrorExec,
}

-- `queryIssueByFingerprint`: the project where there is one, else the org, else the anonymous bucket.
abbrev pub eq_id : Option Uuid → Option Uuid → Bool
eq_id none none = true
eq_id (some a) (some b) = a == b
eq_id _ _ = false

abbrev pub in_scope : Option Uuid → Option Uuid → Issue → Bool
in_scope (some p) org i = eq_id i.project_id (some p)
in_scope none (some o) i = eq_id i.project_id none && eq_id i.org_id (some o)
in_scope none none i = eq_id i.project_id none && eq_id i.org_id none

unfoldable pub is_issue_of : Option Uuid → Option Uuid → Text → Issue → Bool
is_issue_of org project fingerprint i = text_eq i.fingerprint fingerprint && in_scope project org i

unfoldable pub query_issue_by_fingerprint :
    Option Uuid → Option Uuid → Text → List Issue → Option Issue
query_issue_by_fingerprint org project fingerprint is =
    find (is_issue_of org project fingerprint) is

-- `UpsertIssue`: the row that it inserts counts one event, whatever the event stands for.
unfoldable pub upsert_issue : Issue → List Issue → (Issue × Bool) × List Issue
upsert_issue i is = elim (query_issue_by_fingerprint i.org_id i.project_id i.fingerprint is) [
  | some existing ↦ ((existing, false), is)
  | none ↦ (
    (record i { event_count = 1 }, true),
    is
        ++ record i {
          event_count = 1;
          last_seen_at = i.first_seen_at;
          regressed = false;
          resolved_at = none;
          assignee_id = none;
        }
          ∷ [],
  )
]

abbrev pub is_resolved_status : IssueStatus → Bool
is_resolved_status resolved = true
is_resolved_status _ = false

abbrev pub reopen_status : IssueStatus → IssueStatus
reopen_status resolved = unresolved
reopen_status unresolved = unresolved
reopen_status ignored = ignored

-- The worst level that the issue was seen at.
abbrev pub worse_level : ErrorLevel → ErrorLevel → ErrorLevel
worse_level old fatal = fatal
worse_level warning error = error
worse_level old _ = old

unfoldable pub touched : Time → ErrorLevel → Uuid → ℕ → Issue → Issue
touched at level sample count i = record i {
  event_count = i.event_count + count;
  last_seen_at = max i.last_seen_at at;
  first_seen_at = min i.first_seen_at at;
  sample_event_id = some sample;
  status = reopen_status i.status;
  regressed = is_resolved_status i.status || i.regressed;
  resolved_at = (if is_resolved_status i.status then none else i.resolved_at);
  level = worse_level i.level level;
}

abbrev is_none : Option Time → Bool
is_none none = true
is_none (some t) = false

-- `RETURNING regressed AND resolved_at IS NULL`, of the row as it is afterwards.
unfoldable pub reopened : Issue → Bool
reopened i = i.regressed && is_none i.resolved_at

abbrev pub has_issue_id : Uuid → Issue → Bool
has_issue_id id i = i.id == id

abbrev pub touch_rows : Uuid → Time → ErrorLevel → Uuid → ℕ → List Issue → List Issue
touch_rows id at level sample count is = update (has_issue_id id) (touched at level sample count) is

-- `TouchIssue`; a row that is gone is an error of the statement.
unfoldable pub touch_issue : ErrorEnv → Uuid → Time → ErrorLevel → Uuid → ℕ → ErrorExec Bool
touch_issue env id at level sample count w = elim (find (has_issue_id id) w.issues) [
  | none ↦ (err (call_failed (touch_row id)), w)
  | some i ↦ if env.fails (touch_row id) then (err (call_failed (touch_row id)), w) else (
    ok (reopened (touched at level sample count i)),
    record w { issues = touch_rows id at level sample count w.issues },
  )
]

-- `RecordFacets`
abbrev eq_kind : FacetKind → FacetKind → Bool
eq_kind user_facet user_facet = true
eq_kind org_facet org_facet = true
eq_kind release_facet release_facet = true
eq_kind _ _ = false

abbrev pub eq_facet : Facet → Facet → Bool
eq_facet f g = f.issue_id == g.issue_id && eq_kind f.kind g.kind && text_eq f.value g.value

unfoldable pub add_facet : Facet → List Facet → List Facet
add_facet f fs = if any (eq_facet f) fs then fs else fs ++ f ∷ []

unfoldable pub add_all_facets : List Facet → List Facet → List Facet
add_all_facets [] fs = fs
add_all_facets (f ∷ new) fs = add_all_facets new (add_facet f fs)

unfoldable pub record_facets : ErrorEnv → Uuid → List Facet → ErrorExec (Unit {0})
record_facets env id [] w = (ok tt, w)
record_facets env id (f ∷ fs) w =
    writes (env.fails (add_facets id)) (call_failed (add_facets id))
      (λ w. record w { facets = add_all_facets (f ∷ fs) w.facets }) w

-- `DetachFromIssue`: the count stops at nothing; an issue with no event goes, and its facets with it.
abbrev pub is_event_of : Uuid → Row → Bool
is_event_of id r = eq_id r.event.issue_id (some id)

unfoldable pub detach_from_issue : ErrorEnv → Uuid → ℕ → ErrorExec (Unit {0})
detach_from_issue env id count =
    writes (env.fails (detach_row id)) (call_failed (detach_row id)) λ w.
      let lighter =
        update (has_issue_id id) (λ (i : Issue). record i { event_count = i.event_count - count })
          w.issues in
      if any (is_event_of id) w.rows then record w { issues = lighter } else record w {
        issues = select (λ i. not (has_issue_id id i)) lighter;
        facets = select (λ (f : Facet). not (f.issue_id == id)) w.facets;
      }

-- A triage decision: `status` is the parsed one.
abbrev pub eq_status : IssueStatus → IssueStatus → Bool
eq_status unresolved unresolved = true
eq_status resolved resolved = true
eq_status ignored ignored = true
eq_status _ _ = false

abbrev resolve_by : IssueStatus → Time → Issue → Issue
resolve_by resolved now i = record i { resolved_at = some now; regressed = false }
resolve_by _ now i = record i { resolved_at = none }

unfoldable pub with_status : IssueStatus → Time → Issue → Issue
with_status s now i =
    if eq_status s i.status
    then record i { status = s }
    else record (resolve_by s now i) { status = s }

-- `UPDATE client_error_issues`: the triage columns.
unfoldable pub save_triage : ErrorEnv → Issue → ErrorExec (Unit {0})
save_triage env i = writes (env.fails (save_issue i.id)) (call_failed (save_issue i.id)) λ w.
    record w {
      issues =
          update (has_issue_id i.id)
            (λ (old : Issue). record old {
              status = i.status;
              regressed = i.regressed;
              resolved_at = i.resolved_at;
              assignee_id = i.assignee_id;
            })
            w.issues;
    }

unfoldable pub apply_triage : ErrorEnv → Option (Option Uuid) → Issue → ErrorExec Issue
apply_triage env assignee i = do
  let i' = record i { assignee_id = given assignee i.assignee_id }
  save_triage env i'
  pure i'

unfoldable pub update_issue : ErrorEnv → Time → Issue → UpdateIssue → ErrorExec Issue
update_issue env now i ui = elim ui.status [
  | none ↦ apply_triage env ui.assignee_id i
  | some text ↦ elim (parse_status text) [
    | none ↦ raise_error invalid_status
    | some s ↦ apply_triage env ui.assignee_id (with_status s now i)
  ]
]
