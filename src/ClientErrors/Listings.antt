-- ===== src/ClientErrors/Listings.antt =====
-- `QueryIssues` and `PurgeOrg` of business/domain/clienterrorbus/clienterrorbus.go and of its store. A status that is no
-- status is not among the filters, and a page token is the pair that it encodes; the instants in it are
-- those of the table.
pub mod Keyset
pub mod Pages
use logingestor.Prelude.{
  not, ◌+◌, ℕ, zero, suc, Bool, true, false, ◌&&◌, ◌||◌, Option, none, some, List, [], ◌∷◌, ◌++◌,
  any, select, take, length, ltb, leb, ◌==◌, if◌then◌else◌,
}
use logingestor.Prelude.Int.{ℤ, pos, negsuc}
use logingestor.Prelude.Text.{Text, text_eq}
use logingestor.Prelude.Clock.{Time}
use logingestor.Alerting.Model.{Uuid}
use logingestor.ClientErrors.Model.{IssueStatus, unresolved, resolved, ignored, Issue}
use logingestor.ClientErrors.Issues.{eq_id, eq_status}
use logingestor.ClientErrors.World.{
  Row, FacetKind, user_facet, release_facet, Facet, ErrorStore, purge_rows, call_failed, ErrorEnv,
  ErrorExec,
}
use logingestor.Prelude.Result.{ok, err}

pub data IssueSort : Type 0 where
  by_last_seen by_count by_users : IssueSort

pub record Cursor : Type 0 where
  pub value : ℕ
  pub id : Uuid

pub record IssueFilter : Type 0 where
  pub all_orgs : Bool
  pub org_id : Option Uuid
  pub project_id : Option Uuid
  pub status : Option IssueStatus
  pub since : Option Time
  pub release : Text
  pub sort : IssueSort
  pub limit : ℤ

abbrev default_or : ℕ → ℕ
default_or zero = 25
default_or (suc n) = if leb (suc n) 100 then suc n else 25

unfoldable pub page_limit : ℤ → ℕ
page_limit (negsuc n) = 25
page_limit (pos n) = default_or n

abbrev is_user : FacetKind → Bool
is_user user_facet = true
is_user _ = false

abbrev is_release : FacetKind → Bool
is_release release_facet = true
is_release _ = false

unfoldable pub affected_users : List Facet → Uuid → ℕ
affected_users facets id =
    length (select (λ (f : Facet). f.issue_id == id && is_user f.kind) facets)

unfoldable pub sort_key : IssueSort → List Facet → Issue → ℕ
sort_key by_last_seen facets i = i.last_seen_at
sort_key by_count facets i = i.event_count
sort_key by_users facets i = affected_users facets i.id

abbrev in_org : Bool → Option Uuid → Issue → Bool
in_org true org i = true
in_org false org i = eq_id i.org_id org

abbrev in_project : Option Uuid → Issue → Bool
in_project none i = true
in_project (some p) i = eq_id i.project_id (some p)

abbrev has_status : Option IssueStatus → Issue → Bool
has_status none i = true
has_status (some s) i = eq_status i.status s

abbrev seen_since : Option Time → Issue → Bool
seen_since none i = true
seen_since (some t) i = leb t i.last_seen_at

abbrev seen_in : Text → List Facet → Issue → Bool
seen_in [] facets i = true
seen_in (c ∷ s) facets i =
    any (λ (f : Facet). f.issue_id == i.id && is_release f.kind && text_eq f.value (c ∷ s)) facets

unfoldable pub selects : IssueFilter → List Facet → Issue → Bool
selects f facets i =
    in_org f.all_orgs f.org_id i
    && (in_project f.project_id i
        && (has_status f.status i && (seen_since f.since i && seen_in f.release facets i)))

-- `(key, id) < (value, id)`
unfoldable pub below : Cursor → Cursor → Bool
below a b = ltb a.value b.value || (a.value == b.value && ltb a.id b.id)

unfoldable pub cursor_of : IssueSort → List Facet → Issue → Cursor
cursor_of sort facets i = record { value = sort_key sort facets i; id = i.id }

-- `ORDER BY key DESC, id DESC`
unfoldable pub insert_desc : (Issue → Cursor) → Issue → List Issue → List Issue
insert_desc key i [] = i ∷ []
insert_desc key i (j ∷ js) =
    let rest = insert_desc key i js in if below (key j) (key i) then i ∷ j ∷ js else j ∷ rest

unfoldable pub order_desc : (Issue → Cursor) → List Issue → List Issue
order_desc key [] = []
order_desc key (i ∷ is) = insert_desc key i (order_desc key is)

unfoldable pub after_cursor : (Issue → Cursor) → Option Cursor → List Issue → List Issue
after_cursor key none is = is
after_cursor key (some c) is = select (λ i. below (key i) c) is

abbrev pub last_of : Issue → List Issue → Issue
last_of i [] = i
last_of i (j ∷ js) = last_of j js

-- A full page has a token of its last row.
abbrev pub next_cursor : (Issue → Cursor) → ℕ → List Issue → Option Cursor
next_cursor key n [] = none
next_cursor key n (i ∷ is) = if length (i ∷ is) == n then some (key (last_of i is)) else none

abbrev pub listed : IssueFilter → List Facet → List Issue → List Issue
listed f facets is = order_desc (cursor_of f.sort facets) (select (selects f facets) is)

unfoldable pub query_issues :
    IssueFilter → Option Cursor → List Facet → List Issue → List Issue × Option Cursor
query_issues f c facets is =
    let rows =
      take (page_limit f.limit) (after_cursor (cursor_of f.sort facets) c (listed f facets is)) in
    (rows, next_cursor (cursor_of f.sort facets) (page_limit f.limit) rows)

-- `PurgeOrg`: the events and the issues of the org, and with the issues their facets, in one transaction.
abbrev of_org : Uuid → Issue → Bool
of_org org i = eq_id i.org_id (some org)

abbrev row_of_org : Uuid → Row → Bool
row_of_org org r = eq_id r.event.org_id (some org)

abbrev facet_of_org : Uuid → List Issue → Facet → Bool
facet_of_org org is f = any (λ (i : Issue). f.issue_id == i.id && of_org org i) is

unfoldable pub purge_org : ErrorEnv → Uuid → ErrorExec ℕ
purge_org env org w = if env.fails purge_rows then (err (call_failed purge_rows), w) else (
  ok (length (select (row_of_org org) w.rows) + length (select (of_org org) w.issues)),
  record w {
    rows = select (λ r. not (row_of_org org r)) w.rows;
    issues = select (λ i. not (of_org org i)) w.issues;
    facets = select (λ f. not (facet_of_org org w.issues f)) w.facets;
  },
)
