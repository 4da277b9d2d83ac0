-- ===== src/ClientErrors/Model.antt =====
-- business/domain/clienterrorbus/model.go: reports, events and issues. A level, a kind and a status are
-- stored only after they were checked, so they are enumerations; `none` is a nil pointer.
use logingestor.Prelude.{ℕ, Bool, Option, none, some, List, if◌then◌else◌}
use logingestor.Prelude.Int.{ℤ}
use logingestor.Prelude.Text.{Text, codes, text_eq}
use logingestor.Prelude.Clock.{Time}
use logingestor.Alerting.Model.{Uuid}

pub data ErrorLevel : Type 0 where
  fatal error warning : ErrorLevel

pub data ErrorKind : Type 0 where
  unhandled unhandled_rejection react api manual : ErrorKind

pub data IssueStatus : Type 0 where
  unresolved resolved ignored : IssueStatus

-- `ValidLevel`, `ValidKind` and `ParseStatus`, each with the value that it checks for.
unfoldable pub valid_level : Text → Option ErrorLevel
valid_level s =
    if text_eq s (codes "fatal")
    then some fatal
    else if text_eq s (codes "error")
    then some error
    else if text_eq s (codes "warning")
    then some warning
    else none

unfoldable pub valid_kind : Text → Option ErrorKind
valid_kind s =
    if text_eq s (codes "unhandled")
    then some unhandled
    else if text_eq s (codes "unhandledrejection")
    then some unhandled_rejection
    else if text_eq s (codes "react")
    then some react
    else if text_eq s (codes "api")
    then some api
    else if text_eq s (codes "manual")
    then some manual
    else none

unfoldable pub parse_status : Text → Option IssueStatus
parse_status s =
    if text_eq s (codes "unresolved")
    then some unresolved
    else if text_eq s (codes "resolved")
    then some resolved
    else if text_eq s (codes "ignored")
    then some ignored
    else none

unfoldable pub kind_text : ErrorKind → Text
kind_text unhandled = codes "unhandled"
kind_text unhandled_rejection = codes "unhandledrejection"
kind_text react = codes "react"
kind_text api = codes "api"
kind_text manual = codes "manual"

abbrev pub max_batch_events : ℕ
max_batch_events = 50

abbrev pub max_message_len : ℕ
max_message_len = 1000

abbrev pub max_stack_len : ℕ
max_stack_len = 8000

abbrev pub max_component_stack_len : ℕ
max_component_stack_len = 4000

abbrev pub max_breadcrumbs : ℕ
max_breadcrumbs = 30

abbrev pub max_breadcrumb_len : ℕ
max_breadcrumb_len = 300

abbrev pub max_url_len : ℕ
max_url_len = 500

abbrev pub max_user_agent_len : ℕ
max_user_agent_len = 400

abbrev pub max_release_len : ℕ
max_release_len = 120

pub record Breadcrumb : Type 0 where
  pub ts : Time
  pub category : Text
  pub message : Text

pub record ApiContext : Type 0 where
  pub method : Text
  pub path : Text
  pub status : ℤ
  pub code : Text

pub record NewEvent : Type 0 where
  pub event_id : Uuid
  pub occurred_at : Time
  pub level : Text
  pub kind : Text
  pub name : Text
  pub message : Text
  pub stack : Text
  pub component_stack : Text
  pub release : Text
  pub environment : Text
  pub url : Text
  pub user_agent : Text
  pub api : Option ApiContext
  pub breadcrumbs : List Breadcrumb
  pub sampled_count : ℤ

pub record Reporter : Type 0 where
  pub user_id : Option Uuid
  pub org_id : Option Uuid
  pub project_id : Option Uuid
  pub role : Text

pub record Event : Type 0 where
  pub id : Uuid
  pub event_id : Uuid
  pub org_id : Option Uuid
  pub project_id : Option Uuid
  pub user_id : Option Uuid
  pub role : Text
  pub level : ErrorLevel
  pub kind : ErrorKind
  pub name : Text
  pub message : Text
  pub stack : Text
  pub component_stack : Text
  pub resolved_stack : Text
  pub release : Text
  pub environment : Text
  pub url : Text
  pub user_agent : Text
  pub api : Option ApiContext
  pub breadcrumbs : List Breadcrumb
  pub occurred_at : Time
  pub received_at : Time
  pub fingerprint : Text
  pub issue_id : Option Uuid
  pub sampled_count : ℕ

-- The counts of facets are read with the row, from their own table.
pub record Issue : Type 0 where
  pub id : Uuid
  pub org_id : Option Uuid
  pub project_id : Option Uuid
  pub fingerprint : Text
  pub title : Text
  pub culprit : Text
  pub level : ErrorLevel
  pub kind : ErrorKind
  pub status : IssueStatus
  pub regressed : Bool
  pub event_count : ℕ
  pub first_seen_at : Time
  pub last_seen_at : Time
  pub resolved_at : Option Time
  pub assignee_id : Option Uuid
  pub sample_event_id : Option Uuid

-- A double pointer tells unassigning from leaving the assignee alone.
pub record UpdateIssue : Type 0 where
  pub status : Option Text
  pub assignee_id : Option (Option Uuid)
