-- ===== src/ClientErrors/World.antt =====
-- The tables of client error monitoring, what the code takes from outside and its failing calls:
-- `Storer` and `Business` of business/domain/clienterrorbus/clienterrorbus.go.
use logingestor.Prelude.{ℕ, Bool, Option, List}
use logingestor.Prelude.Int.{ℤ}
use logingestor.Prelude.Text.{Text}
use logingestor.Prelude.Clock.{Time, Duration}
use logingestor.Prelude.Exec.{Exec}
use logingestor.Alerting.Model.{Uuid}
use logingestor.ClientErrors.Model.{Event, Issue}
use logingestor.ClientErrors.Scrub.{Pattern}
use logingestor.ClientErrors.Fingerprint.{Matchers}

-- The columns of an event that only the queue reads.
pub record Row : Type 0 where
  pub event : Event
  pub fingerprint_version : ℕ
  pub processed_at : Option Time
  pub attempts : ℕ
  pub process_error : Option Text

pub data FacetKind : Type 0 where
  user_facet org_facet release_facet : FacetKind

pub record Facet : Type 0 where
  pub issue_id : Uuid
  pub kind : FacetKind
  pub value : Text

pub record Artifact : Type 0 where
  pub id : Uuid
  pub release : Text
  pub file_name : Text
  pub byte_size : ℕ
  pub uploaded_by : Text
  pub date_created : Time
  pub content : List ℕ

-- A position of the source: the file, the function's name and the place in the file.
pub record Place : Type 0 where
  pub source : Text
  pub name : Text
  pub line : ℤ
  pub column : ℤ

-- A parsed source map answers for a line and a column of the generated file.
abbrev pub SourceMap : Type 0
SourceMap = ℤ → ℤ → Option Place

-- `sourceMapCache`: the maps that were parsed, and the keys that have none.
pub record Cache : Type 0 where
  pub entries : List (Text × SourceMap)
  pub misses : List Text

-- A rate is a fraction: the events before the window times its length, over the longer period.
pub record Spike : Type 0 where
  pub issue : Issue
  pub current : ℕ
  pub baseline_events : ℕ
  pub window : Duration

pub data Notice : Type 0 where
  issue_opened issue_regressed : Issue → Event → Notice
  issue_spiked : Issue → Spike → Notice

pub record ErrorStore : Type 0 where
  pub rows : List Row
  pub issues : List Issue
  pub facets : List Facet
  pub artifacts : List Artifact
  pub maps : Cache
  pub notices : List Notice

pub data StoreCall : Type 0 where
  insert_events claim_rows query_spikes list_issues purge_rows : StoreCall
  attach_row fail_row find_issue insert_issue touch_row add_facets detach_row : Uuid → StoreCall
  save_issue query_issue query_events : Uuid → StoreCall
  upsert_artifact fetch_artifact regroup_rows list_artifacts : Text → StoreCall

pub data ReportError : Type 0 where
  call_failed : StoreCall → ReportError
  issue_not_found no_events too_many_events invalid_status : ReportError
  artifact_too_large artifact_empty artifact_release artifact_invalid : ReportError

-- Outside the repository: the statements that fail, the regular expressions and the digest,
-- `uuid.New()` for an issue and for an uploaded map, the text of an identifier, `strconv.Atoi`, the
-- parser of a stored map, package json on the members of an object, and the compression of bytes;
-- `notifies` tells whether there is a notifier.
pub record ErrorEnv : Type 0 where
  pub fails : StoreCall → Bool
  pub replace : Pattern → Text → Text → Text
  pub matchers : Matchers
  pub fresh_issue : List Issue → Uuid
  pub fresh_artifact : List Artifact → Uuid
  pub uuid_text : Uuid → Text
  pub atoi : Text → Option ℤ
  pub parse_map : Text → List ℕ → Option SourceMap
  pub parse_object : List ℕ → Option (List (Text × Text))
  pub print_object : List (Text × Text) → List ℕ
  pub compress : List ℕ → List ℕ
  pub notifies : Bool

abbrev pub ErrorExec : Type 0 → Type 0
ErrorExec A = Exec ErrorStore ReportError A
