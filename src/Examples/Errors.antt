-- ===== src/Examples/Errors.antt =====
-- Instances of the theorems on client errors.
use logingestor.Prelude.{arith, ℕ, ◌+◌, ◌≡◌, refl, true, false, none, some, [], ◌∷◌, length}
use logingestor.Prelude.Int.{pos}
use logingestor.Prelude.Text.{Text, codes, ascii}
use logingestor.Prelude.Result.{ok}
use logingestor.Alerting.Model.{Uuid}
use logingestor.ClientErrors.Model.{
  error, fatal, manual, resolved, NewEvent, Reporter, Event, Issue,
}
use logingestor.ClientErrors.World.{ErrorStore, ReportError, ErrorEnv}
use logingestor.ClientErrors.Maps.{empty_cache}
use logingestor.ClientErrors.Scrub.{scrub}
use logingestor.ClientErrors.Scrub.Lengths.{IsBounded, scrub-IsBounded}
use logingestor.ClientErrors.Issues.{touched, reopened}
use logingestor.ClientErrors.Issues.Touch.{without_sample, touched_swap, reopened_again}
use logingestor.ClientErrors.Reports.{new_row, ingest}
use logingestor.ClientErrors.Reports.Resend.{ingest_again}
use logingestor.ClientErrors.Issues.Unique.{IsDistinct}
use logingestor.ClientErrors.Group.{process_batch, drain}
use logingestor.ClientErrors.Group.Queue.{budget, drain_stops}
use logingestor.ClientErrors.Group.OneIssue.{process_batch-IsDistinct}
use logingestor.ClientErrors.Artifacts.{NewArtifact, upload_artifact}
use logingestor.ClientErrors.Artifacts.Silent.{upload_silent}
use logingestor.ClientErrors.Spikes.{SpikeConfig}
use logingestor.ClientErrors.Listings.{
  order_desc, selects, insert_desc, below, cursor_of, sort_key, by_last_seen, IssueFilter, listed,
}
use logingestor.ClientErrors.Listings.Pages.{follow, follow_pages}

abbrev error_env : ErrorEnv
error_env = record {
  fails = λ c. false;
  replace = λ p s r. s;
  matchers = record {
    unicode = ascii;
    replace_template = λ t s r. s;
    frame_line = λ s. none;
    digest = λ s. s;
  };
  fresh_issue = λ issues. 100 + length issues;
  fresh_artifact = λ stored. 200 + length stored;
  uuid_text = λ u. codes "user";
  atoi = λ s. some (pos 1);
  parse_map = λ file content. none;
  parse_object = λ content. some ((codes "mappings", []) ∷ (codes "version", []) ∷ []);
  print_object = λ doc. 1 ∷ [];
  compress = λ content. content;
  notifies = true;
}

abbrev browser : Reporter
browser = record { user_id = some 5; org_id = some 1; project_id = some 2; role = codes "user" }

abbrev crash : NewEvent
crash = record {
  event_id = 77;
  occurred_at = 10;
  level = codes "error";
  kind = codes "manual";
  name = codes "TypeError";
  message = codes "x is undefined";
  stack = [];
  component_stack = [];
  release = codes "r1";
  environment = codes "prod";
  url = codes "/orders";
  user_agent = [];
  api = none;
  breadcrumbs = [];
  sampled_count = pos 1;
}

abbrev pub stored_crash : Event
stored_crash = record {
  id = 50;
  event_id = 77;
  org_id = some 1;
  project_id = some 2;
  user_id = some 5;
  role = codes "user";
  level = error;
  kind = manual;
  name = codes "TypeError";
  message = codes "x is undefined";
  stack = [];
  component_stack = [];
  resolved_stack = [];
  release = codes "r1";
  environment = codes "prod";
  url = codes "/orders";
  user_agent = [];
  api = none;
  breadcrumbs = [];
  occurred_at = 10;
  received_at = 12;
  fingerprint = [];
  issue_id = none;
  sampled_count = 1;
}

abbrev pub closed_issue : Issue
closed_issue = record {
  id = 100;
  org_id = some 1;
  project_id = some 2;
  fingerprint = codes "f";
  title = codes "TypeError";
  culprit = codes "/orders";
  level = error;
  kind = manual;
  status = resolved;
  regressed = false;
  event_count = 3;
  first_seen_at = 4;
  last_seen_at = 9;
  resolved_at = some 9;
  assignee_id = none;
  sample_event_id = none;
}

abbrev empty_store : ErrorStore
empty_store = record {
  rows = [];
  issues = [];
  facets = [];
  artifacts = [];
  maps = empty_cache;
  notices = [];
}

abbrev queued_store : ErrorStore
queued_store = record empty_store { rows = new_row stored_crash ∷ []; issues = closed_issue ∷ [] }

-- The event was filed, and its release has no map yet.
abbrev filed_store : ErrorStore
filed_store = record empty_store {
  rows =
      record (new_row (record stored_crash { issue_id = some 100 })) {
        fingerprint_version = 1;
        processed_at = some 13;
        attempts = 1;
      }
      ∷ [];
  issues = closed_issue ∷ [];
}

abbrev some_reason : ReportError → Text
some_reason e = codes "failed"

abbrev two_ids : ℕ → Uuid
two_ids n = 1000 + n

abbrev three_ids : ℕ → Uuid
three_ids n = 2000 + n

ingest_again_example :
    ingest error_env 30 three_ids browser
      (crash ∷ [])
      (ingest error_env 20 two_ids browser (crash ∷ []) empty_store).1
    ≡ (ok 0, (ingest error_env 20 two_ids browser (crash ∷ []) empty_store).1)
ingest_again_example =
    ingest_again error_env 20 30 two_ids three_ids browser browser (crash ∷ []) empty_store refl
      (omega arith) (omega arith) (refl, tt)

drain_stops_example : (drain error_env some_reason 10 20 (λ n. 30 + n) queued_store).0 ≡ true
unfolding budget
drain_stops_example =
    drain_stops error_env some_reason 10 20 (λ n. 30 + n) queued_store (omega arith) (omega arith)

process_batch-IsDistinct_example :
    IsDistinct (process_batch error_env 30 some_reason 10 queued_store).1.issues
process_batch-IsDistinct_example =
    process_batch-IsDistinct error_env 30 some_reason 10 queued_store (tt, tt)

abbrev index_map : NewArtifact
index_map = record {
  release = codes "r1";
  file_name = codes "dist/index.js.map";
  content = 1 ∷ 2 ∷ [];
  uploaded_by = codes "ci";
}

upload_silent_example :
    (drain error_env some_reason 10 20
      (λ n. 30 + n)
      (upload_artifact error_env 20 index_map filed_store).1).1.notices
    ≡ []
upload_silent_example =
    upload_silent error_env some_reason 20 index_map 10 20 (λ n. 30 + n) filed_store (refl, tt)

touched_swap_example :
    without_sample (touched 12 fatal 51 1 (touched 10 error 50 2 closed_issue))
    ≡ without_sample (touched 10 error 50 2 (touched 12 fatal 51 1 closed_issue))
touched_swap_example = touched_swap 12 10 fatal error 51 50 1 2 closed_issue

reopened_again_example :
    reopened (touched 12 error 51 1 (touched 10 error 50 1 closed_issue)) ≡ true
reopened_again_example = reopened_again 10 12 error error 50 51 1 1 closed_issue refl

abbrev usual_spikes : SpikeConfig
usual_spikes = record {
  window = pos 0;
  baseline = pos 0;
  numerator = 0;
  denominator = 1;
  min_events = pos 0;
}

scrub-IsBounded_example : IsBounded (scrub error_env.replace crash)
scrub-IsBounded_example = scrub-IsBounded error_env.replace crash

abbrev old_issue : Issue
old_issue = record closed_issue { id = 101; fingerprint = codes "g"; last_seen_at = 6 }

abbrev newest : IssueFilter
newest = record {
  all_orgs = false;
  org_id = some 1;
  project_id = none;
  status = none;
  since = none;
  release = [];
  sort = by_last_seen;
  limit = pos 1;
}

-- Two pages of one issue each, and an empty one.
follow_pages_example :
    follow 5 newest none [] (old_issue ∷ closed_issue ∷ [])
    ≡ listed newest [] (old_issue ∷ closed_issue ∷ [])
unfolding order_desc selects insert_desc below cursor_of sort_key
follow_pages_example =
    follow_pages newest [] (old_issue ∷ closed_issue ∷ []) 5
      ((λ h. absurd (ground (arith, h)), tt), (tt, tt)) (omega arith)
