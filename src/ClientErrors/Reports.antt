-- ===== src/ClientErrors/Reports.antt =====
-- `Ingest` of business/domain/clienterrorbus/clienterrorbus.go and of its store. The identifiers that
-- `uuid.New()` makes for the report at index `n` are `ids (2 * n)` and, for the idempotency key where
-- the client left it out, `ids (2 * n + 1)`; the nil UUID is 0.
pub mod Resend
use logingestor.Prelude.{
  ℕ, suc, ◌+◌, ◌-◌, ◌*◌, Bool, true, false, ◌||◌, Option, none, some, List, [], ◌∷◌, ◌++◌, any,
  length, ltb, ◌==◌, if◌then◌else◌,
}
use logingestor.Prelude.Int.{ℤ, pos, negsuc}
use logingestor.Prelude.Text.{Text, codes}
use logingestor.Prelude.Clock.{Time, hour, before}
use logingestor.Prelude.Result.{Result, ok, err}
use logingestor.Alerting.Model.{Uuid}
use logingestor.ClientErrors.Model.{
  ErrorLevel, error, ErrorKind, manual, valid_level, valid_kind, max_batch_events, NewEvent,
  Reporter, Event,
}
use logingestor.ClientErrors.Scrub.{scrub}
use logingestor.ClientErrors.World.{
  Row, ErrorStore, insert_events, ReportError, call_failed, no_events, too_many_events, ErrorEnv,
  ErrorExec,
}

abbrev level_or : Option ErrorLevel → ErrorLevel
level_or none = error
level_or (some l) = l

abbrev kind_or : Option ErrorKind → ErrorKind
kind_or none = manual
kind_or (some k) = k

abbrev name_or : Text → Text
name_or [] = codes "Error"
name_or (c ∷ s) = c ∷ s

abbrev to_count : ℤ → ℕ
to_count (pos n) = n
to_count (negsuc n) = 0

-- A browser's clock can be anything: no time, or one that is over an hour ahead, becomes the server's.
unfoldable pub clamp_occurred : Time → Time → Time
clamp_occurred now t = if t == 0 || before (now + hour) t then now else t

-- One round of the loop, on the scrubbed report.
unfoldable pub stored_event : Time → Uuid → Uuid → Reporter → NewEvent → Event
stored_event now id key who ne = record {
  id = id;
  event_id = (if ne.event_id == 0 then key else ne.event_id);
  org_id = who.org_id;
  project_id = who.project_id;
  user_id = who.user_id;
  role = who.role;
  level = level_or (valid_level ne.level);
  kind = kind_or (valid_kind ne.kind);
  name = name_or ne.name;
  message = ne.message;
  stack = ne.stack;
  component_stack = ne.component_stack;
  resolved_stack = [];
  release = ne.release;
  environment = ne.environment;
  url = ne.url;
  user_agent = ne.user_agent;
  api = ne.api;
  breadcrumbs = ne.breadcrumbs;
  occurred_at = clamp_occurred now ne.occurred_at;
  received_at = now;
  fingerprint = [];
  issue_id = none;
  sampled_count = to_count ne.sampled_count;
}

unfoldable pub stored_events :
    ErrorEnv → Time → (ℕ → Uuid) → ℕ → Reporter → List NewEvent → List Event
stored_events env now ids n who [] = []
stored_events env now ids n who (ne ∷ nes) =
    stored_event now (ids (2 * n)) (ids (2 * n + 1)) who (scrub env.replace ne)
    ∷ stored_events env now ids (suc n) who nes

-- `ON CONFLICT (event_id) DO NOTHING`, with the columns that the insert leaves at their defaults.
abbrev pub new_row : Event → Row
new_row e = record {
  event = e;
  fingerprint_version = 0;
  processed_at = none;
  attempts = 0;
  process_error = none;
}

abbrev pub has_key : Uuid → Row → Bool
has_key key r = r.event.event_id == key

unfoldable pub insert_row : Event → List Row → List Row
insert_row e rows = if any (has_key e.event_id) rows then rows else rows ++ new_row e ∷ []

unfoldable pub insert_rows : List Event → List Row → List Row
insert_rows [] rows = rows
insert_rows (e ∷ es) rows = insert_rows es (insert_row e rows)

-- The store's `Ingest`: how many rows are new.
unfoldable pub store_events : ErrorEnv → List Event → ErrorExec ℕ
store_events env es w = if env.fails insert_events then (err (call_failed insert_events), w) else (
  ok (length (insert_rows es w.rows) - length w.rows),
  record w { rows = insert_rows es w.rows },
)

abbrev check_size : {A : Type 0} → ℕ → ErrorExec A → ErrorExec A
check_size n m w =
    if n == 0
    then (err no_events, w)
    else if ltb max_batch_events n
    then (err too_many_events, w)
    else m w

unfoldable pub ingest : ErrorEnv → Time → (ℕ → Uuid) → Reporter → List NewEvent → ErrorExec ℕ
ingest env now ids who nes =
    check_size (length nes) (store_events env (stored_events env now ids 0 who nes))
