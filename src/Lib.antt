-- ===== src/Lib.antt =====
-- The core of logingestor, a service that takes in logs: alerting, admission, ingestion, log sources,
-- client errors, listings, retention, and organizations with their members, projects and invitations.
--
-- Alerting (business/domain/integrationbus). A rule carries a condition and routes to a connection. A
-- batch of logs goes through `FireAlerts`: each active rule of the project counts the logs that its
-- condition fires on and hands the first of the most severe to `raise`, which folds the firing into the
-- open event of the rule and its dedup key, asks `ShouldNotify` and sends. Threshold rules are left to
-- `EvaluateThresholds`, which counts logs over a window and resolves the event of a rule that is back
-- under its count. The files:
-- - Alerting/Condition.antt: condition.go (`Validate`, `MatchesLog`, `Satisfied`, `DedupKey`,
--   `ParseCondition`). `json.Unmarshal` is a parameter.
-- - Alerting/Model.antt and World.antt: the records of model.go and suppress.go, the tables, the log and
--   the outbox as one record `World`, and `Exec`, a call that passes the world on and may fail. What a
--   failed call wrote before stays written, as there is no transaction.
-- - Alerting/Suppress.antt: suppress.go (`Covers`, `ShouldNotify`) and `DedupWindow`.
-- - Alerting/Events.antt: stores/integrationdb/alertevents.go, each statement a function on the table.
-- - Alerting/Engine.antt: integrationbus.go (`SendAlert`, `FireAlerts`, `raise`, `matchPayloads`).
-- - Alerting/Threshold.antt: threshold.go.
-- - Alerting/Rules.antt, Connections.antt and Queries.antt: the rules, the connections and the listings
--   of integrationbus.go with the statements of stores/integrationdb/integrationdb.go.
--
-- Admission. Limits/Source.antt is business/sdk/ingest/limiter.go (`AllowN`), Limits/Keyed.antt is
-- business/sdk/ratelimit/ratelimit.go (`Allow`, `sweep`), Limits/Severity.antt is severity.go and
-- sampling.go of business/sdk/ingest. Paging.antt is business/sdk/page and business/sdk/order.
--
-- Ingestion. A request to the bulk route presents the key of a log source, its records are limited,
-- sampled, normalized and stored as logs of the project of the source. The files:
-- - Sources.antt and below it: business/domain/sourcebus (model.go, key.go, health.go, sourcebus.go and
--   stores/sourcedb) and app/sdk/mid/authenticatesource.go.
-- - Ingest/Logfmt.antt and Record.antt: normalize.go and redact.go of business/sdk/ingest, with
--   `bulkToRecord` and `recordToNewLog`; Body.antt: parse.go of app/domain/ingestapp; Pipeline.antt:
--   ingestapp.go (`bulk`, `process`), which calls Limits/Source.antt and Limits/Severity.antt.
--
-- Client errors (business/domain/clienterrorbus). Browsers report crashes; a table of events is the queue
-- from which a worker groups them into issues. The files, under ClientErrors:
-- - Model.antt, Scrub.antt, Fingerprint.antt, Maps.antt, Spikes.antt, Artifacts.antt: model.go, scrub.go,
--   fingerprint.go, resolve.go, spike.go, artifact.go.
-- - World.antt: the tables and what the code takes from outside.
-- - Reports.antt, Group.antt, Issues.antt, Listings.antt: clienterrorbus.go (`Ingest`, `ProcessBatch`,
--   `group`, `UpdateIssue`, `QueryIssues`, `PurgeOrg`) with the statements of stores/clienterrordb; `drain` is the loop of
--   `runClientErrorGrouping` in api/services/ingestor/main.go, with its bound of twenty rounds as fuel.
--
-- Retention (business/sdk/retention/retention.go). `Run` resolves the days that each project keeps its
-- logs, deletes the expired ones in batches, oldest first, within a budget of rows and of time, and makes
-- the hourly rollup agree with what is left; then it prunes audit, counters, client errors and rejects.
-- The files, under Retention:
-- - Model.antt: the configuration, the rows, and what the code takes from outside: which statement fails,
--   what the clock says and whether the context is cancelled, after so many statements.
-- - Batches.antt: one batched DELETE and the loop that sends it. The fuel is one more than the rows of the
--   table: a turn that goes on has deleted a row, as a batch is at least one row.
-- - Purge.antt: `purge`, `deleteExpired`, `nextBatch` and `repairRollup`, whose transaction writes by its
--   commit alone. Run.antt: `Run` and the other deletes. Rows of one instant are taken in table order.
--
-- Tenancy. Organizations have members with roles and own projects; a grant lets a user see a project. The
-- files, under Tenancy:
-- - Model.antt: the tables and the roles (business/types/role), and what the code takes from outside.
-- - Orgs.antt: business/domain/orgbus/orgbus.go with stores/orgdb/orgdb.go.
-- - Access.antt: grants and visibility of business/domain/projectbus, and app/sdk/mid/authorize.go and
--   authorizeproject.go.
-- - Handlers.antt: app/domain/orgapp/orgapp.go (`create`, `updateRole`, `removeMember`, `delete`) and
--   `update` of app/domain/projectapp/projectapp.go.
-- - Invites.antt: business/domain/invitationbus with its store and app/domain/invitationapp.
-- No call runs in a transaction: what was written before a failure stays.
--
-- Prelude holds what the parts share: tests, lists, integers with int64 wrap-around, texts as lists of
-- code points, instants in nanoseconds since the year 1 with the saturating `Sub`. Examples holds
-- concrete data and runs.
--
-- Parameters (`Env`): which statements of the database fail, the providers, the Unicode case tables,
-- `uuid.Parse`, the id of an inserted row, the text of a duration and the count of matching logs.
-- `time.Now()` and `uuid.New()` are arguments. Every loop is structural recursion over the list that the
-- code ranges over, but `drain`, which has the bound of the code, and the batches of retention.
--
-- Where the model is not the machine: an instant is exact, while the database rounds to microseconds; a
-- match count does not overflow; tokens of the limiters are counted exactly, in units small enough for
-- every refill to be whole, where the code has float64 and rounds, and the numbers of a keyed policy and its cost
-- are whole; a mutex makes each call of a limiter one step; goroutines that evaluate rules at the same
-- time, and requests that change members, are not interleaved. Not modelled: the encryption of credentials, stored conditions that do not
-- parse, the providers' HTTP and mail
-- calls, the OTLP listener and the other handlers, the log store, the series and totals of client errors,
-- users, API keys, payments, single sign-on and the foundation packages.
pub mod Prelude
pub mod Alerting
pub mod Limits
pub mod Paging
pub mod ClientErrors
pub mod Sources
pub mod Ingest
pub mod Retention
pub mod Tenancy
pub mod Examples
