-- ===== src/Alerting/World.antt =====
-- The state that alerting acts on, what it takes from outside, and its failing calls.
-- `Storer` of business/domain/integrationbus/integrationbus.go is the four tables; a statement that
-- the database refuses is a call that `fails`.
use logingestor.Prelude.{ℕ, Bool, Option, none, some, List, [], ◌∷◌, ◌++◌, if◌then◌else◌}
use logingestor.Prelude.Text.{Text, CaseTable}
use logingestor.Prelude.Clock.{Time, Duration}
use logingestor.Prelude.Result.{Result, ok, err}
use logingestor.Alerting.Condition.{Query, ConditionError}
use logingestor.Alerting.Model.{
  Uuid, SuppressReason, MaintenanceWindow, AlertEvent, AlertPayload, Credential, Integration,
  AlertRule,
}

-- The statements of the store, and the count over the logs, each of which may fail.
pub data Call : Type 0 where
  query_open : Uuid → Text → Call
  record_row notified_row query_event resolve_row acknowledge_row : Uuid → Call
  query_active_rules query_active_maintenance query_connection : Uuid → Call
  query_threshold_rules query_history query_rules query_integrations query_windows : Call
  count_logs : Uuid → Call
  query_rule create_row update_row delete_row disable_rules : Uuid → Call

pub data AlertError : Type 0 where
  failed : Call → AlertError
  not_found rule_not_found event_not_found unknown_provider provider_rejected : AlertError
  invalid_level connection_bad_org connection_bad_project bad_range : AlertError
  bad_condition : ConditionError → AlertError

-- The lines that the code logs: a suppressed alert with its reason, and an error that is not returned.
pub data LogLine : Type 0 where
  suppressed : Uuid → Uuid → SuppressReason → LogLine
  raise_failed resolve_failed count_failed : Uuid → AlertError → LogLine
  maintenance_failed : Uuid → AlertError → LogLine

pub record World : Type 0 where
  pub rules : List AlertRule
  pub events : List AlertEvent
  pub windows : List MaintenanceWindow
  pub integrations : List Integration
  pub outbox : List (Uuid × AlertPayload)
  pub log : List LogLine

-- What is not in this repository, or not in this part of it: the Unicode tables, which statements
-- fail, the providers' clients (`true` for a nil error), `uuid.Parse`, the id of an inserted row, a
-- duration's text and the count of a query's logs between two instants.
pub record Env : Type 0 where
  pub unicode : CaseTable
  pub fails : Call → Bool
  pub callers : Text → Option (List Credential → AlertPayload → Bool)
  pub parse_uuid : Text → Option Uuid
  pub fresh : List AlertEvent → Uuid
  pub duration_text : Duration → Text
  pub count_matching : Uuid → Query → Time → Time → ℕ

-- A method: it may fail, and what it wrote before stays written.
abbrev pub Exec : Type 0 → Type 0
Exec A = World → Result AlertError A × World

abbrev pub continue : {A B : Type 0} → Result AlertError A → (A → Exec B) → Exec B
continue (ok a) f w = f a w
continue (err e) f w = (err e, w)

infixl 5 ◌>>=◌ ◌>>◌
abbrev pub ◌>>=◌ : {A B : Type 0} → Exec A → (A → Exec B) → Exec B
◌>>=◌ m f w = let (r, w') = m w in continue r f w'

abbrev pub ◌>>◌ : {B : Type 0} → Exec (Unit {0}) → Exec B → Exec B
m >> k = m >>= λ _. k

abbrev pub pure : {A : Type 0} → A → Exec A
pure a w = (ok a, w)

abbrev pub raise_error : {A : Type 0} → AlertError → Exec A
raise_error e w = (err e, w)

-- A statement that answers, and one that writes.
abbrev pub reads : {A : Type 0} → Env → Call → (World → A) → Exec A
reads env c f w = if env.fails c then (err (failed c), w) else (ok (f w), w)

abbrev pub writes : Env → Call → (World → World) → Exec (Unit {0})
writes env c f w = if env.fails c then (err (failed c), w) else (ok tt, f w)

abbrev pub or_error : {A : Type 0} → AlertError → Option A → Exec A
or_error e none = raise_error e
or_error e (some a) = pure a

abbrev pub note : LogLine → Exec (Unit {0})
note line w = (ok tt, record w { log = w.log ++ line ∷ [] })
