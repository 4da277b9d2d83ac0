-- ===== src/Alerting/Rules.antt =====
-- Alert rules: `CreateRule`, `UpdateRule`, `DeleteRule` and the queries of
-- business/domain/integrationbus/integrationbus.go, with the statements of
-- stores/integrationdb/integrationdb.go. `uuid.New()` and `time.Now()` are the arguments `id` and `now`.
pub mod Stored
pub mod Level
use logingestor.Prelude.{
  ℕ, Bool, true, false, not, ◌||◌, ◌&&◌, Option, none, some, List, [], ◌∷◌, ◌++◌, find, select,
  update, ◌==◌, if◌then◌else◌,
}
use logingestor.Prelude.Int.{ℤ}
use logingestor.Prelude.Text.{Text, text_eq}
use logingestor.Prelude.Clock.{Time}
use logingestor.Prelude.Result.{Result, ok, err}
use logingestor.Alerting.Condition.{
  Condition, ConditionError, debug, info, warn, error, level_condition, condition_level, validate,
}
use logingestor.Alerting.Model.{Uuid, AlertEvent, Integration, AlertRule}
use logingestor.Alerting.World.{
  Call, create_row, update_row, delete_row, AlertError, failed, rule_not_found, invalid_level,
  connection_bad_org, connection_bad_project, bad_condition, World, Env, Exec, continue, ◌>>=◌,
  ◌>>◌, pure, raise_error, writes, or_error, query_rule,
}
use logingestor.Alerting.Engine.{query_integration}

-- `ValidLevels[level]`
unfoldable pub is_valid_level : Text → Bool
is_valid_level l = text_eq l debug || text_eq l info || text_eq l warn || text_eq l error

pub record NewAlertRule : Type 0 where
  pub org_id : Uuid
  pub project_id : Uuid
  pub connection_id : Uuid
  pub user_id : Uuid
  pub name : Text
  pub level : Text
  pub condition : Condition
  pub dedup_window_seconds : ℤ
  pub is_active : Bool

-- A double pointer tells a cleared snooze from one that is left alone.
pub record UpdateAlertRule : Type 0 where
  pub name : Option Text
  pub level : Option Text
  pub condition : Option Condition
  pub dedup_window_seconds : Option ℤ
  pub connection_id : Option Uuid
  pub is_active : Option Bool
  pub snooze_until : Option (Option Time)

-- `if !test { return err }`
abbrev pub require : Bool → AlertError → Exec (Unit {0})
require true e = pure tt
require false e = raise_error e

abbrev pub valid_or_error : Option ConditionError → Exec (Unit {0})
valid_or_error none = pure tt
valid_or_error (some e) = raise_error (bad_condition e)

abbrev is_unset : Text → Bool
is_unset [] = true
is_unset (c ∷ s) = false

-- An omitted condition fires at or above the level.
unfoldable pub condition_or_level : Condition → Text → Condition
condition_or_level c level = if is_unset c.type then level_condition level else c

unfoldable pub new_rule : Uuid → Time → NewAlertRule → AlertRule
new_rule id now nr = record {
  id = id;
  org_id = nr.org_id;
  project_id = nr.project_id;
  connection_id = nr.connection_id;
  user_id = some nr.user_id;
  name = nr.name;
  level = nr.level;
  condition = condition_or_level nr.condition nr.level;
  dedup_window_seconds = nr.dedup_window_seconds;
  snooze_until = none;
  is_active = nr.is_active;
  created_at = now;
  updated_at = now;
}

unfoldable pub insert_rule : Env → AlertRule → Exec (Unit {0})
insert_rule env r = writes env (create_row r.id) (λ w. record w { rules = w.rules ++ r ∷ [] })

-- `CreateRule` from the validation of the condition on, from the answer of the store on, and whole.
unfoldable pub create_valid : Env → Uuid → Time → NewAlertRule → Exec AlertRule
create_valid env id now nr = do
  valid_or_error (validate (condition_or_level nr.condition nr.level))
  insert_rule env (new_rule id now nr)
  pure (new_rule id now nr)

unfoldable pub create_with : Env → Uuid → Time → NewAlertRule → Integration → Exec AlertRule
create_with env id now nr conn = do
  require (conn.project_id == nr.project_id) connection_bad_project
  require (conn.org_id == nr.org_id) connection_bad_org
  create_valid env id now nr

unfoldable pub create_rule : Env → Uuid → Time → NewAlertRule → Exec AlertRule
create_rule env id now nr = do
  require (is_valid_level nr.level) invalid_level
  conn ← query_integration env nr.connection_id
  create_with env id now nr conn

-- The assignments of `UpdateRule`, each made where its field is given.
abbrev pub given {ℓ} : {A : Type ℓ} → Option A → A → A
given none old = old
given (some new) old = new

abbrev pub level_or_error : Option Text → Exec (Unit {0})
level_or_error none = pure tt
level_or_error (some l) = require (is_valid_level l) invalid_level

-- A new connection must be one of the rule's own project.
abbrev pub connection_or_error : Env → AlertRule → Option Uuid → Exec (Unit {0})
connection_or_error env r none = pure tt
connection_or_error env r (some id) = do
  conn ← query_integration env id
  require (conn.project_id == r.project_id) connection_bad_project

abbrev pub condition_or_error : Option Condition → Exec (Unit {0})
condition_or_error none = pure tt
condition_or_error (some c) = valid_or_error (validate c)

abbrev consistent : Option Text → Option Condition → Text → Condition → Condition
consistent (some l) none level c =
    if text_eq c.type condition_level then level_condition level else c
consistent _ _ level c = c

unfoldable pub updated_rule : Time → AlertRule → UpdateAlertRule → AlertRule
updated_rule now r ur = record r {
  name = given ur.name r.name;
  level = given ur.level r.level;
  connection_id = given ur.connection_id r.connection_id;
  is_active = given ur.is_active r.is_active;
  condition =
      consistent ur.level ur.condition (given ur.level r.level) (given ur.condition r.condition);
  dedup_window_seconds = given ur.dedup_window_seconds r.dedup_window_seconds;
  snooze_until = given ur.snooze_until r.snooze_until;
  updated_at = now;
}

-- `UPDATE alert_rules`: the project, the organization, the owner and the creation stay.
unfoldable pub replace_rule : AlertRule → AlertRule → AlertRule
replace_rule r old = record old {
  name = r.name;
  level = r.level;
  connection_id = r.connection_id;
  is_active = r.is_active;
  updated_at = r.updated_at;
  condition = r.condition;
  dedup_window_seconds = r.dedup_window_seconds;
  snooze_until = r.snooze_until;
}

unfoldable pub save_rule : Env → AlertRule → Exec (Unit {0})
save_rule env r = writes env (update_row r.id) (λ w. record w {
  rules = update (λ (old : AlertRule). old.id == r.id) (replace_rule r) w.rules;
})

-- `UpdateRule`: its checks in their order, and the write.
unfoldable pub check_update : Env → AlertRule → UpdateAlertRule → Exec (Unit {0})
check_update env r ur = do
  level_or_error ur.level
  connection_or_error env r ur.connection_id
  condition_or_error ur.condition

unfoldable pub update_rule : Env → Time → AlertRule → UpdateAlertRule → Exec AlertRule
update_rule env now r ur = do
  check_update env r ur
  save_rule env (updated_rule now r ur)
  pure (updated_rule now r ur)

-- The events of a rule go with it: their foreign key cascades.
unfoldable pub delete_rule : Env → Uuid → Exec (Unit {0})
delete_rule env id = writes env (delete_row id) (λ w. record w {
  rules = select (λ (r : AlertRule). not (r.id == id)) w.rules;
  events = select (λ (e : AlertEvent). not (e.rule_id == id)) w.events;
})

unfoldable pub query_rule_by_id : Env → Uuid → Exec AlertRule
query_rule_by_id env id w =
    if env.fails (query_rule id)
    then (err (failed (query_rule id)), w)
    else or_error rule_not_found (find (λ (r : AlertRule). r.id == id) w.rules) w
