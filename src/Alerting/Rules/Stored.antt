-- ===== src/Alerting/Rules/Stored.antt =====
-- What a call of `CreateRule` that returns a rule has checked and stored.
use logingestor.Prelude.{
  ◌≡◌, true, Option, none, some, [], ◌∷◌, ◌++◌, arith, find, Option-cases, inl, inr, ◌==◌,
}
use logingestor.Prelude.Clock.{Time}
use logingestor.Prelude.Result.{ok}
use logingestor.Alerting.Condition.{validate}
use logingestor.Alerting.Model.{Uuid, Integration, AlertRule}
use logingestor.Alerting.World.{World, Env}
use logingestor.Alerting.Engine.{query_integration}
use logingestor.Alerting.Rules.{
  create_valid, create_with, NewAlertRule, is_valid_level, new_rule, insert_rule, create_rule,
  condition_or_level,
}

abbrev pub integration_of : World → Uuid → Option Integration
integration_of w id = find (λ (i : Integration). i.id == id) w.integrations

-- What a call of `create_rule` that succeeds has checked.
pub record Created (env : Env) (id : Uuid) (now : Time) (nr : NewAlertRule) (w : World)
    (r : AlertRule) (w' : World) : Type 0 where
  pub connection : Integration
  pub found : integration_of w nr.connection_id ≡ some connection
  pub in_project : connection.project_id ≡ nr.project_id
  pub in_org : connection.org_id ≡ nr.org_id
  pub known_level : is_valid_level nr.level ≡ true
  pub valid : validate r.condition ≡ none
  pub row : r ≡ new_rule id now nr
  pub stored : w' ≡ record w { rules = w.rules ++ r ∷ [] }

create_valid_ok :
    (env : Env) (id : Uuid) (now : Time) (nr : NewAlertRule) (w w' : World) (r : AlertRule)
    → create_valid env id now nr w ≡ (ok r, w')
    → (validate (condition_or_level nr.condition nr.level) ≡ none)
      × (r ≡ new_rule id now nr)
      × (w' ≡ record w { rules = w.rules ++ r ∷ [] })
unfolding create_valid insert_rule
create_valid_ok env id now nr w w' r h = ground arith

create_with_ok :
    (env : Env) (id : Uuid) (now : Time) (nr : NewAlertRule) (c : Integration) (w w' : World)
    (r : AlertRule)
    → create_with env id now nr c w ≡ (ok r, w')
    → (c.project_id ≡ nr.project_id)
      × (c.org_id ≡ nr.org_id)
      × (create_valid env id now nr w ≡ (ok r, w'))
unfolding create_with
create_with_ok env id now nr c w w' r h = ground arith

create_rule_ok :
    (env : Env) (id : Uuid) (now : Time) (nr : NewAlertRule) (w w' : World) (r : AlertRule)
    → create_rule env id now nr w ≡ (ok r, w')
    → (c : Integration) × (is_valid_level nr.level ≡ true)
      × (integration_of w nr.connection_id ≡ some c)
      × (create_with env id now nr c w ≡ (ok r, w'))
unfolding create_rule query_integration
create_rule_ok env id now nr w w' r h = elim (Option-cases (integration_of w nr.connection_id)) [
  | inl missing ↦ absurd (ground arith)
  | inr (c, found) ↦ (c, ground arith, found, ground arith)
]

-- A call of `CreateRule` that returns a rule has checked the level, found the connection, seen that it
-- belongs to the rule's project and organization and validated the condition; the rule that it returns
-- is what it adds to the stored rules, and it changes nothing else.
create_rule-Created :
    (env : Env) (id : Uuid) (now : Time) (nr : NewAlertRule) (w w' : World) (r : AlertRule)
    → create_rule env id now nr w ≡ (ok r, w')
    → Created env id now nr w r w'
unfolding new_rule
create_rule-Created env id now nr w w' r h =
    let (c, level, found, h1) = create_rule_ok env id now nr w w' r h in
    let (project, org, h2) = create_with_ok env id now nr c w w' r h1 in
    let (valid, row, stored) = create_valid_ok env id now nr w w' r h2 in
    record {
      connection = c;
      found = found;
      in_project = project;
      in_org = org;
      known_level = level;
      valid = rw row valid;
      row = row;
      stored = stored;
    }
