-- ===== src/Alerting/Connections.antt =====
-- The connections to the providers: `Create`, `Update`, `Delete`, `Disable`, `Test` and the queries of
-- business/domain/integrationbus/integrationbus.go, over the statements of
-- stores/integrationdb/integrationdb.go. `uuid.New()` and `time.Now()` are the arguments `id` and `now`;
-- credentials are stored as they are, their encryption is not modelled, and the unique name is one of
-- the reasons for which `create_row` fails.
pub mod Silent
use logingestor.Prelude.{
  ◌&&◌, all, Bool, true, false, not, Option, none, some, List, [], ◌∷◌, ◌++◌, select, update, ◌==◌,
}
use logingestor.Prelude.Text.{Text, codes}
use logingestor.Prelude.Clock.{Time}
use logingestor.Prelude.Result.{ok, err}
use logingestor.Alerting.Condition.{info}
use logingestor.Alerting.Model.{Uuid, Credential, AlertPayload, Integration, AlertRule, AlertEvent}
use logingestor.Alerting.World.{
  create_row, update_row, delete_row, disable_rules, unknown_provider, World, Env, Exec, ◌>>=◌,
  ◌>>◌, pure, raise_error, reads, writes,
}
use logingestor.Alerting.Engine.{deliver_to}
use logingestor.Alerting.Rules.{given}

pub record NewIntegration : Type 0 where
  pub org_id : Uuid
  pub project_id : Uuid
  pub provider_id : Text
  pub name : Text
  pub credentials : List Credential

-- A nil map leaves the credentials alone.
pub record UpdateIntegration : Type 0 where
  pub name : Option Text
  pub credentials : Option (List Credential)
  pub enabled : Option Bool

unfoldable pub new_integration : Uuid → Time → NewIntegration → Integration
new_integration id now ni = record {
  id = id;
  org_id = ni.org_id;
  project_id = ni.project_id;
  provider_id = ni.provider_id;
  name = ni.name;
  credentials = ni.credentials;
  enabled = true;
  date_created = now;
  date_updated = now;
}

unfoldable pub insert_integration : Env → Integration → Exec (Unit {0})
insert_integration env i =
    writes env (create_row i.id) (λ w. record w { integrations = w.integrations ++ i ∷ [] })

abbrev registered_or_error : Option (List Credential → AlertPayload → Bool) → Exec (Unit {0})
registered_or_error none = raise_error unknown_provider
registered_or_error (some send) = pure tt

unfoldable pub create_integration : Env → Uuid → Time → NewIntegration → Exec Integration
create_integration env id now ni = do
  registered_or_error (env.callers ni.provider_id)
  insert_integration env (new_integration id now ni)
  pure (new_integration id now ni)

unfoldable pub updated_integration : Time → Integration → UpdateIntegration → Integration
updated_integration now i ui = record i {
  name = given ui.name i.name;
  credentials = given ui.credentials i.credentials;
  enabled = given ui.enabled i.enabled;
  date_updated = now;
}

-- `UPDATE integrations`: the owner, the provider and the creation stay.
unfoldable pub replace_integration : Integration → Integration → Integration
replace_integration i old = record old {
  name = i.name;
  credentials = i.credentials;
  enabled = i.enabled;
  date_updated = i.date_updated;
}

unfoldable pub save_integration : Env → Integration → Exec (Unit {0})
save_integration env i = writes env (update_row i.id) (λ w. record w {
  integrations =
      update (λ (old : Integration). old.id == i.id) (replace_integration i) w.integrations;
})

unfoldable pub update_integration : Env → Time → Integration → UpdateIntegration → Exec Integration
update_integration env now i ui = do
  save_integration env (updated_integration now i ui)
  pure (updated_integration now i ui)

-- The rules of a connection go with it, and their events with them: the foreign keys cascade.
unfoldable pub delete_integration : Env → Integration → Exec (Unit {0})
delete_integration env i = writes env (delete_row i.id) (λ w. record w {
  integrations = select (λ (j : Integration). not (j.id == i.id)) w.integrations;
  rules = select (λ (r : AlertRule). not (r.connection_id == i.id)) w.rules;
  events =
      select
        (λ (e : AlertEvent).
          all (λ (r : AlertRule). not (r.connection_id == i.id && r.id == e.rule_id)) w.rules)
        w.events;
})

abbrev pub switched_off : AlertRule → AlertRule
switched_off r = record r { is_active = false }

-- `DisableRulesByConnection`
unfoldable pub disable_rules_by_connection : Env → Uuid → Exec (Unit {0})
disable_rules_by_connection env conn = writes env (disable_rules conn) (λ w. record w {
  rules = update (λ (r : AlertRule). r.connection_id == conn) switched_off w.rules;
})

unfoldable pub disable_integration : Env → Time → Integration → Exec (Unit {0})
disable_integration env now i = do
  save_integration env (record i { enabled = false; date_updated = now })
  disable_rules_by_connection env i.id

unfoldable pub test_payload : Time → AlertPayload
test_payload now = record {
  project_name = codes "Test Project";
  level = info;
  message = codes "This is a test alert from streamlogia. Your integration is working correctly.";
  source = codes "logingestor/test";
  log_id = codes "12345678-1234-1234-1234-12345678";
  timestamp = now;
}

-- A connection that is switched off is tested all the same.
unfoldable pub test_integration : Env → Time → Integration → Exec (Unit {0})
test_integration env now i =
    deliver_to i.id i.credentials (test_payload now) (env.callers i.provider_id)
