-- ===== src/Alerting/Queries.antt =====
-- The listings of alerting: `QueryAlertHistory`, `QueryMaintenanceWindows`, `QueryRulesByProject`,
-- `QueryRulesByOrg`, `QueryByProject` and `QueryByOrg` over business/domain/integrationbus, and
-- `QueryMatchingRules` of its store. That connections whose credentials do not decrypt are left out is
-- not modelled. Rows that an ORDER BY does not tell apart keep the table's order.
pub mod History
use logingestor.Prelude.{
  ℕ, Bool, true, false, not, ◌&&◌, ◌||◌, Option, none, some, List, [], ◌∷◌, select, take, leb, ltb,
  ◌==◌, if◌then◌else◌,
}
use logingestor.Prelude.Int.{ℤ}
use logingestor.Prelude.Text.{codes, Text, text_eq, contains_text}
use logingestor.Prelude.Clock.{Time}
use logingestor.Alerting.Model.{
  Uuid, AlertState, firing, acknowledged, resolved, AlertEvent, MaintenanceWindow, AlertRule,
  Integration,
}
use logingestor.Alerting.World.{
  query_history, query_rules, query_integrations, query_windows, World, Env, Exec, reads,
}
use logingestor.Prelude.Result.{ok}
use logingestor.Alerting.Threshold.{history_limit}

-- `ORDER BY`: an insertion sort, stable, where `p x y` says that `x` may stand before `y`.
unfoldable pub insert_by {ℓ} : {A : Type ℓ} → (A → A → Bool) → A → List A → List A
insert_by p x [] = x ∷ []
insert_by p x (y ∷ ys) = let rest = insert_by p x ys in if p x y then x ∷ y ∷ ys else y ∷ rest

unfoldable pub sort_by {ℓ} : {A : Type ℓ} → (A → A → Bool) → List A → List A
sort_by p [] = []
sort_by p (x ∷ xs) = insert_by p x (sort_by p xs)

-- The state is compared as the text of the column.
pub record AlertEventFilter : Type 0 where
  pub org_id : Uuid
  pub project_id : Option Uuid
  pub rule_id : Option Uuid
  pub state : Option Text
  pub since : Option Time
  pub limit : ℤ

unfoldable pub state_text : AlertState → Text
state_text firing = codes "firing"
state_text acknowledged = codes "acknowledged"
state_text resolved = codes "resolved"

-- A condition that is added to the WHERE clause where the filter gives a value.
abbrev pub where_given {ℓ} : {A : Type ℓ} → Option A → (A → Bool) → Bool
where_given none p = true
where_given (some a) p = p a

unfoldable pub is_selected : AlertEventFilter → AlertEvent → Bool
is_selected f e =
    e.org_id == f.org_id
    && where_given f.project_id (λ p. e.project_id == p)
    && where_given f.state (λ s. text_eq (state_text e.state) s)
    && where_given f.rule_id (λ r. e.rule_id == r)
    && where_given f.since (λ t. leb t e.last_seen_at)

-- `last_seen_at DESC, id DESC`
unfoldable pub is_newer : AlertEvent → AlertEvent → Bool
is_newer a b =
    ltb b.last_seen_at a.last_seen_at || (a.last_seen_at == b.last_seen_at && leb b.id a.id)

unfoldable pub query_events : AlertEventFilter → ℕ → List AlertEvent → List AlertEvent
query_events f limit es = take limit (sort_by is_newer (select (is_selected f) es))

unfoldable pub query_alert_history : Env → AlertEventFilter → Exec (List AlertEvent)
query_alert_history env f =
    reads env query_history (λ w. query_events f (history_limit f.limit) w.events)

-- `ORDER BY starts_at DESC`
unfoldable pub query_maintenance_windows : Env → Uuid → Exec (List MaintenanceWindow)
query_maintenance_windows env org = reads env query_windows (λ w.
    sort_by (λ (a b : MaintenanceWindow). leb b.starts_at a.starts_at)
      (select (λ (v : MaintenanceWindow). v.org_id == org) w.windows))

abbrev is_older : AlertRule → AlertRule → Bool
is_older a b = leb a.created_at b.created_at

unfoldable pub query_rules_by_project : Env → Uuid → Exec (List AlertRule)
query_rules_by_project env project =
    reads env query_rules
      (λ w. sort_by is_older (select (λ (r : AlertRule). r.project_id == project) w.rules))

unfoldable pub query_rules_by_org : Env → Uuid → Exec (List AlertRule)
query_rules_by_org env org =
    reads env query_rules
      (λ w. sort_by is_older (select (λ (r : AlertRule). r.org_id == org) w.rules))

-- The active rules of a project whose level is in the list; no level, no rule.
unfoldable pub query_matching_rules : Env → Uuid → List Text → Exec (List AlertRule)
query_matching_rules env project [] w = (ok [], w)
query_matching_rules env project (l ∷ ls) w =
    reads env query_rules
      (λ w.
        select
          (λ (r : AlertRule).
            r.project_id == project && r.is_active && contains_text (l ∷ ls) r.level)
          w.rules)
      w

abbrev is_earlier : Integration → Integration → Bool
is_earlier a b = leb a.date_created b.date_created

unfoldable pub query_by_org : Env → Uuid → Exec (List Integration)
query_by_org env org =
    reads env query_integrations
      (λ w. sort_by is_earlier (select (λ (i : Integration). i.org_id == org) w.integrations))

unfoldable pub query_by_project : Env → Uuid → Exec (List Integration)
query_by_project env project =
    reads env query_integrations (λ w.
      sort_by is_earlier (select (λ (i : Integration). i.project_id == project) w.integrations))
