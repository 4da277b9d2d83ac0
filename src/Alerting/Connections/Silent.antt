-- ===== src/Alerting/Connections/Silent.antt =====
-- A connection that was disabled sends no alert.
use logingestor.Prelude.{◌∙◌, sym, ◌≡◌, ◌≢◌, true, List, [], ◌∷◌, update, arith, inl, inr, ◌==◌, ap}
use mathlib.Core.List.Memᴰ
use mathlib.Core.List.{Memᴰ}
use logingestor.Prelude.Clock.{Time}
use logingestor.Prelude.Result.{ok}
use logingestor.Alerting.Model.{Uuid, AlertPayload, Integration, AlertRule}
use logingestor.Alerting.World.{World, Env}
use logingestor.Alerting.Engine.{fire_alerts, active_rules}
use logingestor.Alerting.Engine.Grows.{Grows, Grows-map}
use logingestor.Alerting.Engine.Justified.{fire_alerts-IsJustified}
use logingestor.Alerting.Connections.{
  save_integration, disable_rules_by_connection, switched_off, disable_integration,
}

-- An active rule that is left after a connection's rules were switched off is not one of them.
left_active :
    (conn : Uuid) (r : AlertRule) (rs : List AlertRule)
    → Memᴰ r (update (λ (x : AlertRule). x.connection_id == conn) switched_off rs)
    → r.is_active ≡ true
    → r.connection_id ≢ conn
left_active conn r [] m on = absurd (Memᴰ.not-nil m)
left_active conn r (x ∷ rs) m on = elim (Memᴰ.cases_cons m) [
  | inl e ↦
      ground
        (arith, ap (λ (y : AlertRule). y.is_active) e, ap (λ (y : AlertRule). y.connection_id) e)
  | inr n ↦ left_active conn r rs n on
]

disable_rules_off :
    (env : Env) (now : Time) (i : Integration) (w w' : World)
    → disable_integration env now i w ≡ (ok tt, w')
    → w'.rules ≡ update (λ (x : AlertRule). x.connection_id == i.id) switched_off w.rules
unfolding disable_integration save_integration disable_rules_by_connection
disable_rules_off env now i w w' h = ground arith

-- Once `Disable` returned without an error, no batch of logs of any project sends a message over the
-- connection, until the rules or the connections are changed again.
pub disable_integration_silences :
    (env env' : Env) (now later : Time) (i : Integration) (project : Uuid)
    (batch : List AlertPayload) (w w' : World)
    → disable_integration env now i w ≡ (ok tt, w')
    → Grows
        (λ r d. d.0 ≢ i.id)
        (active_rules project w'.rules)
        w'
        (fire_alerts env' project batch later w').1
disable_integration_silences env env' now later i project batch w w' h =
    Grows-map
      (λ r d j. λ e.
        left_active i.id r w.rules (rw (disable_rules_off env now i w w' h) at j.stored) j.is_on
          (sym j.over ∙ e))
      (fire_alerts-IsJustified env' project batch later w')
