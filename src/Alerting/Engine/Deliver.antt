-- ===== src/Alerting/Engine/Deliver.antt =====
-- When an alert is sent: a healthy delivery, the retry of a failed one, and the events that somebody
-- acknowledged or resolved.
use logingestor.Prelude.{
  Option-cases, inr, inl, ◌==◌, find, ℕ, ◌≤◌, ◌≡◌, refl, ◌∙◌, Bool, true, false, Option, none, some,
  List, [], ◌∷◌, ◌++◌, arith,
}
use logingestor.Prelude.Int.{pos, max_int64}
use logingestor.Prelude.Clock.{Time, Duration, sub_time-ge}
use logingestor.Prelude.Result.{ok, err}
use logingestor.Alerting.Model.{
  SuppressReason, Uuid, AlertState, firing, acknowledged, resolved, MaintenanceWindow, AlertEvent,
  AlertPayload, AlertRule, Integration, Credential,
}
use logingestor.Alerting.Suppress.{
  state_decision, SuppressInput, effective_window, repeat_decision, alert_decision, should_notify,
  rule_dedup_window,
}
use logingestor.Alerting.Suppress.Decision.{IsAwake, should_notify_awake}
use logingestor.Alerting.Events.{
  first_row, fold_firing, query_open_event, record_firing, mark_notified, acknowledge_event,
  resolve_event, is_firing,
}
use logingestor.Alerting.Events.Unique.{IsIndexed}
use logingestor.Alerting.Events.Resolve.{resolve_event_frees, acknowledge_event_owns}
use logingestor.Alerting.World.{
  AlertError, World, Env, query_open, record_row, notified_row, query_connection,
}
use logingestor.Alerting.Engine.{
  firing_of, suppress_input, raise, send_alert, query_integration, send_by, deliver_to, conclude,
  save_notified,
}
use logingestor.Alerting.Engine.Quiet.{should_notify-true, should_notify-false, recorded_open}
use logingestor.Alerting.Events.Lookup.{record_firing_first, record_firing_repeat}
use logingestor.Alerting.Engine.Raise.{
  raise_failed_events, key_of, prior_of, recorded, decision_of, delivered, raise_records,
  raise_silent,
}

-- Every call that `raise` makes for this firing succeeds, and the connection takes the message.
pub record IsHealthy (env : Env) (rule : AlertRule) (rep : AlertPayload) (matched : ℕ) (now : Time)
    (w : World) : Type 0 where
  pub connection : Integration
  pub send : List Credential → AlertPayload → Bool
  pub open_answers : env.fails (query_open rule.id (key_of env rule rep)) ≡ false
  pub record_answers : env.fails (record_row rule.id) ≡ false
  pub connection_answers : env.fails (query_connection rule.connection_id) ≡ false
  pub notified_answers : env.fails (notified_row (recorded env rule rep matched now w).0.id) ≡ false
  pub found :
      find (λ (i : Integration). i.id == rule.connection_id) w.integrations ≡ some connection
  pub enabled : connection.enabled ≡ true
  pub registered : env.callers connection.provider_id ≡ some send
  pub accepts : send connection.credentials (delivered rep matched) ≡ true

conclude_sends :
    (env : Env) (rule : AlertRule) (p : AlertPayload) (e : AlertEvent) (now : Time)
    (d : Bool × SuppressReason) (w w' : World)
    → d.0 ≡ true
    → send_alert env rule.connection_id p w ≡ (ok tt, w')
    → env.fails (notified_row e.id) ≡ false
    → conclude env rule p e now d w
      ≡ (ok tt, record w' { events = mark_notified e.id now w'.events })
unfolding conclude save_notified
conclude_sends env rule p e now (false, why) w w' d s f = cc
conclude_sends env rule p e now (true, why) w w' d s f = rw s (rw f)

module _ (env : Env) (rule : AlertRule) (rep : AlertPayload) (matched : ℕ)
    (windows : List MaintenanceWindow) (now : Time) (w : World)
    (healthy : IsHealthy env rule rep matched now w) where
  send_alert_lem :
      send_alert env rule.connection_id
        (delivered rep matched)
        (record w { events = (recorded env rule rep matched now w).1 })
      ≡ (
        ok tt,
        record w {
          events = (recorded env rule rep matched now w).1;
          outbox = w.outbox ++ (rule.connection_id, delivered rep matched) ∷ [];
        },
      )
  unfolding send_alert query_integration send_by deliver_to
  send_alert_lem =
      rw healthy.connection_answers
        (rw healthy.found (rw healthy.enabled (rw healthy.registered (rw healthy.accepts))))

  -- A firing that is decided to be delivered reaches the outbox once, with the message that counts the
  -- matches, and is noted on the recorded row.
  raise_delivers :
      (decision_of env rule rep windows now w).0 ≡ true
      → raise env rule rep matched windows now w ≡ (
        ok tt,
        record w {
          events =
              mark_notified
                (recorded env rule rep matched now w).0.id
                now
                (recorded env rule rep matched now w).1;
          outbox = w.outbox ++ (rule.connection_id, delivered rep matched) ∷ [];
        },
      )
  raise_delivers d =
      raise_records env rule rep matched windows now w healthy.open_answers healthy.record_answers
      ∙ conclude_sends env rule _ _ now _ _ _ d send_alert_lem healthy.notified_answers

-- What a decision to deliver needs does not go away with time.
state_decision_later :
    (s : AlertState) (last : Option Time) (window : Duration) (n now now' : ℕ)
    → effective_window window ≡ pos n
    → n ≤ max_int64
    → now ≤ now'
    → (state_decision s last window now).0 ≡ true
    → (state_decision s last window now').0 ≡ true
unfolding repeat_decision
state_decision_later resolved last window n now now' w m le h = refl
state_decision_later acknowledged last window n now now' w m le h = h
state_decision_later firing none window n now now' w m le h = refl
state_decision_later firing (some last) window n now now' w m le h =
    ground (arith, w, sub_time-ge now last n m, sub_time-ge now' last n m)

alert_decision_later :
    (o : Option AlertEvent) (window : Duration) (n now now' : ℕ)
    → effective_window window ≡ pos n
    → n ≤ max_int64
    → now ≤ now'
    → (alert_decision o window now).0 ≡ true
    → (alert_decision o window now').0 ≡ true
unfolding alert_decision
alert_decision_later none window n now now' w m le h = refl
alert_decision_later (some e) window n now now' w m le h =
    state_decision_later e.state e.last_notified_at window n now now' w m le h

-- The row that a firing records decides as the open row before it did.
recorded_decides :
    (id : Uuid) (e : AlertEvent) (es : List AlertEvent) (window : Duration) (t : Time)
    → alert_decision (some (record_firing id e es).0) window t
      ≡ alert_decision (query_open_event e.rule_id e.dedup_key es) window t
unfolding alert_decision repeat_decision fold_firing first_row
recorded_decides id e es window t =
    elim (Option-cases (query_open_event e.rule_id e.dedup_key es)) [
      | inl absent ↦ rw (record_firing_first id e es absent) (rw absent)
      | inr (old, found) ↦ rw (record_firing_repeat id e es old found) (rw found)
    ]

module _ (env : Env) (rule : AlertRule) (rep : AlertPayload) (matched : ℕ)
    (windows : List MaintenanceWindow) (now : Time) (w w' : World) where
  failed_decides :
      {x : AlertError} (window : Duration) (t : Time)
      → raise env rule rep matched windows now w ≡ (err x, w')
      → alert_decision (prior_of env rule rep w') window t
        ≡ alert_decision (prior_of env rule rep w) window t
  unfolding firing_of
  failed_decides window t h = elim (raise_failed_events env rule rep matched windows now w w' h) [
    | inl same ↦ rw same
    | inr recorded' ↦ rw recorded' (
        rw (recorded_open env rule rep matched windows now w w) (
          recorded_decides (env.fresh w.events) (firing_of env rule rep matched now) w.events window
            t))
  ]

decision_later :
    (in' later : SuppressInput) (n : ℕ)
    → (should_notify in').0 ≡ true
    → alert_decision later.existing in'.dedup_window later.now
      ≡ alert_decision in'.existing in'.dedup_window later.now
    → later.dedup_window ≡ in'.dedup_window
    → effective_window in'.dedup_window ≡ pos n
    → n ≤ max_int64
    → in'.now ≤ later.now
    → IsAwake later
    → (should_notify later).0 ≡ true
decision_later in' later n d same window e m le awake = rw (should_notify_awake later awake) (
    rw window (
      rw same (
        alert_decision_later in'.existing in'.dedup_window n in'.now later.now e m le
          (should_notify-true in' d))))

-- A failed delivery is retried: if `raise` decided to deliver and returned an error, the next firing of
-- the rule with the same key is decided to be delivered again, at any later time at which the rule is
-- on and not snoozed and no maintenance window covers the project.
pub raise_retries :
    (env : Env) (rule : AlertRule) (rep rep' : AlertPayload) (matched : ℕ)
    (windows windows' : List MaintenanceWindow) (now now' n : ℕ) (w w' : World) {x : AlertError}
    → (decision_of env rule rep windows now w).0 ≡ true
    → raise env rule rep matched windows now w ≡ (err x, w')
    → key_of env rule rep' ≡ key_of env rule rep
    → effective_window (rule_dedup_window rule) ≡ pos n
    → n ≤ max_int64
    → now ≤ now'
    → IsAwake (suppress_input rule (prior_of env rule rep' w') windows' now')
    → (decision_of env rule rep' windows' now' w').0 ≡ true
unfolding suppress_input
raise_retries env rule rep rep' matched windows windows' now now' n w w' d h k e m le awake =
    decision_later (suppress_input rule (prior_of env rule rep w) windows now)
      (suppress_input rule (prior_of env rule rep' w') windows' now') n d
      (rw k (failed_decides env rule rep matched windows now w w' (rule_dedup_window rule) now' h))
      refl e m le awake

-- The table after somebody acknowledged, or resolved, an event.
abbrev pub acknowledged_in : Uuid → Uuid → Time → World → World
acknowledged_in id user at w = record w { events = acknowledge_event id user at w.events }

abbrev pub resolved_in : Uuid → Time → World → World
resolved_in id at w = record w { events = resolve_event id at w.events }

-- Whoever acknowledges an open alert is not paged again: until it is resolved no firing of its rule
-- and key sends anything, however late it comes.
acknowledged_quiet :
    (env : Env) (rule : AlertRule) (rep : AlertPayload) (matched : ℕ)
    (windows : List MaintenanceWindow) (at now : Time) (user : Uuid) (w : World) (e : AlertEvent)
    → query_open_event rule.id (key_of env rule rep) w.events ≡ some e
    → is_firing e.state ≡ true
    → (raise env rule rep matched windows now (acknowledged_in e.id user at w)).1.outbox ≡ w.outbox
unfolding suppress_input alert_decision
acknowledged_quiet env rule rep matched windows at now user w e h on =
    raise_silent env rule rep matched windows now _ (
      should_notify-false _
        (rw (acknowledge_event_owns rule.id user (key_of env rule rep) at e w.events h on)))

-- Resolving an open alert makes the next breach a new one: the next firing of its rule and key is
-- decided to be delivered, inside the dedup window too, where the rule is on and not snoozed, no
-- maintenance window covers the project, and the table has one row to an id and at most one open event for
-- a rule and key.
pub resolved_delivers :
    (env : Env) (rule : AlertRule) (rep : AlertPayload) (windows : List MaintenanceWindow)
    (at now : Time) (w : World) (e : AlertEvent)
    → IsIndexed w.events
    → query_open_event rule.id (key_of env rule rep) w.events ≡ some e
    → IsAwake (suppress_input rule (prior_of env rule rep (resolved_in e.id at w)) windows now)
    → (decision_of env rule rep windows now (resolved_in e.id at w)).0 ≡ true
unfolding suppress_input alert_decision
resolved_delivers env rule rep windows at now w e i h awake =
    rw (should_notify_awake _ awake)
      (rw (resolve_event_frees rule.id (key_of env rule rep) at e w.events i h))
