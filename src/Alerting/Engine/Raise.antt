-- ===== src/Alerting/Engine/Raise.antt =====
-- `raise`, branch by branch.
use logingestor.Prelude.{
  ◌∙◌, ◌⊎◌, sym, ℕ, ◌≡◌, refl, Bool, true, false, Option, List, arith, Bool-cases, inl, inr,
}
use logingestor.Prelude.Text.{Text}
use logingestor.Prelude.Clock.{Time}
use logingestor.Prelude.Result.{ok, err}
use logingestor.Alerting.Condition.{dedup_key}
use logingestor.Alerting.Model.{
  Uuid, SuppressReason, MaintenanceWindow, AlertEvent, AlertPayload, AlertRule,
}
use logingestor.Alerting.Suppress.{should_notify}
use logingestor.Alerting.Events.{query_open_event, record_firing, mark_notified}
use logingestor.Alerting.World.{query_open, record_row, AlertError, failed, World, Env}
use logingestor.Alerting.Engine.{
  deliver_to, send_by, query_integration, open_event, save_firing, save_notified, send_alert,
  firing_of, suppress_input, summarize, conclude, raise,
}

-- The key of the alert, the open alert before, the event that is recorded with the table that holds
-- it, the decision and what is sent.
abbrev pub key_of : Env → AlertRule → AlertPayload → Text
key_of env rule rep = dedup_key env.unicode rule.condition rep.level

abbrev pub prior_of : Env → AlertRule → AlertPayload → World → Option AlertEvent
prior_of env rule rep w = query_open_event rule.id (key_of env rule rep) w.events

abbrev pub recorded :
    Env → AlertRule → AlertPayload → ℕ → Time → World → AlertEvent × List AlertEvent
recorded env rule rep matched now w =
    record_firing (env.fresh w.events) (firing_of env rule rep matched now) w.events

abbrev pub decision_of :
    Env → AlertRule → AlertPayload → List MaintenanceWindow → Time → World → Bool × SuppressReason
decision_of env rule rep windows now w =
    should_notify (suppress_input rule (prior_of env rule rep w) windows now)

abbrev pub delivered : AlertPayload → ℕ → AlertPayload
delivered rep matched = record rep { message = summarize rep.message matched }

module _ (env : Env) (rule : AlertRule) (rep : AlertPayload) (matched : ℕ)
    (windows : List MaintenanceWindow) (now : Time) (w : World) where
  pub raise_query_fails :
      env.fails (query_open rule.id (key_of env rule rep)) ≡ true
      → raise env rule rep matched windows now w
        ≡ (err (failed (query_open rule.id (key_of env rule rep))), w)
  unfolding raise open_event
  raise_query_fails h = rw h

  pub raise_record_fails :
      env.fails (query_open rule.id (key_of env rule rep)) ≡ false
      → env.fails (record_row rule.id) ≡ true
      → raise env rule rep matched windows now w ≡ (err (failed (record_row rule.id)), w)
  unfolding raise open_event save_firing firing_of
  raise_record_fails h k = rw h (rw k)

  -- Where the two statements succeed, the event is recorded before the decision is taken.
  pub raise_records :
      env.fails (query_open rule.id (key_of env rule rep)) ≡ false
      → env.fails (record_row rule.id) ≡ false
      → raise env rule rep matched windows now w
        ≡ conclude env rule
            (delivered rep matched)
            (recorded env rule rep matched now w).0
            now
            (decision_of env rule rep windows now w)
            (record w { events = (recorded env rule rep matched now w).1 })
  unfolding raise open_event save_firing firing_of
  raise_records h k = rw h (rw k)

-- Sending touches nothing but the outbox.
send_alert-events :
    (env : Env) (conn : Uuid) (p : AlertPayload) (w : World)
    → (send_alert env conn p w).1.events ≡ w.events
unfolding send_alert query_integration send_by deliver_to
send_alert-events env conn p w = ground arith

conclude_sent :
    (env : Env) (rule : AlertRule) (p : AlertPayload) (e : AlertEvent) (now : Time)
    (d : Bool × SuppressReason) (w w' : World)
    → d.0 ≡ true
    → conclude env rule p e now d w ≡ (ok tt, w')
    → w'.events ≡ mark_notified e.id now w.events
unfolding conclude save_notified
conclude_sent env rule p e now (false, why) w w' d h = cc
conclude_sent env rule p e now (true, why) w w' d h =
    ground (arith, send_alert-events env rule.connection_id p w)

conclude-events :
    (env : Env) (rule : AlertRule) (p : AlertPayload) (e : AlertEvent) (now : Time)
    (d : Bool × SuppressReason) (w : World)
    → ((conclude env rule p e now d w).1.events ≡ w.events)
      ⊎ ((conclude env rule p e now d w).1.events ≡ mark_notified e.id now w.events)
unfolding conclude save_notified
conclude-events env rule p e now (false, why) w = inl refl
conclude-events env rule p e now (true, why) w =
    ground (arith, send_alert-events env rule.connection_id p w)

conclude_silent :
    (env : Env) (rule : AlertRule) (p : AlertPayload) (e : AlertEvent) (now : Time)
    (d : Bool × SuppressReason) (w : World)
    → d.0 ≡ false
    → (conclude env rule p e now d w).1.outbox ≡ w.outbox
unfolding conclude
conclude_silent env rule p e now (false, why) w d = refl
conclude_silent env rule p e now (true, why) w d = cc

conclude_failed :
    (env : Env) (rule : AlertRule) (p : AlertPayload) (e : AlertEvent) (now : Time)
    (d : Bool × SuppressReason) (w w' : World) {x : AlertError}
    → conclude env rule p e now d w ≡ (err x, w')
    → w'.events ≡ w.events
unfolding conclude save_notified
conclude_failed env rule p e now (false, why) w w' h = cc
conclude_failed env rule p e now (true, why) w w' h =
    ground (arith, send_alert-events env rule.connection_id p w)

module _ (env : Env) (rule : AlertRule) (rep : AlertPayload) (matched : ℕ)
    (windows : List MaintenanceWindow) (now : Time) (w : World) where
  -- A firing that is not to be delivered sends nothing, whatever fails.
  pub raise_silent :
      (decision_of env rule rep windows now w).0 ≡ false
      → (raise env rule rep matched windows now w).1.outbox ≡ w.outbox
  raise_silent d = elim (Bool-cases (env.fails (query_open rule.id (key_of env rule rep)))) [
    | inl q ↦ rw (raise_query_fails env rule rep matched windows now w q)
    | inr q ↦ elim (Bool-cases (env.fails (record_row rule.id))) [
      | inl r ↦ rw (raise_record_fails env rule rep matched windows now w q r)
      | inr r ↦
          rw (raise_records env rule rep matched windows now w q r)
            (conclude_silent env rule _ _ now _ _ d)
    ]
  ]

  -- Whatever fails, a firing leaves the events alone, records itself, or also marks the recorded row.
  pub raise-events :
      ((raise env rule rep matched windows now w).1.events ≡ w.events)
      ⊎ ((raise env rule rep matched windows now w).1.events
          ≡ (recorded env rule rep matched now w).1)
      ⊎ ((raise env rule rep matched windows now w).1.events
          ≡ mark_notified
              (recorded env rule rep matched now w).0.id
              now
              (recorded env rule rep matched now w).1)
  raise-events = elim (Bool-cases (env.fails (query_open rule.id (key_of env rule rep)))) [
    | inl q ↦ inl (rw (raise_query_fails env rule rep matched windows now w q) refl)
    | inr q ↦ elim (Bool-cases (env.fails (record_row rule.id))) [
      | inl r ↦ inl (rw (raise_record_fails env rule rep matched windows now w q r) refl)
      | inr r ↦ inr (
          rw (raise_records env rule rep matched windows now w q r) (
            conclude-events env rule (delivered rep matched) (recorded env rule rep matched now w).0
              now (decision_of env rule rep windows now w)
              (record w { events = (recorded env rule rep matched now w).1 })))
    ]
  ]

  -- A delivery that succeeds is noted on the row that was recorded.
  pub raise_sent :
      (w' : World)
      → (decision_of env rule rep windows now w).0 ≡ true
      → raise env rule rep matched windows now w ≡ (ok tt, w')
      → w'.events
        ≡ mark_notified
            (recorded env rule rep matched now w).0.id
            now
            (recorded env rule rep matched now w).1
  raise_sent w' d h = elim (Bool-cases (env.fails (query_open rule.id (key_of env rule rep)))) [
    | inl q ↦ absurd (cc (raise_query_fails env rule rep matched windows now w q))
    | inr q ↦ elim (Bool-cases (env.fails (record_row rule.id))) [
      | inl r ↦ absurd (cc (raise_record_fails env rule rep matched windows now w q r))
      | inr r ↦
          conclude_sent env rule _ _ now _ _ w' d
            (sym (raise_records env rule rep matched windows now w q r) ∙ h)
    ]
  ]

  -- A failing call of `raise` has at most recorded the firing.
  pub raise_failed_events :
      (w' : World) {x : AlertError}
      → raise env rule rep matched windows now w ≡ (err x, w')
      → (w'.events ≡ w.events) ⊎ (w'.events ≡ (recorded env rule rep matched now w).1)
  raise_failed_events w' h =
      elim (Bool-cases (env.fails (query_open rule.id (key_of env rule rep)))) [
        | inl q ↦ inl (cc (raise_query_fails env rule rep matched windows now w q))
        | inr q ↦ elim (Bool-cases (env.fails (record_row rule.id))) [
          | inl r ↦ inl (cc (raise_record_fails env rule rep matched windows now w q r))
          | inr r ↦ inr (
              conclude_failed env rule _ _ now _ _ w'
                (sym (raise_records env rule rep matched windows now w q r) ∙ h))
        ]
      ]
