-- ===== src/Alerting/Engine/Quiet.antt =====
-- What firings of one alert do after a delivery.
use logingestor.Alerting.Engine.Since.{Since, Marked, Since-Marked}
use logingestor.Prelude.{
  find_passes, ℕ, ◌+◌, ◌≤◌, ◌<◌, ◌≡◌, refl, ◌∙◌, true, false, some, List, arith,
}
use logingestor.Prelude.Int.{pos, max_int64}
use logingestor.Prelude.Clock.{Time, Duration, sub_time-ge}
use logingestor.Prelude.Result.{ok}
use logingestor.Alerting.Model.{
  Uuid, AlertState, firing, acknowledged, resolved, MaintenanceWindow, AlertEvent, AlertPayload,
  AlertRule,
}
use logingestor.Alerting.Suppress.{
  SuppressInput, effective_window, repeat_decision, alert_decision, should_notify,
  rule_dedup_window,
}
use logingestor.Alerting.Events.{is_resolved, query_open_event, is_open_for}
use logingestor.Alerting.Events.Lookup.{
  query_open_event-record_firing, query_open_event-mark_notified,
}
use mathlib.Core.Path.{ap₂}
use logingestor.Alerting.World.{World, Env}
use logingestor.Alerting.Engine.{Text, suppress_input, raise, firing_of}
use logingestor.Alerting.Engine.Raise.{key_of, recorded, decision_of, raise_silent, raise_sent}

pub should_notify-false :
    (in' : SuppressInput)
    → (alert_decision in'.existing in'.dedup_window in'.now).0 ≡ false
    → (should_notify in').0 ≡ false
unfolding should_notify
should_notify-false in' h = ground arith

pub should_notify-true :
    (in' : SuppressInput)
    → (should_notify in').0 ≡ true
    → (alert_decision in'.existing in'.dedup_window in'.now).0 ≡ true
unfolding should_notify
should_notify-true in' h = ground arith

-- An open alert that was notified less than the window ago does not notify.
recent_quiet :
    (e : AlertEvent) (s : AlertState) (last n now : ℕ) (window : Duration)
    → e.state ≡ s
    → is_resolved s ≡ false
    → e.last_notified_at ≡ some last
    → effective_window window ≡ pos n
    → n ≤ max_int64
    → now < last + n
    → (alert_decision (some e) window now).0 ≡ false
unfolding alert_decision repeat_decision
recent_quiet e resolved last n now window s o l w m h = cc
recent_quiet e acknowledged last n now window s o l w m h = rw s
recent_quiet e firing last n now window s o l w m h =
    rw s (rw l (rw w (ground (arith, sub_time-ge now last n m))))

open_event_state :
    (rule : Uuid) (key : Text) (es : List AlertEvent) (e : AlertEvent)
    → query_open_event rule key es ≡ some e
    → is_resolved e.state ≡ false
unfolding query_open_event is_open_for
open_event_state rule key es e h =
    let p : is_open_for rule key e ≡ true = find_passes (is_open_for rule key) es h in ground arith

module _ (env : Env) (rule : AlertRule) (rep : AlertPayload) (matched : ℕ)
    (windows : List MaintenanceWindow) (now : Time) (w w' : World) where
  -- The row that `raise` recorded is the open one of the rule and key.
  pub recorded_open :
      query_open_event rule.id (key_of env rule rep) (recorded env rule rep matched now w).1
      ≡ some (recorded env rule rep matched now w).0
  unfolding firing_of
  recorded_open =
      query_open_event-record_firing (env.fresh w.events) (firing_of env rule rep matched now)
        w.events

  -- After a delivery the open event carries its instant.
  sent_open :
      (decision_of env rule rep windows now w).0 ≡ true
      → raise env rule rep matched windows now w ≡ (ok tt, w')
      → query_open_event rule.id (key_of env rule rep) w'.events
        ≡ some (record (recorded env rule rep matched now w).0 { last_notified_at = some now })
  sent_open d h =
      rw (raise_sent env rule rep matched windows now w w' d h)
        (query_open_event-mark_notified rule.id (key_of env rule rep) _ now _ _ recorded_open refl)

quiet_at :
    (env : Env) (rule : AlertRule) (rep : AlertPayload) (matched : ℕ)
    (windows : List MaintenanceWindow) (now since n : ℕ) (w : World)
    → Marked rule.id (key_of env rule rep) since w.events
    → effective_window (rule_dedup_window rule) ≡ pos n
    → n ≤ max_int64
    → now < since + n
    → (raise env rule rep matched windows now w).1.outbox ≡ w.outbox
unfolding suppress_input
quiet_at env rule rep matched windows now since n w (e, last, p, l, after) h m lt =
    raise_silent env rule rep matched windows now w (
      should_notify-false _ (
        rw p (
          recent_quiet e e.state last n now (rule_dedup_window rule) refl
            (open_event_state rule.id (key_of env rule rep) w.events e p) l h m (omega arith))))

-- One page to a burst: once a firing was decided to be delivered and `raise` returned without an error,
-- then whatever alerts fire at that instant or later, whatever is acknowledged and whatever else changes
-- but the events, as long as no alert is resolved no firing of the same rule and key sends anything before
-- the dedup window of `n` nanoseconds has passed since the delivery, whatever its logs, its maintenance
-- windows, the other fields of the rule and the faults of that call.
pub raise_then_quiet :
    (env env' : Env) (rule rule' : AlertRule) (rep rep' : AlertPayload) (matched matched' : ℕ)
    (windows windows' : List MaintenanceWindow) (now now' n : ℕ) (w w' u : World)
    → rule'.id ≡ rule.id
    → key_of env' rule' rep' ≡ key_of env rule rep
    → (decision_of env rule rep windows now w).0 ≡ true
    → raise env rule rep matched windows now w ≡ (ok tt, w')
    → Since now w' u
    → effective_window (rule_dedup_window rule') ≡ pos n
    → n ≤ max_int64
    → now' < now + n
    → (raise env' rule' rep' matched' windows' now' u).1.outbox ≡ u.outbox
raise_then_quiet env env' rule rule' rep rep' matched matched' windows windows' now now' n w w' u i
      k d h s e m lt =
    let marked : Marked rule'.id (key_of env' rule' rep') now w'.events = (
      record (recorded env rule rep matched now w).0 { last_notified_at = some now },
      now,
      ap₂ (λ r t. query_open_event r t w'.events) i k
          ∙ sent_open env rule rep matched windows now w w' d h,
      refl,
      omega arith,
    ) in
    quiet_at env' rule' rep' matched' windows' now' now n u
      (Since-Marked rule'.id (key_of env' rule' rep') now s marked) e m lt
