-- ===== src/Alerting/Suppress/Decision.antt =====
-- What `ShouldNotify` decides, against a description of each reason.
use logingestor.Prelude.{
  inl, Bool-cases, inr, ℕ, ◌<◌, ◌+◌, ◌≡◌, ◌↔◌, true, false, Option, none, some, arith, any,
}
use logingestor.Prelude.Clock.{Time}
use logingestor.Alerting.Model.{
  AlertState, firing, acknowledged, SuppressReason, deliver, dedup, snoozed, maintenance, owned,
  inactive, AlertEvent,
}
use logingestor.Alerting.Suppress.{
  is_snoozed, covers, SuppressInput, repeat_decision, alert_decision, should_notify,
}

abbrev pub IsSnoozed : Option Time → Time → Type 0
IsSnoozed none now = ⊥
IsSnoozed (some t) now = now < t

-- The alert that a firing would fold into was notified less than the window ago.
abbrev pub IsRecent : Option Time → ℕ → Time → Type 0
IsRecent none window now = ⊥
IsRecent (some last) window now = now < last + window

abbrev pub IsOpenAs : AlertState → Option AlertEvent → Type 0
IsOpenAs s none = ⊥
IsOpenAs s (some e) = e.state ≡ s

abbrev pub last_notification : Option AlertEvent → Option Time
last_notification none = none
last_notification (some e) = e.last_notified_at

-- Some window of the list is for the project and covers the instant.
abbrev pub IsCovered : SuppressInput → Type 0
IsCovered in' = any (λ w. covers w in'.project_id in'.now) in'.maintenances ≡ true

-- Nothing about the rule or the organization stands in the way.
pub record IsAwake (in' : SuppressInput) : Type 0 where
  pub is_on : in'.rule_active ≡ true
  pub not_snoozed : ¬ IsSnoozed in'.snooze_until in'.now
  pub not_covered : ¬ IsCovered in'

-- What each reason says of the input, for a window of `n` nanoseconds.
abbrev pub Explains : SuppressReason → ℕ → SuppressInput → Type 0
Explains inactive n in' = in'.rule_active ≡ false
Explains snoozed n in' = (in'.rule_active ≡ true) × IsSnoozed in'.snooze_until in'.now
Explains maintenance n in' =
    (in'.rule_active ≡ true) × (¬ IsSnoozed in'.snooze_until in'.now) × IsCovered in'
Explains owned n in' = IsAwake in' × IsOpenAs acknowledged in'.existing
Explains dedup n in' =
    IsAwake in' × IsOpenAs firing in'.existing × IsRecent (last_notification in'.existing) n in'.now
Explains deliver n in' =
    IsAwake in'
    × (¬ IsOpenAs acknowledged in'.existing)
    × (IsOpenAs firing in'.existing → ¬ IsRecent (last_notification in'.existing) n in'.now)

-- What is left to decide of a rule that is awake.
data Outcome (o : Option AlertEvent) (n now : ℕ) : SuppressReason → Type 0 where
  is_owned : IsOpenAs acknowledged o → Outcome o n now owned
  is_repeat : IsOpenAs firing o → IsRecent (last_notification o) n now → Outcome o n now dedup
  is_due :
      ¬ IsOpenAs acknowledged o
      → (IsOpenAs firing o → ¬ IsRecent (last_notification o) n now)
      → Outcome o n now deliver

is_snoozed_iff : (o : Option Time) (now : Time) → (is_snoozed o now ≡ true) ↔ IsSnoozed o now
is_snoozed_iff none now = (λ e. cc, λ e. absurd e)
is_snoozed_iff (some t) now = ground arith

-- The order of the checks.
pub should_notify_awake :
    (in' : SuppressInput)
    → IsAwake in'
    → should_notify in' ≡ alert_decision in'.existing in'.dedup_window in'.now
unfolding should_notify
should_notify_awake in' awake =
    ground (arith, is_snoozed_iff in'.snooze_until in'.now, awake.is_on, awake.not_snoozed, covered)
  where
    covered : any (λ w. covers w in'.project_id in'.now) in'.maintenances ≡ false
    covered = elim (Bool-cases (any (λ w. covers w in'.project_id in'.now) in'.maintenances)) [
      | inl c ↦ absurd (awake.not_covered c)
      | inr c ↦ c
    ]

-- A firing is delivered exactly when the reason is the empty one.
pub should_notify_deliver :
    (in' : SuppressInput) → ((should_notify in').0 ≡ true) ↔ ((should_notify in').1 ≡ deliver)
unfolding should_notify alert_decision repeat_decision
should_notify_deliver in' = ground arith
