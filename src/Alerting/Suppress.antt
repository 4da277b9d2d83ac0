-- ===== src/Alerting/Suppress.antt =====
-- business/domain/integrationbus/suppress.go: whether a firing is delivered, and why not.
pub mod Decision
pub mod Windows
use logingestor.Prelude.{
  ℕ, ◌*◌, Bool, true, false, not, ◌&&◌, Option, none, some, List, any, ◌==◌, if◌then◌else◌,
}
use logingestor.Prelude.Int.{ℤ, pos, leb_ℤ, wrap64, ◌*ℤ◌}
use logingestor.Prelude.Clock.{Time, Duration, minute, second, before, sub_time}
use logingestor.Alerting.Model.{
  Uuid, AlertState, firing, acknowledged, resolved, SuppressReason, deliver, dedup, snoozed,
  maintenance, owned, inactive, MaintenanceWindow, AlertEvent, AlertRule,
}

abbrev pub default_dedup_window : ℕ
default_dedup_window = 5 * minute

-- A window with no project covers every project of its organization.
abbrev of_project : Option Uuid → Uuid → Bool
of_project none project = true
of_project (some p) project = p == project

-- `MaintenanceWindow.Covers`
unfoldable pub covers : MaintenanceWindow → Uuid → Time → Bool
covers w project at =
    if not (of_project w.project_id project)
    then false
    else not (before at w.starts_at) && before at w.ends_at

pub record SuppressInput : Type 0 where
  pub now : Time
  pub rule_active : Bool
  pub snooze_until : Option Time
  pub dedup_window : Duration
  pub project_id : Uuid
  pub existing : Option AlertEvent
  pub maintenances : List MaintenanceWindow

abbrev pub is_snoozed : Option Time → Time → Bool
is_snoozed none now = false
is_snoozed (some t) now = before now t

-- The window that is measured with: the default where the rule's is not positive.
unfoldable pub effective_window : Duration → Duration
effective_window d = if leb_ℤ d (pos 0) then pos default_dedup_window else d

-- An open, unacknowledged alert notifies again only after the window.
unfoldable pub repeat_decision : Option Time → Duration → Time → Bool × SuppressReason
repeat_decision none window now = (true, deliver)
repeat_decision (some last) window now =
    if leb_ℤ (effective_window window) (sub_time now last) then (true, deliver) else (false, dedup)

abbrev pub state_decision : AlertState → Option Time → Duration → Time → Bool × SuppressReason
state_decision resolved last window now = (true, deliver)
state_decision acknowledged last window now = (false, owned)
state_decision firing last window now = repeat_decision last window now

unfoldable pub alert_decision : Option AlertEvent → Duration → Time → Bool × SuppressReason
alert_decision none window now = (true, deliver)
alert_decision (some e) window now = state_decision e.state e.last_notified_at window now

-- `ShouldNotify`
unfoldable pub should_notify : SuppressInput → Bool × SuppressReason
should_notify in' =
    if not in'.rule_active
    then (false, inactive)
    else if is_snoozed in'.snooze_until in'.now
    then (false, snoozed)
    else if any (λ w. covers w in'.project_id in'.now) in'.maintenances
    then (false, maintenance)
    else alert_decision in'.existing in'.dedup_window in'.now

-- `AlertRule.DedupWindow`; the product with a second wraps around like every `int64`.
unfoldable pub rule_dedup_window : AlertRule → Duration
rule_dedup_window r =
    if leb_ℤ r.dedup_window_seconds (pos 0)
    then pos default_dedup_window
    else wrap64 (r.dedup_window_seconds *ℤ pos second)
