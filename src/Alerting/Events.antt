-- ===== src/Alerting/Events.antt =====
-- The table alert_events:
-- business/domain/integrationbus/stores/integrationdb/alertevents.go. Each function is the effect
-- of one SQL statement on the rows. Times are kept exactly; match_count does not reach 2 ^ 63.
pub mod Lookup
pub mod Unique
pub mod Resolve
use logingestor.Prelude.{
  ℕ, ◌+◌, Bool, true, false, not, ◌&&◌, Option, none, some, List, [], ◌∷◌, ◌++◌, find, update, ◌==◌,
}
use logingestor.Prelude.Text.{Text, text_eq}
use logingestor.Prelude.Clock.{Time}
use logingestor.Alerting.Model.{Uuid, AlertState, firing, acknowledged, resolved, AlertEvent}

abbrev pub is_resolved : AlertState → Bool
is_resolved resolved = true
is_resolved _ = false

abbrev pub is_firing : AlertState → Bool
is_firing firing = true
is_firing _ = false

-- `rule_id = :rule_id AND dedup_key = :dedup_key AND state <> 'resolved'`
unfoldable pub is_open_for : Uuid → Text → AlertEvent → Bool
is_open_for rule key e = e.rule_id == rule && text_eq e.dedup_key key && not (is_resolved e.state)

-- `QueryOpenEvent`; `none` is ErrEventNotFound.
unfoldable pub query_open_event : Uuid → Text → List AlertEvent → Option AlertEvent
query_open_event rule key es = find (is_open_for rule key) es

-- The row that a first firing inserts.
unfoldable pub first_row : Uuid → AlertEvent → AlertEvent
first_row id e = record e {
  id = id;
  state = firing;
  first_seen_at = e.last_seen_at;
  last_notified_at = none;
  resolved_at = none;
  acknowledged_at = none;
  acknowledged_by = none;
}

-- `DO UPDATE SET …` on the row that is there.
unfoldable pub fold_firing : AlertEvent → AlertEvent → AlertEvent
fold_firing e old = record old {
  last_seen_at = e.last_seen_at;
  match_count = old.match_count + e.match_count;
  summary = e.summary;
  level = e.level;
}

-- `RecordFiring`: the row that it returns, and the table. `id` is the `gen_random_uuid()` of an insert.
unfoldable pub record_firing : Uuid → AlertEvent → List AlertEvent → AlertEvent × List AlertEvent
record_firing id e es = elim (query_open_event e.rule_id e.dedup_key es) [
  | none ↦ (first_row id e, es ++ first_row id e ∷ [])
  | some old ↦ (fold_firing e old, update (is_open_for e.rule_id e.dedup_key) (fold_firing e) es)
]

abbrev pub has_id : Uuid → AlertEvent → Bool
has_id id e = e.id == id

unfoldable pub mark_notified : Uuid → Time → List AlertEvent → List AlertEvent
mark_notified id at es = update (has_id id) (λ e. record e { last_notified_at = some at }) es

abbrev pub set_acknowledged : Uuid → Time → AlertEvent → AlertEvent
set_acknowledged user at e = record e {
  state = acknowledged;
  acknowledged_at = some at;
  acknowledged_by = some user;
}

-- `WHERE id = :id AND state = 'firing'`
unfoldable pub acknowledge_event : Uuid → Uuid → Time → List AlertEvent → List AlertEvent
acknowledge_event id user at es =
    update (λ e. has_id id e && is_firing e.state) (set_acknowledged user at) es

abbrev pub set_resolved : Time → AlertEvent → AlertEvent
set_resolved at e = record e { state = resolved; resolved_at = some at }

-- `WHERE id = :id AND state <> 'resolved'`
unfoldable pub resolve_event : Uuid → Time → List AlertEvent → List AlertEvent
resolve_event id at es = update (λ e. has_id id e && not (is_resolved e.state)) (set_resolved at) es

unfoldable pub query_event_by_id : Uuid → List AlertEvent → Option AlertEvent
query_event_by_id id es = find (has_id id) es
