-- ===== src/Alerting/Events/Resolve.antt =====
-- Resolving an event frees its rule and dedup key; acknowledging it keeps it open.
use logingestor.Prelude.{
  find-update, ◌&&◌, ◌∙◌, refl, false, ap, true, ◌≡◌, none, some, List, [], ◌∷◌, All, arith,
  Bool-cases, inl, inr,
}
use logingestor.Prelude.Text.{text_eq, Text, text_eq_iff}
use logingestor.Prelude.Clock.{Time}
use logingestor.Alerting.Model.{Uuid, AlertEvent}
use logingestor.Alerting.Events.{
  has_id, set_acknowledged, is_open_for, is_firing, query_open_event, acknowledge_event,
  resolve_event,
}
use logingestor.Alerting.Events.Unique.{Apart, IsIndexed, resolve_event-Closes, update_closed}

-- Beside an open row no other row is open for its rule and key.
alone :
    (rule : Uuid) (key : Text) (x : AlertEvent) (xs : List AlertEvent)
    → is_open_for rule key x ≡ true
    → All (Apart x) xs
    → query_open_event rule key xs ≡ none
unfolding query_open_event is_open_for
alone rule key x [] o h = refl
alone rule key x (y ∷ ys) o h =
    let same : x.dedup_key ≡ key = (text_eq_iff x.dedup_key key).0 (ground arith) in
    ground (arith, h.0.open_keys, alone rule key x ys o h.1, ap (λ t. text_eq y.dedup_key t) same)

resolve_event_first :
    (rule id : Uuid) (key : Text) (at : Time) (x : AlertEvent) (xs : List AlertEvent)
    → is_open_for rule key x ≡ true
    → x.id ≡ id
    → query_open_event rule key (resolve_event id at xs) ≡ none
    → query_open_event rule key (resolve_event id at (x ∷ xs)) ≡ none
unfolding query_open_event is_open_for resolve_event
resolve_event_first rule id key at x xs o same rest = ground arith

resolve_event_other :
    (rule id : Uuid) (key : Text) (at : Time) (x : AlertEvent) (xs : List AlertEvent)
    → is_open_for rule key x ≡ false
    → query_open_event rule key (resolve_event id at xs) ≡ none
    → query_open_event rule key (resolve_event id at (x ∷ xs)) ≡ none
unfolding query_open_event is_open_for resolve_event
resolve_event_other rule id key at x xs o rest = ground arith

resolve_event_shut :
    (rule id : Uuid) (key : Text) (at : Time) (xs : List AlertEvent)
    → query_open_event rule key xs ≡ none
    → query_open_event rule key (resolve_event id at xs) ≡ none
unfolding resolve_event
resolve_event_shut rule id key at xs h =
    update_closed _ _ (resolve_event-Closes id at) rule key xs h

query_head :
    (rule : Uuid) (key : Text) (x e : AlertEvent) (xs : List AlertEvent)
    → is_open_for rule key x ≡ true
    → query_open_event rule key (x ∷ xs) ≡ some e
    → x ≡ e
unfolding query_open_event
query_head rule key x e xs o h = ground arith

query_tail :
    (rule : Uuid) (key : Text) (x e : AlertEvent) (xs : List AlertEvent)
    → is_open_for rule key x ≡ false
    → query_open_event rule key (x ∷ xs) ≡ some e
    → query_open_event rule key xs ≡ some e
unfolding query_open_event
query_tail rule key x e xs o h = ground arith

-- Once the open event of a rule and key is resolved, none is open for them.
pub resolve_event_frees :
    (rule : Uuid) (key : Text) (at : Time) (e : AlertEvent) (es : List AlertEvent)
    → IsIndexed es
    → query_open_event rule key es ≡ some e
    → query_open_event rule key (resolve_event e.id at es) ≡ none
resolve_event_frees rule key at e [] i h = absurd (unfold query_open_event in cc h)
resolve_event_frees rule key at e (x ∷ xs) i h = elim (Bool-cases (is_open_for rule key x)) [
  | inl o ↦
      resolve_event_first rule e.id key at x xs o
        (ap (λ (d : AlertEvent). d.id) (query_head rule key x e xs o h))
        (resolve_event_shut rule e.id key at xs (alone rule key x xs o i.0))
  | inr o ↦
      resolve_event_other rule e.id key at x xs o
        (resolve_event_frees rule key at e xs i.1 (query_tail rule key x e xs o h))
]

-- The open event of a rule and key stays the open one when it is acknowledged, and is owned then.
pub acknowledge_event_owns :
    (rule user : Uuid) (key : Text) (at : Time) (e : AlertEvent) (es : List AlertEvent)
    → query_open_event rule key es ≡ some e
    → is_firing e.state ≡ true
    → query_open_event rule key (acknowledge_event e.id user at es)
      ≡ some (set_acknowledged user at e)
unfolding query_open_event acknowledge_event is_open_for
acknowledge_event_owns rule user key at e es h on =
    find-update (is_open_for rule key) (λ x. has_id e.id x && is_firing x.state)
      (set_acknowledged user at) es (λ x q. ground arith)
    ∙ rw h (ground arith)
