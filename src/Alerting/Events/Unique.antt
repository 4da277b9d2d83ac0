-- ===== src/Alerting/Events/Unique.antt =====
-- The partial unique index: at most one open event for a rule and a dedup key, and one row to an id.
use logingestor.Prelude.{
  find-none, ◌≡◌, ◌≢◌, refl, Bool, true, false, ◌&&◌, none, some, List, [], ◌∷◌, ◌++◌, All,
  All-append, update, arith, Option-cases, if◌then◌else◌, inl, inr, not,
}
use logingestor.Prelude.Text.{text_eq_comm, Text}
use logingestor.Prelude.Clock.{Time}
use logingestor.Alerting.Model.{Uuid, AlertEvent}
use logingestor.Alerting.Events.Lookup.{record_firing_first, record_firing_repeat}
use logingestor.Alerting.Events.{
  set_resolved, set_acknowledged, is_firing, has_id, is_open_for, query_open_event, first_row,
  fold_firing, record_firing, mark_notified, is_resolved, acknowledge_event, resolve_event,
}

-- Two rows that the indexes allow beside one another.
pub record Apart (d e : AlertEvent) : Type 0 where
  pub ids : d.id ≢ e.id
  pub open_keys : is_open_for d.rule_id d.dedup_key e && not (is_resolved d.state) ≡ false

abbrev pub IsIndexed : List AlertEvent → Type 0
IsIndexed [] = Unit
IsIndexed (e ∷ es) = All (Apart e) es × IsIndexed es

-- An update that keeps the ids and the keys and opens none of the rows that it is made at.
pub record Closes (p : AlertEvent → Bool) (f : AlertEvent → AlertEvent) : Type 0 where
  pub id : (e : AlertEvent) → (f e).id ≡ e.id
  pub rule_id : (e : AlertEvent) → (f e).rule_id ≡ e.rule_id
  pub dedup_key : (e : AlertEvent) → (f e).dedup_key ≡ e.dedup_key
  pub stays :
      (e : AlertEvent) → p e ≡ true → is_resolved e.state ≡ true → is_resolved (f e).state ≡ true

module _ (p : AlertEvent → Bool) (f : AlertEvent → AlertEvent) (closes : Closes p f) where
  abbrev chosen : AlertEvent → AlertEvent
  chosen e = if p e then f e else e

  chosen-Apart : (d e : AlertEvent) → Apart d e → Apart (chosen d) (chosen e)
  unfolding is_open_for
  chosen-Apart d e a = record {
    ids = ground (arith, closes.id d, closes.id e);
    open_keys = ground (
      arith,
      closes.rule_id d,
      closes.rule_id e,
      closes.dedup_key d,
      closes.dedup_key e,
      closes.stays d,
      closes.stays e,
    );
  }

  update-All-Apart :
      (d : AlertEvent) (es : List AlertEvent)
      → All (Apart d) es
      → All (Apart (chosen d)) (update p f es)
  update-All-Apart d [] h = tt
  update-All-Apart d (e ∷ es) h = (chosen-Apart d e h.0, update-All-Apart d es h.1)

  update-IsIndexed : (es : List AlertEvent) → IsIndexed es → IsIndexed (update p f es)
  update-IsIndexed [] h = tt
  update-IsIndexed (e ∷ es) h = (update-All-Apart e es h.0, update-IsIndexed es h.1)

  -- No search for an open row finds more after such an update.
  pub update_closed :
      (rule : Uuid) (key : Text) (es : List AlertEvent)
      → query_open_event rule key es ≡ none
      → query_open_event rule key (update p f es) ≡ none
  unfolding query_open_event is_open_for
  update_closed rule key [] h = refl
  update_closed rule key (e ∷ es) h =
      ground
        (arith, closes.rule_id e, closes.dedup_key e, closes.stays e, update_closed rule key es)

All-Apart-append :
    (d row : AlertEvent) (es : List AlertEvent)
    → Apart d row
    → All (Apart d) es
    → All (Apart d) (es ++ row ∷ [])
All-Apart-append d row es a h = All-append (Apart d) es (row ∷ []) h (a, tt)

append-IsIndexed :
    (row : AlertEvent) (es : List AlertEvent)
    → All (λ d. Apart d row) es
    → IsIndexed es
    → IsIndexed (es ++ row ∷ [])
append-IsIndexed row [] h i = (tt, tt)
append-IsIndexed row (e ∷ es) h i =
    (All-Apart-append e row es h.0 i.0, append-IsIndexed row es h.1 i.1)

-- The id of a new row is not in the table.
abbrev pub IsFresh : Uuid → List AlertEvent → Type 0
IsFresh id es = All (λ (e : AlertEvent). e.id ≢ id) es

first_row-Apart :
    (id : Uuid) (e d : AlertEvent)
    → d.id ≢ id
    → is_open_for e.rule_id e.dedup_key d ≡ false
    → Apart d (first_row id e)
unfolding first_row is_open_for
first_row-Apart id e d fresh shut = record {
  ids = fresh;
  open_keys = ground (arith, text_eq_comm e.dedup_key d.dedup_key);
}

first_row-All-Apart :
    (id : Uuid) (e : AlertEvent) (es : List AlertEvent)
    → IsFresh id es
    → All (λ d. is_open_for e.rule_id e.dedup_key d ≡ false) es
    → All (λ d. Apart d (first_row id e)) es
first_row-All-Apart id e [] fresh shut = tt
first_row-All-Apart id e (d ∷ es) fresh shut =
    (first_row-Apart id e d fresh.0 shut.0, first_row-All-Apart id e es fresh.1 shut.1)

fold_firing-Closes : (p : AlertEvent → Bool) (e : AlertEvent) → Closes p (fold_firing e)
unfolding fold_firing
fold_firing-Closes p e = record {
  id = λ x. refl;
  rule_id = λ x. refl;
  dedup_key = λ x. refl;
  stays = λ x h k. k;
}

pub record_firing-IsIndexed :
    (id : Uuid) (e : AlertEvent) (es : List AlertEvent)
    → IsFresh id es
    → IsIndexed es
    → IsIndexed (record_firing id e es).1
record_firing-IsIndexed id e es fresh h =
    elim (Option-cases (query_open_event e.rule_id e.dedup_key es)) [
      | inl absent ↦ rw (record_firing_first id e es absent) (
          append-IsIndexed (first_row id e) es
            (first_row-All-Apart id e es fresh (unfold query_open_event in find-none _ es absent))
            h)
      | inr (old, found) ↦
          rw (record_firing_repeat id e es old found)
            (update-IsIndexed _ (fold_firing e) (fold_firing-Closes _ e) es h)
    ]

mark_notified-IsIndexed :
    (id : Uuid) (at : Time) (es : List AlertEvent)
    → IsIndexed es
    → IsIndexed (mark_notified id at es)
unfolding mark_notified
mark_notified-IsIndexed id at es h = update-IsIndexed _ _ closes es h
  where
    closes : Closes (has_id id) (λ e. record e { last_notified_at = some at })
    closes = record {
      id = λ x. refl;
      rule_id = λ x. refl;
      dedup_key = λ x. refl;
      stays = λ x q k. k;
    }

acknowledge_event-IsIndexed :
    (id user : Uuid) (at : Time) (es : List AlertEvent)
    → IsIndexed es
    → IsIndexed (acknowledge_event id user at es)
unfolding acknowledge_event
acknowledge_event-IsIndexed id user at es h = update-IsIndexed _ _ closes es h
  where
    closes : Closes (λ e. has_id id e && is_firing e.state) (set_acknowledged user at)
    closes = record {
      id = λ x. refl;
      rule_id = λ x. refl;
      dedup_key = λ x. refl;
      stays = λ x q k. ground arith;
    }

pub resolve_event-Closes :
    (id : Uuid) (at : Time)
    → Closes (λ e. has_id id e && not (is_resolved e.state)) (set_resolved at)
resolve_event-Closes id at = record {
  id = λ x. refl;
  rule_id = λ x. refl;
  dedup_key = λ x. refl;
  stays = λ x q k. refl;
}

resolve_event-IsIndexed :
    (id : Uuid) (at : Time) (es : List AlertEvent)
    → IsIndexed es
    → IsIndexed (resolve_event id at es)
unfolding resolve_event
resolve_event-IsIndexed id at es h = update-IsIndexed _ _ (resolve_event-Closes id at) es h

-- The statements that change the table.
pub data Step : List AlertEvent → List AlertEvent → Type 0 where
  records :
      (id : Uuid) (e : AlertEvent) (es : List AlertEvent)
      → IsFresh id es
      → Step es (record_firing id e es).1
  notifies : (id : Uuid) (at : Time) (es : List AlertEvent) → Step es (mark_notified id at es)
  acknowledges :
      (id user : Uuid) (at : Time) (es : List AlertEvent)
      → Step es (acknowledge_event id user at es)
  resolves : (id : Uuid) (at : Time) (es : List AlertEvent) → Step es (resolve_event id at es)

pub data Reach (es : List AlertEvent) : List AlertEvent → Type 0 where
  here : Reach es es
  next : {fs gs : List AlertEvent} → Reach es fs → Step fs gs → Reach es gs

pub Step-IsIndexed : {es fs : List AlertEvent} → Step es fs → IsIndexed es → IsIndexed fs
Step-IsIndexed (records id e es fresh) h = record_firing-IsIndexed id e es fresh h
Step-IsIndexed (notifies id at es) h = mark_notified-IsIndexed id at es h
Step-IsIndexed (acknowledges id user at es) h = acknowledge_event-IsIndexed id user at es h
Step-IsIndexed (resolves id at es) h = resolve_event-IsIndexed id at es h

-- Whatever statements run, in any order and with ids that are new when they are given out, the table
-- holds at most one open event for a rule and a dedup key, and one row to an id.
pub Reach-IsIndexed : {es fs : List AlertEvent} → Reach es fs → IsIndexed es → IsIndexed fs
Reach-IsIndexed here h = h
Reach-IsIndexed (next r st) h = Step-IsIndexed st (Reach-IsIndexed r h)
