-- ===== src/Alerting/Events/Lookup.antt =====
-- What `QueryOpenEvent` finds after each statement.
use logingestor.Prelude.{
  find-update, refl, find_passes, ◌∙◌, ◌≡◌, Bool, none, some, List, [], ◌∷◌, ◌++◌, find, update,
  arith, Option-cases, ◌==◌, inl, inr,
}
use logingestor.Prelude.Text.{Text, text_eq_refl}
use logingestor.Prelude.Clock.{Time}
use logingestor.Alerting.Model.{Uuid, AlertEvent}
use logingestor.Alerting.Events.{
  is_open_for, query_open_event, first_row, fold_firing, record_firing, mark_notified,
}

module _ {ℓ} {A : Type ℓ} where
  find-append_none :
      (p : A → Bool) (xs ys : List A) → find p xs ≡ none → find p (xs ++ ys) ≡ find p ys
  find-append_none p [] ys e = refl
  find-append_none p (x ∷ xs) ys e = ground (arith, find-append_none p xs ys)

-- The two branches of the upsert.
pub record_firing_first :
    (id : Uuid) (e : AlertEvent) (es : List AlertEvent)
    → query_open_event e.rule_id e.dedup_key es ≡ none
    → record_firing id e es ≡ (first_row id e, es ++ first_row id e ∷ [])
unfolding record_firing
record_firing_first id e es absent = rw (absent, record_firing)

pub record_firing_repeat :
    (id : Uuid) (e : AlertEvent) (es : List AlertEvent) (old : AlertEvent)
    → query_open_event e.rule_id e.dedup_key es ≡ some old
    → record_firing id e es
      ≡ (fold_firing e old, update (is_open_for e.rule_id e.dedup_key) (fold_firing e) es)
unfolding record_firing
record_firing_repeat id e es old found = rw (found, record_firing)

find_first_row :
    (id : Uuid) (e : AlertEvent)
    → query_open_event e.rule_id e.dedup_key (first_row id e ∷ []) ≡ some (first_row id e)
unfolding query_open_event is_open_for first_row
find_first_row id e = ground (arith, text_eq_refl e.dedup_key)

find_folded :
    (e : AlertEvent) (es : List AlertEvent) (old : AlertEvent)
    → query_open_event e.rule_id e.dedup_key es ≡ some old
    → query_open_event e.rule_id e.dedup_key
        (update (is_open_for e.rule_id e.dedup_key) (fold_firing e) es)
      ≡ some (fold_firing e old)
unfolding query_open_event is_open_for fold_firing
find_folded e es old found =
    find-update (is_open_for e.rule_id e.dedup_key) (is_open_for e.rule_id e.dedup_key)
      (fold_firing e) es (λ x _. refl)
    ∙ rw found (rw (find_passes (is_open_for e.rule_id e.dedup_key) es found))

-- The row that `RecordFiring` returns is the open row of its rule and key afterwards.
pub query_open_event-record_firing :
    (id : Uuid) (e : AlertEvent) (es : List AlertEvent)
    → query_open_event e.rule_id e.dedup_key (record_firing id e es).1
      ≡ some (record_firing id e es).0
query_open_event-record_firing id e es =
    elim (Option-cases (query_open_event e.rule_id e.dedup_key es)) [
      | inl absent ↦
          rw (record_firing_first id e es absent)
            (unfold query_open_event in find-append_none _ es _ absent ∙ find_first_row id e)
      | inr (old, found) ↦ rw (record_firing_repeat id e es old found) (find_folded e es old found)
    ]

-- Marking one row changes the open row of a rule and key only if it is that row.
pub query_open_event-mark_notified :
    (rule : Uuid) (key : Text) (id : Uuid) (at : Time) (es : List AlertEvent) (e : AlertEvent)
    → query_open_event rule key es ≡ some e
    → e.id ≡ id
    → query_open_event rule key (mark_notified id at es)
      ≡ some (record e { last_notified_at = some at })
unfolding query_open_event mark_notified is_open_for
query_open_event-mark_notified rule key id at es e found same =
    find-update (is_open_for rule key) (λ x. x.id == id)
      (λ x. record x { last_notified_at = some at }) es (λ x _. refl)
    ∙ rw found (ground arith)
