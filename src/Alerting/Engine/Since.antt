-- ===== src/Alerting/Engine/Since.antt =====
-- What may happen after a delivery without giving up its mark: firings, acknowledgements and whatever
-- leaves the events alone.
use logingestor.Prelude.{
  update, ℕ, ◌≤◌, ◌≡◌, ◌⊎◌, refl, ◌∙◌, Bool, true, false, some, List, [], ◌∷◌, ◌++◌, find,
  find-update, arith, Bool-cases, Option-cases, inl, inr, ◌&&◌,
}
use logingestor.Prelude.Text.{Text}
use logingestor.Prelude.Clock.{Time}
use logingestor.Alerting.Model.{
  AlertState, firing, acknowledged, resolved, Uuid, MaintenanceWindow, AlertEvent, AlertPayload,
  AlertRule,
}
use logingestor.Alerting.Events.{
  has_id, is_firing, is_resolved, is_open_for, query_open_event, fold_firing, record_firing,
  mark_notified, acknowledge_event,
}
use logingestor.Alerting.Events.Lookup.{record_firing_first, record_firing_repeat}
use logingestor.Alerting.World.{World, Env}
use logingestor.Alerting.Engine.{raise, firing_of}
use logingestor.Alerting.Engine.Raise.{recorded, raise-events}

-- The arguments of a call of `raise`.
pub record Firing : Type 0 where
  pub env : Env
  pub rule : AlertRule
  pub rep : AlertPayload
  pub matched : ℕ
  pub windows : List MaintenanceWindow
  pub now : Time

-- What is reached from a world by such steps, the firings at or after an instant. No alert is resolved.
pub data Since (t : Time) (w : World) : World → Type 0 where
  here : Since t w w
  raised :
      {u : World} (f : Firing)
      → t ≤ f.now
      → Since t w u
      → Since t w (raise f.env f.rule f.rep f.matched f.windows f.now u).1
  acked :
      {u : World} (id user : Uuid) (at : Time)
      → Since t w u
      → Since t w (record u { events = acknowledge_event id user at u.events })
  edited : {u v : World} → v.events ≡ u.events → Since t w u → Since t w v

-- The rule and key have an open alert that was notified at the instant or later.
abbrev pub Marked : Uuid → Text → Time → List AlertEvent → Type 0
Marked rule key t es =
    (e : AlertEvent) × (at : ℕ) × (query_open_event rule key es ≡ some e)
    × (e.last_notified_at ≡ some at)
    × (t ≤ at)

firing_open : (s : AlertState) → is_firing s ≡ true → is_resolved s ≡ false
firing_open firing h = refl
firing_open acknowledged h = refl
firing_open resolved h = absurd (ground arith)

module _ (rule : Uuid) (key : Text) (t : Time) where
  find-append_some :
      (p : AlertEvent → Bool) (xs ys : List AlertEvent) (e : AlertEvent)
      → find p xs ≡ some e
      → find p (xs ++ ys) ≡ some e
  find-append_some p [] ys e h = absurd (ground arith)
  find-append_some p (x ∷ xs) ys e h = ground (arith, h, find-append_some p xs ys e)

  -- An update that keeps rows open keeps the mark, if it keeps or renews the instant of a row.
  update-Marked :
      (q : AlertEvent → Bool) (f : AlertEvent → AlertEvent) (es : List AlertEvent)
      → ((x : AlertEvent) → q x ≡ true → is_open_for rule key (f x) ≡ is_open_for rule key x)
      → ((x : AlertEvent)
          → ((f x).last_notified_at ≡ x.last_notified_at)
            ⊎ ((at : ℕ) × ((f x).last_notified_at ≡ some at) × (t ≤ at)))
      → Marked rule key t es
      → Marked rule key t (update q f es)
  unfolding query_open_event
  update-Marked q f es stays kept (e, at, found, mark, after) =
      let found' = find-update (is_open_for rule key) q f es stays in
      elim (Bool-cases (q e)) [
        | inr n ↦ (e, at, found' ∙ rw found (rw n refl), mark, after)
        | inl y ↦ elim (kept e) [
          | inl same ↦ (f e, at, found' ∙ rw found (rw y refl), same ∙ mark, after)
          | inr (at', mark', after') ↦ (f e, at', found' ∙ rw found (rw y refl), mark', after')
        ]
      ]

  folds : (x e : AlertEvent) → is_open_for rule key (fold_firing e x) ≡ is_open_for rule key x
  unfolding is_open_for fold_firing
  folds x e = refl

  record_firing-Marked :
      (id : Uuid) (e : AlertEvent) (es : List AlertEvent)
      → Marked rule key t es
      → Marked rule key t (record_firing id e es).1
  record_firing-Marked id e es m = elim (Option-cases (query_open_event e.rule_id e.dedup_key es)) [
    | inl absent ↦
        let (x, at, found, mark, after) = m in
        rw (record_firing_first id e es absent)
          (x, at, unfold query_open_event in find-append_some _ es _ x found, mark, after)
    | inr (old, found) ↦ rw (record_firing_repeat id e es old found) (
        update-Marked (is_open_for e.rule_id e.dedup_key) (fold_firing e) es (λ x h. folds x e)
          (λ x. inl (unfold fold_firing in refl)) m)
  ]

  mark_notified-Marked :
      (id : Uuid) (at : Time) (es : List AlertEvent)
      → t ≤ at
      → Marked rule key t es
      → Marked rule key t (mark_notified id at es)
  unfolding mark_notified is_open_for
  mark_notified-Marked id at es le =
      update-Marked (has_id id) _ es (λ x h. refl) (λ x. inr (at, refl, le))

  acknowledge_event-Marked :
      (id user : Uuid) (at : Time) (es : List AlertEvent)
      → Marked rule key t es
      → Marked rule key t (acknowledge_event id user at es)
  unfolding acknowledge_event is_open_for
  acknowledge_event-Marked id user at es =
      update-Marked (λ e. has_id id e && is_firing e.state) _ es
        (λ x h. rw (firing_open x.state (ground (arith, h))) (ground arith)) (λ x. inl refl)

  raise-Marked :
      (f : Firing) (u : World)
      → t ≤ f.now
      → Marked rule key t u.events
      → Marked rule key t (raise f.env f.rule f.rep f.matched f.windows f.now u).1.events
  raise-Marked f u le m =
      let kept : Marked rule key t (recorded f.env f.rule f.rep f.matched f.now u).1 =
        record_firing-Marked (f.env.fresh u.events) (firing_of f.env f.rule f.rep f.matched f.now)
          u.events m in
      elim (raise-events f.env f.rule f.rep f.matched f.windows f.now u) [
        | inl same ↦ rw same m
        | inr (inl only) ↦ rw only kept
        | inr (inr both) ↦ rw both (mark_notified-Marked _ f.now _ le kept)
      ]

  pub Since-Marked :
      {w u : World} → Since t w u → Marked rule key t w.events → Marked rule key t u.events
  Since-Marked here m = m
  Since-Marked (raised {u} f le s) m = raise-Marked f u le (Since-Marked s m)
  Since-Marked (acked {u} id user at s) m =
      acknowledge_event-Marked id user at u.events (Since-Marked s m)
  Since-Marked (edited same s) m = rw same (Since-Marked s m)
