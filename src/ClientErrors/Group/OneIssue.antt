-- ===== src/ClientErrors/Group/OneIssue.antt =====
-- The worker files the events of one fingerprint and scope under one issue.
use logingestor.Prelude.{
  find, ◌==◌, Option-cases, ◌-◌, ℕ, ◌≡◌, refl, ◌&&◌, Option, none, some, List, [], ◌∷◌, All, map,
  any, arith, Bool-cases, inl, inr,
}
use logingestor.Prelude.Text.{Text}
use logingestor.Prelude.Clock.{Time}
use logingestor.Prelude.Exec.Keeps.{Chains, Moves}
use logingestor.Alerting.Model.{Uuid}
use logingestor.ClientErrors.Model.{Event}
use logingestor.ClientErrors.Fingerprint.{Grouping}
use logingestor.ClientErrors.Issues.{
  has_issue_id, is_event_of, touched, upsert_issue, touch_issue, record_facets, detach_from_issue,
}
use logingestor.ClientErrors.Issues.Unique.{
  IsDistinct, KeepsGroup, update-IsDistinct, select-IsDistinct, upsert_issue-IsDistinct,
}
use logingestor.ClientErrors.World.{
  Row, Facet, ErrorStore, ReportError, ErrorEnv, find_issue, insert_issue, detach_row, touch_row,
}
use logingestor.ClientErrors.Group.{
  max_process_attempts, claimed, new_issue, attach_to_issue, mark_failed, resolve_stored,
  file_issue, leave_issue, notify, process_batch,
}
use logingestor.ClientErrors.Group.Steps.{StepsKeep, process_batch-Moves}

abbrev Keeps : ErrorStore → ErrorStore → Type 0
Keeps v w = IsDistinct v.issues → IsDistinct w.issues

Keeps-Chains : Chains Keeps
Keeps-Chains = record { same = λ s h. h; chain = λ a b c ab bc h. bc (ab h) }

still : (v w : ErrorStore) → w.issues ≡ v.issues → Keeps v w
still v w e h = rw e h

module _ (env : ErrorEnv) (now : Time) where
  file_issue-Keeps : (e : Event) (g : Grouping) → Moves Keeps (file_issue env e g)
  unfolding file_issue
  file_issue-Keeps e g w h = elim (Bool-cases (env.fails (find_issue e.id))) [
    | inl f ↦ rw f h
    | inr f ↦
        rw f
          (elim (Bool-cases (
            (upsert_issue (new_issue (env.fresh_issue w.issues) e g) w.issues).0.1
            && env.fails (insert_issue e.id))) [
              | inl q ↦ rw q h
              | inr q ↦
                  rw q
                    (upsert_issue-IsDistinct (new_issue (env.fresh_issue w.issues) e g) w.issues h)
            ])
  ]

  touched-KeepsGroup : (e : Event) → KeepsGroup (touched e.occurred_at e.level e.id e.sampled_count)
  unfolding touched
  touched-KeepsGroup e = record {
    org_id = λ i. refl;
    project_id = λ i. refl;
    fingerprint = λ i. refl;
  }

  touch_issue-Keeps :
      (e : Event) (id : Uuid)
      → Moves Keeps (touch_issue env id e.occurred_at e.level e.id e.sampled_count)
  unfolding touch_issue
  touch_issue-Keeps e id w h = elim (Option-cases (find (has_issue_id id) w.issues)) [
    | inl absent ↦ rw (touch_issue, absent) h
    | inr (i, found) ↦
        rw (touch_issue, found)
          (elim (Bool-cases (env.fails (touch_row id))) [
            | inl f ↦ rw f h
            | inr f ↦ rw f (update-IsDistinct (has_issue_id id) _ (touched-KeepsGroup e) w.issues h)
          ])
  ]

  lighter-KeepsGroup :
      (count : ℕ) → KeepsGroup (λ i. record i { event_count = i.event_count - count })
  lighter-KeepsGroup count = record {
    org_id = λ i. refl;
    project_id = λ i. refl;
    fingerprint = λ i. refl;
  }

  detach_from_issue-Keeps : (id : Uuid) (count : ℕ) → Moves Keeps (detach_from_issue env id count)
  unfolding detach_from_issue
  detach_from_issue-Keeps id count w h = elim (Bool-cases (env.fails (detach_row id))) [
    | inl f ↦ rw f h
    | inr f ↦ rw f (elim (Bool-cases (any (is_event_of id) w.rows)) [
      | inl q ↦ rw q (update-IsDistinct (has_issue_id id) _ (lighter-KeepsGroup count) w.issues h)
      | inr q ↦ rw q (
          select-IsDistinct _ _
            (update-IsDistinct (has_issue_id id) _ (lighter-KeepsGroup count) w.issues h))
    ])
  ]

  group-Keeps : (e : Event) → StepsKeep Keeps env now e
  unfolding record_facets resolve_stored attach_to_issue mark_failed notify
  group-Keeps e = record {
    resolve = λ w h. h;
    file = file_issue-Keeps e;
    touch = touch_issue-Keeps e;
    facets = facets_keep;
    attach = λ id fp v s w. still w (attach_to_issue env now e.id id fp v s w).1 (ground arith);
    leave = leave_keep e.issue_id;
    notice = λ c r i w. still w (notify env c r i e w).1 (ground arith);
    mark = λ reason w.
        still w (mark_failed env now e.id reason max_process_attempts w).1 (ground arith);
  }
    where
      facets_keep : (id : Uuid) (fs : List Facet) → Moves Keeps (record_facets env id fs)
      facets_keep id [] w = λ h. h
      facets_keep id (f ∷ fs) w = still w (record_facets env id (f ∷ fs) w).1 (ground arith)

      leave_keep : (old : Option Uuid) (id : Uuid) → Moves Keeps (leave_issue env e old id)
      leave_keep none id w h = h
      leave_keep (some old) id w h = elim (Bool-cases (old == id)) [
        | inl q ↦ rw q h
        | inr q ↦ rw q (detach_from_issue-Keeps old e.sampled_count w h)
      ]

  All-group-Keeps : (rs : List Row) → All (StepsKeep Keeps env now) (map (λ (r : Row). r.event) rs)
  All-group-Keeps [] = tt
  All-group-Keeps (r ∷ rs) = (group-Keeps r.event, All-group-Keeps rs)

  -- Where no two issues have one scope and one fingerprint, no two have after a batch of the worker,
  -- whatever fails in it.
  pub process_batch-IsDistinct :
      (reason : ReportError → Text) (limit : ℕ) (w : ErrorStore)
      → IsDistinct w.issues
      → IsDistinct (process_batch env now reason limit w).1.issues
  process_batch-IsDistinct reason limit w =
      process_batch-Moves Keeps-Chains env now reason limit w (λ h. h)
        (All-group-Keeps (claimed limit max_process_attempts w.rows))
