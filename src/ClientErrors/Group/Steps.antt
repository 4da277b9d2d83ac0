-- ===== src/ClientErrors/Group/Steps.antt =====
-- A relation that every step of `group` keeps is kept by `group`, and by the loop over a batch.
use logingestor.Prelude.{
  length, map, Bool-cases, inl, inr, ◌≡◌, refl, ℕ, Bool, true, false, Option, List, [], ◌∷◌, All,
}
use logingestor.Prelude.Text.{Text}
use logingestor.Prelude.Clock.{Time}
use logingestor.Prelude.Result.{Result, ok, err}
use logingestor.Prelude.Exec.{◌>>◌, pure}
use logingestor.Prelude.Exec.Keeps.{Moves, Chains, Moves-bind}
use logingestor.Alerting.Model.{Uuid}
use logingestor.ClientErrors.Model.{Event, Issue}
use logingestor.ClientErrors.Fingerprint.{Grouping, fingerprint_of}
use logingestor.ClientErrors.Issues.{touch_issue, record_facets}
use logingestor.ClientErrors.World.{
  Row, claim_rows, call_failed, Facet, ErrorStore, ReportError, ErrorEnv, ErrorExec,
}
use logingestor.ClientErrors.Group.{
  subject_of, version_of, resolved_or_empty, facets_of, max_process_attempts, attach_to_issue,
  mark_failed, resolve_stored, file_issue, touch_unless, leave_issue, notify, group, after_group,
  claimed, count_attempts, claim_unprocessed, process_batch, group_or_mark, group_all,
}

abbrev pub StoreRelation : Type 1
StoreRelation = ErrorStore → ErrorStore → Type 0

pub record StepsKeep (R : StoreRelation) (env : ErrorEnv) (now : Time) (e : Event) : Type 0 where
  pub resolve : Moves R (resolve_stored env e)
  pub file : (g : Grouping) → Moves R (file_issue env e g)
  pub touch : (id : Uuid) → Moves R (touch_issue env id e.occurred_at e.level e.id e.sampled_count)
  pub facets : (id : Uuid) (fs : List Facet) → Moves R (record_facets env id fs)
  pub attach :
      (id : Uuid) (fingerprint : Text) (version : ℕ) (stack : Text)
      → Moves R (attach_to_issue env now e.id id fingerprint version stack)
  pub leave : (id : Uuid) → Moves R (leave_issue env e e.issue_id id)
  pub notice : (created reopened : Bool) (i : Issue) → Moves R (notify env created reopened i e)
  pub mark : (reason : Text) → Moves R (mark_failed env now e.id reason max_process_attempts)

abbrev grouping_of : ErrorEnv → Event → Option Text → Grouping
grouping_of env e resolved = fingerprint_of env.matchers (subject_of e resolved)

abbrev attach_filed : ErrorEnv → Time → Event → Uuid → Option Text → ErrorExec (Unit {0})
attach_filed env now e id resolved =
    attach_to_issue env now e.id id (grouping_of env e resolved).fingerprint (version_of resolved)
      (resolved_or_empty resolved)

module _ {R : StoreRelation} (chains : Chains R) (env : ErrorEnv) (now : Time) where
  touch_unless-Moves :
      (e : Event)
      → StepsKeep R env now e
      → (created : Bool) (id : Uuid) → Moves R (touch_unless env created id e)
  touch_unless-Moves e k true id s = chains.same s
  touch_unless-Moves e k false id s = k.touch id s

  pub group-Moves : (e : Event) → StepsKeep R env now e → Moves R (group env now e)
  unfolding group
  group-Moves e k = Moves-bind chains (resolve_stored env e) _ k.resolve λ resolved.
      Moves-bind chains (file_issue env e (grouping_of env e resolved)) _
        (k.file (grouping_of env e resolved))
        λ filed.
          Moves-bind chains (touch_unless env filed.1 filed.0.id e) _
            (touch_unless-Moves e k filed.1 filed.0.id)
            λ reopened.
              Moves-bind chains
                (record_facets env filed.0.id (facets_of env.uuid_text filed.0.id e)) _
                (k.facets filed.0.id (facets_of env.uuid_text filed.0.id e))
                λ u.
                  Moves-bind chains (attach_filed env now e filed.0.id resolved) _
                    (k.attach filed.0.id (grouping_of env e resolved).fingerprint
                      (version_of resolved) (resolved_or_empty resolved))
                    λ v.
                      Moves-bind chains (leave_issue env e e.issue_id filed.0.id) _
                        (k.leave filed.0.id) λ x. k.notice filed.1 reopened filed.0

  module _ (reason : ReportError → Text) where
    after_group-Moves :
        (e : Event)
        → StepsKeep R env now e
        → (r : Result ReportError (Unit {0})) → Moves R (after_group env now e reason r)
    after_group-Moves e k (ok u) s = chains.same s
    after_group-Moves e k (err f) s = k.mark (reason f) s

    group_or_mark-Moves :
        (e : Event) → StepsKeep R env now e → Moves R (group_or_mark env now reason e)
    unfolding group_or_mark
    group_or_mark-Moves e k s =
        let done = group env now e s in
        chains.chain s done.1 (after_group env now e reason done.0 done.1).1 (group-Moves e k s)
          (after_group-Moves e k done.0 done.1)

    pub group_all-Moves :
        (es : List Event) → All (StepsKeep R env now) es → Moves R (group_all env now reason es)
    unfolding group_all
    group_all-Moves [] k s = chains.same s
    group_all-Moves (e ∷ es) k s =
        Moves-bind chains (group_or_mark env now reason e) _ (group_or_mark-Moves e k.0)
          (λ u. group_all-Moves es k.1) s

module _ (env : ErrorEnv) (now : Time) (reason : ReportError → Text) where
  -- The batch after its claim.
  abbrev pub after_claim : List Event → ErrorExec ℕ
  after_claim es = group_all env now reason es >> pure (length es)

  abbrev pub with_rows : List Row → ErrorStore → ErrorStore
  with_rows rows w = record w { rows = rows }

  abbrev pub after_taking : List Row → ErrorExec ℕ
  after_taking taken w =
      after_claim (map (λ (r : Row). r.event) taken) (with_rows (count_attempts taken w.rows) w)

  pub process_batch_works :
      (limit : ℕ) (w : ErrorStore)
      → env.fails claim_rows ≡ false
      → process_batch env now reason limit w
        ≡ after_taking (claimed limit max_process_attempts w.rows) w
  unfolding process_batch claim_unprocessed
  process_batch_works limit w f = rw f refl

  pub process_batch_fails :
      (limit : ℕ) (w : ErrorStore)
      → env.fails claim_rows ≡ true
      → process_batch env now reason limit w ≡ (err (call_failed claim_rows), w)
  unfolding process_batch claim_unprocessed
  process_batch_fails limit w f = rw f refl

module _ {R : StoreRelation} (chains : Chains R) (env : ErrorEnv) (now : Time)
    (reason : ReportError → Text) where
  after_claim-Moves :
      (es : List Event) → All (StepsKeep R env now) es → Moves R (after_claim env now reason es)
  after_claim-Moves es k =
      Moves-bind chains (group_all env now reason es) _ (group_all-Moves chains env now reason es k)
        λ u s. chains.same s

  pub process_batch-Moves :
      (limit : ℕ) (w : ErrorStore)
      → R w (
          with_rows env now reason
            (count_attempts (claimed limit max_process_attempts w.rows) w.rows)
            w)
      → All
          (StepsKeep R env now)
          (map (λ (r : Row). r.event) (claimed limit max_process_attempts w.rows))
      → R w (process_batch env now reason limit w).1
  process_batch-Moves limit w c k = elim (Bool-cases (env.fails claim_rows)) [
    | inl f ↦ rw (process_batch_fails env now reason limit w f) (chains.same w)
    | inr f ↦
        rw (process_batch_works env now reason limit w f)
          (chains.chain w _ _ c (after_claim-Moves _ k _))
  ]
