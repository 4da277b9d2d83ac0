-- ===== src/ClientErrors/Artifacts/Silent.antt =====
-- An upload queues the events of its release again, and grouping them again pages nobody.
use logingestor.Prelude.{
  ◌⊎◌, ◌==◌, length, not, ℕ, zero, suc, ◌≡◌, refl, ◌∙◌, false, Option, none, some, List, [], ◌∷◌,
  All, All-update, All-select, take, ltb, leb, map, arith, Bool-cases, inl, inr,
}
use logingestor.Prelude.Text.{trim_space, Text}
use logingestor.Prelude.Clock.{Time}
use logingestor.Prelude.Result.{ok, err, Result-cases}
use logingestor.Prelude.Exec.{◌>>◌, pure}
use logingestor.Prelude.Exec.Keeps.{
  Moves-or_error, Moves-require, Chains, Moves, Moves-bind, Moves-writes,
}
use logingestor.Alerting.Model.{Uuid}
use logingestor.ClientErrors.Model.{Event}
use logingestor.ClientErrors.Issues.{touch_issue, record_facets, detach_from_issue}
use logingestor.ClientErrors.World.{
  artifact_too_large, artifact_empty, artifact_release, artifact_invalid, Artifact, Facet, Row,
  ErrorStore, ReportError, ErrorEnv,
}
use logingestor.ClientErrors.Group.{
  max_process_attempts, is_new, insert_received, oldest_first, claimed, claimable, one_attempt,
  has_row_id, attach_to_issue, mark_failed, resolve_stored, file_issue, leave_issue, notify,
  process_batch, drain,
}
use logingestor.ClientErrors.Group.Steps.{StepsKeep, process_batch-Moves}
use logingestor.ClientErrors.Artifacts.{
  next_artifact, strip_sources_content, or_error, pure, max_artifact_bytes,
  resolved_fingerprint_version, forget_maps, is_blank, require, NewArtifact, save_artifact,
  requeued, mark_release_for_regroup, store_artifact, upload_artifact,
}

-- The event was filed under an issue.
abbrev pub IsFiled : Row → Type 0
IsFiled r = is_new r.event.issue_id ≡ false

abbrev pub AllFiled : ErrorStore → Type 0
AllFiled w = All IsFiled w.rows

abbrev Quiet : ErrorStore → ErrorStore → Type 0
Quiet v w = AllFiled w × (w.notices ≡ v.notices)

-- Where every event was filed, every event still is and no notice was sent.
abbrev Silent : ErrorStore → ErrorStore → Type 0
Silent v w = AllFiled v → Quiet v w

Silent-Chains : Chains Silent
Silent-Chains = record {
  same = λ s h. (h, refl);
  chain = λ a b c ab bc h. ((bc (ab h).0).0, (bc (ab h).0).1 ∙ (ab h).1);
}

still : (v w : ErrorStore) → w.rows ≡ v.rows → w.notices ≡ v.notices → Silent v w
still v w r n h = (rw r h, n)

module _ (env : ErrorEnv) (now : Time) where
  group-Silent : (e : Event) → is_new e.issue_id ≡ false → StepsKeep Silent env now e
  unfolding record_facets detach_from_issue resolve_stored file_issue touch_issue notify
      attach_to_issue mark_failed
  group-Silent e filed = record {
    resolve = λ w. (λ h. (h, refl));
    file = λ g w. still w (file_issue env e g w).1 (ground arith) (ground arith);
    touch = λ id w.
        still w (touch_issue env id e.occurred_at e.level e.id e.sampled_count w).1 (ground arith)
          (ground arith);
    facets = λ id fs. facets_silent id fs;
    attach = λ id fp v s.
        Moves-writes Silent-Chains _ _ _
          λ w h. (All-update IsFiled (has_row_id e.id) _ w.rows (λ r k. refl) h, refl);
    leave = leave_silent e.issue_id;
    notice = λ c r i w. still w (notify env c r i e w).1 (ground arith) (ground (arith, filed));
    mark = λ reason.
        Moves-writes Silent-Chains _ _ _
          λ w h. (All-update IsFiled (has_row_id e.id) _ w.rows (λ r k. k) h, refl);
  }
    where
      facets_silent : (id : Uuid) (fs : List Facet) → Moves Silent (record_facets env id fs)
      facets_silent id [] w = λ h. (h, refl)
      facets_silent id (f ∷ fs) w =
          still w (record_facets env id (f ∷ fs) w).1 (ground arith) (ground arith)

      leave_silent : (old : Option Uuid) (id : Uuid) → Moves Silent (leave_issue env e old id)
      leave_silent none id w = λ h. (h, refl)
      leave_silent (some old) id w =
          still w (leave_issue env e (some old) id w).1 (ground arith) (ground arith)

All-insert_received :
    (r : Row) (rs : List Row) → IsFiled r → All IsFiled rs → All IsFiled (insert_received r rs)
unfolding insert_received
All-insert_received r [] k h = (k, tt)
All-insert_received r (s ∷ rs) k h =
    elim (Bool-cases (leb r.event.received_at s.event.received_at)) [
      | inl q ↦ rw q (k, h)
      | inr q ↦ rw q (h.0, All-insert_received r rs k h.1)
    ]

All-oldest_first : (rs : List Row) → All IsFiled rs → All IsFiled (oldest_first rs)
unfolding oldest_first
All-oldest_first [] h = tt
All-oldest_first (r ∷ rs) h = All-insert_received r (oldest_first rs) h.0 (All-oldest_first rs h.1)

All-take : (n : ℕ) (rs : List Row) → All IsFiled rs → All IsFiled (take n rs)
All-take zero rs h = tt
All-take (suc n) [] h = tt
All-take (suc n) (r ∷ rs) h = (h.0, All-take n rs h.1)

claimed-IsFiled :
    (limit : ℕ) (rows : List Row)
    → All IsFiled rows
    → All IsFiled (claimed limit max_process_attempts rows)
unfolding claimed
claimed-IsFiled limit rows h =
    All-take limit _
      (All-oldest_first _ (All-select IsFiled (claimable max_process_attempts) rows h))

module _ (env : ErrorEnv) (reason : ReportError → Text) where
  groups-Silent :
      (now : Time) (rs : List Row)
      → All IsFiled rs
      → All (StepsKeep Silent env now) (map (λ (r : Row). r.event) rs)
  groups-Silent now [] h = tt
  groups-Silent now (r ∷ rs) h = (group-Silent env now r.event h.0, groups-Silent now rs h.1)

  process_batch-Silent :
      (now : Time) (limit : ℕ) → Moves Silent (process_batch env now reason limit)
  process_batch-Silent now limit w h =
      process_batch-Moves Silent-Chains env now reason limit w
        (λ k. (All-update IsFiled _ one_attempt w.rows (λ r f. f) k, refl))
        (groups-Silent now _ (claimed-IsFiled limit w.rows h)) h

  drain-Silent :
      (n limit : ℕ) (now : ℕ → Time) (w : ErrorStore) → Silent w (drain env reason limit n now w).1
  unfolding drain
  drain-Silent zero limit now w h = (h, refl)
  drain-Silent (suc n) limit now w h =
      drained (Result-cases (process_batch env (now n) reason limit w).0)
        (drain-Silent n limit now (process_batch env (now n) reason limit w).1)
    where
      done : ErrorStore
      done = (process_batch env (now n) reason limit w).1

      drained :
          ((e : ReportError) × ((process_batch env (now n) reason limit w).0 ≡ err e))
            ⊎ ((k : ℕ) × ((process_batch env (now n) reason limit w).0 ≡ ok k))
          → Silent done (drain env reason limit n now done).1
          → Quiet w (drain env reason limit (suc n) now w).1
      drained (inl (e, q)) again = rw (drain, q) (process_batch-Silent (now n) limit w h)
      drained (inr (k, q)) again =
          rw (drain, q)
            (elim (Bool-cases (ltb k limit)) [
              | inl less ↦ rw less (process_batch-Silent (now n) limit w h)
              | inr full ↦ rw full (
                  Silent-Chains.chain w done (drain env reason limit n now done).1
                    (process_batch-Silent (now n) limit w) again h)
            ])

  store_artifact-Silent : (a : Artifact) → Moves Silent (store_artifact env a)
  unfolding store_artifact save_artifact mark_release_for_regroup
  store_artifact-Silent a =
      Moves-bind Silent-Chains (require (not (is_blank a.file_name)) artifact_invalid) _
        (Moves-require Silent-Chains _ _)
        λ u.
          Moves-bind Silent-Chains (save_artifact env a) _
            (Moves-writes Silent-Chains _ _ _ λ w h. (h, refl))
            λ v.
              Moves-bind Silent-Chains forget_maps
                (λ x. mark_release_for_regroup env a.release resolved_fingerprint_version >> pure a)
                (λ w h. (h, refl))
                λ x.
                  Moves-bind Silent-Chains
                    (mark_release_for_regroup env a.release resolved_fingerprint_version)
                    (λ y. pure a)
                    (Moves-writes Silent-Chains _ _ _
                      λ w h. (All-update IsFiled _ requeued w.rows (λ r k. k) h, refl))
                    λ y s. Silent-Chains.same s

  upload_artifact-Silent :
      (now : Time) (na : NewArtifact) → Moves Silent (upload_artifact env now na)
  unfolding upload_artifact
  upload_artifact-Silent now na =
      Moves-bind Silent-Chains (require (not (is_blank (trim_space na.release))) artifact_release) _
        (Moves-require Silent-Chains _ _)
        λ u.
          Moves-bind Silent-Chains (require (not (length na.content == 0)) artifact_empty) _
            (Moves-require Silent-Chains _ _)
            λ v.
              Moves-bind Silent-Chains
                (require (not (ltb max_artifact_bytes (length na.content))) artifact_too_large) _
                (Moves-require Silent-Chains _ _)
                λ x.
                  Moves-bind Silent-Chains
                    (or_error artifact_invalid (strip_sources_content env na.content)) _
                    (Moves-or_error Silent-Chains _ _)
                    λ stripped.
                      Moves-bind Silent-Chains (next_artifact env now stripped na)
                        (store_artifact env) (λ w h. (h, refl)) store_artifact-Silent

  -- While every event in the table is filed under an issue, the upload of a source map and the rounds
  -- of grouping that follow it send no notice, whatever fails.
  pub upload_silent :
      (now : Time) (na : NewArtifact) (limit n : ℕ) (later : ℕ → Time) (w : ErrorStore)
      → AllFiled w
      → (drain env reason limit n later (upload_artifact env now na w).1).1.notices ≡ w.notices
  upload_silent now na limit n later w h =
      (Silent-Chains.chain w (upload_artifact env now na w).1
        (drain env reason limit n later (upload_artifact env now na w).1).1
        (upload_artifact-Silent now na w)
        (drain-Silent n limit later (upload_artifact env now na w).1) h).1
