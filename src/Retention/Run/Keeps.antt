-- ===== src/Retention/Run/Keeps.antt =====
-- Rules for the parts of `Run`: what each part keeps, the whole run keeps.
use logingestor.Prelude.{
  ℕ, zero, suc, ◌≡◌, Bool, true, false, not, Option, none, some, List, [], ◌∷◌, All, length, ltb,
  if◌then◌else◌, Bool-cases, inl, inr,
}
use logingestor.Prelude.Int.{ℤ, pos_part}
use logingestor.Prelude.Clock.{Time, before}
use logingestor.Retention.Model.{
  AuditRow, Config, RunResult, expires, Tables, RetentionEnv, cutoff_of, delete_audit,
  delete_source_stats, delete_rejects, delete_events, delete_issues, drop_maps,
}
use logingestor.Retention.Batches.{delete_oldest, Turn, halt, go_on, after_turn, run_batches}
use logingestor.Retention.Purge.{Pass, halted}
use logingestor.Retention.Run.{
  Ran, and_then, run_pass, run_passes, audit_turn, purge_audit, prune_source_stats, prune_rejects,
  prune_events, prune_issues, prune_maps, prune_client_errors, run_rest,
}

abbrev pub Invariant : Type 1
Invariant = RunResult → Tables → Type 0

abbrev pub Holds : Invariant → Ran → Type 0
Holds I m = I m.0.0 m.1

abbrev pub Keeps : Invariant → (RunResult → Tables → Ran) → Type 0
Keeps I f = (res : RunResult) (w : Tables) → I res w → Holds I (f res w)

if_Holds :
    (I : Invariant) (b : Bool) (x y : Ran) → Holds I x → Holds I y → Holds I (if b then x else y)
if_Holds I true x y h k = h
if_Holds I false x y h k = k

pub and_then-Holds :
    (I : Invariant) (m : Ran) (f : RunResult → Tables → Ran)
    → Holds I m
    → Keeps I f
    → Holds I (and_then m f)
and_then-Holds I ((res, some e), w) f h k = h
and_then-Holds I ((res, none), w) f h k =
    if_Holds I res.incomplete ((res, none), w) (f res w) h (k res w h)

pub run_passes-Keeps :
    (I : Invariant) (env : RetentionEnv) (cfg : Config) (deadline : Option Time)
    (ps : List (Pass × ℤ))
    → All (λ p. Keeps I (run_pass env cfg deadline p)) ps
    → Keeps I (run_passes env cfg deadline ps)
unfolding run_passes
run_passes-Keeps I env cfg deadline [] h res w i = i
run_passes-Keeps I env cfg deadline (p ∷ ps) h res w i =
    and_then-Holds I (run_pass env cfg deadline p res w) _ (h.0 res w i)
      (λ res' w'. run_passes-Keeps I env cfg deadline ps h.1 res' w')

-- The counts of the logs that were deleted, the logs and their rollup.
abbrev pub Aside : RunResult → Tables → Invariant
Aside res w res' w' =
    (res'.app_deleted ≡ res.app_deleted)
    × (res'.infra_deleted ≡ res.infra_deleted)
    × (w'.logs ≡ w.logs)
    × (w'.stats ≡ w.stats)

abbrev SameLogs : Tables → Tables → Type 0
SameLogs w w' = (w'.logs ≡ w.logs) × (w'.stats ≡ w.stats)

abbrev TurnKeeps : (Tables → Type 0) → Turn → Type 0
TurnKeeps R (halt o w) = R w
TurnKeeps R (go_on d w) = R w

run_batches_keeps :
    (R : Tables → Type 0) (turn : ℕ → Tables → Turn)
    → ((d : ℕ) (w : Tables) → R w → TurnKeeps R (turn d w))
    → (fuel d : ℕ) (w : Tables) → R w
    → R (run_batches turn fuel d w).1
unfolding run_batches
run_batches_keeps R turn k zero d w h = h
run_batches_keeps R turn k (suc fuel) d w h =
    go (turn d w) (k d w h) (λ d' w' h'. run_batches_keeps R turn k fuel d' w' h')
  where
    go :
        (t : Turn)
        → TurnKeeps R t
        → ((d' : ℕ) (w' : Tables) → R w' → R (run_batches turn fuel d' w').1)
        → R (after_turn (run_batches turn fuel) t).1
    go (halt o w') h more = h
    go (go_on d' w') h more = more d' w' h

module _ (env : RetentionEnv) (cfg : Config) (deadline : Option Time) (res0 : RunResult)
    (w0 : Tables) where
  abbrev I0 : Invariant
  I0 = Aside res0 w0

  abbrev audit_batch : Time → Tables → ℕ × List AuditRow
  audit_batch cutoff w =
      delete_oldest (λ (r : AuditRow). r.id) (λ (r : AuditRow). r.timestamp)
        (pos_part cfg.batch_size) (λ (r : AuditRow). before r.timestamp cutoff) w.audit

  audit_turn_keeps :
      (cutoff : Time) (d : ℕ) (w : Tables)
      → SameLogs w0 w
      → TurnKeeps (SameLogs w0) (audit_turn env cfg deadline cutoff d w)
  unfolding audit_turn
  audit_turn_keeps cutoff d w h = elim (Bool-cases (halted env deadline w)) [
    | inl t ↦ rw t h
    | inr f ↦ elim (Bool-cases (env.fails w.statements delete_audit)) [
      | inl t ↦ rw (f, t) h
      | inr e ↦ elim (Bool-cases (ltb (audit_batch cutoff w).0 (pos_part cfg.batch_size))) [
        | inl t ↦ rw (f, e, t) h
        | inr g ↦ rw (f, e, g) h
      ]
    ]
  ]

  purge_audit-Keeps : Keeps I0 (purge_audit env cfg deadline)
  unfolding purge_audit
  purge_audit-Keeps res w h = elim (Bool-cases (expires cfg.audit_days)) [
    | inl t ↦
        let cutoff = cutoff_of (env.now w.statements) cfg.audit_days in
        let kept =
          run_batches_keeps (SameLogs w0) (audit_turn env cfg deadline cutoff)
            (audit_turn_keeps cutoff) (suc (length w.audit)) 0 w (h.2, h.3) in
        rw t (h.0, h.1, kept.0, kept.1)
    | inr f ↦ rw f h
  ]

  prune_source_stats-Keeps : Keeps I0 (prune_source_stats env cfg deadline)
  unfolding prune_source_stats
  prune_source_stats-Keeps res w h = elim (Bool-cases (not (expires cfg.source_stats_days))) [
    | inl t ↦ rw t h
    | inr f ↦ elim (Bool-cases (env.fails w.statements delete_source_stats)) [
      | inl t ↦ rw (f, t) h
      | inr e ↦ rw (f, e) h
    ]
  ]

  prune_rejects-Keeps : Keeps I0 (prune_rejects env cfg deadline)
  unfolding prune_rejects
  prune_rejects-Keeps res w h = elim (Bool-cases (not (expires cfg.reject_days))) [
    | inl t ↦ rw t h
    | inr f ↦ elim (Bool-cases (env.fails w.statements delete_rejects)) [
      | inl t ↦ rw (f, t) h
      | inr e ↦ rw (f, e) h
    ]
  ]

  prune_events-Keeps : Keeps I0 (prune_events env cfg deadline)
  unfolding prune_events
  prune_events-Keeps res w h = elim (Bool-cases (not (expires cfg.client_error_event_days))) [
    | inl t ↦ rw t h
    | inr f ↦ elim (Bool-cases (env.fails w.statements delete_events)) [
      | inl t ↦ rw (f, t) h
      | inr e ↦ rw (f, e) h
    ]
  ]

  prune_issues-Keeps : Keeps I0 (prune_issues env cfg deadline)
  unfolding prune_issues
  prune_issues-Keeps res w h = elim (Bool-cases (not (expires cfg.client_error_issue_days))) [
    | inl t ↦ rw t h
    | inr f ↦ elim (Bool-cases (env.fails w.statements delete_issues)) [
      | inl t ↦ rw (f, t) h
      | inr e ↦ rw (f, e) h
    ]
  ]

  prune_maps-Keeps : Keeps I0 (prune_maps env cfg deadline)
  unfolding prune_maps
  prune_maps-Keeps res w h = elim (Bool-cases (env.fails w.statements drop_maps)) [
    | inl t ↦ rw t h
    | inr e ↦ rw e h
  ]

  prune_client_errors-Keeps : Keeps I0 (prune_client_errors env cfg deadline)
  unfolding prune_client_errors
  prune_client_errors-Keeps res w h =
      let events = prune_events env cfg deadline res w in
      let issues = prune_issues env cfg deadline in
      and_then-Holds I0 (and_then events issues) (prune_maps env cfg deadline)
        (and_then-Holds I0 events issues (prune_events-Keeps res w h) prune_issues-Keeps)
        prune_maps-Keeps

  pub run_rest-Keeps : Keeps I0 (run_rest env cfg deadline)
  unfolding run_rest
  run_rest-Keeps res w h =
      let audit = purge_audit env cfg deadline res w in
      let counters = prune_source_stats env cfg deadline in
      let errors = prune_client_errors env cfg deadline in
      and_then-Holds I0 (and_then (and_then audit counters) errors) (prune_rejects env cfg deadline)
        (and_then-Holds I0 (and_then audit counters) errors
          (and_then-Holds I0 audit counters (purge_audit-Keeps res w h) prune_source_stats-Keeps)
          prune_client_errors-Keeps)
        prune_rejects-Keeps
