-- ===== src/Retention/Run/Errors.antt =====
-- What pruning the client errors leaves: every event keeps its issue and the source maps of its release.
use logingestor.Prelude.{
  ◌≡◌, refl, ◌∙◌, ap, Bool, true, not, ◌&&◌, Option, none, some, List, [], ◌∷◌, any, select, All,
  All-map, All-select, ==_iff, arith, Bool-cases, Option-cases, inl, inr,
}
use logingestor.Prelude.Text.{Text, text_eq, text_eq_refl, text_eq_sound}
use logingestor.Prelude.Clock.{Time}
use logingestor.Alerting.Model.{Uuid}
use logingestor.ClientErrors.Model.{Issue}
use logingestor.ClientErrors.Issues.{eq_id, is_event_of, has_issue_id}
use logingestor.ClientErrors.World.{Row, Artifact}
use logingestor.Prelude.Rows.{any-select, select-select, select-same, All-every, All-both}
use logingestor.Retention.Model.{
  Config, expires, RunResult, Tables, RetentionEnv, delete_events, delete_issues, drop_maps,
}
use logingestor.Retention.Run.{
  and_then, dead_issue, dead_map, prune_events, prune_issues, prune_maps, prune_client_errors,
}
use logingestor.Retention.Run.Keeps.{Invariant, Holds, Keeps, and_then-Holds}

-- The issue of an event is in the table.
abbrev HasIssue : List Issue → Row → Type 0
HasIssue issues r = (id : Uuid) → is_event_of id r ≡ true → any (has_issue_id id) issues ≡ true

abbrev pub AreFiled : List Row → List Issue → Type 0
AreFiled rows issues = All (HasIssue issues) rows

abbrev pub of_release : Text → Row → Bool
of_release release r = text_eq r.event.release release

abbrev pub for_release : Text → Artifact → Bool
for_release release a = text_eq a.release release

-- The source maps of a release that an event is left of are all there.
abbrev pub KeepsMaps : Tables → Tables → Type 0
KeepsMaps w u =
    (release : Text)
    → any (of_release release) u.events ≡ true
    → select (for_release release) u.artifacts ≡ select (for_release release) w.artifacts

-- An event of the table is found there.
All-any :
    (q : Uuid → Row → Bool) (rows : List Row)
    → All (λ r. (id : Uuid) → q id r ≡ true → any (q id) rows ≡ true) rows
All-any q [] = tt
All-any q (r ∷ rows) = (
  λ id e. ground (arith, e),
  All-map _ rows (λ s h id e. ground (arith, h id e)) (All-any q rows),
)

All-found :
    (rows : List Row)
    → All (λ r. (l : Text) → of_release l r ≡ true → any (of_release l) rows ≡ true) rows
All-found [] = tt
All-found (r ∷ rows) =
    (λ l e. ground (arith, e), All-map _ rows (λ s h l e. ground (arith, h l e)) (All-found rows))

-- An issue that a test keeps is found among those that the test keeps.
any-kept :
    (id : Uuid) (keep : Issue → Bool) (issues : List Issue)
    → ((i : Issue) → has_issue_id id i ≡ true → keep i ≡ true)
    → any (has_issue_id id) issues ≡ true
    → any (has_issue_id id) (select keep issues) ≡ true
any-kept id keep [] k h = h
any-kept id keep (i ∷ issues) k h = elim (Bool-cases (has_issue_id id i)) [
  | inl t ↦ ground (arith, t, k i t)
  | inr f ↦ ground (arith, f, h, any-kept id keep issues k)
]

module _ (env : RetentionEnv) (cfg : Config) (deadline : Option Time) (w0 : Tables) where
  abbrev Used : Invariant
  Used res w = AreFiled w.events w.issues × KeepsMaps w0 w

  prune_events-Used : Keeps Used (prune_events env cfg deadline)
  unfolding prune_events
  prune_events-Used res w h = elim (Bool-cases (not (expires cfg.client_error_event_days))) [
    | inl t ↦ rw t h
    | inr f ↦ elim (Bool-cases (env.fails w.statements delete_events)) [
      | inl t ↦ rw (f, t) h
      | inr e ↦
          rw (f, e)
            (
              All-select _ _ w.events h.0,
              λ release found. h.1 release (any-select (of_release release) _ w.events found),
            )
    ]
  ]

  -- An issue that an event points at is not dead.
  alive :
      (w : Tables) (id : Uuid) (i : Issue)
      → any (is_event_of id) w.events ≡ true
      → has_issue_id id i ≡ true
      → not (dead_issue env cfg deadline w i) ≡ true
  alive w id i found same =
      let is_it : i.id ≡ id = (==_iff i.id id).0 same in
      let used : any (is_event_of i.id) w.events ≡ true =
        ap (λ j. any (is_event_of j) w.events) is_it ∙ found in
      ground (arith, used)

  prune_issues-Used : Keeps Used (prune_issues env cfg deadline)
  unfolding prune_issues
  prune_issues-Used res w h = elim (Bool-cases (not (expires cfg.client_error_issue_days))) [
    | inl t ↦ rw t h
    | inr f ↦ elim (Bool-cases (env.fails w.statements delete_issues)) [
      | inl t ↦ rw (f, t) h
      | inr e ↦
          rw (f, e)
            (
              All-map _ w.events
                  (λ r both id e.
                    any-kept id _ w.issues (λ i same. alive w id i (both.1 id e) same)
                      (both.0 id e))
                  (All-both _ _ w.events h.0 (All-any is_event_of w.events)),
              h.1,
            )
    ]
  ]

  prune_maps-Used : Keeps Used (prune_maps env cfg deadline)
  unfolding prune_maps
  prune_maps-Used res w h = elim (Bool-cases (env.fails w.statements drop_maps)) [
    | inl t ↦ rw t h
    | inr e ↦ rw e (
      h.0,
      λ release found.
          select-select (for_release release) (λ a. not (dead_map env cfg deadline w a)) w.artifacts
          ∙ select-same _ _ w.artifacts (All-every _ w.artifacts (λ a. needed w release a found))
          ∙ h.1 release found,
    )
  ]
    where
      needed :
          (w : Tables) (release : Text) (a : Artifact)
          → any (of_release release) w.events ≡ true
          → (for_release release a && not (dead_map env cfg deadline w a)) ≡ for_release release a
      needed w release a found = elim (Bool-cases (for_release release a)) [
        | inl t ↦
            let same : a.release ≡ release = text_eq_sound a.release release t in
            let used : any (λ (r : Row). text_eq r.event.release a.release) w.events ≡ true =
              ap (λ l. any (of_release l) w.events) same ∙ found in
            ground (arith, t, used)
        | inr f ↦ rw f refl
      ]

  kept_used :
      (res : RunResult)
      → AreFiled w0.events w0.issues
      → Holds Used (prune_client_errors env cfg deadline res w0)
  unfolding prune_client_errors
  kept_used res filed =
      let events = prune_events env cfg deadline res w0 in
      let issues = prune_issues env cfg deadline in
      and_then-Holds Used (and_then events issues) (prune_maps env cfg deadline)
        (and_then-Holds Used events issues (prune_events-Used res w0 (filed, λ release found. refl))
          prune_issues-Used)
        prune_maps-Used

-- An event that was grouped has its issue in the table.
abbrev pub is_filed : List Issue → Row → Bool
is_filed issues r = elim r.event.issue_id [ none ↦ true | some id ↦ any (has_issue_id id) issues ]

eq_id_sound : (o : Option Uuid) (id : Uuid) → eq_id o (some id) ≡ true → o ≡ some id
eq_id_sound none id h = ground (arith, h)
eq_id_sound (some a) id h = ground (arith, h)

filed-HasIssue : (issues : List Issue) (r : Row) → is_filed issues r ≡ true → HasIssue issues r
filed-HasIssue issues r h id e = ground (arith, h, eq_id_sound r.event.issue_id id e)

HasIssue-filed : (issues : List Issue) (r : Row) → HasIssue issues r → is_filed issues r ≡ true
HasIssue-filed issues r h = elim (Option-cases r.event.issue_id) [
  | inl e ↦ rw e refl
  | inr (id, e) ↦ rw e (h id (rw e (ground arith)))
]

-- Pruning leaves every event its issue and the source maps of its release, whatever fails, if every event
-- had its issue.
pub prune_client_errors-KeepsUsed :
    (env : RetentionEnv) (cfg : Config) (deadline : Option Time) (res : RunResult) (w : Tables)
    → All (λ r. is_filed w.issues r ≡ true) w.events
    → (let u = (prune_client_errors env cfg deadline res w).1 in
        All
          (λ r.
            (is_filed u.issues r ≡ true)
            × (select (for_release r.event.release) u.artifacts
                ≡ select (for_release r.event.release) w.artifacts))
          u.events)
prune_client_errors-KeepsUsed env cfg deadline res w filed =
    let u = (prune_client_errors env cfg deadline res w).1 in
    let (kept, maps) =
      kept_used env cfg deadline w res
        (All-map _ w.events (λ r h. filed-HasIssue w.issues r h) filed) in
    All-map _ u.events
      (λ r both. (
        HasIssue-filed u.issues r both.0,
        maps r.event.release (both.1 r.event.release (text_eq_refl _)),
      ))
      (All-both _ _ u.events kept (All-found u.events))
