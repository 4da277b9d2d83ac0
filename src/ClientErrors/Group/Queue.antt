-- ===== src/ClientErrors/Group/Queue.antt =====
-- The queue of events is worked off: every claim uses up an attempt, and nothing in a batch gives one
-- back.
use logingestor.Prelude.{
  sym, ==_iff, ℕ, zero, suc, ◌+◌, ◌-◌, ◌≤◌, ◌<◌, ◌≡◌, refl, Bool, true, false, ◌&&◌, ◌||◌, Option,
  none, some, List, [], ◌∷◌, any, select, take, update, map, ltb, All, arith, Bool-cases, inl, inr,
}
use logingestor.Prelude.Text.{Text}
use logingestor.Prelude.Clock.{Time}
use logingestor.Prelude.Result.{Result-cases, ok}
use logingestor.Prelude.Exec.Keeps.{Moves-bind, Chains, Moves}
use logingestor.ClientErrors.Model.{Event}
use logingestor.ClientErrors.Issues.{touch_issue, record_facets, detach_from_issue}
use logingestor.ClientErrors.World.{claim_rows, Facet, Row, ErrorStore, ReportError, ErrorEnv}
use logingestor.ClientErrors.Group.{
  drain, attached, failed_row, Uuid, max_process_attempts, claimable, insert_received, oldest_first,
  claimed, has_row_id, is_claimed, count_attempts, attach_to_issue, mark_failed, resolve_stored,
  file_issue, leave_issue, notify, group_all, process_batch,
}
use logingestor.ClientErrors.Group.Steps.{
  with_rows, process_batch_works, after_claim, process_batch_fails, after_taking, StepsKeep,
  group_all-Moves,
}

-- The attempts that are left on the rows.
unfoldable pub budget : List Row → ℕ
budget [] = 0
budget (r ∷ rs) = (max_process_attempts - r.attempts) + budget rs

budget-update :
    (p : Row → Bool) (f : Row → Row) (rows : List Row)
    → ((r : Row) → (f r).attempts ≡ r.attempts)
    → budget (update p f rows) ≡ budget rows
unfolding budget
budget-update p f [] same = refl
budget-update p f (r ∷ rs) same = ground (arith, same r, budget-update p f rs same)

count_attempts-le : (taken rows : List Row) → budget (count_attempts taken rows) ≤ budget rows
unfolding budget
count_attempts-le taken [] = omega arith
count_attempts-le taken (r ∷ rs) = ground (arith, count_attempts-le taken rs)

abbrev counted : List Row → Row → Bool
counted taken r = is_claimed taken r && ltb r.attempts max_process_attempts

count_attempts_falls :
    (taken rows : List Row)
    → any (counted taken) rows ≡ true
    → budget (count_attempts taken rows) < budget rows
unfolding budget
count_attempts_falls taken [] h = absurd (ground arith)
count_attempts_falls taken (r ∷ rs) h =
    ground (arith, count_attempts-le taken rs, count_attempts_falls taken rs)

-- What is claimed stands in the table.
any-insert_received :
    (p : Row → Bool) (r : Row) (rs : List Row) → any p (insert_received r rs) ≡ (p r || any p rs)
unfolding insert_received
any-insert_received p r [] = refl
any-insert_received p r (s ∷ rs) = ground (arith, any-insert_received p r rs)

any-oldest_first : (p : Row → Bool) (rs : List Row) → any p (oldest_first rs) ≡ any p rs
unfolding oldest_first
any-oldest_first p [] = refl
any-oldest_first p (r ∷ rs) =
    ground (arith, any-insert_received p r (oldest_first rs), any-oldest_first p rs)

any-take : (p : Row → Bool) (n : ℕ) (rs : List Row) → any p (take n rs) ≡ true → any p rs ≡ true
any-take p zero rs h = absurd (ground arith)
any-take p (suc n) [] h = h
any-take p (suc n) (r ∷ rs) h = ground (arith, any-take p n rs)

any-select :
    (p q t : Row → Bool) (rs : List Row)
    → ((r : Row) → q r ≡ true → p r ≡ true → t r ≡ true)
    → any p (select q rs) ≡ true
    → any t rs ≡ true
any-select p q t [] k h = h
any-select p q t (r ∷ rs) k h = ground (arith, k r, any-select p q t rs k)

claimed_counted :
    (limit : ℕ) (rows rest : List Row) (r : Row)
    → claimed limit max_process_attempts rows ≡ r ∷ rest
    → any (counted (r ∷ rest)) rows ≡ true
unfolding claimed claimable
claimed_counted limit rows rest r e =
    any-select (has_row_id r.event.id) (claimable max_process_attempts) (counted (r ∷ rest)) rows
      (λ s c h. ground (arith, c, h))
      (ground (
        arith,
        any-oldest_first (has_row_id r.event.id) (select (claimable max_process_attempts) rows),
        any-take (has_row_id r.event.id) limit
            (oldest_first (select (claimable max_process_attempts) rows)),
        found,
      ))
  where
    found :
        any
          (has_row_id r.event.id)
          (take limit (oldest_first (select (claimable max_process_attempts) rows)))
        ≡ true
    found = rw e (ground (arith, ==_iff r.event.id r.event.id))

-- No step of a group gives an attempt back.
abbrev Spends : ErrorStore → ErrorStore → Type 0
Spends v w = budget w.rows ≤ budget v.rows

Spends-Chains : Chains Spends
Spends-Chains = record { same = λ s. omega arith; chain = λ a b c h k. omega (arith, h, k) }

module _ (env : ErrorEnv) (now : Time) where
  attach_to_issue-Spends :
      (event issue : Uuid) (fingerprint : Text) (version : ℕ) (stack : Text)
      → Moves Spends (attach_to_issue env now event issue fingerprint version stack)
  unfolding attach_to_issue
  attach_to_issue-Spends event issue fingerprint version stack w = ground (
    arith,
    budget-update (has_row_id event) (attached now issue fingerprint version stack) w.rows
        (λ r. refl),
  )

  mark_failed-Spends :
      (event : Uuid) (reason : Text) (most : ℕ)
      → Moves Spends (mark_failed env now event reason most)
  unfolding mark_failed
  mark_failed-Spends event reason most w =
      ground
        (arith, budget-update (has_row_id event) (failed_row now reason most) w.rows (λ r. refl))

  group-Spends : (e : Event) → StepsKeep Spends env now e
  unfolding record_facets detach_from_issue resolve_stored file_issue touch_issue notify
  group-Spends e = record {
    resolve = λ w. omega arith;
    file = λ g w. ground arith;
    touch = λ id w. ground arith;
    facets = facets_spend;
    attach = λ id fp v s. attach_to_issue-Spends e.id id fp v s;
    leave = leave_spend e.issue_id;
    notice = λ c r i w. ground arith;
    mark = λ reason. mark_failed-Spends e.id reason max_process_attempts;
  }
    where
      facets_spend : (id : Uuid) (fs : List Facet) → Moves Spends (record_facets env id fs)
      facets_spend id [] w = omega arith
      facets_spend id (f ∷ fs) w = ground arith

      leave_spend : (old : Option Uuid) (id : Uuid) → Moves Spends (leave_issue env e old id)
      leave_spend none id w = omega arith
      leave_spend (some old) id w = ground arith

All-Spends : (env : ErrorEnv) (now : Time) (es : List Event) → All (StepsKeep Spends env now) es
All-Spends env now [] = tt
All-Spends env now (e ∷ es) = (group-Spends env now e, All-Spends env now es)

module _ (env : ErrorEnv) (now : Time) (reason : ReportError → Text) where
  group_all-Spends : (es : List Event) → Moves Spends (group_all env now reason es)
  group_all-Spends es = group_all-Moves Spends-Chains env now reason es (All-Spends env now es)

  after_claim-Spends : (es : List Event) → Moves Spends (after_claim env now reason es)
  after_claim-Spends es =
      Moves-bind Spends-Chains (group_all env now reason es) _ (group_all-Spends es)
        λ u w. omega arith

  after_taking_falls :
      (limit k : ℕ) (w : ErrorStore) (taken : List Row)
      → claimed limit max_process_attempts w.rows ≡ taken
      → (after_taking env now reason taken w).0 ≡ ok (suc k)
      → budget (after_taking env now reason taken w).1.rows < budget w.rows
  unfolding group_all
  after_taking_falls limit k w [] c e = absurd (ground arith)
  after_taking_falls limit k w (r ∷ rest) c e = omega (
    arith,
    after_claim-Spends (map (λ (r : Row). r.event) (r ∷ rest))
        (with_rows env now reason (count_attempts (r ∷ rest) w.rows) w),
    count_attempts_falls (r ∷ rest) w.rows (claimed_counted limit w.rows rest r c),
  )

  -- A batch that handles an event leaves fewer attempts in the table.
  pub process_batch_falls :
      (limit k : ℕ) (w : ErrorStore)
      → (process_batch env now reason limit w).0 ≡ ok (suc k)
      → budget (process_batch env now reason limit w).1.rows < budget w.rows
  process_batch_falls limit k w e = elim (Bool-cases (env.fails claim_rows)) [
    | inl f ↦ absurd (ground (arith, process_batch_fails env now reason limit w f))
    | inr f ↦ rw (process_batch_works env now reason limit w f) (
        after_taking_falls limit k w (claimed limit max_process_attempts w.rows) refl
          (rw (sym (process_batch_works env now reason limit w f)) e))
  ]

module _ (env : ErrorEnv) (reason : ReportError → Text) (limit : ℕ) where
  -- With a batch size of at least one, a loop whose bound is more than the attempts left on the rows
  -- stops of itself, whatever fails.
  pub drain_stops :
      (n : ℕ) (now : ℕ → Time) (w : ErrorStore)
      → 1 ≤ limit
      → budget w.rows < n
      → (drain env reason limit n now w).0 ≡ true
  unfolding drain
  drain_stops zero now w h b = absurd (omega (arith, b))
  drain_stops (suc n) now w h b = elim (Result-cases (process_batch env (now n) reason limit w).0) [
    | inl (e, q) ↦ rw (drain, q) refl
    | inr (k, q) ↦
        rw (drain, q)
          (elim (Bool-cases (ltb k limit)) [
            | inl less ↦ rw less refl
            | inr full ↦ rw full (
                drain_stops n now (process_batch env (now n) reason limit w).1 h
                  (after_full k q full))
          ])
  ]
    where
      after_full :
          (k : ℕ)
          → (process_batch env (now n) reason limit w).0 ≡ ok k
          → ltb k limit ≡ false
          → budget (process_batch env (now n) reason limit w).1.rows < n
      after_full zero q full = absurd (ground arith)
      after_full (suc k) q full =
          omega (arith, b, process_batch_falls env (now n) reason limit k w q)
