-- ===== src/ClientErrors/Issues/Unique.antt =====
-- The partial unique indexes of client_error_issues: one issue to a fingerprint in its scope.
use logingestor.Prelude.{
  ◌≡◌, refl, Bool, false, ◌&&◌, Option, none, some, List, [], ◌∷◌, ◌++◌, All, All-append,
  All-select, find-none, select, update, if◌then◌else◌, arith, Bool-cases, Option-cases, inl, inr,
}
use logingestor.Prelude.Text.{text_eq_comm}
use logingestor.Alerting.Model.{Uuid}
use logingestor.ClientErrors.Model.{Issue}
use logingestor.ClientErrors.Issues.{
  eq_id, in_scope, is_issue_of, query_issue_by_fingerprint, upsert_issue,
}

abbrev pub same_group : Issue → Issue → Bool
same_group i j = is_issue_of i.org_id i.project_id i.fingerprint j

abbrev Differ : Issue → Issue → Type 0
Differ i j = same_group i j ≡ false

abbrev pub IsDistinct : List Issue → Type 0
IsDistinct [] = Unit
IsDistinct (i ∷ issues) = All (Differ i) issues × IsDistinct issues

eq_id_comm : (a b : Option Uuid) → eq_id a b ≡ eq_id b a
eq_id_comm none none = refl
eq_id_comm none (some b) = refl
eq_id_comm (some a) none = refl
eq_id_comm (some a) (some b) = ground arith

abbrev same_scope : Option Uuid → Option Uuid → Option Uuid → Option Uuid → Bool
same_scope (some p) o p' o' = eq_id p' (some p)
same_scope none (some o) p' o' = eq_id p' none && eq_id o' (some o)
same_scope none none p' o' = eq_id p' none && eq_id o' none

same_scope_comm : (p o p' o' : Option Uuid) → same_scope p o p' o' ≡ same_scope p' o' p o
same_scope_comm (some p) o (some p') o' = eq_id_comm (some p') (some p)
same_scope_comm (some p) o none (some o') = refl
same_scope_comm (some p) o none none = refl
same_scope_comm none (some o) (some p') o' = refl
same_scope_comm none none (some p') o' = refl
same_scope_comm none (some o) none (some o') = eq_id_comm (some o') (some o)
same_scope_comm none (some o) none none = refl
same_scope_comm none none none (some o') = refl
same_scope_comm none none none none = refl

in_scope_same :
    (p o : Option Uuid) (j : Issue) → in_scope p o j ≡ same_scope p o j.project_id j.org_id
in_scope_same (some p) o j = refl
in_scope_same none (some o) j = refl
in_scope_same none none j = refl

same_group_comm : (i j : Issue) → same_group i j ≡ same_group j i
unfolding is_issue_of
same_group_comm i j = cc (
  text_eq_comm i.fingerprint j.fingerprint,
  in_scope_same i.project_id i.org_id j,
  in_scope_same j.project_id j.org_id i,
  same_scope_comm i.project_id i.org_id j.project_id j.org_id,
)

-- An update that leaves the scope and the fingerprint alone.
pub record KeepsGroup (f : Issue → Issue) : Type 0 where
  pub org_id : (i : Issue) → (f i).org_id ≡ i.org_id
  pub project_id : (i : Issue) → (f i).project_id ≡ i.project_id
  pub fingerprint : (i : Issue) → (f i).fingerprint ≡ i.fingerprint

module _ (p : Issue → Bool) (f : Issue → Issue) (keeps : KeepsGroup f) where
  abbrev chosen : Issue → Issue
  chosen i = if p i then f i else i

  chosen-KeepsGroup : KeepsGroup chosen
  chosen-KeepsGroup = record {
    org_id = λ i. ground (arith, keeps.org_id i);
    project_id = λ i. ground (arith, keeps.project_id i);
    fingerprint = λ i. ground (arith, keeps.fingerprint i);
  }

  chosen-Differ : (i j : Issue) → Differ i j → Differ (chosen i) (chosen j)
  unfolding is_issue_of
  chosen-Differ i j d = cc (
    d,
    chosen-KeepsGroup.fingerprint i,
    chosen-KeepsGroup.fingerprint j,
    chosen-KeepsGroup.project_id i,
    chosen-KeepsGroup.project_id j,
    chosen-KeepsGroup.org_id i,
    chosen-KeepsGroup.org_id j,
    in_scope_same i.project_id i.org_id j,
    in_scope_same (chosen i).project_id (chosen i).org_id (chosen j),
  )

  update-All-Differ :
      (i : Issue) (is : List Issue) → All (Differ i) is → All (Differ (chosen i)) (update p f is)
  update-All-Differ i [] h = tt
  update-All-Differ i (j ∷ is) h = (chosen-Differ i j h.0, update-All-Differ i is h.1)

  pub update-IsDistinct : (is : List Issue) → IsDistinct is → IsDistinct (update p f is)
  update-IsDistinct [] h = tt
  update-IsDistinct (i ∷ is) h = (update-All-Differ i is h.0, update-IsDistinct is h.1)

pub select-IsDistinct :
    (p : Issue → Bool) (is : List Issue) → IsDistinct is → IsDistinct (select p is)
select-IsDistinct p [] h = tt
select-IsDistinct p (i ∷ is) h = elim (Bool-cases (p i)) [
  | inl q ↦ rw q (All-select (Differ i) p is h.0, select-IsDistinct p is h.1)
  | inr q ↦ rw q (select-IsDistinct p is h.1)
]

append-IsDistinct :
    (row : Issue) (is : List Issue)
    → All (λ j. same_group row j ≡ false) is
    → IsDistinct is
    → IsDistinct (is ++ row ∷ [])
append-IsDistinct row [] fresh h = (tt, tt)
append-IsDistinct row (i ∷ is) fresh h = (
  All-append (Differ i) is (row ∷ []) h.0 (rw (same_group_comm i row) fresh.0, tt),
  append-IsDistinct row is fresh.1 h.1,
)

pub upsert_issue-IsDistinct :
    (i : Issue) (is : List Issue) → IsDistinct is → IsDistinct (upsert_issue i is).1
unfolding query_issue_by_fingerprint upsert_issue
upsert_issue-IsDistinct i is h =
    elim (Option-cases (query_issue_by_fingerprint i.org_id i.project_id i.fingerprint is)) [
      | inl absent ↦ rw (upsert_issue, absent) (append-IsDistinct _ is (find-none _ is absent) h)
      | inr (old, found) ↦ rw (upsert_issue, found) h
    ]
