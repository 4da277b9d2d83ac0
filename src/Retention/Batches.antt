-- ===== src/Retention/Batches.antt =====
-- The batched deletes of business/sdk/retention/retention.go: one statement
-- `DELETE … WHERE id IN (SELECT id … ORDER BY … LIMIT …)`, and the loop that sends it, on fuel. Rows of
-- one instant are taken in the order of the table.
pub mod Rows
pub mod Deletes
pub mod Loop
use logingestor.Prelude.{
  ℕ, zero, suc, ◌+◌, Bool, true, false, not, Option, none, some, List, [], ◌∷◌, any, select, take,
  length, ltb, leb, ◌==◌, if◌then◌else◌,
}
use logingestor.Prelude.Clock.{Time}
use logingestor.Alerting.Model.{Uuid}
use logingestor.Retention.Model.{Tables, RetentionError, out_of_fuel}

module _ {A : Type 0} (at : A → Time) where
  -- `ORDER BY ts`
  unfoldable pub insert_aged : A → List A → List A
  insert_aged x [] = x ∷ []
  insert_aged x (y ∷ ys) =
      let rest = insert_aged x ys in if leb (at x) (at y) then x ∷ y ∷ ys else y ∷ rest

  unfoldable pub by_age : List A → List A
  by_age [] = []
  by_age (x ∷ xs) = insert_aged x (by_age xs)

module _ {A : Type 0} (id_of : A → Uuid) where
  abbrev pub among : List A → A → Bool
  among ds x = any (λ d. id_of d == id_of x) ds

module _ {A : Type 0} (id_of : A → Uuid) (at : A → Time) where
  -- The rows that the inner SELECT finds.
  unfoldable pub doomed : ℕ → (A → Bool) → List A → List A
  doomed n p rows = take n (by_age at (select p rows))

  -- The rows that are left, and the number of those that are gone.
  unfoldable pub delete_oldest : ℕ → (A → Bool) → List A → ℕ × List A
  delete_oldest n p rows = (
    length (select (among id_of (doomed n p rows)) rows),
    select (λ x. not (among id_of (doomed n p rows) x)) rows,
  )

-- What a loop of deletes answers with.
pub record Purged : Type 0 where
  pub deleted : ℕ
  pub incomplete : Bool
  pub failure : Option RetentionError

-- A turn of the loop ends it or goes on, with the number of rows that are deleted by then.
pub data Turn : Type 0 where
  halt : Purged → Tables → Turn
  go_on : ℕ → Tables → Turn

abbrev pub after_turn : (ℕ → Tables → Purged × Tables) → Turn → Purged × Tables
after_turn more (halt o w) = (o, w)
after_turn more (go_on d w) = more d w

unfoldable pub run_batches : (ℕ → Tables → Turn) → ℕ → ℕ → Tables → Purged × Tables
run_batches turn zero deleted w =
    (record { deleted = deleted; incomplete = false; failure = some out_of_fuel }, w)
run_batches turn (suc fuel) deleted w = after_turn (run_batches turn fuel) (turn deleted w)
