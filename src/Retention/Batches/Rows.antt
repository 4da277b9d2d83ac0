-- ===== src/Retention/Batches/Rows.antt =====
-- Lists of rows with an id and an instant: selecting, sorting and cutting them.
use logingestor.Prelude.{
  ℕ, zero, suc, ◌≤◌, ◌≡◌, refl, Bool, ◌||◌, List, [], ◌∷◌, any, select, take, All, All-map, length,
  leb, arith, Bool-cases, inl, inr,
}
use logingestor.Prelude.Clock.{Time}
use logingestor.Prelude.Rows.{All-drop, drop}
use logingestor.Retention.Batches.{insert_aged, by_age}

module _ {A : Type 0} (at : A → Time) where
  pub All-insert_aged {ℓ} :
      (P : A → Type ℓ) (x : A) (xs : List A) → P x → All P xs → All P (insert_aged at x xs)
  unfolding insert_aged
  All-insert_aged P x [] hx h = (hx, tt)
  All-insert_aged P x (y ∷ ys) hx h = elim (Bool-cases (leb (at x) (at y))) [
    | inl t ↦ rw t (hx, h)
    | inr f ↦ rw f (h.0, All-insert_aged P x ys hx h.1)
  ]

  pub All-by_age {ℓ} : (P : A → Type ℓ) (xs : List A) → All P xs → All P (by_age at xs)
  unfolding by_age
  All-by_age P [] h = tt
  All-by_age P (x ∷ xs) h = All-insert_aged P x (by_age at xs) h.0 (All-by_age P xs h.1)

  abbrev pub IsAged : List A → Type 0
  IsAged [] = Unit
  IsAged (x ∷ xs) = All (λ y. at x ≤ at y) xs × IsAged xs

  insert_aged-IsAged : (x : A) (xs : List A) → IsAged xs → IsAged (insert_aged at x xs)
  unfolding insert_aged
  insert_aged-IsAged x [] h = (tt, tt)
  insert_aged-IsAged x (y ∷ ys) h = elim (Bool-cases (leb (at x) (at y))) [
    | inl t ↦
        let le : at x ≤ at y = ground (arith, t) in
        rw t ((le, All-map (λ z. at y ≤ at z) ys (λ z hz. omega (arith, le, hz)) h.0), h)
    | inr f ↦ rw f (
      All-insert_aged (λ z. at y ≤ at z) x ys (ground (arith, f)) h.0,
      insert_aged-IsAged x ys h.1,
    )
  ]

  pub by_age-IsAged : (xs : List A) → IsAged (by_age at xs)
  unfolding by_age
  by_age-IsAged [] = tt
  by_age-IsAged (x ∷ xs) = insert_aged-IsAged x (by_age at xs) (by_age-IsAged xs)

  -- What is cut off the front is no younger than what is left.
  pub cut-IsOlder :
      (n : ℕ) (xs : List A) → IsAged xs → All (λ d. All (λ e. at d ≤ at e) (drop n xs)) (take n xs)
  cut-IsOlder zero xs h = tt
  cut-IsOlder (suc n) [] h = tt
  cut-IsOlder (suc n) (x ∷ xs) h = (All-drop (λ e. at x ≤ at e) n xs h.0, cut-IsOlder n xs h.1)

  any-insert_aged :
      (q : A → Bool) (x : A) (xs : List A) → any q (insert_aged at x xs) ≡ (q x || any q xs)
  unfolding insert_aged
  any-insert_aged q x [] = refl
  any-insert_aged q x (y ∷ ys) = ground (arith, any-insert_aged q x ys)

  -- Sorting keeps what a search finds, and how much.
  pub any-by_age : (q : A → Bool) (xs : List A) → any q (by_age at xs) ≡ any q xs
  unfolding by_age
  any-by_age q [] = refl
  any-by_age q (x ∷ xs) = rw (any-insert_aged q x (by_age at xs), any-by_age q xs) refl

  length-select-insert_aged :
      (q : A → Bool) (x : A) (xs : List A)
      → length (select q (insert_aged at x xs)) ≡ length (select q (x ∷ xs))
  unfolding insert_aged
  length-select-insert_aged q x [] = refl
  length-select-insert_aged q x (y ∷ ys) = ground (arith, length-select-insert_aged q x ys)

  pub length-select-by_age :
      (q : A → Bool) (xs : List A) → length (select q (by_age at xs)) ≡ length (select q xs)
  unfolding by_age
  length-select-by_age q [] = refl
  length-select-by_age q (x ∷ xs) =
      ground (arith, length-select-insert_aged q x (by_age at xs), length-select-by_age q xs)
