-- ===== src/Prelude/Rows.antt =====
-- Tables as lists: what a test selects, and rows that have different ids.
use Prim.Native.Nat.{ℕ, zero, suc, ◌+◌, ◌≤◌, ◌<◌}
use mathlib.Core.Path.{◌≡◌, refl}
use mathlib.Core.Logic.{inl, inr}
use mathlib.Core.Bool.{Bool, true, false, not, ◌&&◌, ◌||◌}
use mathlib.Core.Option.{some}
use mathlib.Core.List.{List, [], ◌∷◌}
use native.Mathlib.Omega.{arith}
use logingestor.Prelude.Tests.{◌==◌, if◌then◌else◌, Bool-cases}
use logingestor.Prelude.Lists.{any, find, select, update, take, All, All-map, All-select, length}

module _ {A : Type 0} where
  abbrev pub drop : ℕ → List A → List A
  drop zero xs = xs
  drop (suc n) [] = []
  drop (suc n) (x ∷ xs) = drop n xs

  pub any-All {ℓ} :
      (P : A → Type ℓ) (q : A → Bool) (xs : List A)
      → any q xs ≡ true
      → All P xs
      → (x : A) × (q x ≡ true) × P x
  any-All P q [] e h = absurd (ground arith)
  any-All P q (x ∷ xs) e h = elim (Bool-cases (q x)) [
    | inl t ↦ (x, t, h.0)
    | inr f ↦ any-All P q xs (ground (arith, e, f)) h.1
  ]

  pub any-split :
      (q : A → Bool) (n : ℕ) (xs : List A) → any q xs ≡ (any q (take n xs) || any q (drop n xs))
  any-split q zero xs = refl
  any-split q (suc n) [] = refl
  any-split q (suc n) (x ∷ xs) = ground (arith, any-split q n xs)

  pub All-take {ℓ} : (P : A → Type ℓ) (n : ℕ) (xs : List A) → All P xs → All P (take n xs)
  All-take P zero xs h = tt
  All-take P (suc n) [] h = tt
  All-take P (suc n) (x ∷ xs) h = (h.0, All-take P n xs h.1)

  pub All-drop {ℓ} : (P : A → Type ℓ) (n : ℕ) (xs : List A) → All P xs → All P (drop n xs)
  All-drop P zero xs h = h
  All-drop P (suc n) [] h = tt
  All-drop P (suc n) (x ∷ xs) h = All-drop P n xs h.1

  pub All-passes : (p : A → Bool) (xs : List A) → All (λ x. p x ≡ true) (select p xs)
  All-passes p [] = tt
  All-passes p (x ∷ xs) = elim (Bool-cases (p x)) [
    | inl t ↦ rw t (t, All-passes p xs)
    | inr f ↦ rw f (All-passes p xs)
  ]

  pub All-every {ℓ} : (P : A → Type ℓ) (xs : List A) → ((x : A) → P x) → All P xs
  All-every P [] h = tt
  All-every P (x ∷ xs) h = (h x, All-every P xs h)

  pub All-both {ℓ κ} :
      (P : A → Type ℓ) (Q : A → Type κ) (xs : List A)
      → All P xs
      → All Q xs
      → All (λ x. P x × Q x) xs
  All-both P Q [] h k = tt
  All-both P Q (x ∷ xs) h k = ((h.0, k.0), All-both P Q xs h.1 k.1)

  pub select-same :
      (f g : A → Bool) (xs : List A) → All (λ x. f x ≡ g x) xs → select f xs ≡ select g xs
  select-same f g [] h = refl
  select-same f g (x ∷ xs) h = rw (h.0, select-same f g xs h.1) refl

  pub select-All : (f : A → Bool) (xs : List A) → All (λ x. f x ≡ true) xs → select f xs ≡ xs
  select-All f [] h = refl
  select-All f (x ∷ xs) h = rw (h.0, select-All f xs h.1) refl

  pub select_none : (f : A → Bool) (xs : List A) → All (λ x. f x ≡ false) xs → select f xs ≡ []
  select_none f [] h = refl
  select_none f (x ∷ xs) h = rw (h.0, select_none f xs h.1) refl

  -- Selecting twice is selecting by both tests.
  pub select-select :
      (f g : A → Bool) (xs : List A) → select f (select g xs) ≡ select (λ x. f x && g x) xs
  select-select f g [] = refl
  select-select f g (x ∷ xs) = ground (arith, select-select f g xs)

  pub length-select-select :
      (f g : A → Bool) (xs : List A) → length (select f (select g xs)) ≤ length (select f xs)
  length-select-select f g [] = omega arith
  length-select-select f g (x ∷ xs) = ground (arith, length-select-select f g xs)

  pub length-select-take :
      (f : A → Bool) (n : ℕ) (xs : List A) → length (select f (take n xs)) ≤ length (select f xs)
  length-select-take f zero xs = omega arith
  length-select-take f (suc n) [] = omega arith
  length-select-take f (suc n) (x ∷ xs) = ground (arith, length-select-take f n xs)

  pub length-select-not :
      (f : A → Bool) (xs : List A)
      → length (select (λ x. not (f x)) xs) + length (select f xs) ≡ length xs
  length-select-not f [] = refl
  length-select-not f (x ∷ xs) = ground (arith, length-select-not f xs)

  -- A list of which nothing is selected is its own complement.
  pub select-not :
      (f : A → Bool) (xs : List A) → length (select f xs) ≡ 0 → select (λ x. not (f x)) xs ≡ xs
  select-not f [] h = refl
  select-not f (x ∷ xs) h = elim (Bool-cases (f x)) [
    | inl t ↦ absurd (ground (arith, h, t))
    | inr e ↦ ground (arith, e, select-not f xs (ground (arith, h, e)))
  ]

  -- What is found among the selected is found.
  pub any-select : (f g : A → Bool) (xs : List A) → any f (select g xs) ≡ true → any f xs ≡ true
  any-select f g [] h = h
  any-select f g (x ∷ xs) h = ground (arith, h, any-select f g xs)

  pub take_short : (n : ℕ) (xs : List A) → length (take n xs) < n → take n xs ≡ xs
  take_short zero xs h = absurd (omega arith)
  take_short (suc n) [] h = refl
  take_short (suc n) (x ∷ xs) h = rw (take_short n xs (omega arith)) refl

  pub length-take-le : (n : ℕ) (xs : List A) → length (take n xs) ≤ n
  length-take-le zero xs = omega arith
  length-take-le (suc n) [] = omega arith
  length-take-le (suc n) (x ∷ xs) = omega (arith, length-take-le n xs)

module _ {A : Type 0} (id_of : A → ℕ) where
  -- No two rows have one id: the primary key.
  abbrev pub IsKeyed : List A → Type 0
  IsKeyed [] = Unit
  IsKeyed (x ∷ xs) = All (λ y. (id_of y == id_of x) ≡ false) xs × IsKeyed xs

  abbrev pub OwnsId : A → A → Type 0
  OwnsId x y = (id_of y == id_of x) ≡ true → y ≡ x

  pub select-IsKeyed : (p : A → Bool) (xs : List A) → IsKeyed xs → IsKeyed (select p xs)
  select-IsKeyed p [] h = tt
  select-IsKeyed p (x ∷ xs) h = elim (Bool-cases (p x)) [
    | inl t ↦
        rw t (All-select (λ y. (id_of y == id_of x) ≡ false) p xs h.0, select-IsKeyed p xs h.1)
    | inr f ↦ rw f (select-IsKeyed p xs h.1)
  ]

  -- A row of the table is the only one with its id.
  pub IsKeyed-OwnsId : (xs : List A) → IsKeyed xs → All (λ x. All (OwnsId x) xs) xs
  IsKeyed-OwnsId [] h = tt
  IsKeyed-OwnsId (x ∷ xs) h = (
    (
      λ _. refl,
      All-map (λ y. (id_of y == id_of x) ≡ false) xs (λ y f t. absurd (ground (arith, f, t))) h.0,
    ),
    both xs h.0 (IsKeyed-OwnsId xs h.1),
  )
    where
      both :
          (ys : List A)
          → All (λ y. (id_of y == id_of x) ≡ false) ys
          → All (λ y. All (OwnsId y) xs) ys
          → All (λ y. All (OwnsId y) (x ∷ xs)) ys
      both [] a b = tt
      both (y ∷ ys) a b = ((λ t. absurd (ground (arith, a.0, t)), b.0), both ys a.1 b.1)

  -- At most one row has an id.
  pub at_most_one : (i : ℕ) (xs : List A) → IsKeyed xs → length (select (λ x. i == id_of x) xs) ≤ 1
  at_most_one i [] h = omega arith
  at_most_one i (x ∷ xs) h = elim (Bool-cases (i == id_of x)) [
    | inl t ↦ rw (t, none_left xs t h.0) (omega arith)
    | inr f ↦ rw f (at_most_one i xs h.1)
  ]
    where
      none_left :
          (ys : List A)
          → (i == id_of x) ≡ true
          → All (λ y. (id_of y == id_of x) ≡ false) ys
          → select (λ y. i == id_of y) ys ≡ []
      none_left [] t a = refl
      none_left (y ∷ ys) t a = ground (arith, t, a.0, none_left ys t a.1)

  pub one_per_id : (i : ℕ) (xs : List A) → IsKeyed xs → length (select (λ x. id_of x == i) xs) ≤ 1
  one_per_id i xs h =
      let same : select (λ x. id_of x == i) xs ≡ select (λ x. i == id_of x) xs =
        select-same _ _ xs (All-every _ xs (λ x. ground arith)) in
      rw same (at_most_one i xs h)

  -- The row that a search by id finds is the only one with that id.
  pub find_only :
      (i : ℕ) (xs : List A) (a : A)
      → IsKeyed xs
      → find (λ x. id_of x == i) xs ≡ some a
      → All (λ x. (id_of x == i) ≡ true → x ≡ a) xs
  find_only i [] a h e = tt
  find_only i (x ∷ xs) a h e = elim (Bool-cases (id_of x == i)) [
    | inl t ↦
        (λ _. ground (arith, e, t), All-map _ xs (λ y d u. absurd (ground (arith, d, t, u))) h.0)
    | inr f ↦ (λ u. absurd (ground (arith, f, u)), find_only i xs a h.1 (ground (arith, e, f)))
  ]

module _ {A : Type 0} (f p : A → Bool) where
  pub length-select-without :
      (xs : List A)
      → length (select f xs) ≤ length (select f (select (λ x. not (p x)) xs)) + length (select p xs)
  length-select-without [] = omega arith
  length-select-without (x ∷ xs) = ground (arith, length-select-without xs)

  pub any_of_positive : (xs : List A) → 1 ≤ length (select f xs) → any f xs ≡ true
  any_of_positive [] h = absurd (omega (arith, h))
  any_of_positive (x ∷ xs) h = ground (arith, h, any_of_positive xs)

  -- Members that one test finds are still found without those that the other takes, if it takes none of them.
  pub any-without :
      (xs : List A)
      → All (λ x. p x ≡ true → f x ≡ false) xs
      → any f xs ≡ true
      → any f (select (λ x. not (p x)) xs) ≡ true
  any-without [] h e = e
  any-without (x ∷ xs) h e = ground (arith, h.0, e, any-without xs h.1)

  -- An update leaves the rows that it does not touch.
  pub any-update_without :
      (g : A → A) (xs : List A)
      → any f (select (λ x. not (p x)) xs) ≡ true
      → any f (update p g xs) ≡ true
  any-update_without g [] e = e
  any-update_without g (x ∷ xs) e = ground (arith, e, any-update_without g xs)

  pub any-update_keeps :
      (g : A → A) (xs : List A)
      → ((x : A) → f x ≡ true → f (g x) ≡ true)
      → any f xs ≡ true
      → any f (update p g xs) ≡ true
  any-update_keeps g [] k e = e
  any-update_keeps g (x ∷ xs) k e = ground (arith, e, k x, any-update_keeps g xs k)

  -- A test that none of the taken rows passes selects the same rows without them, and after an update of them.
  pub select-without :
      (xs : List A)
      → All (λ x. p x ≡ true → f x ≡ false) xs
      → select f (select (λ x. not (p x)) xs) ≡ select f xs
  select-without [] h = refl
  select-without (x ∷ xs) h = ground (arith, h.0, select-without xs h.1)

  pub select-update :
      (g : A → A) (xs : List A)
      → All (λ x. p x ≡ true → (f x ≡ false) × (f (g x) ≡ false)) xs
      → select f (update p g xs) ≡ select f xs
  select-update g [] h = refl
  select-update g (x ∷ xs) h = elim (Bool-cases (p x)) [
    | inl t ↦ let (a, b) = h.0 t in rw (t, a, b) (select-update g xs h.1)
    | inr n ↦ ground (arith, n, select-update g xs h.1)
  ]

module _ {A : Type 0} (id_of : A → ℕ) (p : A → Bool) (g : A → A)
    (same : (x : A) → id_of (g x) ≡ id_of x) where
  updated_apart :
      (i : ℕ) (xs : List A)
      → All (λ y. (id_of y == i) ≡ false) xs
      → All (λ y. (id_of y == i) ≡ false) (update p g xs)
  updated_apart i [] h = tt
  updated_apart i (x ∷ xs) h = (ground (arith, h.0, same x), updated_apart i xs h.1)

  pub update-IsKeyed : (xs : List A) → IsKeyed id_of xs → IsKeyed id_of (update p g xs)
  update-IsKeyed [] h = tt
  update-IsKeyed (x ∷ xs) h = (
    updated_apart (id_of (if p x then g x else x)) xs
        (elim (Bool-cases (p x)) [ inl t ↦ rw (t, same x) h.0 | inr n ↦ rw n h.0 ]),
    update-IsKeyed xs h.1,
  )
