-- ===== src/ClientErrors/Listings/Keyset.antt =====
-- A list in the order of the pages, and what is below its rows.
use logingestor.Prelude.{
  ℕ, zero, suc, ◌≡◌, ◌≢◌, refl, Bool, true, false, List, [], ◌∷◌, All, All-map, All-select, select,
  take, arith, Bool-cases, inl, inr,
}
use logingestor.ClientErrors.Model.{Issue}
use logingestor.ClientErrors.Scrub.{drop}
use logingestor.ClientErrors.Listings.{Cursor, below, insert_desc, order_desc, last_of}

pub below_trans : (a b c : Cursor) → below a b ≡ true → below b c ≡ true → below a c ≡ true
unfolding below
below_trans a b c h k = ground (arith, h, k)

below_asym : (a b : Cursor) → below a b ≡ true → below b a ≡ false
unfolding below
below_asym a b h = ground (arith, h)

below_irreflexive : (a : Cursor) → below a a ≡ false
unfolding below
below_irreflexive a = ground arith

below_total : (a b : Cursor) → a.id ≢ b.id → below a b ≡ false → below b a ≡ true
unfolding below
below_total a b d h = ground (arith, d, h)

-- Selecting by a narrower test may go through a wider one.
pub select_narrow :
    (p q : Issue → Bool) (is : List Issue)
    → ((i : Issue) → q i ≡ true → p i ≡ true)
    → select q is ≡ select q (select p is)
select_narrow p q [] h = refl
select_narrow p q (i ∷ is) h = ground (arith, h i, select_narrow p q is h)

select_every : (p : Issue → Bool) (is : List Issue) → All (λ i. p i ≡ true) is → select p is ≡ is
select_every p [] h = refl
select_every p (i ∷ is) h = rw (h.0, select_every p is h.1) refl

pub All-selected : (p : Issue → Bool) (is : List Issue) → All (λ i. p i ≡ true) (select p is)
All-selected p [] = tt
All-selected p (i ∷ is) = elim (Bool-cases (p i)) [
  | inl q ↦ rw q (q, All-selected p is)
  | inr q ↦ rw q (All-selected p is)
]

abbrev IsBelow : (Issue → Cursor) → Issue → Issue → Type 0
IsBelow key i j = below (key j) (key i) ≡ true

abbrev pub IsOrdered : (Issue → Cursor) → List Issue → Type 0
IsOrdered key [] = Unit
IsOrdered key (i ∷ is) = All (IsBelow key i) is × IsOrdered key is

-- One row to an id: the primary key.
abbrev pub IsApart : List Issue → Type 0
IsApart [] = Unit
IsApart (i ∷ is) = All (λ (j : Issue). j.id ≢ i.id) is × IsApart is

pub select-IsApart : (p : Issue → Bool) (is : List Issue) → IsApart is → IsApart (select p is)
select-IsApart p [] h = tt
select-IsApart p (i ∷ is) h = elim (Bool-cases (p i)) [
  | inl q ↦ rw q (All-select _ p is h.0, select-IsApart p is h.1)
  | inr q ↦ rw q (select-IsApart p is h.1)
]

pub select-IsOrdered :
    (key : Issue → Cursor) (p : Issue → Bool) (is : List Issue)
    → IsOrdered key is
    → IsOrdered key (select p is)
select-IsOrdered key p [] h = tt
select-IsOrdered key p (i ∷ is) h = elim (Bool-cases (p i)) [
  | inl q ↦ rw q (All-select (IsBelow key i) p is h.0, select-IsOrdered key p is h.1)
  | inr q ↦ rw q (select-IsOrdered key p is h.1)
]

pub All-last_of :
    (P : Issue → Type 0) (i : Issue) (is : List Issue) → P i → All P is → P (last_of i is)
All-last_of P i [] h k = h
All-last_of P i (j ∷ js) h k = All-last_of P j js k.0 k.1

pub All-take : (P : Issue → Type 0) (n : ℕ) (is : List Issue) → All P is → All P (take n is)
All-take P zero is h = tt
All-take P (suc n) [] h = tt
All-take P (suc n) (i ∷ is) h = (h.0, All-take P n is h.1)

module _ (key : Issue → Cursor) (keyed : (i : Issue) → (key i).id ≡ i.id) where
  All-insert_desc :
      (P : Issue → Type 0) (i : Issue) (is : List Issue)
      → P i
      → All P is
      → All P (insert_desc key i is)
  unfolding insert_desc
  All-insert_desc P i [] h k = (h, tt)
  All-insert_desc P i (j ∷ js) h k = elim (Bool-cases (below (key j) (key i))) [
    | inl q ↦ rw q (h, k)
    | inr q ↦ rw q (k.0, All-insert_desc P i js h k.1)
  ]

  All-order_desc : (P : Issue → Type 0) (is : List Issue) → All P is → All P (order_desc key is)
  unfolding order_desc
  All-order_desc P [] h = tt
  All-order_desc P (i ∷ is) h =
      All-insert_desc P i (order_desc key is) h.0 (All-order_desc P is h.1)

  insert_desc-IsOrdered :
      (i : Issue) (is : List Issue)
      → All (λ (j : Issue). j.id ≢ i.id) is
      → IsOrdered key is
      → IsOrdered key (insert_desc key i is)
  unfolding insert_desc
  insert_desc-IsOrdered i [] d h = (tt, tt)
  insert_desc-IsOrdered i (j ∷ js) d h = elim (Bool-cases (below (key j) (key i))) [
    | inl q ↦
        rw q
          ((q, All-map (IsBelow key j) js (λ z b. below_trans (key z) (key j) (key i) b q) h.0), h)
    | inr q ↦ rw q (
      All-insert_desc (IsBelow key j) i js
          (below_total (key j) (key i) (ground (arith, d.0, keyed i, keyed j)) q) h.0,
      insert_desc-IsOrdered i js d.1 h.1,
    )
  ]

  pub order_desc-IsOrdered : (is : List Issue) → IsApart is → IsOrdered key (order_desc key is)
  unfolding order_desc
  order_desc-IsOrdered [] h = tt
  order_desc-IsOrdered (i ∷ is) h =
      insert_desc-IsOrdered i (order_desc key is) (All-order_desc _ is h.0)
        (order_desc-IsOrdered is h.1)

  -- What is below the last row of a page is what follows the page.
  pub select-below_last :
      (n : ℕ) (i : Issue) (is : List Issue)
      → IsOrdered key (i ∷ is)
      → select (λ j. below (key j) (key (last_of i (take n is)))) (i ∷ is) ≡ drop n is
  select-below_last zero i is h =
      rw (below_irreflexive (key i), select_every (λ j. below (key j) (key i)) is h.0) refl
  select-below_last (suc n) i [] h = rw (below_irreflexive (key i)) refl
  select-below_last (suc n) i (j ∷ js) h =
      rw
        (below_asym (key (last_of j (take n js))) (key i)
          (All-last_of (IsBelow key i) j (take n js) h.0.0 (All-take (IsBelow key i) n js h.0.1)))
        (select-below_last n j js h.1)
