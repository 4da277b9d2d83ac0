-- ===== src/ClientErrors/Listings/Pages.antt =====
-- A client that follows the tokens sees the whole listing.
use logingestor.Prelude.{
  leb, ℕ, zero, suc, ◌≤◌, ◌<◌, ◌≡◌, refl, ap, ◌∙◌, true, false, Option, none, some, List, [], ◌∷◌,
  ◌++◌, All, select, take, length, ◌==◌, arith, Bool-cases, inl, inr,
}
use logingestor.Prelude.Int.{ℤ, pos, negsuc}
use logingestor.ClientErrors.Model.{Issue}
use logingestor.ClientErrors.Scrub.{drop}
use logingestor.ClientErrors.World.{Facet}
use logingestor.ClientErrors.Listings.{
  Cursor, IssueFilter, page_limit, selects, below, cursor_of, after_cursor, last_of, next_cursor,
  listed, query_issues,
}
use logingestor.ClientErrors.Listings.Keyset.{
  select-IsOrdered, All-last_of, All-take, below_trans, select_narrow, All-selected, IsOrdered,
  IsApart, select-IsApart, order_desc-IsOrdered, select-below_last,
}

-- The pages that a client reads one after another, at most `n` of them.
abbrev next_page : (Option Cursor → List Issue) → Option Cursor → List Issue
next_page more none = []
next_page more (some c) = more (some c)

unfoldable pub follow : ℕ → IssueFilter → Option Cursor → List Facet → List Issue → List Issue
follow zero f c facets is = []
follow (suc n) f c facets is =
    (query_issues f c facets is).0
    ++ next_page (λ c'. follow n f c' facets is) (query_issues f c facets is).1

page_limit_positive : (z : ℤ) → (n : ℕ) × (page_limit z ≡ suc n)
unfolding page_limit
page_limit_positive (negsuc n) = (24, refl)
page_limit_positive (pos zero) = (24, refl)
page_limit_positive (pos (suc n)) = elim (Bool-cases (leb (suc n) 100)) [
  | inl q ↦ (n, rw q refl)
  | inr q ↦ (24, rw q refl)
]

take-drop : (n : ℕ) (is : List Issue) → take n is ++ drop n is ≡ is
take-drop zero is = refl
take-drop (suc n) [] = refl
take-drop (suc n) (i ∷ is) = ap (λ js. i ∷ js) (take-drop n is)

length-drop_le : (n : ℕ) (is : List Issue) → length (drop n is) ≤ length is
length-drop_le zero is = omega arith
length-drop_le (suc n) [] = omega arith
length-drop_le (suc n) (i ∷ is) = omega (arith, length-drop_le n is)

short_take : (n : ℕ) (is : List Issue) → (length (take n is) == n) ≡ false → take n is ++ [] ≡ is
short_take zero is h = absurd (ground arith)
short_take (suc n) [] h = refl
short_take (suc n) (i ∷ is) h = ap (λ js. i ∷ js) (short_take n is (ground (arith, h)))

module _ (f : IssueFilter) (facets : List Facet) (is : List Issue) where
  abbrev key : Issue → Cursor
  key i = cursor_of f.sort facets i

  abbrev rows_after : Option Cursor → List Issue
  rows_after c = after_cursor key c (listed f facets is)

  abbrev Within : Option Cursor → Issue → Type 0
  Within none j = Unit
  Within (some d) j = below (key j) d ≡ true

  All-none : (js : List Issue) → All (Within none) js
  All-none [] = tt
  All-none (j ∷ js) = (tt, All-none js)

  rows_after-Within : (c : Option Cursor) → All (Within c) (rows_after c)
  unfolding after_cursor
  rows_after-Within none = All-none (rows_after none)
  rows_after-Within (some d) = All-selected (λ j. below (key j) d) (listed f facets is)

  -- The token of a row that is in reach leads to what is below the row.
  rows_after_token :
      (c : Option Cursor) (j : Issue)
      → Within c j
      → rows_after (some (key j)) ≡ select (λ i. below (key i) (key j)) (rows_after c)
  unfolding after_cursor
  rows_after_token none j h = refl
  rows_after_token (some d) j h =
      select_narrow (λ i. below (key i) d) (λ i. below (key i) (key j)) (listed f facets is)
        (λ i b. below_trans (key i) (key j) d b h)

  rows_after-IsOrdered :
      (c : Option Cursor) → IsOrdered key (listed f facets is) → IsOrdered key (rows_after c)
  unfolding after_cursor
  rows_after-IsOrdered none h = h
  rows_after-IsOrdered (some d) h =
      select-IsOrdered key (λ j. below (key j) d) (listed f facets is) h

  follow_step :
      (n m : ℕ) (c : Option Cursor) (ys : List Issue)
      → rows_after c ≡ ys
      → page_limit f.limit ≡ suc m
      → follow (suc n) f c facets is
        ≡ take (suc m) ys
          ++ next_page (λ c'. follow n f c' facets is) (next_cursor key (suc m) (take (suc m) ys))
  unfolding follow query_issues
  follow_step n m c ys e l = rw (e, l) refl

  keyed : (i : Issue) → (key i).id ≡ i.id
  unfolding cursor_of
  keyed i = refl

  full_page :
      (m : ℕ) (c : Option Cursor) (i : Issue) (js : List Issue)
      → rows_after c ≡ i ∷ js
      → IsOrdered key (listed f facets is)
      → rows_after (some (key (last_of i (take m js)))) ≡ drop m js
  full_page m c i js e o =
      let within : All (Within c) (i ∷ js) = rw e at (rows_after-Within c) in
      let ordered : IsOrdered key (i ∷ js) = rw e at (rows_after-IsOrdered c o) in
      rows_after_token c (last_of i (take m js))
        (All-last_of (Within c) i (take m js) within.0 (All-take (Within c) m js within.1))
      ∙ (rw e (select-below_last key keyed m i js ordered))

  follow_page :
      (n m : ℕ) (c : Option Cursor) (ys : List Issue)
      → ((c' : Option Cursor)
          → length (rows_after c') < n
          → follow n f c' facets is ≡ rows_after c')
      → rows_after c ≡ ys
      → IsOrdered key (listed f facets is)
      → length ys < suc n
      → take (suc m) ys
          ++ next_page (λ c'. follow n f c' facets is) (next_cursor key (suc m) (take (suc m) ys))
        ≡ ys
  follow_page n m c [] more e o b = refl
  follow_page n m c (i ∷ js) more e o b =
      elim (Bool-cases (length (take (suc m) (i ∷ js)) == suc m)) [
        | inr q ↦ rw q (short_take (suc m) (i ∷ js) q)
        | inl q ↦
            let token : Option Cursor = some (key (last_of i (take m js))) in
            let rest : rows_after token ≡ drop m js = full_page m c i js e o in
            rw (q, more token (rw rest (omega (arith, b, length-drop_le m js))), rest)
              (take-drop (suc m) (i ∷ js))
      ]

  follow_from :
      (n : ℕ) (c : Option Cursor)
      → IsOrdered key (listed f facets is)
      → length (rows_after c) < n
      → follow n f c facets is ≡ rows_after c
  follow_from zero c o b = absurd (omega (arith, b))
  follow_from (suc n) c o b =
      let (m, l) = page_limit_positive f.limit in
      follow_step n m c (rows_after c) refl l
      ∙ follow_page n m c (rows_after c) (λ c' h. follow_from n c' o h) refl o b

  -- In a table with one row to an id that does not change, a client that follows the tokens from the
  -- first page reads, page after page, exactly the ordered list of the issues that the filter selects,
  -- if it may read more pages than that list has issues.
  pub follow_pages :
      (n : ℕ)
      → IsApart is
      → length (listed f facets is) < n
      → follow n f none facets is ≡ listed f facets is
  unfolding after_cursor
  follow_pages n h b =
      follow_from n none
        (order_desc-IsOrdered key keyed (select (selects f facets) is)
          (select-IsApart (selects f facets) is h))
        b
