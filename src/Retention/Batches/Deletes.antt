-- ===== src/Retention/Batches/Deletes.antt =====
-- One batched delete: which rows it takes, how many, and that it takes the oldest first.
use logingestor.Prelude.{
  ap, ◌∙◌, ℕ, ◌+◌, ◌≤◌, ◌<◌, ◌≡◌, refl, sym, Bool, true, false, not, ◌&&◌, ◌||◌, List, [], ◌∷◌, any,
  select, All, All-map, All-select, length, ◌==◌, arith,
}
use logingestor.Prelude.Clock.{Time}
use logingestor.Alerting.Model.{Uuid}
use logingestor.Prelude.Rows.{
  All-both, All-drop, All-every, All-passes, All-take, IsKeyed, IsKeyed-OwnsId, OwnsId, any-All,
  any-select, any-split, at_most_one, drop, length-select-not, length-select-select,
  length-select-take, length-take-le, select-IsKeyed, select-All, select-not, select-same,
  select-select, select_none, take_short,
}
use logingestor.Retention.Batches.{ltb, by_age, among, doomed, delete_oldest}
use logingestor.Retention.Batches.Rows.{
  All-by_age, by_age-IsAged, cut-IsOlder, any-by_age, length-select-by_age,
}

module _ {A : Type 0} (id_of : A → Uuid) where
  length-select-or :
      (f g : A → Bool) (xs : List A)
      → length (select (λ x. f x || g x) xs) ≤ length (select f xs) + length (select g xs)
  length-select-or f g [] = omega arith
  length-select-or f g (x ∷ xs) = ground (arith, length-select-or f g xs)

  -- No more rows have an id of the list than the list has members.
  among-IsBounded :
      (ds xs : List A) → IsKeyed id_of xs → length (select (among id_of ds) xs) ≤ length ds
  among-IsBounded [] xs h =
      rw (select_none (among id_of []) xs (All-every _ xs (λ x. refl))) (omega arith)
  among-IsBounded (d ∷ ds) xs h = omega (
    arith,
    length-select-or (λ x. id_of d == id_of x) (among id_of ds) xs,
    at_most_one id_of (id_of d) xs h,
    among-IsBounded ds xs h,
  )

  among_self : (ds : List A) → All (λ d. among id_of ds d ≡ true) ds
  among_self [] = tt
  among_self (d ∷ ds) = (
    ground arith,
    All-map (λ e. among id_of ds e ≡ true) ds (λ e h. ground (arith, h)) (among_self ds),
  )

  any-select_grows :
      (q p : A → Bool) (x : A) (xs : List A)
      → any q (select p xs) ≡ true
      → any q (select p (x ∷ xs)) ≡ true
  any-select_grows q p x xs h = ground (arith, h)

  among_select :
      (p : A → Bool) (xs : List A) → All (λ x. p x ≡ true → among id_of (select p xs) x ≡ true) xs
  among_select p [] = tt
  among_select p (x ∷ xs) = (
    λ e. ground (arith, e),
    All-map (λ y. p y ≡ true → among id_of (select p xs) y ≡ true) xs
        (λ y h e. any-select_grows (λ d. id_of d == id_of y) p x xs (h e)) (among_select p xs),
  )

module _ {A : Type 0} (id_of : A → Uuid) (at : A → Time) (n : ℕ) (p : A → Bool) where
  -- The rows that a delete takes, and those that it finds and leaves.
  abbrev taken : List A → List A
  taken rows = doomed id_of at n p rows

  abbrev left : List A → List A
  left rows = drop n (by_age at (select p rows))

  All-taken {ℓ} : (P : A → Type ℓ) (rows : List A) → All P rows → All P (taken rows)
  unfolding doomed
  All-taken P rows h = All-take P n _ (All-by_age at P _ (All-select P p rows h))

  All-left {ℓ} : (P : A → Type ℓ) (rows : List A) → All P rows → All P (left rows)
  All-left P rows h = All-drop P n _ (All-by_age at P _ (All-select P p rows h))

  taken_passes : (rows : List A) → All (λ x. p x ≡ true) (taken rows)
  unfolding doomed
  taken_passes rows = All-take _ n _ (All-by_age at _ _ (All-passes p rows))

  -- A row that goes is one that the statement selects.
  gone_passes :
      (rows : List A) (x : A)
      → All (OwnsId id_of x) rows
      → among id_of (taken rows) x ≡ true
      → p x ≡ true
  gone_passes rows x own g =
      let (d, same, (passes, owned)) =
        any-All (λ d. (p d ≡ true) × OwnsId id_of x d) _ _ g
          (All-both _ _ _ (taken_passes rows) (All-taken (OwnsId id_of x) rows own)) in
      let met : d ≡ x = owned same in rw (sym met) passes

  shorter : (rows : List A) → length (taken rows) ≤ n
  unfolding doomed
  shorter rows = length-take-le n (by_age at (select p rows))

  -- A delete takes no more rows than its limit.
  pub delete_oldest-IsBounded :
      (rows : List A) → IsKeyed id_of rows → (delete_oldest id_of at n p rows).0 ≤ n
  unfolding delete_oldest
  delete_oldest-IsBounded rows h =
      omega (arith, among-IsBounded id_of (taken rows) rows h, shorter rows)

  -- Every row goes or stays.
  pub delete_oldest-splits :
      (rows : List A)
      → length (delete_oldest id_of at n p rows).1 + (delete_oldest id_of at n p rows).0
        ≡ length rows
  unfolding delete_oldest
  delete_oldest-splits rows = length-select-not (among id_of (taken rows)) rows

  pub delete_oldest-IsKeyed :
      (rows : List A) → IsKeyed id_of rows → IsKeyed id_of (delete_oldest id_of at n p rows).1
  unfolding delete_oldest
  delete_oldest-IsKeyed rows h = select-IsKeyed id_of _ rows h

  -- Where none goes, the table is as it was.
  pub delete_oldest-none :
      (rows : List A)
      → (delete_oldest id_of at n p rows).0 ≡ 0
      → (delete_oldest id_of at n p rows).1 ≡ rows
  unfolding delete_oldest
  delete_oldest-none rows h = select-not (among id_of (taken rows)) rows h

  -- What is found afterwards was there.
  pub any-delete_oldest :
      (f : A → Bool) (rows : List A)
      → any f (delete_oldest id_of at n p rows).1 ≡ true
      → any f rows ≡ true
  unfolding delete_oldest
  any-delete_oldest f rows h = any-select f _ rows h

  counted : (rows : List A) → length (taken rows) ≤ length (select (among id_of (taken rows)) rows)
  unfolding doomed
  counted rows =
      let g = among id_of (taken rows) in
      let s = by_age at (select p rows) in
      omega (
        arith,
        ap length (select-All g (taken rows) (among_self id_of (taken rows))),
        length-select-take g n s,
        length-select-by_age at g (select p rows),
        length-select-select g p rows,
      )

  taken-All :
      (rows : List A)
      → length (taken rows) < n
      → All (λ x. p x ≡ true → among id_of (taken rows) x ≡ true) rows
  unfolding doomed
  taken-All rows short = rw (take_short n _ short) (
      All-map _ rows (λ x h e. any-by_age at (λ d. id_of d == id_of x) (select p rows) ∙ h e)
        (among_select id_of p rows))

  -- A delete that takes fewer rows than its limit has taken all that it selects.
  pub delete_oldest_drains :
      (rows : List A)
      → IsKeyed id_of rows
      → (delete_oldest id_of at n p rows).0 < n
      → (delete_oldest id_of at n p rows).1 ≡ select (λ x. not (p x)) rows
  unfolding delete_oldest
  delete_oldest_drains rows h short = select-same _ _ rows (
      All-map _ rows (λ x both. agree (p x) (among id_of (taken rows) x) both.0 both.1)
        (All-both _ _ rows
          (All-map _ rows (λ x own. gone_passes rows x own) (IsKeyed-OwnsId id_of rows h))
          (taken-All rows (omega (arith, counted rows, short)))))
    where
      agree : (a b : Bool) → (b ≡ true → a ≡ true) → (a ≡ true → b ≡ true) → not b ≡ not a
      agree true true f g = refl
      agree true false f g = absurd (ground (arith, g refl))
      agree false true f g = absurd (ground (arith, f refl))
      agree false false f g = refl

  unmoved :
      (q : A → Bool) (rows : List A)
      → All (λ x. among id_of (taken rows) x ≡ true → q x ≡ false) rows
      → select q (delete_oldest id_of at n p rows).1 ≡ select q rows
  unfolding delete_oldest
  unmoved q rows spared =
      select-select q (λ x. not (among id_of (taken rows) x)) rows
      ∙ select-same _ q rows
          (All-map _ rows (λ x h. without (among id_of (taken rows) x) (q x) h) spared)
    where
      without : (g b : Bool) → (g ≡ true → b ≡ false) → (b && not g) ≡ b
      without true b h = rw (h refl) refl
      without false true h = refl
      without false false h = refl

  -- A test that no selected row passes selects the same rows afterwards.
  pub delete_oldest_spares :
      (q : A → Bool) (rows : List A)
      → IsKeyed id_of rows
      → All (λ x. p x ≡ true → q x ≡ false) rows
      → select q (delete_oldest id_of at n p rows).1 ≡ select q rows
  delete_oldest_spares q rows h spared = unmoved q rows (
      All-map _ rows (λ x both g. both.0 (gone_passes rows x both.1 g))
        (All-both _ _ rows spared (IsKeyed-OwnsId id_of rows h)))

  abbrev SelectedAmong : List A → A → Type 0
  SelectedAmong rows y = among id_of (select p rows) y ≡ true

  -- What goes is no younger than what is selected and stays.
  older :
      (rows : List A) (x y : A)
      → All (OwnsId id_of x) rows
      → All (OwnsId id_of y) rows
      → SelectedAmong rows y
      → among id_of (taken rows) x ≡ true
      → among id_of (taken rows) y ≡ false
      → at x ≤ at y
  unfolding doomed
  older rows x y own_x own_y selected g stays =
      let s = by_age at (select p rows) in
      let (d, same, (before_left, owned)) =
        any-All (λ d. All (λ e. at d ≤ at e) (left rows) × OwnsId id_of x d) _ _ g
          (All-both _ _ _ (cut-IsOlder at n s (by_age-IsAged at _))
            (All-taken (OwnsId id_of x) rows own_x)) in
      let found : any (λ e. id_of e == id_of y) (left rows) ≡ true = ground (
        arith,
        any-split (λ e. id_of e == id_of y) n s,
        any-by_age at (λ e. id_of e == id_of y) (select p rows),
        selected,
        stays,
      ) in
      let (e, same', (d_older, owned')) =
        any-All (λ e. (at d ≤ at e) × OwnsId id_of y e) _ _ found
          (All-both _ _ _ before_left (All-left (OwnsId id_of y) rows own_y)) in
      let met : d ≡ x = owned same in
      let met' : e ≡ y = owned' same' in rw (sym met, sym met') d_older

  -- Rows go oldest first: while a selected row from before an instant is left, no row from that
  -- instant on has gone.
  pub delete_oldest_first :
      (t : Time) (q : A → Bool) (rows : List A)
      → IsKeyed id_of rows
      → any (λ y. p y && ltb (at y) t) (delete_oldest id_of at n p rows).1 ≡ true
      → All (λ x. q x ≡ true → t ≤ at x) rows
      → select q (delete_oldest id_of at n p rows).1 ≡ select q rows
  unfolding delete_oldest
  delete_oldest_first t q rows h left_over late =
      let own = IsKeyed-OwnsId id_of rows h in
      let g = among id_of (taken rows) in
      let (y, early, (stays, (own_y, selected))) =
        any-All
          (λ y.
            (not (g y) ≡ true) × (All (OwnsId id_of y) rows × (p y ≡ true → SelectedAmong rows y)))
          _ _ left_over
          (All-both _ _ _ (All-passes (λ x. not (g x)) rows) (
            All-select _ (λ x. not (g x)) rows
              (All-both _ _ rows own (among_select id_of p rows)))) in
      let picked : p y ≡ true = ground (arith, early) in
      let young : at y < t = ground (arith, early) in
      let kept : g y ≡ false = ground (arith, stays) in
      unmoved q rows (
        All-map _ rows
          (λ x both gone.
            refuses (q x) (at x) (at y) both.0
              (older rows x y both.1 own_y (selected picked) gone kept) young)
          (All-both _ _ rows late own))
    where
      refuses : (b : Bool) (u v : Time) → (b ≡ true → t ≤ u) → u ≤ v → v < t → b ≡ false
      refuses true u v f le lt = absurd (omega (arith, f refl))
      refuses false u v f le lt = refl
