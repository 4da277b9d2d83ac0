-- ===== src/Alerting/Queries/History.antt =====
-- What `QueryAlertHistory` answers with.
use logingestor.Prelude.{
  suc, ℕ, zero, suc, ◌≤◌, ◌≡◌, Bool, true, false, List, [], ◌∷◌, arith, All, All-map, select, take,
  length, Bool-cases, inl, inr,
}
use logingestor.Alerting.Model.{AlertEvent}
use logingestor.Alerting.Threshold.{history_limit}
use logingestor.Alerting.Queries.{
  ℤ, insert_by, sort_by, AlertEventFilter, is_selected, is_newer, query_events,
}

-- Each event is newer than the ones after it.
abbrev pub IsNewestFirst : List AlertEvent → Type 0
IsNewestFirst [] = Unit
IsNewestFirst (e ∷ es) = All (λ f. is_newer e f ≡ true) es × IsNewestFirst es

module _ (P : AlertEvent → Type 0) where
  insert-All :
      (e : AlertEvent) (es : List AlertEvent) → P e → All P es → All P (insert_by is_newer e es)
  unfolding insert_by
  insert-All e [] p h = (p, tt)
  insert-All e (f ∷ es) p h = elim (Bool-cases (is_newer e f)) [
    | inl q ↦ rw q (p, h)
    | inr q ↦ rw q (h.0, insert-All e es p h.1)
  ]

  sort-All : (es : List AlertEvent) → All P es → All P (sort_by is_newer es)
  unfolding sort_by
  sort-All [] h = tt
  sort-All (e ∷ es) h = insert-All e (sort_by is_newer es) h.0 (sort-All es h.1)

  take-All : (n : ℕ) (es : List AlertEvent) → All P es → All P (take n es)
  take-All zero es h = tt
  take-All (suc n) [] h = tt
  take-All (suc n) (e ∷ es) h = (h.0, take-All n es h.1)

select-All : (p : AlertEvent → Bool) (es : List AlertEvent) → All (λ e. p e ≡ true) (select p es)
select-All p [] = tt
select-All p (e ∷ es) = elim (Bool-cases (p e)) [
  | inl q ↦ rw q (q, select-All p es)
  | inr q ↦ rw q (select-All p es)
]

is_newer_trans :
    (a b c : AlertEvent) → is_newer a b ≡ true → is_newer b c ≡ true → is_newer a c ≡ true
unfolding is_newer
is_newer_trans a b c h k = ground arith

is_newer_total : (a b : AlertEvent) → is_newer a b ≡ false → is_newer b a ≡ true
unfolding is_newer
is_newer_total a b h = ground arith

insert-IsNewestFirst :
    (e : AlertEvent) (es : List AlertEvent)
    → IsNewestFirst es
    → IsNewestFirst (insert_by is_newer e es)
unfolding insert_by
insert-IsNewestFirst e [] h = (tt, tt)
insert-IsNewestFirst e (f ∷ es) h = elim (Bool-cases (is_newer e f)) [
  | inl q ↦
      rw q ((q, All-map (λ g. is_newer f g ≡ true) es (λ g k. is_newer_trans e f g q k) h.0), h)
  | inr q ↦ rw q (
    insert-All (λ g. is_newer f g ≡ true) e es (is_newer_total e f q) h.0,
    insert-IsNewestFirst e es h.1,
  )
]

sort-IsNewestFirst : (es : List AlertEvent) → IsNewestFirst (sort_by is_newer es)
unfolding sort_by
sort-IsNewestFirst [] = tt
sort-IsNewestFirst (e ∷ es) = insert-IsNewestFirst e (sort_by is_newer es) (sort-IsNewestFirst es)

take-IsNewestFirst : (n : ℕ) (es : List AlertEvent) → IsNewestFirst es → IsNewestFirst (take n es)
take-IsNewestFirst zero es h = tt
take-IsNewestFirst (suc n) [] h = tt
take-IsNewestFirst (suc n) (e ∷ es) h =
    (take-All (λ f. is_newer e f ≡ true) n es h.0, take-IsNewestFirst n es h.1)

length-take-le {ℓ} : {A : Type ℓ} (n : ℕ) (xs : List A) → length (take n xs) ≤ n
length-take-le zero xs = omega arith
length-take-le (suc n) [] = omega arith
length-take-le (suc n) (x ∷ xs) = omega (arith, length-take-le n xs)

history_limit_le : (n : ℤ) → history_limit n ≤ 500
unfolding history_limit
history_limit_le n = ground arith

-- The history of an organization: whatever limit is asked for, at most 500 events come back, each of
-- them passes the filter (which asks for the organization first), and each is newer than the ones
-- after it, by the time it was last seen and then by its id.
query_events_lem :
    (f : AlertEventFilter) (es : List AlertEvent)
    → let answer = query_events f (history_limit f.limit) es in
      (length answer ≤ 500) × All (λ e. is_selected f e ≡ true) answer × IsNewestFirst answer
unfolding query_events
query_events_lem f es =
    let chosen = select (is_selected f) es in
    let n = history_limit f.limit in
    let sorted = sort_by is_newer chosen in
    (
      omega (arith, length-take-le n sorted, history_limit_le f.limit),
      take-All (λ e. is_selected f e ≡ true) n sorted
          (sort-All (λ e. is_selected f e ≡ true) chosen (select-All (is_selected f) es)),
      take-IsNewestFirst n sorted (sort-IsNewestFirst chosen),
    )
