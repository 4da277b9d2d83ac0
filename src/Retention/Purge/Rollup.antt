-- ===== src/Retention/Purge/Rollup.antt =====
-- The pieces of the repaired rollup: the oldest row, its hour, and the rows that a key stands for.
use logingestor.Prelude.{
  All-map, ◌+◌, ◌-◌, ◌%◌, ◌≤◌, ◌<◌, ◌≡◌, refl, sym, ◌∙◌, ap, Bool, true, false, ◌&&◌, none, some,
  List, [], ◌∷◌, select, any, All, length, min, ◌==◌, arith, Bool-cases, Option-cases, inl, inr,
}
use logingestor.Prelude.Clock.{Time, hour}
use logingestor.Prelude.Rows.{All-every, select-select, All-passes, select-same}
use logingestor.Retention.Model.{same_type, boundary_hour, LogRow, StatKey}
use logingestor.Retention.Purge.{Pass, in_pass, oldest_of, in_hour, key_of_row}
use logingestor.Retention.Purge.Stats.{counts_for, count_of, same_key_sound}
use logingestor.Retention.Purge.Order.{older_than}

-- The keys of a pass.
abbrev pub key_in_pass : Pass → StatKey → Bool
key_in_pass p k = k.project_id == p.project_id && same_type k.source_type p.source_type

-- A row that a key stands for is in the pass of the key, at its hour.
pub counted_row :
    (p : Pass) (k : StatKey) (r : LogRow)
    → counts_for k r ≡ true
    → (in_pass p r ≡ key_in_pass p k) × ((boundary_hour r.ts).0 ≡ k.hour_start)
unfolding in_pass
counted_row p k r h =
    let same : key_of_row r ≡ k = same_key_sound (key_of_row r) k h in
    (ap (key_in_pass p) same, ap (λ (j : StatKey). j.hour_start) same)

-- The oldest row of a pass.
pub oldest_of-none :
    (p : Pass) (rs : List LogRow) → oldest_of p rs ≡ none → All (λ r. in_pass p r ≡ false) rs
unfolding oldest_of
oldest_of-none p [] h = tt
oldest_of-none p (r ∷ rs) h = elim (Bool-cases (in_pass p r)) [
  | inl t ↦ elim (Option-cases (oldest_of p rs)) [
    | inl e ↦ absurd (ground (arith, h, t, e))
    | inr (u, e) ↦ absurd (ground (arith, h, t, e))
  ]
  | inr f ↦ (f, oldest_of-none p rs (ground (arith, h, f)))
]

pub oldest_of-least :
    (p : Pass) (rs : List LogRow) (t : Time)
    → oldest_of p rs ≡ some t
    → All (λ r. in_pass p r ≡ true → t ≤ r.ts) rs
unfolding oldest_of
oldest_of-least p [] t h = absurd (ground (arith, h))
oldest_of-least p (r ∷ rs) t h = elim (Bool-cases (in_pass p r)) [
  | inl i ↦ elim (Option-cases (oldest_of p rs)) [
    | inl e ↦ (
      λ _. ground (arith, h, i, e),
      All-map _ rs (λ s f x. absurd (ground (arith, f, x))) (oldest_of-none p rs e),
    )
    | inr (u, e) ↦
        let least : t ≡ min r.ts u = ground (arith, h, i, e) in
        (
          λ _. omega (arith, least),
          All-map _ rs (λ s f x. omega (arith, least, f x)) (oldest_of-least p rs u e),
        )
  ]
  | inr f ↦ (λ x. absurd (ground (arith, f, x)), oldest_of-least p rs t (ground (arith, h, f)))
]

pub oldest_of_present :
    (p : Pass) (rs : List LogRow) (t u : Time)
    → oldest_of p rs ≡ some t
    → t < u
    → any (older_than p u) rs ≡ true
unfolding oldest_of
oldest_of_present p [] t u h lt = absurd (ground (arith, h))
oldest_of_present p (r ∷ rs) t u h lt = elim (Bool-cases (in_pass p r)) [
  | inl i ↦ elim (Option-cases (oldest_of p rs)) [
    | inl e ↦ ground (arith, h, i, e)
    | inr (v, e) ↦ ground (arith, h, i, e, oldest_of_present p rs v u e)
  ]
  | inr f ↦ ground (arith, f, oldest_of_present p rs t u (ground (arith, h, f)))
]

pub none_counted :
    (k : StatKey) (rs : List LogRow) → All (λ r. counts_for k r ≡ false) rs → count_of k rs ≡ 0
none_counted k [] h = refl
none_counted k (r ∷ rs) h = rw h.0 (none_counted k rs h.1)

-- An instant lies in its hour, and in no other.
pub hour_holds : (x : Time) → (x - x % hour ≤ x) × (x < x - x % hour + hour)
hour_holds x = omega arith

same_boundary :
    (t x : Time) → t - t % hour ≤ x → x < t - t % hour + hour → x - x % hour ≡ t - t % hour
same_boundary t x ge lt = omega arith

pub later_boundary : (t x : Time) → t - t % hour < x - x % hour → t - t % hour + hour ≤ x - x % hour
later_boundary t x h = omega arith

pub boundary_mono : (t x : Time) → t ≤ x → t - t % hour ≤ x - x % hour
boundary_mono t x h = omega arith

-- Rows outside the hour of a key, or outside its pass, are not counted for it.
none_found :
    (k : StatKey) (rs : List LogRow)
    → All (λ r. counts_for k r ≡ false) rs
    → any (counts_for k) rs ≡ false
none_found k [] h = refl
none_found k (r ∷ rs) h = rw h.0 (none_found k rs h.1)

module _ (p : Pass) (k : StatKey) where
  abbrev pub rebuilt : Time → List LogRow → List LogRow
  rebuilt t logs = select (in_hour p (boundary_hour t)) logs

  in_same_hour :
      (t : Time) (r : LogRow)
      → key_in_pass p k ≡ true
      → (boundary_hour t).0 ≡ k.hour_start
      → (counts_for k r && in_hour p (boundary_hour t) r) ≡ counts_for k r
  unfolding boundary_hour
  in_same_hour t r i e = elim (Bool-cases (counts_for k r)) [
    | inl c ↦
        let (pass, at) = counted_row p k r c in
        let in_p : in_pass p r ≡ true = pass ∙ i in
        let start : t - t % hour ≡ r.ts - r.ts % hour = e ∙ sym at in
        let (ge, lt) = hour_holds r.ts in rw (c, in_p) (ground (arith, start, ge, lt))
    | inr c ↦ rw c refl
  ]

  -- A key of the pass at the hour of the oldest row counts the rows that the rebuild reads.
  pub same_hour :
      (t : Time) (logs : List LogRow)
      → key_in_pass p k ≡ true
      → (boundary_hour t).0 ≡ k.hour_start
      → count_of k (rebuilt t logs) ≡ count_of k logs
  same_hour t logs i e = ap length (
      select-select (counts_for k) (in_hour p (boundary_hour t)) logs
      ∙ select-same _ _ logs (All-every _ logs (λ r. in_same_hour t r i e)))

  not_in_hour :
      (t : Time) (r : LogRow)
      → (key_in_pass p k && (boundary_hour t).0 == k.hour_start) ≡ false
      → in_hour p (boundary_hour t) r ≡ true
      → counts_for k r ≡ false
  unfolding boundary_hour
  not_in_hour t r e h = elim (Bool-cases (counts_for k r)) [
    | inl c ↦
        let (pass, at) = counted_row p k r c in
        let start : r.ts - r.ts % hour ≡ t - t % hour =
          same_boundary t r.ts (ground (arith, h)) (ground (arith, h)) in
        absurd (ground (arith, e, h, pass, at, start))
    | inr c ↦ c
  ]

  -- The rebuild reads nothing for any other key.
  pub other_hour :
      (t : Time) (logs : List LogRow)
      → (key_in_pass p k && (boundary_hour t).0 == k.hour_start) ≡ false
      → any (counts_for k) (rebuilt t logs) ≡ false
  other_hour t logs e =
      none_found k _
        (All-map _ _ (λ r. not_in_hour t r e) (All-passes (in_hour p (boundary_hour t)) logs))
