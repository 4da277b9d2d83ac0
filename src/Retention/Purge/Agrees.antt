-- ===== src/Retention/Purge/Agrees.antt =====
-- `repairRollup`: the hourly rollup agrees with the logs again after a purge.
use logingestor.Prelude.{
  ◌∷◌, ◌⊎◌, ℕ, ◌+◌, ◌-◌, ◌%◌, ◌≤◌, ◌<◌, ◌≡◌, refl, sym, ◌∙◌, ap, Bool, true, false, ◌&&◌, none,
  some, List, [], ◌∷◌, any, All-map, length, leb, if◌then◌else◌, arith, Bool-cases, Option-cases,
  inl, inr,
}
use logingestor.Prelude.Clock.{Time, hour}
use logingestor.Retention.Model.{boundary_hour, LogRow, StatKey, Tables}
use logingestor.Retention.Purge.{Pass, in_pass, oldest_of, group_rows, repaired}
use logingestor.Retention.Purge.Stats.{
  stat_of, counts_for, count_of, AgreesWith, stat_of-group_rows, any-group_rows,
  stat_of-upsert_stats, stat_of-select,
}
use logingestor.Retention.Purge.Order.{Ordered}
use logingestor.Retention.Purge.Rollup.{
  key_in_pass, counted_row, oldest_of-none, oldest_of-least, oldest_of_present, none_counted,
  later_boundary, boundary_mono, rebuilt, same_hour, other_hour, hour_holds,
}

module _ (p : Pass) (k : StatKey) where
  -- The repaired count of a key, where nothing of the pass is left and where something is.
  repaired-none :
      (logs : List LogRow) (stats : List (StatKey × ℕ))
      → stat_of k (repaired p none logs stats) ≡ (if key_in_pass p k then 0 else stat_of k stats)
  unfolding repaired
  repaired-none logs stats = stat_of-select k (key_in_pass p) stats

  abbrev drained : Time → Bool
  drained t = key_in_pass p k && leb k.hour_start (boundary_hour t).0

  repaired-some :
      (t : Time) (logs : List LogRow) (stats : List (StatKey × ℕ))
      → stat_of k (repaired p (some t) logs stats) ≡ (
          if any (counts_for k) (rebuilt p k t logs)
          then count_of k (rebuilt p k t logs)
          else if drained t
          then 0
          else stat_of k stats)
  unfolding repaired
  repaired-some t logs stats =
      stat_of-upsert_stats k (group_rows (rebuilt p k t logs)) _
      ∙ rw
          (
            any-group_rows k (rebuilt p k t logs),
            stat_of-group_rows k (rebuilt p k t logs),
            stat_of-select k (λ j. key_in_pass p j && leb j.hour_start (boundary_hour t).0) stats,
          )
          refl

  module _ (w u : Tables) (d : ℕ) (o : Ordered p w d u) (agrees : AgreesWith w.logs w.stats) where
    before_purge : stat_of k u.stats ≡ count_of k w.logs
    before_purge = ap (stat_of k) o.same_stats ∙ agrees k

    -- A key of another pass counts what it did.
    kept_elsewhere : key_in_pass p k ≡ false → stat_of k u.stats ≡ count_of k u.logs
    kept_elsewhere f = before_purge ∙ ap length (sym (o.others (counts_for k) λ r i. elsewhere r i))
      where
        elsewhere : (r : LogRow) → in_pass p r ≡ true → counts_for k r ≡ false
        elsewhere r i = elim (Bool-cases (counts_for k r)) [
          | inl c ↦ absurd (ground (arith, i, f, (counted_row p k r c).0))
          | inr c ↦ c
        ]

    -- A key of the pass counts nothing where no row of the pass is left.
    nothing_left : key_in_pass p k ≡ true → oldest_of p u.logs ≡ none → count_of k u.logs ≡ 0
    nothing_left i e =
        none_counted k u.logs (All-map _ u.logs (λ r f. outside r f i) (oldest_of-none p u.logs e))
      where
        outside :
            (r : LogRow) → in_pass p r ≡ false → key_in_pass p k ≡ true → counts_for k r ≡ false
        outside r f i = elim (Bool-cases (counts_for k r)) [
          | inl c ↦ absurd (ground (arith, f, i, (counted_row p k r c).0))
          | inr c ↦ c
        ]

    -- A key from before the hour of the oldest row counts nothing.
    nothing_before :
        (t : Time)
        → key_in_pass p k ≡ true
        → oldest_of p u.logs ≡ some t
        → k.hour_start < (boundary_hour t).0
        → count_of k u.logs ≡ 0
    unfolding boundary_hour
    nothing_before t i e lt =
        none_counted k u.logs
          (All-map _ u.logs (λ r least. too_late r least i lt) (oldest_of-least p u.logs t e))
      where
        too_late :
            (r : LogRow)
            → (in_pass p r ≡ true → t ≤ r.ts)
            → key_in_pass p k ≡ true
            → k.hour_start < (boundary_hour t).0
            → counts_for k r ≡ false
        too_late r least i lt = elim (Bool-cases (counts_for k r)) [
          | inl c ↦
              let (pass, at) = counted_row p k r c in
              absurd (omega (arith, boundary_mono t r.ts (least (pass ∙ i)), at, lt))
          | inr c ↦ c
        ]

    -- A key from after the hour of the oldest row counts what it did.
    kept_after :
        (t : Time)
        → oldest_of p u.logs ≡ some t
        → (boundary_hour t).0 < k.hour_start
        → stat_of k u.stats ≡ count_of k u.logs
    unfolding boundary_hour
    kept_after t e lt =
        before_purge
        ∙ ap length (
            sym (
              o.younger (t - t % hour + hour) (counts_for k)
                (oldest_of_present p u.logs t _ e (hour_holds t).1)
                (λ r c. omega (
                  arith,
                  later_boundary t r.ts (omega (arith, (counted_row p k r c).1, lt)),
                  hour_holds r.ts,
                ))))

    agrees-some :
        (t : Time)
        → oldest_of p u.logs ≡ some t
        → stat_of k (repaired p (some t) u.logs u.stats) ≡ count_of k u.logs
    agrees-some t e = repaired-some t u.logs u.stats ∙ elim (Bool-cases (key_in_pass p k)) [
      | inr f ↦ ground (arith, f, other_hour p k t u.logs (ground (arith, f)), kept_elsewhere f)
      | inl i ↦ elim (compare-cases k.hour_start (boundary_hour t).0) [
        | inl lt ↦
            let none_read = other_hour p k t u.logs (ground (arith, lt)) in
            ground (arith, i, lt, none_read, nothing_before t i e lt)
        | inr (inl eq) ↦
            let same = same_hour p k t u.logs i (sym eq) in
            elim (Bool-cases (any (counts_for k) (rebuilt p k t u.logs))) [
              | inl found ↦ rw (found, same) refl
              | inr missing ↦
                  let counted : 0 ≡ count_of k u.logs = sym (unread _ missing) ∙ same in
                  ground (arith, i, eq, missing, counted)
            ]
        | inr (inr gt) ↦
            let none_read = other_hour p k t u.logs (ground (arith, gt)) in
            ground (arith, i, gt, none_read, kept_after t e gt)
      ]
    ]
      where
        compare-cases : (a b : ℕ) → (a < b) ⊎ ((a ≡ b) ⊎ (b < a))
        compare-cases a b = ground arith

        unread : (rs : List LogRow) → any (counts_for k) rs ≡ false → count_of k rs ≡ 0
        unread [] h = refl
        unread (r ∷ rs) h = ground (arith, h, unread rs (ground (arith, h)))

    pub repaired-AgreesWith :
        stat_of k (repaired p (oldest_of p u.logs) u.logs u.stats) ≡ count_of k u.logs
    repaired-AgreesWith = elim (Option-cases (oldest_of p u.logs)) [
      | inl e ↦ elim (Bool-cases (key_in_pass p k)) [
        | inl i ↦ rw e (repaired-none u.logs u.stats ∙ ground (arith, i, nothing_left i e))
        | inr f ↦ rw e (repaired-none u.logs u.stats ∙ ground (arith, f, kept_elsewhere f))
      ]
      | inr (t, e) ↦ rw e (agrees-some t e)
    ]
