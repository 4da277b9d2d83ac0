-- ===== src/Limits/Keyed/Sweep.antt =====
-- What dropping idle buckets changes, and that no cost is refused for good.
use logingestor.Prelude.{
  ap, find_passes, sym, ◌∙◌, find, ◌==◌, ℕ, ◌+◌, ◌-◌, ◌*◌, ◌/◌, ◌≤◌, ◌<◌, min, Bool, true, false,
  Option, none, some, [], ◌∷◌, select, arith, ◌≡◌, refl, inl, inr, if◌then◌else◌, Bool-cases,
}
use logingestor.Prelude.Int.{ℤ, pos, leb_ℤ, ltb_ℤ, pos_part, max_int64}
use logingestor.Prelude.Clock.{Time, minute, sub_time}
use logingestor.Limits.Source.{Bucket, Buckets, bucket_of, is_for, refill, entry_of}
use logingestor.Limits.Source.Retry.{enough}
use logingestor.Limits.Keyed.{
  at_least_one, with_defaults, Limiter, Decision, default_idle, sweep, decide, charge_key, allow,
}

-- One entry to a key.
abbrev pub IsMap : Buckets → Type 0
IsMap [] = Unit
IsMap (b ∷ bs) = (bucket_of b.key bs ≡ none) × IsMap bs

abbrev kept : (Bucket → Bool) → Option Bucket → Option Bucket
kept p none = none
kept p (some b) = if p b then some b else none

pub find-select-none :
    (p q : Bucket → Bool) (bs : Buckets) → find p bs ≡ none → find p (select q bs) ≡ none
find-select-none p q [] h = refl
find-select-none p q (b ∷ bs) h = ground (arith, find-select-none p q bs)

bucket_of-select :
    (key : ℕ) (p : Bucket → Bool) (bs : Buckets)
    → IsMap bs
    → bucket_of key (select p bs) ≡ kept p (bucket_of key bs)
bucket_of-select key p [] h = refl
bucket_of-select key p (b ∷ bs) (first, rest) = elim (Bool-cases (b.key == key)) [
  | inl q ↦
      let same : b.key ≡ key = ground arith in
      let gone = find-select-none (is_for key) p bs (rw same at first) in
      rw q (ground (arith, gone))
  | inr q ↦ rw q (ground (arith, bucket_of-select key p bs rest))
]

-- The decision of a call depends on the entry after its refill.
abbrev ready : ℕ → ℕ → ℕ → Time → Buckets → Bucket
ready key rate cap now bs = refill rate cap now (entry_of key cap now (bucket_of key bs))

mul_le : (a b r : ℕ) → a < b → a * r ≤ b * r
mul_le a b r h = grind arith

refill_idle :
    (rate cap now : ℕ) (b : Bucket)
    → cap ≤ default_idle * rate
    → leb_ℤ (sub_time now b.last) (pos default_idle) ≡ false
    → refill rate cap now b ≡ record { key = b.key; tokens = cap; last = now }
unfolding refill
refill_idle rate cap now b fits idle =
    ground (arith, mul_le default_idle (pos_part (sub_time now b.last)) rate)

refill_new :
    (key rate cap now : ℕ)
    → refill rate cap now (entry_of key cap now none)
      ≡ record { key = key; tokens = cap; last = now }
unfolding refill sub_time
refill_new key rate cap now = ground arith

ready-kept :
    (key rate cap now : ℕ) (o : Option Bucket)
    → cap ≤ default_idle * rate
    → ((b : Bucket) → o ≡ some b → b.key ≡ key)
    → refill rate cap now
        (entry_of key cap now (kept (λ b. leb_ℤ (sub_time now b.last) (pos default_idle)) o))
      ≡ refill rate cap now (entry_of key cap now o)
ready-kept key rate cap now none fits own = refl
ready-kept key rate cap now (some b) fits own =
    elim (Bool-cases (leb_ℤ (sub_time now b.last) (pos default_idle))) [
      | inl q ↦ rw q
      | inr q ↦
          rw q (
            refill_new key rate cap now ∙ sym (refill_idle rate cap now b fits q ∙ rw (own b refl)))
    ]

ready-sweep :
    (key rate cap now : ℕ) (l : Limiter)
    → IsMap l.buckets
    → l.idle ≡ default_idle
    → cap ≤ default_idle * rate
    → ready key rate cap now (sweep now l).buckets ≡ ready key rate cap now l.buckets
unfolding sweep
ready-sweep key rate cap now l unique idle fits =
    elim (Bool-cases (ltb_ℤ (sub_time now l.swept) (pos l.idle))) [
      | inl q ↦ rw q
      | inr q ↦ rw q (
          rw idle (
            rw (bucket_of-select key _ l.buckets unique) (
              ready-kept key rate cap now (bucket_of key l.buckets) fits
                (λ b e. ground (arith, find_passes (is_for key) l.buckets e)))))
    ]

allow_charges :
    (key rate burst : ℕ) (cost : ℤ) (now : Time) (l : Limiter)
    → 0 < rate
    → 0 < burst
    → allow key (record { per_minute = pos rate; burst = pos burst }) cost now l
      ≡ charge_key key rate (burst * minute) (at_least_one cost * minute) now (sweep now l)
unfolding allow with_defaults
allow_charges key rate burst cost now l p q = ground arith

charge_key_decides :
    (key rate cap cost : ℕ) (now : Time) (l : Limiter)
    → (charge_key key rate cap cost now l).0
      ≡ (decide rate cap (min cost cap) (ready key rate cap now l.buckets)).0
unfolding charge_key
charge_key_decides key rate cap cost now l = refl

-- Sweeping is not seen: for a policy whose burst is at most thirty minutes' worth, a call is decided as
-- if no bucket had been dropped before it, since a bucket that is dropped would have been full again.
pub sweep_unseen :
    (key rate burst : ℕ) (cost : ℤ) (now : Time) (l : Limiter)
    → 0 < rate
    → 0 < burst
    → burst ≤ 30 * rate
    → IsMap l.buckets
    → l.idle ≡ default_idle
    → (allow key (record { per_minute = pos rate; burst = pos burst }) cost now l).0
      ≡ (charge_key key rate (burst * minute) (at_least_one cost * minute) now l).0
sweep_unseen key rate burst cost now l p q fits unique idle =
    let cap = burst * minute in
    let charged = at_least_one cost * minute in
    ap (λ (r : Decision × Limiter). r.0) (allow_charges key rate burst cost now l p q)
    ∙ charge_key_decides key rate cap charged now (sweep now l)
    ∙ ap (λ b. (decide rate cap (min charged cap) b).0)
        (ready-sweep key rate cap now l unique idle (omega (arith, fits)))
    ∙ sym (charge_key_decides key rate cap charged now l)

decide_covers :
    (rate cap cost : ℕ) (b : Bucket)
    → b.tokens ≡ cap
    → (decide rate cap (min cost cap) b).0.allowed ≡ true
unfolding decide
decide_covers rate cap cost b full = ground arith

refill_full :
    (rate cap now : ℕ) (b : Bucket)
    → cap < max_int64
    → 0 < rate
    → b.last + cap / rate < now
    → (refill rate cap now b).tokens ≡ cap
unfolding refill sub_time
refill_full rate cap now b small p late =
    ground (arith, enough cap rate (min (now - b.last) max_int64) p)

-- No cost is refused for good: once a key's bucket has had the time to fill up, a call is allowed
-- whatever it costs, also where the cost is larger than the burst.
allow_after_refill :
    (key rate burst : ℕ) (cost : ℤ) (now : Time) (l : Limiter) (b : Bucket)
    → 0 < rate
    → 0 < burst
    → burst * minute < max_int64
    → bucket_of key (sweep now l).buckets ≡ some b
    → b.last + burst * minute / rate < now
    → (allow key (record { per_minute = pos rate; burst = pos burst }) cost now l).0.allowed ≡ true
allow_after_refill key rate burst cost now l b p q small found late =
    let cap = burst * minute in
    ap (λ (r : Decision × Limiter). r.0.allowed) (allow_charges key rate burst cost now l p q)
    ∙ ap (λ (d : Decision). d.allowed)
        (charge_key_decides key rate cap (at_least_one cost * minute) now (sweep now l))
    ∙ rw found (
        decide_covers rate cap (at_least_one cost * minute) (refill rate cap now b)
          (refill_full rate cap now b small p late))
