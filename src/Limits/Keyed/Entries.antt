-- ===== src/Limits/Keyed/Entries.antt =====
-- The map of the keyed limiter: one entry to a key, whatever calls are made.
use logingestor.Prelude.{
  ◌∙◌, ℕ, Bool, none, [], ◌∷◌, select, update, min, arith, ◌≡◌, refl, inl, inr, ◌==◌, Bool-cases,
  Option-cases,
}
use logingestor.Prelude.Int.{ℤ, pos, leb_ℤ, ltb_ℤ}
use logingestor.Prelude.Clock.{Time, sub_time}
use logingestor.Limits.Source.{Bucket, Buckets, bucket_of, is_for, refill, entry_of, store_entry}
use logingestor.Limits.Source.Bounds.{entry_key, refill_key}
use logingestor.Limits.Keyed.{
  default_idle, Limiter, Policy, new_limiter, sweep, decide, charge_key, with_defaults, allow,
}
use logingestor.Limits.Keyed.Sweep.{IsMap, find-select-none}

select-IsMap : (p : Bucket → Bool) (bs : Buckets) → IsMap bs → IsMap (select p bs)
select-IsMap p [] h = tt
select-IsMap p (b ∷ bs) h = elim (Bool-cases (p b)) [
  | inl q ↦ rw q (find-select-none (is_for b.key) p bs h.0, select-IsMap p bs h.1)
  | inr q ↦ rw q (select-IsMap p bs h.1)
]

-- A replacement that keeps its key is found where the entry was, and nowhere else.
update-absent :
    (id k : ℕ) (b : Bucket) (bs : Buckets)
    → b.key ≡ id
    → bucket_of k bs ≡ none
    → bucket_of k (update (is_for id) (λ x. b) bs) ≡ none
update-absent id k b [] own h = refl
update-absent id k b (x ∷ bs) own h = ground (arith, update-absent id k b bs own)

update-IsMap :
    (id : ℕ) (b : Bucket) (bs : Buckets)
    → b.key ≡ id
    → IsMap bs
    → IsMap (update (is_for id) (λ x. b) bs)
update-IsMap id b [] own h = tt
update-IsMap id b (x ∷ bs) own h = elim (Bool-cases (x.key == id)) [
  | inl q ↦
      let same : b.key ≡ x.key = ground arith in
      rw q (rw same (update-absent id x.key b bs own h.0), update-IsMap id b bs own h.1)
  | inr q ↦ rw q (update-absent id x.key b bs own h.0, update-IsMap id b bs own h.1)
]

store_entry-IsMap :
    (id : ℕ) (b : Bucket) (bs : Buckets)
    → b.key ≡ id
    → IsMap bs
    → IsMap (store_entry id b (bucket_of id bs) bs)
store_entry-IsMap id b bs own h = elim (Option-cases (bucket_of id bs)) [
  | inl q ↦ rw q (rw own q, h)
  | inr (old, q) ↦ rw q (update-IsMap id b bs own h)
]

decide_key : (rate cap cost : ℕ) (b : Bucket) → (decide rate cap cost b).1.key ≡ b.key
unfolding decide
decide_key rate cap cost b = ground arith

charge_key-IsMap :
    (key rate cap cost : ℕ) (now : Time) (l : Limiter)
    → IsMap l.buckets
    → IsMap (charge_key key rate cap cost now l).1.buckets
unfolding charge_key
charge_key-IsMap key rate cap cost now l h =
    let entry = entry_of key cap now (bucket_of key l.buckets) in
    store_entry-IsMap key _ l.buckets
      (decide_key rate cap (min cost cap) (refill rate cap now entry)
        ∙ refill_key rate cap now entry
        ∙ entry_key key cap now l.buckets)
      h

sweep-IsMap : (now : Time) (l : Limiter) → IsMap l.buckets → IsMap (sweep now l).buckets
unfolding sweep
sweep-IsMap now l h = elim (Bool-cases (ltb_ℤ (sub_time now l.swept) (pos l.idle))) [
  | inl q ↦ rw q h
  | inr q ↦ rw q (select-IsMap _ l.buckets h)
]

allow-IsMap :
    (key : ℕ) (policy : Policy) (cost : ℤ) (now : Time) (l : Limiter)
    → IsMap l.buckets
    → IsMap (allow key policy cost now l).1.buckets
unfolding allow
allow-IsMap key policy cost now l h =
    elim (Bool-cases (leb_ℤ (with_defaults policy).per_minute (pos 0))) [
      | inl q ↦ rw q h
      | inr q ↦ rw q (charge_key-IsMap key _ _ _ now (sweep now l) (sweep-IsMap now l h))
    ]

-- The limiters that calls of `Allow` lead to, from a new one.
pub data IsReached : Limiter → Type 0 where
  starts : IsReached new_limiter
  calls :
      {l : Limiter} (key : ℕ) (policy : Policy) (cost : ℤ) (now : Time)
      → IsReached l
      → IsReached (allow key policy cost now l).1

allow_idle :
    (key : ℕ) (policy : Policy) (cost : ℤ) (now : Time) (l : Limiter)
    → (allow key policy cost now l).1.idle ≡ l.idle
unfolding allow charge_key sweep
allow_idle key policy cost now l = ground arith

-- Whatever calls were made of a limiter, with any keys, policies, costs and times, it has one bucket to
-- a key and the idle time that it was made with.
IsReached-IsMap : (l : Limiter) → IsReached l → IsMap l.buckets × (l.idle ≡ default_idle)
unfolding new_limiter
IsReached-IsMap l starts = (tt, refl)
IsReached-IsMap l (calls {l = l'} key policy cost now r) =
    let (unique, idle) = IsReached-IsMap l' r in
    (allow-IsMap key policy cost now l' unique, allow_idle key policy cost now l' ∙ idle)
