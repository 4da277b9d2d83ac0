-- ===== src/Limits/Source/Bounds.antt =====
-- How much the limiter lets through, over any run of calls.
use logingestor.Prelude.{
  ◌||◌, ◌∙◌, ◌≢◌, find_passes, find-update, ℕ, ◌+◌, ◌-◌, ◌*◌, ◌≤◌, min, Bool, true, false, Option,
  none, some, [], ◌∷◌, arith, ◌≡◌, refl, Bool-cases, Option-cases, inl, inr,
}
use logingestor.Prelude.Int.{ℤ, pos, leb_ℤ, max_int64}
use logingestor.Prelude.Clock.{Time, second, sub_time}
use logingestor.Limits.Source.{
  Bucket, Buckets, bucket_of, is_for, refill, spend, entry_of, store_entry, charge, allow_n,
}

-- What an answer takes.
abbrev pub taken : Bool → ℕ → ℕ
taken true need = need
taken false need = 0

mul_split : (a b r : ℕ) → a * r + r * b ≡ r * (a + b)
mul_split a b r = grind arith

min_mul : (a b r : ℕ) → min a b * r ≤ a * r
min_mul a b r = grind arith

-- Refilling gives no more than the rate allows for the time since the last refill.
pub refill_le :
    (rate cap now end : ℕ) (b : Bucket)
    → now ≤ end
    → (refill rate cap now b).tokens + rate * (end - (refill rate cap now b).last)
      ≤ b.tokens + rate * (end - b.last)
unfolding refill sub_time
refill_le rate cap now end b h =
    ground (arith, mul_split (now - b.last) (end - now) rate, min_mul (now - b.last) max_int64 rate)

pub spend_le :
    (rate need : ℕ) (b : Bucket)
    → ((spend rate need b).1.tokens + taken (spend rate need b).0.0 need ≤ b.tokens)
      × ((spend rate need b).1.last ≡ b.last)
unfolding spend
spend_le rate need b = ground arith

-- The entry that a call leaves for its source.
abbrev pub left_by : ℕ → ℕ → ℕ → ℕ → Time → Buckets → (Bool × ℕ) × Bucket
left_by id rate cap need now bs =
    spend rate need (refill rate cap now (entry_of id cap now (bucket_of id bs)))

pub refill_key : (rate cap now : ℕ) (b : Bucket) → (refill rate cap now b).key ≡ b.key
unfolding refill
refill_key rate cap now b = ground arith

spend_key : (rate need : ℕ) (b : Bucket) → (spend rate need b).1.key ≡ b.key
unfolding spend
spend_key rate need b = ground arith

pub entry_key : (id cap now : ℕ) (bs : Buckets) → (entry_of id cap now (bucket_of id bs)).key ≡ id
entry_key id cap now bs = elim (Option-cases (bucket_of id bs)) [
  | inl q ↦ rw q
  | inr (b, q) ↦ rw q (ground (arith, find_passes (is_for id) bs q))
]

left_by_key :
    (id rate cap need now : ℕ) (bs : Buckets) → (left_by id rate cap need now bs).1.key ≡ id
left_by_key id rate cap need now bs =
    spend_key rate need _ ∙ refill_key rate cap now _ ∙ entry_key id cap now bs

store_entry_here :
    (id : ℕ) (b : Bucket) (bs : Buckets)
    → b.key ≡ id
    → bucket_of id (store_entry id b (bucket_of id bs) bs) ≡ some b
store_entry_here id b bs k = elim (Option-cases (bucket_of id bs)) [
  | inl q ↦ rw q (ground arith)
  | inr (old, q) ↦ rw q (
      find-update (is_for id) (is_for id) (λ x. b) bs (λ x h. ground arith)
      ∙ rw q (ground (arith, find_passes (is_for id) bs q)))
]

store_entry_elsewhere :
    (id other : ℕ) (b : Bucket) (o : Option Bucket) (bs : Buckets)
    → b.key ≡ id
    → other ≢ id
    → bucket_of other (store_entry id b o bs) ≡ bucket_of other bs
store_entry_elsewhere id other b none bs k ne = ground arith
store_entry_elsewhere id other b (some old) [] k ne = refl
store_entry_elsewhere id other b (some old) (x ∷ bs) k ne =
    ground (arith, store_entry_elsewhere id other b (some old) bs k ne)

pub charge_here :
    (id rate cap need now : ℕ) (bs : Buckets)
    → (bucket_of id (charge id rate cap need now bs).1 ≡ some (left_by id rate cap need now bs).1)
      × ((charge id rate cap need now bs).0 ≡ (left_by id rate cap need now bs).0)
unfolding charge
charge_here id rate cap need now bs =
    (store_entry_here id _ bs (left_by_key id rate cap need now bs), refl)

-- A call for one source leaves what every other source has as it is.
pub allow_n-isolated :
    (id other : ℕ) (rate burst : ℤ) (n now : ℕ) (bs : Buckets)
    → other ≢ id
    → bucket_of other (allow_n id rate burst n now bs).1 ≡ bucket_of other bs
unfolding allow_n charge
allow_n-isolated id other rate burst n now bs ne =
    elim (Bool-cases (leb_ℤ rate (pos 0) || leb_ℤ burst (pos 0))) [
      | inl q ↦ rw q
      | inr q ↦
          rw q (store_entry_elsewhere id other _ _ bs (left_by_key id _ _ (n * second) now bs) ne)
    ]
