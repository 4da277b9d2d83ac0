-- ===== src/Limits/Source/Runs.antt =====
-- What the limiter lets through over any run of calls, for one source among others.
use logingestor.Prelude.{
  ◌∙◌, ℕ, ◌+◌, ◌-◌, ◌*◌, ◌≤◌, ◌<◌, Bool, true, false, none, some, List, [], ◌∷◌, arith, All, ◌≡◌,
  refl, ◌==◌, if◌then◌else◌, Bool-cases, inl, inr,
}
use logingestor.Prelude.Int.{ℤ, pos}
use logingestor.Prelude.Clock.{Time, second}
use logingestor.Limits.Source.{Bucket, Buckets, bucket_of, refill, entry_of, charge, allow_n}
use logingestor.Limits.Source.Bounds.{
  taken, refill_le, spend_le, left_by, charge_here, allow_n-isolated,
}

-- One call of `AllowN`.
pub record Attempt : Type 0 where
  pub key : ℕ
  pub rate : ℤ
  pub burst : ℤ
  pub n : ℕ
  pub at : Time

abbrev pub answer : Attempt → Buckets → (Bool × ℕ) × Buckets
answer c bs = allow_n c.key c.rate c.burst c.n c.at bs

-- The events of one source that a run of calls lets through.
unfoldable pub admitted : ℕ → List Attempt → Buckets → ℕ
admitted id [] bs = 0
admitted id (c ∷ cs) bs =
    let rest = admitted id cs (answer c bs).1 in
    if c.key == id then taken (answer c bs).0.0 c.n + rest else rest

-- A call for the source carries its limits and is made between the two instants.
abbrev pub IsFor : ℕ → ℕ → ℕ → Time → Time → Attempt → Type 0
IsFor id rate burst start end c =
    c.key ≡ id → (c.rate ≡ pos rate) × (c.burst ≡ pos burst) × (start ≤ c.at) × (c.at ≤ end)

-- What a source can still spend until an instant, in billionths of an event.
abbrev budget : ℕ → Time → Bucket → ℕ
budget rate end b = b.tokens + rate * (end - b.last)

left_by_le :
    (id rate cap need now end : ℕ) (bs : Buckets)
    → now ≤ end
    → taken (left_by id rate cap need now bs).0.0 need
        + budget rate end (left_by id rate cap need now bs).1
      ≤ budget rate end (entry_of id cap now (bucket_of id bs))
left_by_le id rate cap need now end bs h =
    let b = entry_of id cap now (bucket_of id bs) in
    let (spent, same) = spend_le rate need (refill rate cap now b) in
    let filled = refill_le rate cap now end b h in rw same (omega (arith, spent, filled))

taken_mul : (a : Bool) (n : ℕ) → taken a n * second ≡ taken a (n * second)
taken_mul true n = refl
taken_mul false n = refl

-- A call for a throttled source is a charge.
pub allow_n_charges :
    (id rate burst n now : ℕ) (bs : Buckets)
    → 0 < rate
    → 0 < burst
    → allow_n id (pos rate) (pos burst) n now bs
      ≡ charge id rate (burst * second) (n * second) now bs
unfolding allow_n
allow_n_charges id rate burst n now bs p q = ground arith

-- What one call of the source takes is taken out of its budget.
own_call :
    (id rate burst n now end : ℕ) (bs : Buckets)
    → 0 < rate
    → 0 < burst
    → now ≤ end
    → let r = allow_n id (pos rate) (pos burst) n now bs in
      (b : Bucket) × (bucket_of id r.1 ≡ some b)
      × (taken r.0.0 n * second + budget rate end b
          ≤ budget rate end (entry_of id (burst * second) now (bucket_of id bs)))
own_call id rate burst n now end bs p q h =
    let (here, same) = charge_here id rate (burst * second) (n * second) now bs in
    (
      (left_by id rate (burst * second) (n * second) now bs).1,
      rw (allow_n_charges id rate burst n now bs p q) here,
      rw (allow_n_charges id rate burst n now bs p q, same, taken_mul)
          (left_by_le id rate (burst * second) (n * second) now end bs h),
    )

module _ (id rate burst : ℕ) (start end : Time) (throttled : 0 < rate) (usable : 0 < burst) where
  admitted_from :
      (cs : List Attempt) (bs : Buckets) (b : Bucket)
      → All (IsFor id rate burst start end) cs
      → bucket_of id bs ≡ some b
      → admitted id cs bs * second ≤ budget rate end b
  unfolding admitted
  admitted_from [] bs b h e = omega arith
  admitted_from (c ∷ cs) bs b h e = elim (Bool-cases (c.key == id)) [
    | inl q ↦
        let own : c.key ≡ id = ground arith in
        let (r, u, from, to) = h.0 own in
        let (b', e', paid) = own_call id rate burst c.n c.at end bs throttled usable to in
        let next = admitted_from cs (allow_n id (pos rate) (pos burst) c.n c.at bs).1 b' h.1 e' in
        rw q (rw (own, r, u) (omega (arith, next, (rw e at paid))))
    | inr q ↦ rw q (
        admitted_from cs (answer c bs).1 b h.1
          (allow_n-isolated c.key id c.rate c.burst c.n c.at bs (ground arith) ∙ e))
  ]

mul_sub_le : (r a b c : ℕ) → a ≤ b → r * (c - b) ≤ r * (c - a)
mul_sub_le r a b c h = grind arith

-- The promise of the limiter: a source whose bucket does not exist yet gets no more events through
-- between two instants than its burst and what its rate allows for the time between them (in
-- billionths of an event), whatever calls of it and of other sources are made there and in any order.
pub admitted_bound :
    (id rate burst : ℕ) (start end : Time) (cs : List Attempt) (bs : Buckets)
    → 0 < rate
    → 0 < burst
    → All (IsFor id rate burst start end) cs
    → bucket_of id bs ≡ none
    → admitted id cs bs * second ≤ burst * second + rate * (end - start)
unfolding admitted
admitted_bound id rate burst start end [] bs p q h e = omega arith
admitted_bound id rate burst start end (c ∷ cs) bs p q h e = elim (Bool-cases (c.key == id)) [
  | inl t ↦
      let own : c.key ≡ id = ground arith in
      let (r, u, from, to) = h.0 own in
      let (b', e', paid) = own_call id rate burst c.n c.at end bs p q to in
      let next = admitted_from id rate burst start end p q cs _ b' h.1 e' in
      rw t
        (rw (own, r, u) (omega (arith, next, (rw e at paid), mul_sub_le rate start c.at end from)))
  | inr t ↦ rw t (
      admitted_bound id rate burst start end cs (answer c bs).1 p q h.1
        (allow_n-isolated c.key id c.rate c.burst c.n c.at bs (ground arith) ∙ e))
]
