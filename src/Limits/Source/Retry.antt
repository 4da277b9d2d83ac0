-- ===== src/Limits/Source/Retry.antt =====
-- What `AllowN` answers to a batch that is larger than the burst.
use logingestor.Prelude.{ℕ, ◌*◌, ◌/◌, ◌≤◌, ◌<◌, false, Option, none, some, arith, ◌≡◌}
use logingestor.Prelude.Int.{pos}
use logingestor.Prelude.Clock.{second}
use logingestor.Limits.Source.{Bucket, Buckets, bucket_of, refill, spend, entry_of, allow_n}
use logingestor.Limits.Source.Bounds.{charge_here}
use logingestor.Limits.Source.Runs.{allow_n_charges}

-- No bucket of a source holds more than its burst.
abbrev pub IsCapped : ℕ → Option Bucket → Type 0
IsCapped cap none = Unit
IsCapped cap (some b) = b.tokens ≤ cap

refill_capped :
    (rate cap now : ℕ) (b : Bucket) → b.tokens ≤ cap → (refill rate cap now b).tokens ≤ cap
unfolding refill
refill_capped rate cap now b h = ground arith

spend_under :
    (rate need cap : ℕ) (b : Bucket)
    → b.tokens ≤ cap
    → cap < need
    → ((spend rate need b).0.0 ≡ false) × ((spend rate need b).1.tokens ≤ cap)
unfolding spend
spend_under rate need cap b h k = ground arith

entry_capped :
    (id cap now : ℕ) (o : Option Bucket) → IsCapped cap o → (entry_of id cap now o).tokens ≤ cap
entry_capped id cap now none h = omega arith
entry_capped id cap now (some b) h = h

-- A batch of more events than the burst is refused at every time, however long its sender waits, and
-- leaves the source where the same holds again.
pub oversized_refused :
    (id rate burst n now : ℕ) (bs : Buckets)
    → 0 < rate
    → 0 < burst
    → burst < n
    → IsCapped (burst * second) (bucket_of id bs)
    → let r = allow_n id (pos rate) (pos burst) n now bs in
      (r.0.0 ≡ false) × IsCapped (burst * second) (bucket_of id r.1)
oversized_refused id rate burst n now bs p q over h =
    let (here, same) = charge_here id rate (burst * second) (n * second) now bs in
    let (refused, kept) =
      spend_under rate (n * second) (burst * second) _
        (refill_capped rate (burst * second) now _
          (entry_capped id (burst * second) now (bucket_of id bs) h))
        (omega arith) in
    rw (allow_n_charges id rate burst n now bs p q, same, here) (refused, kept)

-- `k` is more than `d / r`, so `k` refills pay for `d`.
pub enough : (d r k : ℕ) → 0 < r → d / r < k → d ≤ k * r
enough d r k p h = grind arith
