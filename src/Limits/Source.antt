-- ===== src/Limits/Source.antt =====
-- business/sdk/ingest/limiter.go: `Limiter` and `AllowN`.
-- Tokens are counted exactly, in units of a billionth of a token, where the code has a float64: a
-- nanosecond at a rate of `r` a second adds `r` units. The mutex makes each call one step.
pub mod Bounds
pub mod Runs
pub mod Retry
use logingestor.Prelude.{
  ℕ, ◌+◌, ◌-◌, ◌*◌, ◌/◌, min, max, Bool, true, false, ◌||◌, Option, none, some, List, [], ◌∷◌, find,
  update, ◌==◌, leb, if◌then◌else◌,
}
use logingestor.Prelude.Int.{ℤ, pos, pos_part, leb_ℤ}
use logingestor.Prelude.Clock.{Time, second, sub_time}

pub record Bucket : Type 0 where
  pub key : ℕ
  pub tokens : ℕ
  pub last : Time

-- `limiter.buckets`: the entries of the map.
abbrev pub Buckets : Type 0
Buckets = List Bucket

abbrev pub is_for : ℕ → Bucket → Bool
is_for id b = b.key == id

abbrev pub bucket_of : ℕ → Buckets → Option Bucket
bucket_of id bs = find (is_for id) bs

-- `elapsed*rate`, where time has passed.
unfoldable pub refill : ℕ → ℕ → Time → Bucket → Bucket
refill rate cap now b = if leb_ℤ (sub_time now b.last) (pos 0) then b else record b {
  tokens = min cap (b.tokens + pos_part (sub_time now b.last) * rate);
  last = now;
}

-- The answer, and the time to wait where it is no.
unfoldable pub spend : ℕ → ℕ → Bucket → (Bool × ℕ) × Bucket
spend rate need b =
    if leb need b.tokens
    then ((true, 0), record b { tokens = b.tokens - need })
    else ((false, max ((need - b.tokens) / rate) second), b)

-- The entry that a call works on: made full where the source has none.
abbrev pub entry_of : ℕ → ℕ → Time → Option Bucket → Bucket
entry_of id cap now none = record { key = id; tokens = cap; last = now }
entry_of id cap now (some b) = b

-- The pointer to the entry is in the map, so the write is seen there.
abbrev pub store_entry : ℕ → Bucket → Option Bucket → Buckets → Buckets
store_entry id b none bs = b ∷ bs
store_entry id b (some old) bs = update (is_for id) (λ x. b) bs

unfoldable pub charge : ℕ → ℕ → ℕ → ℕ → Time → Buckets → (Bool × ℕ) × Buckets
charge id rate cap need now bs =
    let o = bucket_of id bs in
    let (answer, b) = spend rate need (refill rate cap now (entry_of id cap now o)) in
    (answer, store_entry id b o bs)

unfoldable pub allow_n : ℕ → ℤ → ℤ → ℕ → Time → Buckets → (Bool × ℕ) × Buckets
allow_n id rate burst n now bs =
    if leb_ℤ rate (pos 0) || leb_ℤ burst (pos 0)
    then ((true, 0), bs)
    else charge id (pos_part rate) (pos_part burst * second) (n * second) now bs
