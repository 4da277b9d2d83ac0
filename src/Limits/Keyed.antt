-- ===== src/Limits/Keyed.antt =====
-- business/sdk/ratelimit/ratelimit.go: `Policy`, `Limiter`, `Allow` and `sweep`.
-- A policy's numbers and a cost are whole tokens; tokens are counted exactly, in units of a minute's
-- nanoseconds to the token, so a nanosecond at a rate of `r` a minute adds `r` units. The entries of
-- the map and their refill are those of Limits/Source.antt, which the code writes out a second time.
pub mod Sweep
pub mod Entries
use logingestor.Prelude.{
  ℕ, ◌+◌, ◌-◌, ◌*◌, ◌/◌, suc, min, max, Bool, true, false, Option, none, some, List, [], select,
  leb, if◌then◌else◌,
}
use logingestor.Prelude.Int.{ℤ, pos, negsuc, pos_part, leb_ℤ, ltb_ℤ, sub_ℕ}
use logingestor.Prelude.Clock.{Time, Duration, second, minute, sub_time}
use logingestor.Limits.Source.{Bucket, Buckets, bucket_of, refill, entry_of, store_entry}

pub record Policy : Type 0 where
  pub per_minute : ℤ
  pub burst : ℤ

unfoldable pub with_defaults : Policy → Policy
with_defaults p = if leb_ℤ p.burst (pos 0) then record p { burst = p.per_minute } else p

pub record Decision : Type 0 where
  pub allowed : Bool
  pub remaining : ℤ
  pub retry_after : Duration
  pub reset_after : Duration

pub record Limiter : Type 0 where
  pub buckets : Buckets
  pub idle : ℕ
  pub swept : Time

abbrev pub default_idle : ℕ
default_idle = 30 * minute

unfoldable pub new_limiter : Limiter
new_limiter = record { buckets = []; idle = default_idle; swept = 0 }

-- A bucket that was touched inside the idle time stays.
unfoldable pub sweep : Time → Limiter → Limiter
sweep now l = if ltb_ℤ (sub_time now l.swept) (pos l.idle) then l else record l {
  buckets = select (λ (b : Bucket). leb_ℤ (sub_time now b.last) (pos l.idle)) l.buckets;
  swept = now;
}

-- A conversion to `time.Duration` cuts towards zero.
abbrev cut : ℤ → ℕ → ℤ
cut (pos n) r = pos (n / r)
cut (negsuc n) r = sub_ℕ 0 (suc n / r)

unfoldable pub decide : ℕ → ℕ → ℕ → Bucket → Decision × Bucket
decide rate cap cost b =
    if leb cost b.tokens
    then (
      record {
        allowed = true;
        remaining = pos ((b.tokens - cost) / minute);
        retry_after = pos 0;
        reset_after = cut (sub_ℕ cap (b.tokens - cost)) rate;
      },
      record b { tokens = b.tokens - cost },
    )
    else (
      record {
        allowed = false;
        remaining = pos 0;
        retry_after = pos (max ((cost - b.tokens) / rate) second);
        reset_after = cut (sub_ℕ cap b.tokens) rate;
      },
      b,
    )

unfoldable pub charge_key : ℕ → ℕ → ℕ → ℕ → Time → Limiter → Decision × Limiter
charge_key key rate cap cost now l =
    let o = bucket_of key l.buckets in
    let (d, b) = decide rate cap (min cost cap) (refill rate cap now (entry_of key cap now o)) in
    (d, record l { buckets = store_entry key b o l.buckets })

unfoldable pub at_least_one : ℤ → ℕ
at_least_one cost = if leb_ℤ cost (pos 0) then 1 else pos_part cost

unfoldable pub allow : ℕ → Policy → ℤ → Time → Limiter → Decision × Limiter
allow key policy cost now l =
    let p = with_defaults policy in
    if leb_ℤ p.per_minute (pos 0)
    then (
      record { allowed = true; remaining = negsuc 0; retry_after = pos 0; reset_after = pos 0 },
      l,
    )
    else charge_key key (pos_part p.per_minute) (pos_part p.burst * minute)
        (at_least_one cost * minute) now (sweep now l)
