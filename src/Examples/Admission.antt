-- ===== src/Examples/Admission.antt =====
-- Instances of the theorems on the token buckets and the levels.
use logingestor.Prelude.{◌≡◌, refl, ◌≤◌, ◌*◌, ◌+◌, ◌-◌, false, [], ◌∷◌, arith}
use logingestor.Prelude.Int.{pos}
use logingestor.Prelude.Clock.{sub_time, second, minute, hour}
use logingestor.Limits.Source.{spend, refill, charge, Bucket, bucket_of, allow_n}
use logingestor.Limits.Source.Runs.{Attempt, admitted, admitted_bound}
use logingestor.Limits.Source.Retry.{IsCapped, oversized_refused}
use logingestor.Limits.Keyed.{Limiter, allow, charge_key, at_least_one, default_idle}
use logingestor.Limits.Keyed.Sweep.{sweep_unseen}

-- Two batches of a source that may send ten events a second, with bursts of twenty.
abbrev first_call : Attempt
first_call = record { key = 1; rate = pos 10; burst = pos 20; n = 15; at = 0 }

abbrev second_call : Attempt
second_call = record first_call { at = second }

admitted_bound_example :
    admitted 1 (first_call ∷ second_call ∷ []) [] * second ≤ 20 * second + 10 * (second - 0)
admitted_bound_example =
    admitted_bound 1 10 20 0 second (first_call ∷ second_call ∷ []) [] (omega arith) (omega arith)
      (
        λ own. (refl, refl, omega arith, omega arith),
        (λ own. (refl, refl, omega arith, omega arith), tt),
      )
      refl

-- The source has spent its burst.
abbrev empty_bucket : Bucket
empty_bucket = record { key = 1; tokens = 0; last = 0 }

told_to_wait : (allow_n 1 (pos 10) (pos 20) 15 0 (empty_bucket ∷ [])).0 ≡ (false, 1500000000)
unfolding allow_n charge refill spend sub_time
told_to_wait = refl

oversized_refused_example :
    ((allow_n 1 (pos 10) (pos 20) 21 hour (empty_bucket ∷ [])).0.0 ≡ false)
    × IsCapped
        (20 * second)
        (bucket_of 1 (allow_n 1 (pos 10) (pos 20) 21 hour (empty_bucket ∷ [])).1)
oversized_refused_example =
    oversized_refused 1 10 20 21 hour (empty_bucket ∷ []) (omega arith) (omega arith) (omega arith)
      (omega arith)

abbrev keyed : Limiter
keyed = record { buckets = empty_bucket ∷ []; idle = default_idle; swept = 0 }

sweep_unseen_example :
    (allow 1 (record { per_minute = pos 60; burst = pos 100 }) (pos 5) hour keyed).0
    ≡ (charge_key 1 60 (100 * minute) (at_least_one (pos 5) * minute) hour keyed).0
sweep_unseen_example =
    sweep_unseen 1 60 100 (pos 5) hour keyed (omega arith) (omega arith) (omega arith) (refl, tt)
      refl
