-- ===== src/Retention/Cutoff.antt =====
-- The cutoff of a pass: what it is, and what the multiplication in `int64` makes of many days.
use logingestor.Prelude.{
  ◌&&◌, ℕ, zero, suc, ◌+◌, ◌-◌, ◌*◌, ◌^◌, ◌≤◌, ◌<◌, ◌≡◌, ◌∙◌, ap, Bool, false, not, none, Option,
  [], select, leb, arith,
}
use logingestor.Prelude.Int.{pos, negsuc, ◌*ℤ◌, wrap64, ◌≤ℤ◌}
use logingestor.Prelude.Clock.{Time, day}
use logingestor.Prelude.Rows.{IsKeyed, All-every, select_none, select-select}
use logingestor.Retention.Model.{
  Config, negated, add_duration, cutoff_of, LogRow, Tables, RetentionEnv,
}
use logingestor.Retention.Purge.{Pass, in_pass, is_expired, log_id, purge}
use logingestor.Retention.Purge.Whole.{purge_drains}

product : (d : ℕ) → 1 ≤ d → negated (pos d) *ℤ pos day ≡ negsuc (d * day - 1)
unfolding ◌*ℤ◌
product d h = ground arith

wrap64_small : (n : ℕ) → n < 2 ^ 63 → wrap64 (negsuc n) ≡ negsuc n
unfolding wrap64
wrap64_small n h = ground (arith, h)

wrap64_over : (n : ℕ) → 2 ^ 63 ≤ n → n < 2 ^ 64 → wrap64 (negsuc n) ≡ pos (2 ^ 64 - 1 - n)
unfolding wrap64
wrap64_over n h k = ground (arith, h, k)

-- Up to 106751 days the cutoff is that many days before now.
pub cutoff_exact : (now d : ℕ) → d ≤ 106_751 → cutoff_of now (pos d) ≡ now - d * day
unfolding cutoff_of ◌*ℤ◌ wrap64
cutoff_exact now zero h = omega arith
cutoff_exact now (suc d) h =
    ap (λ z. add_duration now (wrap64 z)) (product (suc d) (omega arith))
    ∙ ap (add_duration now) (wrap64_small (suc d * day - 1) (omega arith))
    ∙ omega arith

-- From there to 213503 days the product has wrapped around and the cutoff is later than now.
pub cutoff-wraps : (now d : ℕ) → 106_752 ≤ d → d ≤ 213_503 → now < cutoff_of now (pos d)
unfolding cutoff_of
cutoff-wraps now d ge le =
    let far : cutoff_of now (pos d) ≡ now + (2 ^ 64 - 1 - (d * day - 1)) =
      ap (λ z. add_duration now (wrap64 z)) (product d (omega arith))
      ∙ ap (add_duration now) (wrap64_over (d * day - 1) (omega arith) (omega arith)) in
    omega (arith, far)

too_old :
    (p : Pass) (now cutoff : Time) (r : LogRow)
    → now < cutoff
    → (in_pass p r && leb r.ts now && not (is_expired p cutoff r)) ≡ false
unfolding is_expired
too_old p now cutoff r h = ground (arith, h)

-- A purge for 106752 to 213503 days that reports neither a failure nor an early stop leaves no row of its
-- pass from now or before, for a batch size of at least one and one row to an id.
pub purge-wraps :
    (env : RetentionEnv) (cfg : Config) (p : Pass) (d spent : ℕ) (deadline : Option Time)
    (w : Tables)
    → 106_752 ≤ d
    → d ≤ 213_503
    → pos 1 ≤ℤ cfg.batch_size
    → IsKeyed log_id w.logs
    → (purge env cfg p (pos d) spent deadline w).0.failure ≡ none
    → (purge env cfg p (pos d) spent deadline w).0.incomplete ≡ false
    → select
        (λ r. in_pass p r && leb r.ts (env.now w.statements))
        (purge env cfg p (pos d) spent deadline w).1.logs
      ≡ []
purge-wraps env cfg p d spent deadline w ge le sized keyed done whole =
    ap (select recent) (purge_drains env cfg p (pos d) sized spent deadline w keyed done whole)
    ∙ select-select recent (λ r. not (is_expired p (cutoff_of now (pos d)) r)) w.logs
    ∙ select_none _ w.logs (All-every _ w.logs expired_too)
  where
    now : Time
    now = env.now w.statements

    recent : LogRow → Bool
    recent r = in_pass p r && leb r.ts now

    expired_too : (r : LogRow) → (recent r && not (is_expired p (cutoff_of now (pos d)) r)) ≡ false
    expired_too r = too_old p now (cutoff_of now (pos d)) r (cutoff-wraps now d ge le)
