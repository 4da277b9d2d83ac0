-- ===== src/Retention/Purge/Order.antt =====
-- The loop of `deleteExpired` deletes oldest first, and only rows of its pass.
use logingestor.Prelude.{
  ◌∷◌, ℕ, suc, ◌+◌, ◌≤◌, ◌≡◌, refl, ◌∙◌, Bool, true, false, ◌&&◌, Option, List, [], ◌∷◌, select,
  any, ltb, leb, arith, Bool-cases, inl, inr,
}
use logingestor.Prelude.Int.{pos, ◌≤ℤ◌}
use logingestor.Prelude.Clock.{Time, before}
use logingestor.Prelude.Rows.{All-every, IsKeyed}
use logingestor.Retention.Model.{Config, LogRow, Tables, RetentionEnv}
use logingestor.Retention.Batches.{delete_oldest}
use logingestor.Retention.Batches.Deletes.{
  any-delete_oldest, delete_oldest-none, delete_oldest-IsKeyed, delete_oldest_spares,
  delete_oldest_first,
}
use logingestor.Retention.Purge.{Pass, in_pass, is_expired, log_id, log_ts, delete_expired}
use logingestor.Retention.Purge.Turns.{delete_expired_rule}

-- A row of the pass from before an instant.
abbrev pub older_than : Pass → Time → LogRow → Bool
older_than p t r = in_pass p r && before r.ts t

abbrev pub From : Time → (LogRow → Bool) → Type 0
From t q = (r : LogRow) → q r ≡ true → t ≤ r.ts

-- What the loop keeps of the tables: the rollup, the ids, the order of deletion, the other passes,
-- and all of the logs where it has deleted nothing.
pub record Ordered (p : Pass) (w : Tables) (d : ℕ) (u : Tables) : Type 0 where
  pub keyed : IsKeyed log_id u.logs
  pub same_stats : u.stats ≡ w.stats
  pub untouched : d ≡ 0 → u.logs ≡ w.logs
  pub others :
      (q : LogRow → Bool)
      → ((r : LogRow) → in_pass p r ≡ true → q r ≡ false)
      → select q u.logs ≡ select q w.logs
  pub younger :
      (t : Time) (q : LogRow → Bool)
      → any (older_than p t) u.logs ≡ true
      → From t q
      → select q u.logs ≡ select q w.logs

any-same :
    (f g : LogRow → Bool) (rs : List LogRow) → ((r : LogRow) → f r ≡ g r) → any f rs ≡ any g rs
any-same f g [] h = refl
any-same f g (r ∷ rs) h = rw (h r, any-same f g rs h) refl

expired_in_pass :
    (p : Pass) (cutoff : Time) (r : LogRow) → is_expired p cutoff r ≡ true → in_pass p r ≡ true
unfolding is_expired
expired_in_pass p cutoff r x = ground (arith, x)

is_older :
    (p : Pass) (cutoff t : Time) (r : LogRow)
    → leb t cutoff ≡ true
    → (is_expired p cutoff r && ltb r.ts t) ≡ older_than p t r
unfolding is_expired
is_older p cutoff t r le = ground (arith, le)

live :
    (p : Pass) (cutoff t : Time) (c : Bool) (r : LogRow)
    → leb t cutoff ≡ false
    → (c ≡ true → t ≤ r.ts)
    → is_expired p cutoff r ≡ true
    → c ≡ false
unfolding is_expired
live p cutoff t true r gt f x = absurd (ground (arith, gt, f refl, x))
live p cutoff t false r gt f x = refl

module _ (p : Pass) (cutoff : Time) (b : ℕ) where
  -- One batch: while an older row of the pass is left, the rows from an instant on are all there.
  batch_younger :
      (t : Time) (q : LogRow → Bool) (rows : List LogRow)
      → IsKeyed log_id rows
      → any (older_than p t) (delete_oldest log_id log_ts b (is_expired p cutoff) rows).1 ≡ true
      → From t q
      → select q (delete_oldest log_id log_ts b (is_expired p cutoff) rows).1 ≡ select q rows
  batch_younger t q rows k e h = elim (Bool-cases (leb t cutoff)) [
    | inl le ↦
        delete_oldest_first log_id log_ts b (is_expired p cutoff) t q rows k
          (any-same _ _ _ (λ r. is_older p cutoff t r le) ∙ e) (All-every _ rows h)
    | inr gt ↦
        delete_oldest_spares log_id log_ts b (is_expired p cutoff) q rows k
          (All-every _ rows (λ r x. live p cutoff t (q r) r gt (h r) x))
  ]

  batch-Ordered :
      (w u : Tables) (d : ℕ)
      → Ordered p w d u
      → (let (n, rows) = delete_oldest log_id log_ts b (is_expired p cutoff) u.logs in
          Ordered p w (d + n) (record u { statements = suc u.statements; logs = rows }))
  batch-Ordered w u d o = record {
    keyed = delete_oldest-IsKeyed log_id log_ts b _ u.logs o.keyed;
    same_stats = o.same_stats;
    untouched = λ z.
        delete_oldest-none log_id log_ts b _ u.logs (omega (arith, z))
        ∙ o.untouched (omega (arith, z));
    others = λ q h.
        delete_oldest_spares log_id log_ts b (is_expired p cutoff) q u.logs o.keyed
          (All-every _ u.logs (λ r x. h r (expired_in_pass p cutoff r x)))
        ∙ o.others q h;
    younger = λ t q e h.
        batch_younger t q u.logs o.keyed e h
        ∙ o.younger t q (any-delete_oldest log_id log_ts b _ (older_than p t) u.logs e) h;
  }

module _ (env : RetentionEnv) (cfg : Config) (p : Pass) (cutoff : Time)
    (sized : pos 1 ≤ℤ cfg.batch_size) (spent : ℕ) (deadline : Option Time) (w : Tables)
    (keyed : IsKeyed log_id w.logs) where
  pub delete_expired-Ordered :
      (let (o, u) = delete_expired env cfg p cutoff spent deadline w in Ordered p w o.deleted u)
  delete_expired-Ordered =
      delete_expired_rule env cfg p cutoff sized spent deadline (λ d u. Ordered p w d u)
        (λ o u. Ordered p w o.deleted u)
        (record {
          stops = λ d u o. o;
          breaks = λ d u o. sending d u o;
          drains = λ d b u o e short. batch-Ordered p cutoff b w u d o;
          goes_on = λ d b u o e more. batch-Ordered p cutoff b w u d o;
        })
        w
        (record {
          keyed = keyed;
          same_stats = refl;
          untouched = λ z. refl;
          others = λ q h. refl;
          younger = λ t q e h. refl;
        })
    where
      sending :
          (d : ℕ) (u : Tables)
          → Ordered p w d u
          → Ordered p w d (record u { statements = suc u.statements })
      sending d u o = record {
        keyed = o.keyed;
        same_stats = o.same_stats;
        untouched = o.untouched;
        others = o.others;
        younger = o.younger;
      }
