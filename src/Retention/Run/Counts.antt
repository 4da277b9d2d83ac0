-- ===== src/Retention/Run/Counts.antt =====
-- What a pass counts and what it takes, by source type.
use logingestor.Prelude.{
  ap, if◌then◌else◌, [], ◌∷◌, ◌⊎◌, ◌∷◌, ℕ, ◌+◌, ◌≡◌, refl, Bool, true, false, Option, List, select,
  length, arith, Option-cases, inl, inr,
}
use logingestor.Prelude.Int.{ℤ, pos, ◌≤ℤ◌}
use logingestor.Prelude.Clock.{Time}
use logingestor.Prelude.Rows.{IsKeyed}
use logingestor.Retention.Model.{
  same_type, SourceType, app, infra, Config, RunResult, LogRow, Tables, RetentionEnv,
}
use logingestor.Retention.Batches.{Purged}
use logingestor.Retention.Purge.{in_pass, is_expired, Pass, log_id, purge}
use logingestor.Retention.Purge.Whole.{purge-Spares, purge-splits}
use logingestor.Retention.Run.{counted}

abbrev pub deleted_of : SourceType → RunResult → ℕ
deleted_of app res = res.app_deleted
deleted_of infra res = res.infra_deleted

abbrev pub has_type : SourceType → LogRow → Bool
has_type t r = same_type r.source_type t

abbrev pub rows_of : SourceType → Tables → ℕ
rows_of t w = length (select (has_type t) w.logs)

-- A pass adds what it deleted to the count of its own type.
pub counted_deleted :
    (s t : SourceType) (res : RunResult) (x : Purged × Tables)
    → deleted_of s (counted t res x).0.0
      ≡ deleted_of s res + (if same_type s t then x.0.deleted else 0)
counted_deleted app app res (o, u) = elim (Option-cases o.failure) [
  | inl e ↦ rw e (omega arith)
  | inr (f, e) ↦ rw e (omega arith)
]
counted_deleted app infra res (o, u) = elim (Option-cases o.failure) [
  | inl e ↦ rw e (omega arith)
  | inr (f, e) ↦ rw e (omega arith)
]
counted_deleted infra app res (o, u) = elim (Option-cases o.failure) [
  | inl e ↦ rw e (omega arith)
  | inr (f, e) ↦ rw e (omega arith)
]
counted_deleted infra infra res (o, u) = elim (Option-cases o.failure) [
  | inl e ↦ rw e (omega arith)
  | inr (f, e) ↦ rw e (omega arith)
]

rows_split : (w : Tables) → rows_of app w + rows_of infra w ≡ length w.logs
rows_split w = split w.logs
  where
    typed : (t : SourceType) → (t ≡ app) ⊎ (t ≡ infra)
    typed app = inl refl
    typed infra = inr refl

    split :
        (rows : List LogRow)
        → length (select (has_type app) rows) + length (select (has_type infra) rows) ≡ length rows
    split [] = refl
    split (r ∷ rows) = elim (typed r.source_type) [
      | inl t ↦ rw t (omega (arith, split rows))
      | inr t ↦ rw t (omega (arith, split rows))
    ]

same_type_join :
    (r t s : SourceType) → same_type r t ≡ true → same_type t s ≡ false → same_type r s ≡ false
same_type_join app app infra a b = refl
same_type_join infra infra app a b = refl
same_type_join app app app a b = absurd (ground arith)
same_type_join infra infra infra a b = absurd (ground arith)
same_type_join app infra s a b = absurd (ground arith)
same_type_join infra app s a b = absurd (ground arith)

-- A pass takes the rows that it deletes from those of its type.
pub purge_takes :
    (env : RetentionEnv) (cfg : Config) (p : Pass) (days : ℤ) (sized : pos 1 ≤ℤ cfg.batch_size)
    (spent : ℕ) (deadline : Option Time) (u : Tables) (keyed : IsKeyed log_id u.logs)
    (s : SourceType)
    → (let x = purge env cfg p days spent deadline u in
        rows_of s x.1 + (if same_type s p.source_type then x.0.deleted else 0) ≡ rows_of s u)
unfolding is_expired in_pass
purge_takes env cfg p days sized spent deadline u keyed s = taken s p.source_type refl
  where
    x : Purged × Tables
    x = purge env cfg p days spent deadline u

    spared : (s : SourceType) → same_type p.source_type s ≡ false → rows_of s x.1 ≡ rows_of s u
    spared s other =
        ap length
          (purge-Spares env cfg p days sized spent deadline u keyed (has_type s)
            (λ r e. ground (arith, e, other, same_type_join r.source_type p.source_type s))).1

    total_of : length x.1.logs + x.0.deleted ≡ length u.logs
    total_of = purge-splits env cfg p days sized spent deadline u keyed

    taken :
        (s t : SourceType)
        → p.source_type ≡ t
        → rows_of s x.1 + (if same_type s t then x.0.deleted else 0) ≡ rows_of s u
    taken app app e =
        omega (arith, total_of, rows_split x.1, rows_split u, spared infra (rw e refl))
    taken infra infra e =
        omega (arith, total_of, rows_split x.1, rows_split u, spared app (rw e refl))
    taken app infra e = omega (arith, spared app (rw e refl))
    taken infra app e = omega (arith, spared infra (rw e refl))
