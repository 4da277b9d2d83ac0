-- ===== src/Retention/Purge/Stats.antt =====
-- The hourly rollup as a function of its key, and what the repair makes of it.
use logingestor.Prelude.{
  ℕ, suc, ◌≡◌, ◌↔◌, refl, ◌∙◌, ap, Bool, true, false, not, ◌||◌, List, [], ◌∷◌, select, any, length,
  if◌then◌else◌, arith, Bool-cases, inl, inr,
}
use logingestor.Prelude.Text.{text_eq_iff}
use logingestor.Retention.Model.{SourceType, app, infra, same_type, LogRow, StatKey}
use logingestor.Retention.Purge.{key_of_row, same_key, put_stat, group_rows, upsert_stats}

-- The count of a key: a missing row counts nothing.
unfoldable pub stat_of : StatKey → List (StatKey × ℕ) → ℕ
stat_of k [] = 0
stat_of k ((j, c) ∷ stats) = if same_key j k then c else stat_of k stats

-- The rows of the table that the key stands for.
abbrev pub counts_for : StatKey → LogRow → Bool
counts_for k r = same_key (key_of_row r) k

abbrev pub count_of : StatKey → List LogRow → ℕ
count_of k logs = length (select (counts_for k) logs)

-- The rollup agrees with the table at every key.
abbrev pub AgreesWith : List LogRow → List (StatKey × ℕ) → Type 0
AgreesWith logs stats = (k : StatKey) → stat_of k stats ≡ count_of k logs

same_type_iff : (s t : SourceType) → (same_type s t ≡ true) ↔ (s ≡ t)
same_type_iff app app = ground arith
same_type_iff app infra = ground arith
same_type_iff infra app = ground arith
same_type_iff infra infra = ground arith

pub same_key_sound : (j k : StatKey) → same_key j k ≡ true → j ≡ k
unfolding same_key
same_key_sound j k h = ground (
  arith,
  h,
  same_type_iff j.source_type k.source_type,
  text_eq_iff j.source k.source,
  text_eq_iff j.level k.level,
)

pub same_key_refl : (k : StatKey) → same_key k k ≡ true
unfolding same_key
same_key_refl k = ground (
  arith,
  same_type_iff k.source_type k.source_type,
  text_eq_iff k.source k.source,
  text_eq_iff k.level k.level,
)

abbrev pub is_key : StatKey → StatKey × ℕ → Bool
is_key k (j, c) = same_key j k

unstored :
    (k : StatKey) (stats : List (StatKey × ℕ)) → any (is_key k) stats ≡ false → stat_of k stats ≡ 0
unfolding stat_of
unstored k [] h = refl
unstored k ((j, c) ∷ stats) h = ground (arith, h, unstored k stats)

same_row : (i j k : StatKey) → same_key i j ≡ true → same_key i k ≡ same_key j k
same_row i j k t = ap (λ h. same_key h k) (same_key_sound i j t)

apart : (i j k : StatKey) → same_key i j ≡ false → same_key i k ≡ true → same_key j k ≡ false
apart i j k d t = elim (Bool-cases (same_key j k)) [
  | inl u ↦
      let as_k : i ≡ k = same_key_sound i k t in
      let as_j : j ≡ k = same_key_sound j k u in
      absurd (ground (arith, d, ap (λ h. same_key h j) as_k, ap (same_key k) as_j, same_key_refl k))
  | inr f ↦ f
]

-- What a stored key reads as after an update that takes a missing count to the inserted one.
stat_of-put_stat :
    (j k : StatKey) (f : ℕ → ℕ) (n : ℕ) (stats : List (StatKey × ℕ))
    → f 0 ≡ n
    → stat_of k (put_stat j f n stats)
      ≡ (if same_key j k then f (stat_of k stats) else stat_of k stats)
unfolding stat_of put_stat
stat_of-put_stat j k f n [] e = rw e refl
stat_of-put_stat j k f n ((i, c) ∷ stats) e = elim (Bool-cases (same_key i j)) [
  | inl t ↦ let same : same_key i k ≡ same_key j k = same_row i j k t in ground (arith, t, same)
  | inr d ↦ ground (arith, d, apart i j k d, stat_of-put_stat j k f n stats e)
]

any-put_stat :
    (j k : StatKey) (f : ℕ → ℕ) (n : ℕ) (stats : List (StatKey × ℕ))
    → any (is_key k) (put_stat j f n stats) ≡ (same_key j k || any (is_key k) stats)
unfolding put_stat
any-put_stat j k f n [] = refl
any-put_stat j k f n ((i, c) ∷ stats) = elim (Bool-cases (same_key i j)) [
  | inl t ↦ let same : same_key i k ≡ same_key j k = same_row i j k t in ground (arith, t, same)
  | inr d ↦ ground (arith, d, any-put_stat j k f n stats)
]

pub stat_of-group_rows :
    (k : StatKey) (rs : List LogRow) → stat_of k (group_rows rs) ≡ count_of k rs
unfolding group_rows stat_of
stat_of-group_rows k [] = refl
stat_of-group_rows k (r ∷ rs) =
    stat_of-put_stat (key_of_row r) k (λ c. suc c) 1 (group_rows rs) refl
    ∙ ground (arith, stat_of-group_rows k rs)

pub any-group_rows :
    (k : StatKey) (rs : List LogRow) → any (is_key k) (group_rows rs) ≡ any (counts_for k) rs
unfolding group_rows
any-group_rows k [] = refl
any-group_rows k (r ∷ rs) =
    any-put_stat (key_of_row r) k (λ c. suc c) 1 (group_rows rs)
    ∙ ground (arith, any-group_rows k rs)

pub stat_of-upsert_stats :
    (k : StatKey) (gs stats : List (StatKey × ℕ))
    → stat_of k (upsert_stats gs stats)
      ≡ (if any (is_key k) gs then stat_of k gs else stat_of k stats)
unfolding upsert_stats stat_of
stat_of-upsert_stats k [] stats = refl
stat_of-upsert_stats k ((j, n) ∷ gs) stats =
    stat_of-put_stat j k (λ _. n) n (upsert_stats gs stats) refl
    ∙ ground (arith, stat_of-upsert_stats k gs stats)

-- Dropping rows by a test on their keys.
pub stat_of-select :
    (k : StatKey) (g : StatKey → Bool) (stats : List (StatKey × ℕ))
    → stat_of k (select (λ s. not (g s.0)) stats) ≡ (if g k then 0 else stat_of k stats)
unfolding stat_of
stat_of-select k g [] = ground arith
stat_of-select k g ((j, c) ∷ stats) = elim (Bool-cases (same_key j k)) [
  | inl t ↦
      let same : j ≡ k = same_key_sound j k t in
      let same_test : g j ≡ g k = ap g same in
      ground (arith, t, same_test, stat_of-select k g stats)
  | inr f ↦ ground (arith, f, stat_of-select k g stats)
]
