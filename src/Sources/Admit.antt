-- ===== src/Sources/Admit.antt =====
-- Which sources the middleware lets through.
use mathlib.Core.Path.{subst}
use mathlib.Core.List.{Memᴰ}
use logingestor.Sources.Store.{has_hash, query_by_key_hash}
use logingestor.Prelude.{
  ap, find, [], ◌∷◌, ◌≢◌, ◌&&◌, sym, ◌∙◌, ◌≡◌, Bool, true, false, not, Option, none, some, List,
  arith, Bool-cases, Option-cases, inl, inr,
}
use logingestor.Prelude.Text.{Text, text_eq, text_eq_iff}
use logingestor.Prelude.Clock.{Time}
use logingestor.Prelude.Result.{ok}
use logingestor.Sources.Model.{Source, expired, SourceEnv, find_source, hash_key, has_key_scheme}
use logingestor.Sources.Auth.{
  bearer_token, found_source, check_org, check_source, admit_key, authenticate_source,
}

-- A source that may write now.
pub record MayWrite (env : SourceEnv) (now : Time) (s : Source) : Type 0 where
  pub active : s.is_active ≡ true
  pub current : expired s now ≡ false
  pub enabled : env.org_enabled s.project_id ≡ some true

-- The source is one of the table, and the key that the header presents hashes to its stored hash.
pub record HasKey (env : SourceEnv) (header : Text) (sources : List Source) (s : Source)
    : Type 0 where
  pub raw : Text
  pub presented : bearer_token env header ≡ some raw
  pub stored : Memᴰ s sources
  pub hashed : s.key_hash ≡ hash_key env raw

module _ (env : SourceEnv) (now : Time) (s : Source) where
  check_org_sound :
      (t : Source)
      → check_org (env.org_enabled t.project_id) t ≡ ok s
      → (t ≡ s) × (env.org_enabled t.project_id ≡ some true)
  check_org_sound t e = elim (Option-cases (env.org_enabled t.project_id)) [
    | inl q ↦ absurd (ground (arith, e, q))
    | inr (true, q) ↦ (ground (arith, e, q), q)
    | inr (false, q) ↦ absurd (ground (arith, e, q))
  ]

  abbrev passes : Text → Source → Bool
  passes raw t = text_eq t.key_hash (hash_key env raw) && (t.is_active && not (expired t now))

  check_source_passed :
      (raw : Text) (t : Source)
      → passes raw t ≡ true
      → check_source env now raw (some t) ≡ check_org (env.org_enabled t.project_id) t
  check_source_passed raw t p = ground (arith, p)

  check_source_failed :
      (raw : Text) (t : Source) → passes raw t ≡ false → check_source env now raw (some t) ≢ ok s
  check_source_failed raw t p = ground (arith, p)

  check_source_sound :
      (raw : Text) (o : Option Source)
      → check_source env now raw o ≡ ok s
      → (o ≡ some s) × (s.key_hash ≡ hash_key env raw) × MayWrite env now s
  check_source_sound raw none e = absurd (ground arith)
  check_source_sound raw (some t) e = elim (Bool-cases (passes raw t)) [
    | inr p ↦ absurd (check_source_failed raw t p e)
    | inl p ↦
        let (same, enabled) = check_org_sound t (sym (check_source_passed raw t p) ∙ e) in
        (
          ap (λ x. some x) same,
          ap (λ (x : Source). x.key_hash) (sym same)
              ∙ (text_eq_iff t.key_hash (hash_key env raw)).0 (ground (arith, p)),
          subst (MayWrite env now) same (record {
            active = ground (arith, p);
            current = ground (arith, p);
            enabled = enabled;
          }),
        )
  ]

  find-Memᴰ : (f : Source → Bool) (sources : List Source) → find f sources ≡ some s → Memᴰ s sources
  find-Memᴰ f [] e = absurd (ground arith)
  find-Memᴰ f (t ∷ sources) e = elim (Bool-cases (f t)) [
    | inl q ↦ Memᴰ.head (ground (arith, e, q))
    | inr q ↦ Memᴰ.tail (find-Memᴰ f sources (ground (arith, e, q)))
  ]

  found_source-Memᴰ :
      (raw : Text) (sources : List Source) → found_source env raw sources ≡ some s → Memᴰ s sources
  unfolding query_by_key_hash
  found_source-Memᴰ raw sources e = elim (Bool-cases (env.fails (find_source (hash_key env raw)))) [
    | inl q ↦ absurd (ground (arith, e, q))
    | inr q ↦ find-Memᴰ (has_hash (hash_key env raw)) sources (ground (arith, e, q))
  ]

  admit_key_sound :
      (raw : Text) (sources : List Source)
      → admit_key env now raw sources ≡ ok s
      → Memᴰ s sources × (s.key_hash ≡ hash_key env raw) × MayWrite env now s
  unfolding admit_key
  admit_key_sound raw sources e = elim (Bool-cases (has_key_scheme raw)) [
    | inl q ↦
        let (found, hashed, may) =
          check_source_sound raw (found_source env raw sources) (rw q at e) in
        (found_source-Memᴰ raw sources found, hashed, may)
    | inr q ↦ absurd (ground (arith, e, q))
  ]

  -- A source that is let through is one of the table with the hash of the presented key, active, not past
  -- its expiry, and its organization is enabled.
  pub authenticate_source-MayWrite :
      (header : Text) (sources : List Source)
      → authenticate_source env now header sources ≡ ok s
      → HasKey env header sources s × MayWrite env now s
  unfolding authenticate_source
  authenticate_source-MayWrite header sources e = elim (Option-cases (bearer_token env header)) [
    | inl q ↦ absurd (ground (arith, e, q))
    | inr (raw, q) ↦
        let (stored, hashed, may) = admit_key_sound raw sources (rw q at e) in
        (record { raw = raw; presented = q; stored = stored; hashed = hashed }, may)
  ]
