-- ===== src/Sources/Rotate.antt =====
-- What rotating the key of a source does to the old key and to the new one.
use logingestor.Prelude.{
  ap, ◌≡◌, refl, sym, ◌∙◌, Bool, true, false, ◌||◌, none, some, List, [], ◌∷◌, All, any, update,
  arith, Bool-cases, Option-cases, inl, inr,
}
use logingestor.Prelude.Text.{Text, text_eq, text_eq_refl}
use logingestor.Prelude.Clock.{Time}
use logingestor.Prelude.Result.{ok, err}
use logingestor.Sources.Model.{
  key_failed, call_failed, Source, find_source, save_source, SourceEnv, IngestKey, generate_key,
  hash_key, has_key_scheme,
}
use logingestor.Sources.Store.{
  has_source_id, has_hash, clashes_other, with_columns, with_key, save, rotate_key,
  query_by_key_hash,
}
use logingestor.Sources.Auth.{unauthenticated, admit_key}

-- No other row of the table has the hash of this source: the unique index.
abbrev pub OwnsHash : Source → Source → Type 0
OwnsHash s t = has_source_id s.id t ≡ false → has_hash s.key_hash t ≡ false

generate_key-hash :
    (env : SourceEnv) (sources : List Source) (key : IngestKey)
    → generate_key env sources ≡ some key
    → key.key_hash ≡ hash_key env key.raw
unfolding generate_key hash_key
generate_key-hash env sources key e = elim (Option-cases (env.random_hex sources)) [
  | inl q ↦ absurd (ground arith)
  | inr (hex, q) ↦ ground (arith, q, e)
]

module _ (s s' : Source) where
  saved_old_gone :
      (sources : List Source)
      → s'.id ≡ s.id
      → text_eq s'.key_hash s.key_hash ≡ false
      → All (OwnsHash s) sources
      → query_by_key_hash s.key_hash (update (has_source_id s'.id) (with_columns s') sources) ≡ none
  unfolding query_by_key_hash with_columns
  saved_old_gone [] i d h = refl
  saved_old_gone (t ∷ sources) i d h = ground (arith, h.0, saved_old_gone sources i d h.1)

  saved_new_found :
      (sources : List Source)
      → any (has_source_id s'.id) sources ≡ true
      → any (clashes_other s') sources ≡ false
      → (t : Source) × (query_by_key_hash s'.key_hash
            (update (has_source_id s'.id) (with_columns s') sources)
          ≡ some t)
        × (t.id ≡ s'.id)
  unfolding query_by_key_hash with_columns clashes_other
  saved_new_found [] a c = absurd (ground arith)
  saved_new_found (t ∷ sources) a c = elim (Bool-cases (has_source_id s'.id t)) [
    | inl q ↦ (with_columns s' t, ground (arith, q, text_eq_refl s'.key_hash), ground (arith, q))
    | inr q ↦
        let (u, found, same) =
          saved_new_found sources (ground (arith, a, q)) (ground (arith, c, q)) in
        (u, ground (arith, q, c, found), same)
  ]

-- A key that names no row is refused.
unknown_refused :
    (env : SourceEnv) (now : Time) (raw : Text) (sources : List Source)
    → query_by_key_hash (hash_key env raw) sources ≡ none
    → admit_key env now raw sources ≡ err unauthenticated
unfolding admit_key
unknown_refused env now raw sources e = elim (Bool-cases (has_key_scheme raw)) [
  | inl q ↦ rw q (elim (Bool-cases (env.fails (find_source (hash_key env raw)))) [
    | inl f ↦ rw f refl
    | inr f ↦ rw (f, e) refl
  ])
  | inr q ↦ rw q refl
]

module _ (env : SourceEnv) (s : Source) (sources : List Source) where
  abbrev blocked : IngestKey → Bool
  blocked key = env.fails (save_source s.id) || any (clashes_other (with_key key s)) sources

  rotate_key-none :
      generate_key env sources ≡ none → rotate_key env s sources ≡ (err key_failed, sources)
  unfolding rotate_key
  rotate_key-none g = rw g refl

  rotate_key-blocked :
      (key : IngestKey)
      → generate_key env sources ≡ some key
      → blocked key ≡ true
      → rotate_key env s sources ≡ (err (call_failed (save_source s.id)), sources)
  unfolding rotate_key save
  rotate_key-blocked key g b = rw (g, b) refl

  rotate_key_saved :
      (key : IngestKey)
      → generate_key env sources ≡ some key
      → blocked key ≡ false
      → rotate_key env s sources ≡ (
        ok (with_key key s, key.raw),
        update (has_source_id s.id) (with_columns (with_key key s)) sources,
      )
  unfolding rotate_key save
  rotate_key_saved key g b = rw (g, b) refl

  -- Once the key of a stored source was rotated, with a new hash, its old key is refused and the new
  -- one finds the source, if no other source had its old hash.
  pub rotate_key-revokes :
      (s' : Source) (raw old : Text) (now : Time)
      → (rotate_key env s sources).0 ≡ ok (s', raw)
      → hash_key env old ≡ s.key_hash
      → text_eq (hash_key env raw) (hash_key env old) ≡ false
      → any (has_source_id s.id) sources ≡ true
      → All (OwnsHash s) sources
      → (admit_key env now old (rotate_key env s sources).1 ≡ err unauthenticated)
        × ((t : Source) × (query_by_key_hash (hash_key env raw) (rotate_key env s sources).1
              ≡ some t)
            × (t.id ≡ s.id))
  rotate_key-revokes s' raw old now e o d a h = elim (Option-cases (generate_key env sources)) [
    | inl g ↦ absurd (ground (arith, rotate_key-none g))
    | inr (key, g) ↦ elim (Bool-cases (blocked key)) [
      | inl b ↦ absurd (ground (arith, rotate_key-blocked key g b))
      | inr b ↦
          let same_raw : key.raw ≡ raw = ground (arith, rotate_key_saved key g b) in
          let new_hash : key.key_hash ≡ hash_key env raw =
            generate_key-hash env sources key g ∙ ap (hash_key env) same_raw in
          rw (rotate_key_saved key g b) (
            unknown_refused env now old _ (
                rw o (
                  saved_old_gone s (with_key key s) sources refl (ground (arith, d, new_hash, o))
                    h)),
            rw (sym new_hash) (saved_new_found s (with_key key s) sources a (ground (arith, b))),
          )
    ]
  ]
