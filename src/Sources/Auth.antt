-- ===== src/Sources/Auth.antt =====
-- app/sdk/mid/authenticatesource.go: who may write with an ingest key.
use logingestor.Prelude.{ℕ, Bool, not, Option, none, some, List, [], ◌∷◌, ◌==◌, if◌then◌else◌}
use logingestor.Prelude.Text.{Text, codes, text_eq, trim_space, equal_fold}
use logingestor.Prelude.Clock.{Time}
use logingestor.Prelude.Result.{Result, ok, err}
use logingestor.Sources.Model.{Source, expired, find_source, SourceEnv, hash_key, has_key_scheme}
use logingestor.Sources.Store.{query_by_key_hash}

pub data AuthError : Type 0 where
  unauthenticated permission_denied key_expired org_suspended internal : AuthError

-- `strings.SplitN(header, " ", 2)`, where it has two parts.
abbrev with_first : ℕ → Option (Text × Text) → Option (Text × Text)
with_first c none = none
with_first c (some (before, after)) = some (c ∷ before, after)

unfoldable pub cut_space : Text → Option (Text × Text)
cut_space [] = none
cut_space (c ∷ s) = let rest = cut_space s in if c == b' ' then some ([], s) else with_first c rest

abbrev token_of : SourceEnv → Option (Text × Text) → Option Text
token_of env none = none
token_of env (some (scheme, [])) = none
token_of env (some (scheme, c ∷ s)) =
    if equal_fold env.unicode scheme (codes "bearer") then some (trim_space (c ∷ s)) else none

unfoldable pub bearer_token : SourceEnv → Text → Option Text
bearer_token env header = token_of env (cut_space header)

abbrev pub found_source : SourceEnv → Text → List Source → Option Source
found_source env raw sources =
    if env.fails (find_source (hash_key env raw))
    then none
    else query_by_key_hash (hash_key env raw) sources

abbrev pub check_org : Option Bool → Source → Result AuthError Source
check_org none s = err internal
check_org (some enabled) s = if enabled then ok s else err org_suspended

-- The checks on the source that the key names, in their order.
abbrev pub check_source : SourceEnv → Time → Text → Option Source → Result AuthError Source
check_source env now raw none = err unauthenticated
check_source env now raw (some s) =
    if not (text_eq s.key_hash (hash_key env raw))
    then err unauthenticated
    else if not s.is_active
    then err permission_denied
    else if expired s now
    then err key_expired
    else check_org (env.org_enabled s.project_id) s

unfoldable pub admit_key : SourceEnv → Time → Text → List Source → Result AuthError Source
admit_key env now raw sources =
    if not (has_key_scheme raw)
    then err unauthenticated
    else check_source env now raw (found_source env raw sources)

abbrev pub admit_token : SourceEnv → Time → List Source → Option Text → Result AuthError Source
admit_token env now sources none = err unauthenticated
admit_token env now sources (some raw) = admit_key env now raw sources

unfoldable pub authenticate_source : SourceEnv → Time → Text → List Source → Result AuthError Source
authenticate_source env now header sources = admit_token env now sources (bearer_token env header)
