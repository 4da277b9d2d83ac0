-- ===== src/ClientErrors/Artifacts.antt =====
-- business/domain/clienterrorbus/artifact.go, with `UpsertArtifact` and `MarkReleaseForRegroup` of
-- stores/clienterrordb/clienterrordb.go: the upload of a source map. Bytes are a list of numbers.
pub mod Silent
use logingestor.Prelude.{
  ℕ, ◌*◌, Bool, true, false, not, ◌&&◌, ◌||◌, Option, none, some, List, [], ◌∷◌, ◌++◌, any, select,
  update, length, ltb, ◌==◌, if◌then◌else◌,
}
use logingestor.Prelude.Text.{Text, codes, text_eq, trim_space}
use logingestor.Prelude.Bytes.{after_last}
use logingestor.Prelude.Clock.{Time}
use logingestor.Prelude.Result.{ok, err}
use logingestor.Prelude.Exec.{◌>>=◌, ◌>>◌, pure, raise_error, writes, require, or_error}
use logingestor.ClientErrors.Model.{max_release_len}
use logingestor.ClientErrors.Scrub.{truncate}
use logingestor.ClientErrors.Maps.{forget, resolved_fingerprint_version}
use logingestor.ClientErrors.Group.{is_waiting}
use logingestor.ClientErrors.World.{
  Row, Artifact, ErrorStore, upsert_artifact, regroup_rows, call_failed, artifact_too_large,
  artifact_empty, artifact_release, artifact_invalid, ErrorEnv, ErrorExec,
}

-- 32 MiB
abbrev pub max_artifact_bytes : ℕ
max_artifact_bytes = 32 * 1024 * 1024

pub record NewArtifact : Type 0 where
  pub release : Text
  pub file_name : Text
  pub content : List ℕ
  pub uploaded_by : Text

-- `strings.TrimSuffix(s, suffix)`, for a suffix that is not empty.
unfoldable pub trim_suffix : Text → Text → Text
trim_suffix suffix [] = []
trim_suffix suffix (c ∷ s) =
    let rest = trim_suffix suffix s in if text_eq (c ∷ s) suffix then [] else c ∷ rest

unfoldable pub generated_file_name : Text → Text
generated_file_name name =
    truncate (trim_suffix (codes ".map") (after_last b'/' (trim_space name))) 200

-- `stripSourcesContent`: no member "sourcesContent", and both members that the resolution needs.
abbrev is_member : Text → Text × Text → Bool
is_member key m = text_eq m.0 key

abbrev has_member : Text → List (Text × Text) → Bool
has_member key doc = any (is_member key) doc

unfoldable pub strip_document : List (Text × Text) → Option (List (Text × Text))
strip_document doc =
    if has_member (codes "mappings") doc && has_member (codes "version") doc
    then some (select (λ m. not (is_member (codes "sourcesContent") m)) doc)
    else none

abbrev strip_parsed : ErrorEnv → Option (List (Text × Text)) → Option (List ℕ)
strip_parsed env none = none
strip_parsed env (some doc) = elim (strip_document doc) [
  | none ↦ none
  | some d ↦ some (env.print_object d)
]

unfoldable pub strip_sources_content : ErrorEnv → List ℕ → Option (List ℕ)
strip_sources_content env content = strip_parsed env (env.parse_object content)

-- `UpsertArtifact`: an upload of the same file of a release replaces the row and keeps its id.
abbrev is_same_file : Artifact → Artifact → Bool
is_same_file a b = text_eq b.release a.release && text_eq b.file_name a.file_name

abbrev replace_content : Artifact → Artifact → Artifact
replace_content a old = record old {
  content = a.content;
  byte_size = a.byte_size;
  uploaded_by = a.uploaded_by;
  date_created = a.date_created;
}

unfoldable pub put_artifact : Artifact → List Artifact → List Artifact
put_artifact a stored =
    if any (is_same_file a) stored
    then update (is_same_file a) (replace_content a) stored
    else stored ++ a ∷ []

unfoldable pub save_artifact : ErrorEnv → Artifact → ErrorExec (Unit {0})
save_artifact env a =
    writes (env.fails (upsert_artifact a.release)) (call_failed (upsert_artifact a.release))
      λ w. record w { artifacts = put_artifact a w.artifacts }

-- `MarkReleaseForRegroup`
unfoldable pub is_stale : Text → ℕ → Row → Bool
is_stale release below r =
    text_eq r.event.release release
    && ltb r.fingerprint_version below
    && not (is_waiting r.processed_at)

abbrev pub requeued : Row → Row
requeued r = record r { processed_at = none; attempts = 0; process_error = none }

unfoldable pub mark_release_for_regroup : ErrorEnv → Text → ℕ → ErrorExec (Unit {0})
mark_release_for_regroup env release below =
    writes (env.fails (regroup_rows release)) (call_failed (regroup_rows release))
      λ w. record w { rows = update (is_stale release below) requeued w.rows }

abbrev pub forget_maps : ErrorExec (Unit {0})
forget_maps w = (ok tt, record w { maps = forget w.maps })

abbrev pub is_blank : Text → Bool
is_blank [] = true
is_blank (c ∷ s) = false

unfoldable pub new_artifact : ErrorEnv → Time → List ℕ → NewArtifact → List Artifact → Artifact
new_artifact env now stripped na stored = record {
  id = env.fresh_artifact stored;
  release = truncate (trim_space na.release) max_release_len;
  file_name = generated_file_name na.file_name;
  byte_size = length (env.compress stripped);
  uploaded_by = truncate (trim_space na.uploaded_by) 120;
  date_created = now;
  content = env.compress stripped;
}

abbrev pub next_artifact : ErrorEnv → Time → List ℕ → NewArtifact → ErrorExec Artifact
next_artifact env now stripped na w = (ok (new_artifact env now stripped na w.artifacts), w)

-- The checks, and then the three effects in their order.
unfoldable pub store_artifact : ErrorEnv → Artifact → ErrorExec Artifact
store_artifact env a = do
  require (not (is_blank a.file_name)) artifact_invalid
  save_artifact env a
  forget_maps
  mark_release_for_regroup env a.release resolved_fingerprint_version
  pure a

unfoldable pub upload_artifact : ErrorEnv → Time → NewArtifact → ErrorExec Artifact
upload_artifact env now na = do
  require (not (is_blank (trim_space na.release))) artifact_release
  require (not (length na.content == 0)) artifact_empty
  require (not (ltb max_artifact_bytes (length na.content))) artifact_too_large
  stripped ← or_error artifact_invalid (strip_sources_content env na.content)
  a ← next_artifact env now stripped na
  store_artifact env a
