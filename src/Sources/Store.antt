-- ===== src/Sources/Store.antt =====
-- The business calls of business/domain/sourcebus/sourcebus.go on the rows of
-- stores/sourcedb/sourcedb.go. The unique keys of the table sources are its id, the name within the org
-- and the key's hash.
use logingestor.Prelude.{
  Bool, true, false, not, ◌&&◌, ◌||◌, Option, none, some, List, [], ◌∷◌, ◌++◌, any, find, select,
  update, leb, ◌==◌, if◌then◌else◌,
}
use logingestor.Prelude.Int.{pos}
use logingestor.Prelude.Text.{Text, text_eq}
use logingestor.Prelude.Clock.{Time}
use logingestor.Prelude.Result.{ok, err}
use logingestor.Prelude.Exec.{Exec, ◌>>=◌, ◌>>◌, pure, writes, or_error}
use logingestor.Alerting.Model.{Uuid}
use logingestor.Sources.Model.{
  SourceKind, valid_kind, default_rate_limit_per_sec, default_rate_limit_burst, Source, NewSource,
  insert_source, save_source, touch_source, SourceError, call_failed, invalid_kind, duplicate_name,
  key_failed, SourceEnv, IngestKey, generate_key,
}

abbrev pub SourceExec : Type 0 → Type 0
SourceExec A = Exec (List Source) SourceError A

abbrev pub has_source_id : Uuid → Source → Bool
has_source_id id s = s.id == id

abbrev pub has_hash : Text → Source → Bool
has_hash hash s = text_eq s.key_hash hash

unfoldable pub same_name : Source → Source → Bool
same_name s t = t.org_id == s.org_id && text_eq t.name s.name

-- `Create` of the store: every duplicate is reported as one of the name.
unfoldable pub clashes : Source → Source → Bool
clashes s t = has_source_id s.id t || (has_hash s.key_hash t || same_name s t)

unfoldable pub insert : SourceEnv → Source → SourceExec (Unit {0})
insert env s sources =
    if env.fails insert_source
    then (err (call_failed insert_source), sources)
    else if any (clashes s) sources
    then (err duplicate_name, sources)
    else (ok tt, sources ++ s ∷ [])

-- `Update` of the store: the columns that it sets, and the clash with another row.
unfoldable pub clashes_other : Source → Source → Bool
clashes_other s t = not (has_source_id s.id t) && (has_hash s.key_hash t || same_name s t)

unfoldable pub with_columns : Source → Source → Source
with_columns s old = record old {
  name = s.name;
  is_active = s.is_active;
  key_prefix = s.key_prefix;
  key_hash = s.key_hash;
  rate_limit_per_sec = s.rate_limit_per_sec;
  rate_limit_burst = s.rate_limit_burst;
  sample_debug_info = s.sample_debug_info;
}

unfoldable pub save : SourceEnv → Source → SourceExec (Unit {0})
save env s sources =
    if env.fails (save_source s.id) || any (clashes_other s) sources
    then (err (call_failed (save_source s.id)), sources)
    else (ok tt, update (has_source_id s.id) (with_columns s) sources)

-- `Create`
unfoldable pub new_source :
    SourceEnv → Time → SourceKind → NewSource → IngestKey → List Source → Source
new_source env now kind ns key sources = record {
  id = env.fresh sources;
  org_id = ns.org_id;
  project_id = ns.project_id;
  kind = kind;
  name = ns.name;
  key_prefix = key.key_prefix;
  key_hash = key.key_hash;
  is_active = true;
  last_seen_at = none;
  rate_limit_per_sec = default_rate_limit_per_sec;
  rate_limit_burst = default_rate_limit_burst;
  sample_debug_info = pos env.unit;
  created_at = now;
  expires_at = ns.expires_at;
}

abbrev minted : SourceEnv → SourceExec IngestKey
minted env sources = or_error key_failed (generate_key env sources) sources

abbrev shaped : SourceEnv → Time → SourceKind → NewSource → IngestKey → SourceExec Source
shaped env now kind ns key sources = (ok (new_source env now kind ns key sources), sources)

unfoldable pub create : SourceEnv → Time → NewSource → SourceExec (Source × Text)
create env now ns = do
  kind ← or_error invalid_kind (valid_kind ns.kind)
  key ← minted env
  s ← shaped env now kind ns key
  insert env s
  pure (s, key.raw)

unfoldable pub disable : SourceEnv → Source → SourceExec Source
disable env s = do save env (record s { is_active = false }); pure (record s { is_active = false })

abbrev pub with_key : IngestKey → Source → Source
with_key key s = record s { key_hash = key.key_hash; key_prefix = key.key_prefix }

unfoldable pub rotate_key : SourceEnv → Source → SourceExec (Source × Text)
rotate_key env s = do key ← minted env; save env (with_key key s); pure (with_key key s, key.raw)

unfoldable pub query_by_key_hash : Text → List Source → Option Source
query_by_key_hash hash sources = find (has_hash hash) sources

unfoldable pub touch_last_seen : SourceEnv → Uuid → Time → SourceExec (Unit {0})
touch_last_seen env id now =
    writes (env.fails (touch_source id)) (call_failed (touch_source id)) λ sources.
      update (has_source_id id) (λ (s : Source). record s { last_seen_at = some now }) sources

-- `QueryByOrg`: `ORDER BY created_at DESC`
unfoldable pub insert_newer : Source → List Source → List Source
insert_newer s [] = s ∷ []
insert_newer s (t ∷ ts) =
    let rest = insert_newer s ts in if leb t.created_at s.created_at then s ∷ t ∷ ts else t ∷ rest

unfoldable pub newest_first : List Source → List Source
newest_first [] = []
newest_first (s ∷ ss) = insert_newer s (newest_first ss)

unfoldable pub query_sources : Uuid → List Source → List Source
query_sources org sources = newest_first (select (λ (s : Source). s.org_id == org) sources)
