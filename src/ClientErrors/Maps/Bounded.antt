-- ===== src/ClientErrors/Maps/Bounded.antt =====
-- The number of parsed maps in the cache. Nothing bounds the number of remembered misses but that the
-- two are dropped together.
use logingestor.Prelude.{◌≤◌, Option, none, some, List, [], ◌∷◌, length, arith}
use logingestor.Prelude.Text.{Text}
use logingestor.Prelude.Bytes.{split_on}
use logingestor.ClientErrors.World.{Artifact, SourceMap, Cache, ErrorEnv}
use logingestor.ClientErrors.Fingerprint.{Frame}
use logingestor.ClientErrors.Maps.{
  path_base, parse_frame_line, resolve_frame, max_cached_maps, make_room, drop_key, remember,
  map_key, map_for, fetch_map, resolve_lines, resolve_stack,
}

abbrev pub IsCapped : Cache → Type 0
IsCapped c = length c.entries ≤ max_cached_maps

drop_key_le : (key : Text) (es : List (Text × SourceMap)) → length (drop_key key es) ≤ length es
unfolding drop_key
drop_key_le key [] = omega arith
drop_key_le key ((k, m) ∷ es) = ground (arith, drop_key_le key es)

remember-IsCapped :
    (key : Text) (answer : Option SourceMap) (c : Cache)
    → IsCapped c
    → IsCapped (remember key answer c)
unfolding remember make_room
remember-IsCapped key none c h = ground arith
remember-IsCapped key (some m) c h = ground (arith, drop_key_le key c.entries, drop_key_le key [])

module _ (env : ErrorEnv) (artifacts : List Artifact) (release : Text) where
  map_for-IsCapped :
      (file : Text) (c : Cache) → IsCapped c → IsCapped (map_for env artifacts release file c).1
  unfolding map_for
  map_for-IsCapped file c h =
      ground
        (arith, remember-IsCapped (map_key release file) (fetch_map env release file artifacts) c)

  resolve_frame-IsCapped :
      (f : Option Frame) (c : Cache)
      → IsCapped c
      → IsCapped (resolve_frame env artifacts release f c).1
  resolve_frame-IsCapped none c h = h
  resolve_frame-IsCapped (some f) c h = map_for-IsCapped (path_base f.file) c h

  resolve_lines-IsCapped :
      (lines : List Text) (c : Cache)
      → IsCapped c
      → IsCapped (resolve_lines env artifacts release lines c).1
  unfolding resolve_lines
  resolve_lines-IsCapped [] c h = h
  resolve_lines-IsCapped (line ∷ lines) c h =
      resolve_lines-IsCapped lines _ (resolve_frame-IsCapped (parse_frame_line env line) c h)

  -- Resolving a stack keeps at most eight parsed maps.
  resolve_stack-IsCapped :
      (stack : Text) (c : Cache)
      → IsCapped c
      → IsCapped (resolve_stack env artifacts stack release c).1
  unfolding resolve_stack
  resolve_stack-IsCapped stack c h = ground (arith, resolve_lines-IsCapped (split_on 10 stack) c h)
