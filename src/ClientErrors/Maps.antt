-- ===== src/ClientErrors/Maps.antt =====
-- business/domain/clienterrorbus/resolve.go: the cache of source maps and the resolution of a stack.
pub mod Bounded
use logingestor.Prelude.{
  ℕ, Bool, true, false, ◌&&◌, ◌||◌, Option, none, some, List, [], ◌∷◌, ◌++◌, find, length, leb,
  ◌==◌, if◌then◌else◌,
}
use logingestor.Prelude.Int.{ℤ}
use logingestor.Prelude.Text.{Text, codes, text_eq, contains_text}
use logingestor.Prelude.Bytes.{split_on, join, after_last}
use logingestor.Prelude.Result.{Result, ok, err}
use logingestor.Prelude.Exec.{◌>>=◌, pure}
use logingestor.ClientErrors.Fingerprint.{Frame, parse_stack, itoa}
use mathlib.Core.List.{reverse}
use logingestor.ClientErrors.World.{
  Artifact, Place, SourceMap, Cache, ErrorStore, fetch_artifact, ErrorEnv,
}

abbrev pub max_cached_maps : ℕ
max_cached_maps = 8

abbrev pub resolved_fingerprint_version : ℕ
resolved_fingerprint_version = 2

abbrev pub empty_cache : Cache
empty_cache = record { entries = []; misses = [] }

-- `m[key]`
unfoldable pub cached_map : Text → List (Text × SourceMap) → Option SourceMap
cached_map key [] = none
cached_map key ((k, m) ∷ rest) = if text_eq k key then some m else cached_map key rest

unfoldable pub make_room : Cache → Cache
make_room c = if leb max_cached_maps (length c.entries) then empty_cache else c

-- `remember`: a write of a key replaces the entry of that key, which then is the first that is found.
unfoldable pub drop_key : Text → List (Text × SourceMap) → List (Text × SourceMap)
drop_key key [] = []
drop_key key ((k, m) ∷ rest) =
    let others = drop_key key rest in if text_eq k key then others else (k, m) ∷ others

abbrev store_answer : Text → Option SourceMap → Cache → Cache
store_answer key none c =
    if contains_text c.misses key then c else record c { misses = key ∷ c.misses }
store_answer key (some m) c = record c { entries = (key, m) ∷ drop_key key c.entries }

unfoldable pub remember : Text → Option SourceMap → Cache → Cache
remember key answer c = store_answer key answer (make_room c)

abbrev pub map_key : Text → Text → Text
map_key release file = release ++ (codes "|" ++ file)

abbrev is_artifact : Text → Text → Artifact → Bool
is_artifact release file a = text_eq a.release release && text_eq a.file_name file

-- `QueryArtifact`, and the decompression and parsing of what it answers with; every failure is a miss.
abbrev parse_found : ErrorEnv → Text → Option Artifact → Option SourceMap
parse_found env file none = none
parse_found env file (some a) = env.parse_map file a.content

unfoldable pub fetch_map : ErrorEnv → Text → Text → List Artifact → Option SourceMap
fetch_map env release file artifacts =
    if env.fails (fetch_artifact release)
    then none
    else parse_found env file (find (is_artifact release file) artifacts)

unfoldable pub map_for : ErrorEnv → List Artifact → Text → Text → Cache → Option SourceMap × Cache
map_for env artifacts release file c = elim (cached_map (map_key release file) c.entries) [
  | some m ↦ (some m, c)
  | none ↦
      let answer = fetch_map env release file artifacts in
      if contains_text c.misses (map_key release file)
      then (none, c)
      else (answer, remember (map_key release file) answer c)
]

-- `forget`
unfoldable pub forget : Cache → Cache
forget c = empty_cache

-- `path.Base`
abbrev drop_slashes : Text → Text
drop_slashes [] = []
drop_slashes (c ∷ s) = if c == b'/' then drop_slashes s else c ∷ s

abbrev or_slash : Text → Text
or_slash [] = codes "/"
or_slash (c ∷ s) = c ∷ s

unfoldable pub path_base : Text → Text
path_base [] = codes "."
path_base (c ∷ s) = or_slash (after_last b'/' (reverse (drop_slashes (reverse (c ∷ s)))))

abbrev is_blank : Text → Bool
is_blank [] = true
is_blank (c ∷ s) = false

unfoldable pub render_frame : Text → Text → ℤ → ℤ → Text
render_frame [] file line column =
    codes "    at " ++ (file ++ (codes ":" ++ (itoa line ++ (codes ":" ++ itoa column))))
render_frame (c ∷ s) file line column =
    codes "    at "
    ++ ((c ∷ s)
        ++ (codes " ("
            ++ (file ++ (codes ":" ++ (itoa line ++ (codes ":" ++ (itoa column ++ codes ")")))))))

-- `parseFrameLine`
abbrev only_frame : List Frame → Option Frame
only_frame [] = none
only_frame (f ∷ []) =
    if is_blank f.file || is_blank f.line || is_blank f.column then none else some f
only_frame (f ∷ g ∷ fs) = none

unfoldable pub parse_frame_line : ErrorEnv → Text → Option Frame
parse_frame_line env line = only_frame (parse_stack env.matchers line)

abbrev place_at : SourceMap → Option ℤ → Option ℤ → Option Place
place_at m (some line) (some column) = m line column
place_at m _ _ = none

abbrev named : Text → Text → Text
named [] fallback = fallback
named (c ∷ s) fallback = c ∷ s

-- A place with no source resolves nothing; one with no name keeps the browser's.
abbrev rendered : Frame → Option Place → Option Text
rendered f none = none
rendered f (some p) =
    if is_blank p.source
    then none
    else some (render_frame (named p.name f.function) p.source p.line p.column)

abbrev rendered_by : ErrorEnv → Frame → Option SourceMap → Option Text
rendered_by env f none = none
rendered_by env f (some m) = rendered f (place_at m (env.atoi f.line) (env.atoi f.column))

-- One round of the loop: the line that replaces this one, if the frame resolves.
abbrev pub resolve_frame :
    ErrorEnv → List Artifact → Text → Option Frame → Cache → Option Text × Cache
resolve_frame env artifacts release none c = (none, c)
resolve_frame env artifacts release (some f) c =
    let (m, c') = map_for env artifacts release (path_base f.file) c in (rendered_by env f m, c')

abbrev or_line : Text → Option Text → Text
or_line line none = line
or_line line (some l) = l

abbrev is_some : Option Text → Bool
is_some none = false
is_some (some l) = true

unfoldable pub resolve_lines :
    ErrorEnv → List Artifact → Text → List Text → Cache → (List Text × Bool) × Cache
resolve_lines env artifacts release [] c = (([], false), c)
resolve_lines env artifacts release (line ∷ lines) c =
    let (answer, c') = resolve_frame env artifacts release (parse_frame_line env line) c in
    let ((rest, done), c'') = resolve_lines env artifacts release lines c' in
    ((or_line line answer ∷ rest, is_some answer || done), c'')

-- The resolved stack, or none where nothing was rewritten.
unfoldable pub resolve_stack : ErrorEnv → List Artifact → Text → Text → Cache → Option Text × Cache
resolve_stack env artifacts stack release c =
    if is_blank stack || is_blank release
    then (none, c)
    else (let ((lines, done), c') = resolve_lines env artifacts release (split_on 10 stack) c in
        if done then (some (join (codes "\n") lines), c') else (none, c'))
