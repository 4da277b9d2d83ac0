-- ===== src/ClientErrors/Fingerprint.antt =====
-- business/domain/clienterrorbus/fingerprint.go. What the regular expressions of a message and of a
-- frame's line match, the SHA-256 digest in hexadecimal and the Unicode tables are parameters.
pub mod Stable
use logingestor.Prelude.{
  ◌+◌, ℕ, Bool, true, false, not, ◌&&◌, ◌||◌, Option, none, some, List, [], ◌∷◌, ◌++◌, any, select,
  take, map, if◌then◌else◌,
}
use logingestor.Prelude.Int.{ℤ, pos, negsuc}
use logingestor.Prelude.Text.{Text, codes, trim_space, contains, to_lower, CaseTable, decimal}
use logingestor.Prelude.Bytes.{split_on, join}
use logingestor.ClientErrors.Model.{ErrorKind, api, kind_text, ApiContext}
use logingestor.ClientErrors.Scrub.{truncate}

pub data Template : Type 0 where
  url_like uuid_like hex_like quoted_like number_like whitespaces : Template

pub record Frame : Type 0 where
  pub function : Text
  pub file : Text
  pub line : Text
  pub column : Text
  pub in_app : Bool

-- The groups that the expression of a frame captures: the function's name, or none, and the location.
pub record Groups : Type 0 where
  pub name : Text
  pub location : Text
  pub line_number : Text
  pub column_number : Text

pub record Matchers : Type 0 where
  pub unicode : CaseTable
  pub replace_template : Template → Text → Text → Text
  pub frame_line : Text → Option Groups
  pub digest : Text → Text

abbrev pub max_frames : ℕ
max_frames = 5

abbrev pub fingerprint_version : ℕ
fingerprint_version = 1

abbrev pub vendor_markers : List Text
vendor_markers =
    codes "node_modules"
    ∷ codes "/vendor"
    ∷ codes "vendor-"
    ∷ codes "vendor."
    ∷ codes "chunk-vendors"
    ∷ codes "webpack/bootstrap"
    ∷ codes "react-dom"
    ∷ codes "scheduler.production"
    ∷ []

abbrev is_empty : Text → Bool
is_empty [] = true
is_empty (c ∷ s) = false

-- What of an event takes part in its fingerprint: the fields of the `NewEvent` that `group` makes.
pub record Subject : Type 0 where
  pub kind : ErrorKind
  pub name : Text
  pub message : Text
  pub stack : Text
  pub url : Text
  pub api : Option ApiContext

module _ (m : Matchers) where
  -- The replacements in their order.
  unfoldable pub template_of : Text → Text
  template_of s =
      m.replace_template whitespaces
        (m.replace_template number_like
          (m.replace_template quoted_like
            (m.replace_template hex_like
              (m.replace_template uuid_like (m.replace_template url_like s (codes "<url>"))
                (codes "<uuid>"))
              (codes "<hex>"))
            (codes "<str>"))
          (codes "<n>"))
        (codes " ")

  abbrev normalize_trimmed : Text → Text
  normalize_trimmed [] = []
  normalize_trimmed (c ∷ s) = truncate (trim_space (template_of (c ∷ s))) 300

  unfoldable pub normalize_message : Text → Text
  normalize_message msg = normalize_trimmed (trim_space msg)

  unfoldable pub is_vendor : Groups → Bool
  is_vendor g =
      any (contains (to_lower m.unicode (g.location ++ (codes " " ++ g.name)))) vendor_markers

  abbrev frame_of_groups : Groups → Frame
  frame_of_groups g = record {
    function = g.name;
    file = g.location;
    line = g.line_number;
    column = g.column_number;
    in_app = not (is_vendor g);
  }

  -- A frame is kept where its line matched and the location is not empty.
  abbrev frames_of_match : Option Groups → List Frame
  frames_of_match none = []
  frames_of_match (some g) = if is_empty g.location then [] else frame_of_groups g ∷ []

  abbrev frames_of_trimmed : Text → List Frame
  frames_of_trimmed [] = []
  frames_of_trimmed (c ∷ s) = frames_of_match (m.frame_line (c ∷ s))

  unfoldable pub parse_lines : List Text → List Frame
  parse_lines [] = []
  parse_lines (line ∷ lines) = frames_of_trimmed (trim_space line) ++ parse_lines lines

  unfoldable pub parse_stack : Text → List Frame
  parse_stack stack = parse_lines (split_on 10 stack)

-- Every frame, where none is ours.
abbrev or_all : List Frame → List Frame → List Frame
or_all [] frames = frames
or_all (f ∷ fs) frames = f ∷ fs

unfoldable pub in_app_frames : List Frame → List Frame
in_app_frames frames = or_all (select (λ (f : Frame). f.in_app) frames) frames

-- `Frame.String`
unfoldable pub frame_text : Frame → Text
frame_text f = f.file ++ (codes ":" ++ (f.line ++ (codes ":" ++ f.function)))

unfoldable pub itoa : ℤ → Text
itoa (pos n) = decimal n
itoa (negsuc n) = codes "-" ++ decimal (n + 1)

-- An api failure is identified by its request.
abbrev api_of : ErrorKind → Option ApiContext → Option ApiContext
api_of api (some a) = some a
api_of _ _ = none

abbrev parts_by : Option ApiContext → Text → List Frame → List Text
parts_by (some a) normalized frames = a.method ∷ a.path ∷ itoa a.status ∷ a.code ∷ []
parts_by none normalized frames = normalized ∷ map frame_text frames

abbrev title_by : Text → Text → Text
title_by name [] = name
title_by name (c ∷ s) = name ++ (codes ": " ++ (c ∷ s))

abbrev or_unknown : Text → Text
or_unknown [] = codes "Unknown error"
or_unknown (c ∷ s) = c ∷ s

abbrev culprit_of_frame : Text → Text → Text
culprit_of_frame [] file = file
culprit_of_frame (c ∷ s) file = (c ∷ s) ++ (codes " (" ++ (file ++ codes ")"))

abbrev culprit_by : List Frame → Option ApiContext → Text → Text
culprit_by (f ∷ fs) a url = culprit_of_frame f.function f.file
culprit_by [] (some a) url = trim_space (a.method ++ (codes " " ++ a.path))
culprit_by [] none url = url

pub record Grouping : Type 0 where
  pub fingerprint : Text
  pub title : Text
  pub culprit : Text

module _ (m : Matchers) where
  abbrev top_frames : Text → List Frame
  top_frames stack = take max_frames (in_app_frames (parse_stack m stack))

  -- What the digest is taken of.
  unfoldable pub fingerprint_parts : Subject → List Text
  fingerprint_parts e =
      kind_text e.kind
      ∷ e.name
      ∷ parts_by (api_of e.kind e.api) (normalize_message m e.message) (top_frames e.stack)

  unfoldable pub fingerprint_of : Subject → Grouping
  fingerprint_of e = record {
    fingerprint = m.digest (join (codes "|") (fingerprint_parts e));
    title = truncate (or_unknown (title_by e.name (normalize_message m e.message))) 300;
    culprit = truncate (culprit_by (top_frames e.stack) (api_of e.kind e.api) e.url) 300;
  }
