-- ===== src/Alerting/Condition.antt =====
-- business/domain/integrationbus/condition.go: what an alert rule fires on, with `severityRank` and
-- `levelThreshold` of integrationbus.go. The proofs are in the modules below.
pub mod Valid
pub mod Match
use logingestor.Prelude.{
  ℕ, ◌*◌, Bool, true, false, not, ◌&&◌, ◌||◌, Option, none, some, List, [], ◌∷◌, any, ltb,
  if◌then◌else◌,
}
use logingestor.Prelude.Int.{ℤ, pos, negsuc, ◌*ℤ◌, ltb_ℤ, leb_ℤ, wrap64}
use logingestor.Prelude.Result.{Result, ok, err}
use logingestor.Prelude.Clock.{Duration, second, hour}
use logingestor.Prelude.Text.{
  Text, codes, text_eq, contains, trim_space, CaseTable, to_lower, to_upper, equal_fold,
}

abbrev pub debug : Text
debug = codes "DEBUG"

abbrev pub info : Text
info = codes "INFO"

abbrev pub warn : Text
warn = codes "WARN"

abbrev pub error : Text
error = codes "ERROR"

-- An unknown level ranks below DEBUG.
unfoldable pub severity_rank : Text → ℤ
severity_rank level =
    if text_eq level debug
    then pos 0
    else if text_eq level info
    then pos 1
    else if text_eq level warn
    then pos 2
    else if text_eq level error
    then pos 3
    else negsuc 0

-- The levels up to the given one, or none for a level that is not known.
unfoldable pub level_threshold : Text → List Text
level_threshold level =
    if text_eq debug level
    then debug ∷ []
    else if text_eq info level
    then debug ∷ info ∷ []
    else if text_eq warn level
    then debug ∷ info ∷ warn ∷ []
    else if text_eq error level
    then debug ∷ info ∷ warn ∷ error ∷ []
    else []

pub record Query : Type 0 where
  pub levels : List Text
  pub contains : Text
  pub source : Text

abbrev pub is_empty {ℓ} : {A : Type ℓ} → List A → Bool
is_empty [] = true
is_empty (x ∷ xs) = false

unfoldable pub is_zero : Query → Bool
is_zero q = is_empty q.levels && is_empty (trim_space q.contains) && is_empty (trim_space q.source)

module _ (u : CaseTable) where
  -- The three predicates of a query. One that is not populated lets every log through.
  unfoldable pub level_passes : List Text → Text → Bool
  level_passes levels level = is_empty levels || any (λ l. equal_fold u l level) levels

  unfoldable pub contains_passes : Text → Text → Bool
  contains_passes pattern message =
      let c = trim_space pattern in is_empty c || contains (to_lower u message) (to_lower u c)

  unfoldable pub source_passes : Text → Text → Bool
  source_passes wanted source = let s = trim_space wanted in is_empty s || equal_fold u s source

  -- `Query.Matches`
  unfoldable pub matches : Query → Text → Text → Text → Bool
  matches q level message source =
      if is_zero q
      then false
      else if not (level_passes q.levels level)
      then false
      else if not (contains_passes q.contains message)
      then false
      else if not (source_passes q.source source)
      then false
      else true

-- The kinds of condition and the comparators, as they are spelled on the wire.
abbrev pub condition_level : Text
condition_level = codes "level"

abbrev pub condition_match : Text
condition_match = codes "match"

abbrev pub condition_threshold : Text
condition_threshold = codes "threshold"

abbrev pub comparator_gte : Text
comparator_gte = codes "gte"

abbrev pub comparator_gt : Text
comparator_gt = codes "gt"

abbrev pub min_threshold_window : ℕ
min_threshold_window = 30 * second

abbrev pub max_threshold_window : ℕ
max_threshold_window = hour

abbrev pub max_threshold_count : ℕ
max_threshold_count = 1_000_000

pub record Condition : Type 0 where
  pub type : Text
  pub level : Text
  pub query : Option Query
  pub window_seconds : ℤ
  pub count : ℤ
  pub comparator : Text

pub data ConditionError : Type 0 where
  err_type err_level err_query err_window err_count err_comparator : ConditionError

unfoldable pub level_condition : Text → Condition
level_condition level = record {
  type = condition_level;
  level = level;
  query = none;
  window_seconds = pos 0;
  count = pos 0;
  comparator = [];
}

-- `time.Duration(c.WindowSeconds) * time.Second`: the product of two `int64` wraps around.
unfoldable pub window : Condition → Duration
window c = wrap64 (c.window_seconds *ℤ pos second)

unfoldable pub needs_evaluator : Condition → Bool
needs_evaluator c = text_eq c.type condition_threshold

unfoldable pub validate_query_levels : List Text → Option ConditionError
validate_query_levels [] = none
validate_query_levels (l ∷ ls) =
    if ltb_ℤ (severity_rank l) (pos 0) then some err_level else validate_query_levels ls

-- `c.Query == nil || c.Query.IsZero()`, then `validateQueryLevels`
unfoldable pub validate_query : Option Query → Option ConditionError
validate_query none = some err_query
validate_query (some q) = if is_zero q then some err_query else validate_query_levels q.levels

-- The checks of a threshold condition behind those of its query.
unfoldable pub validate_threshold : Condition → Option ConditionError
validate_threshold c =
    if ltb_ℤ (window c) (pos min_threshold_window) || ltb_ℤ (pos max_threshold_window) (window c)
    then some err_window
    else if leb_ℤ c.count (pos 0) || ltb_ℤ (pos max_threshold_count) c.count
    then some err_count
    else if text_eq c.comparator comparator_gte || text_eq c.comparator comparator_gt
    then none
    else some err_comparator

abbrev first_error : Option ConditionError → Option ConditionError → Option ConditionError
first_error (some e) rest = some e
first_error none rest = rest

-- `Condition.Validate`; `none` is the nil error.
unfoldable pub validate : Condition → Option ConditionError
validate c =
    if text_eq c.type condition_level
    then (if ltb_ℤ (severity_rank c.level) (pos 0) then some err_level else none)
    else if text_eq c.type condition_match
    then validate_query c.query
    else if text_eq c.type condition_threshold
    then first_error (validate_query c.query) (validate_threshold c)
    else some err_type

abbrev matches_query : CaseTable → Option Query → Text → Text → Text → Bool
matches_query u none level message source = false
matches_query u (some q) level message source = matches u q level message source

-- `Condition.MatchesLog`
unfoldable pub matches_log : CaseTable → Condition → Text → Text → Text → Bool
matches_log u c level message source =
    if text_eq c.type condition_level
    then (let r = severity_rank level in
        let want = severity_rank c.level in leb_ℤ (pos 0) r && leb_ℤ (pos 0) want && leb_ℤ want r)
    else if text_eq c.type condition_match || text_eq c.type condition_threshold
    then matches_query u c.query level message source
    else false

-- `Condition.Satisfied`; a count of rows is not negative.
unfoldable pub satisfied : Condition → ℕ → Bool
satisfied c matched =
    if not (text_eq c.type condition_threshold)
    then ltb 0 matched
    else if text_eq c.comparator comparator_gt
    then ltb_ℤ c.count (pos matched)
    else leb_ℤ c.count (pos matched)

-- `Condition.DedupKey`
unfoldable pub dedup_key : CaseTable → Condition → Text → Text
dedup_key u c level =
    if text_eq c.type condition_threshold
    then condition_threshold
    else to_upper u (trim_space level)

-- `ParseCondition`, over what `json.Unmarshal` made of the stored bytes.
pub data ParseError : Type 0 where
  unmarshal_failed : ParseError
  refused : ConditionError → ParseError

abbrev checked : Condition → Option ConditionError → Result ParseError Condition
checked c none = ok c
checked c (some e) = err (refused e)

abbrev checked_decoding : Option Condition → Result ParseError Condition
checked_decoding none = err unmarshal_failed
checked_decoding (some c) = checked c (validate c)

unfoldable pub parse_condition : (Text → Option Condition) → Text → Result ParseError Condition
parse_condition unmarshal stored = checked_decoding (unmarshal stored)
