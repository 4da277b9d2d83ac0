-- ===== src/Alerting/Condition/Match.antt =====
-- `Query.Matches`, `MatchesLog`, `Satisfied` and `levelThreshold`.
use logingestor.Prelude.{◌≡◌, ◌⊎◌, true, false, [], arith}
use logingestor.Prelude.Text.{
  text_eq_refl, trim_space, Text, CaseTable, text_eq_comm, contains_text,
}
use logingestor.Alerting.Condition.{
  condition_level, error, warn, info, debug, Query, is_zero, matches, level_passes, contains_passes,
  source_passes, level_threshold, level_condition, matches_log, severity_rank,
}

module _ (u : CaseTable) where
  matches_parts :
      (q : Query) (level message source : Text)
      → matches u q level message source ≡ true
      → (level_passes u q.levels level ≡ true)
        × (contains_passes u q.contains message ≡ true)
        × (source_passes u q.source source ≡ true)
  unfolding matches
  matches_parts q level message source h = ground arith

  level_passes_empty : (level : Text) → level_passes u [] level ≡ true
  unfolding level_passes
  level_passes_empty level = ground arith

  contains_passes_empty : (message : Text) → contains_passes u [] message ≡ true
  unfolding contains_passes trim_space
  contains_passes_empty message = ground arith

  source_passes_empty : (source : Text) → source_passes u [] source ≡ true
  unfolding source_passes trim_space
  source_passes_empty source = ground arith

-- The second query asks no more than the first: each predicate is the same or is not populated.
pub record AsksLess (q r : Query) : Type 0 where
  pub levels : (r.levels ≡ q.levels) ⊎ (r.levels ≡ [])
  pub contains : (r.contains ≡ q.contains) ⊎ (r.contains ≡ [])
  pub source : (r.source ≡ q.source) ⊎ (r.source ≡ [])

-- Adding a predicate narrows: a log that a query matches is matched by every query that asks less
-- and still asks something.
matches-AsksLess :
    (u : CaseTable) (q r : Query) (level message source : Text)
    → AsksLess q r
    → is_zero r ≡ false
    → matches u q level message source ≡ true
    → matches u r level message source ≡ true
unfolding matches
matches-AsksLess u q r level message source less asks h = ground (
  arith,
  matches_parts u q level message source,
  level_passes_empty u level,
  contains_passes_empty u message,
  source_passes_empty u source,
)

-- The list of levels that `levelThreshold` gives for a log's level holds a rule's level exactly when
-- a level condition at that level fires on the log: the filter in SQL and the decision in Go agree.
level_threshold-matches_log :
    (u : CaseTable) (level wanted message source : Text)
    → contains_text (level_threshold level) wanted
      ≡ matches_log u (level_condition wanted) level message source
unfolding level_threshold matches_log level_condition severity_rank
level_threshold-matches_log u level wanted message source = ground (
  arith,
  text_eq_comm debug level,
  text_eq_comm info level,
  text_eq_comm warn level,
  text_eq_comm error level,
  text_eq_comm debug wanted,
  text_eq_comm info wanted,
  text_eq_comm warn wanted,
  text_eq_comm error wanted,
  text_eq_refl condition_level,
)
