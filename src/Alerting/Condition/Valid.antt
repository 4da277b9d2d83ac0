-- ===== src/Alerting/Condition/Valid.antt =====
-- `Validate` and `ParseCondition` against a description of the conditions that the API accepts.
use logingestor.Prelude.{
  refl, ◌&&◌, inr, inl, ◌^◌, ◌+◌, Bool-cases, ℕ, ◌≡◌, ◌↔◌, ◌⊎◌, false, Option, none, some, List, [],
  ◌∷◌, All, arith,
}
use logingestor.Prelude.Clock.{second}
use logingestor.Prelude.Text.{codes, trim_space}
use logingestor.Alerting.Condition.{is_empty, debug, info, warn, error}
use logingestor.Prelude.Int.{ℤ, negsuc, ◌*ℤ◌, wrap64, pos, ◌≤ℤ◌}
use logingestor.Prelude.Text.{text_eq, Text, text_eq_iff}
use logingestor.Alerting.Condition.{
  validate, Query, Condition, severity_rank, is_zero, window, validate_query, validate_query_levels,
  validate_threshold, condition_level, condition_match, condition_threshold, comparator_gte,
  comparator_gt, min_threshold_window, max_threshold_window,
}

-- The levels that the API knows.
abbrev pub IsKnownLevel : Text → Type 0
IsKnownLevel l = (l ≡ codes "DEBUG") ⊎ (l ≡ codes "INFO") ⊎ (l ≡ codes "WARN") ⊎ (l ≡ codes "ERROR")

-- A query that asks for something, every level of which is known.
abbrev pub IsValidQuery : Option Query → Type 0
IsValidQuery none = ⊥
IsValidQuery (some q) =
    ¬ ((q.levels ≡ []) × (trim_space q.contains ≡ []) × (trim_space q.source ≡ []))
    × All IsKnownLevel q.levels

-- What the API promises of a threshold: a window of 30 seconds to an hour, a count of one to a million, and
-- a comparator.
pub record IsValidThreshold (c : Condition) : Type 0 where
  pub window_from : pos 30 ≤ℤ c.window_seconds
  pub window_to : c.window_seconds ≤ℤ pos 3_600
  pub count_from : pos 1 ≤ℤ c.count
  pub count_to : c.count ≤ℤ pos 1_000_000
  pub known_comparator : (c.comparator ≡ codes "gte") ⊎ (c.comparator ≡ codes "gt")

-- The three kinds of condition that are accepted.
pub data IsValid (c : Condition) : Type 0 where
  at_level : c.type ≡ codes "level" → IsKnownLevel c.level → IsValid c
  on_match : c.type ≡ codes "match" → IsValidQuery c.query → IsValid c
  on_threshold : c.type ≡ codes "threshold" → IsValidQuery c.query → IsValidThreshold c → IsValid c

severity_rank_iff : (l : Text) → (pos 0 ≤ℤ severity_rank l) ↔ IsKnownLevel l
unfolding severity_rank
severity_rank_iff l =
    ground (arith, text_eq_iff l debug, text_eq_iff l info, text_eq_iff l warn, text_eq_iff l error)

validate_query_levels_iff :
    (ls : List Text) → (validate_query_levels ls ≡ none) ↔ All IsKnownLevel ls
unfolding validate_query_levels
validate_query_levels_iff [] = (λ _. tt, λ _. ground arith)
validate_query_levels_iff (l ∷ ls) = (
  λ e. ((severity_rank_iff l).0 (ground arith), (validate_query_levels_iff ls).0 (ground arith)),
  λ h. ground (arith, (severity_rank_iff l).1 h.0, (validate_query_levels_iff ls).1 h.1),
)

is_zero_iff :
    (q : Query)
    → (is_zero q ≡ false)
      ↔ (¬ ((q.levels ≡ []) × (trim_space q.contains ≡ []) × (trim_space q.source ≡ [])))
unfolding is_zero
is_zero_iff q = all_empty q.levels (trim_space q.contains) (trim_space q.source)
  where
    all_empty :
        (xs : List Text) (a b : Text)
        → ((is_empty xs && is_empty a && is_empty b) ≡ false)
          ↔ (¬ ((xs ≡ []) × (a ≡ []) × (b ≡ [])))
    all_empty [] [] [] = (λ e. absurd (ground arith), λ h. absurd (h (refl, refl, refl)))
    all_empty (x ∷ xs) a b = (λ e h. ground (arith, h.0), λ h. refl)
    all_empty [] (x ∷ a) b = (λ e h. ground (arith, h.1), λ h. refl)
    all_empty [] [] (x ∷ b) = (λ e h. ground (arith, h.2), λ h. refl)

validate_query_iff : (q : Option Query) → (validate_query q ≡ none) ↔ IsValidQuery q
unfolding validate_query
validate_query_iff none = ground arith
validate_query_iff (some q) = (
  λ e. ((is_zero_iff q).0 (ground arith), (validate_query_levels_iff q.levels).0 (ground arith)),
  λ h. ground (arith, (is_zero_iff q).1 h.0, (validate_query_levels_iff q.levels).1 h.1),
)

-- Windows up to nine billion seconds either way, which do not wrap around.
abbrev pub InRange : ℤ → Type 0
InRange z = (negsuc 9_000_000_000 ≤ℤ z) × (z ≤ℤ pos 9_000_000_000)

window_iff :
    (z : ℤ)
    → InRange z
    → ((pos min_threshold_window ≤ℤ wrap64 (z *ℤ pos second)) ↔ (pos 30 ≤ℤ z))
      × ((wrap64 (z *ℤ pos second) ≤ℤ pos max_threshold_window) ↔ (z ≤ℤ pos 3_600))
unfolding wrap64 ◌*ℤ◌
window_iff (pos n) h = ground (arith, h)
window_iff (negsuc n) h = ground (arith, h)

validate_threshold_iff :
    (c : Condition) → InRange c.window_seconds → (validate_threshold c ≡ none) ↔ IsValidThreshold c
unfolding validate_threshold window
validate_threshold_iff c range =
    let (from, to) = window_iff c.window_seconds range in
    ground (
      arith,
      from,
      to,
      text_eq_iff c.comparator comparator_gte,
      text_eq_iff c.comparator comparator_gt,
    )

validate_sound : (c : Condition) → InRange c.window_seconds → validate c ≡ none → IsValid c
unfolding validate
validate_sound c range h = elim (Bool-cases (text_eq c.type condition_level)) [
  | inl level ↦ at_level ((text_eq_iff _ _).0 level) ((severity_rank_iff c.level).0 (ground arith))
  | inr other ↦ elim (Bool-cases (text_eq c.type condition_match)) [
    | inl match ↦
        on_match ((text_eq_iff _ _).0 match) ((validate_query_iff c.query).0 (ground arith))
    | inr not_match ↦
        on_threshold ((text_eq_iff c.type condition_threshold).0 (ground arith))
          ((validate_query_iff c.query).0 (ground arith))
          ((validate_threshold_iff c range).0 (ground arith))
  ]
]

validate_complete : (c : Condition) → InRange c.window_seconds → IsValid c → validate c ≡ none
unfolding validate text_eq validate_threshold window
validate_complete c range (at_level e h) = rw e (ground (arith, (severity_rank_iff c.level).1 h))
validate_complete c range (on_match e h) = rw e ((validate_query_iff c.query).1 h)
validate_complete c range (on_threshold e h t) =
    simp (e, (validate_query_iff c.query).1 h) ((validate_threshold_iff c range).1 t)

-- For windows within nine billion seconds, `Validate` accepts a condition exactly when it is of one of the
-- three kinds and has what its kind needs: one of the four levels; a query that asks for something, of
-- those levels alone; or such a query with a window of 30 to 3,600 seconds, a count from 1 to 1,000,000 and
-- the comparator "gte" or "gt".
pub validate_iff : (c : Condition) → InRange c.window_seconds → (validate c ≡ none) ↔ IsValid c
validate_iff c range = (validate_sound c range, validate_complete c range)

abbrev pub longer : Condition → ℕ → Condition
longer c n = record c { window_seconds = pos n }

window_wraps : (c : Condition) (n : ℕ) → window (longer c (n + 2 ^ 55)) ≡ window (longer c n)
unfolding window wrap64 ◌*ℤ◌
window_wraps c n = ground arith

-- The product with a second wraps around: 2 ^ 55 seconds more (over a billion years) are a window of
-- the same length to `Validate`, so that many more are accepted wherever the shorter window is.
pub validate-wraps :
    (c : Condition) (n : ℕ) → validate (longer c (n + 2 ^ 55)) ≡ validate (longer c n)
unfolding validate validate_threshold
validate-wraps c n = rw window_wraps
