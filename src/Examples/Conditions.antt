-- ===== src/Examples/Conditions.antt =====
-- Instances of the theorems on conditions, suppression and batches.
use logingestor.Alerting.Condition.{is_zero}
use logingestor.Prelude.Int.{wrap64, ◌*ℤ◌}
use logingestor.Alerting.Condition.{is_zero, validate_query_levels, severity_rank, window}
use logingestor.Prelude.Text.{text_eq}
use logingestor.Prelude.{◌^◌, ◌+◌, ◌≡◌, refl, true, none, some, [], arith, ◌↔◌}
use logingestor.Prelude.Int.{pos}
use logingestor.Prelude.Result.{ok}
use logingestor.Alerting.Condition.{
  validate_threshold, validate_query, Query, validate, parse_condition,
}
use logingestor.Alerting.Condition.Valid.{IsValid, validate_iff, validate-wraps, longer}
use logingestor.Alerting.Suppress.{SuppressInput}
use logingestor.Examples.Data.{many_timeouts, timeouts, open_alert}

validate_iff_example : (validate many_timeouts ≡ none) ↔ IsValid many_timeouts
validate_iff_example = validate_iff many_timeouts (ground arith, ground arith)

accepted : parse_condition (λ stored. some many_timeouts) [] ≡ ok many_timeouts
unfolding parse_condition validate validate_query validate_threshold text_eq is_zero
    validate_query_levels severity_rank window wrap64 ◌*ℤ◌
accepted = refl

validate-wraps_example :
    validate (longer many_timeouts (300 + 2 ^ 55)) ≡ validate (longer many_timeouts 300)
validate-wraps_example = validate-wraps many_timeouts 300

abbrev wider : Query
wider = record timeouts { levels = [] }

-- Half a minute after an alert that was notified at the instant zero.
abbrev soon : SuppressInput
soon = record {
  now = 30;
  rule_active = true;
  snooze_until = none;
  dedup_window = pos 60;
  project_id = 2;
  existing = some open_alert;
  maintenances = [];
}
