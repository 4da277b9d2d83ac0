-- ===== src/Limits/Severity.antt =====
-- business/sdk/ingest/severity.go and sampling.go: the four canonical levels, the mappings onto them,
-- and the sampling decision. `logbus.Level` is the enumeration of business/domain/logbus.
use logingestor.Prelude.{ℕ, ◌≤◌, Bool, true, false, ◌&&◌, ◌||◌, ◌≡◌, arith, if◌then◌else◌, ◌<◌}
use logingestor.Prelude.Int.{ltb_ℤ, ℤ, pos, leb_ℤ}

pub data Level : Type 0 where
  level_debug level_info level_warn level_error : Level

abbrev between : ℕ → ℕ → ℤ → Bool
between lo hi z = leb_ℤ (pos lo) z && leb_ℤ z (pos hi)

unfoldable pub syslog_severity_to_level : ℤ → Level
syslog_severity_to_level sev =
    if between 0 3 sev
    then level_error
    else if between 4 4 sev
    then level_warn
    else if between 5 5 sev || between 6 6 sev
    then level_info
    else if between 7 7 sev
    then level_debug
    else level_info

unfoldable pub otel_severity_to_level : ℤ → Level
otel_severity_to_level num =
    if between 1 8 num
    then level_debug
    else if between 9 12 num
    then level_info
    else if between 13 16 num
    then level_warn
    else if between 17 24 num
    then level_error
    else level_info

-- The order of the levels.
abbrev pub rank : Level → ℕ
rank level_debug = 0
rank level_info = 1
rank level_warn = 2
rank level_error = 3

abbrev is_loud : Level → Bool
is_loud level_warn = true
is_loud level_error = true
is_loud _ = false

-- A rate in [0, 1] and a draw in [0, 1), as multiples of 1 / `unit`: what a float64 is for some power
-- of two.
unfoldable pub keep_record : ℕ → Level → ℤ → ℕ → Bool
keep_record unit level rate r =
    if is_loud level
    then true
    else if leb_ℤ (pos unit) rate
    then true
    else if leb_ℤ rate (pos 0)
    then false
    else ltb_ℤ (pos r) rate

-- A more severe OpenTelemetry number never maps to a less severe level, in the range of the numbers.
otel_severity_to_level-monotone :
    (a b : ℕ)
    → 1 ≤ a
    → a ≤ b
    → b ≤ 24
    → rank (otel_severity_to_level (pos a)) ≤ rank (otel_severity_to_level (pos b))
unfolding otel_severity_to_level
otel_severity_to_level-monotone a b p q r = ground arith

-- In syslog a smaller number is the more severe one.
pub syslog_severity_to_level-antitone :
    (a b : ℕ)
    → a ≤ b
    → b ≤ 7
    → rank (syslog_severity_to_level (pos b)) ≤ rank (syslog_severity_to_level (pos a))
unfolding syslog_severity_to_level
syslog_severity_to_level-antitone a b p q = ground arith

-- Sampling keeps every warning and error, and raising the rate or the level of a record never loses a
-- record that was kept with the same draw.
keep_record-monotone :
    (unit : ℕ) (l m : Level) (rate more : ℤ) (r : ℕ)
    → rank l ≤ rank m
    → leb_ℤ rate more ≡ true
    → r < unit
    → keep_record unit l rate r ≡ true
    → keep_record unit m more r ≡ true
unfolding keep_record
keep_record-monotone unit l m rate more r p q d h = ground arith
