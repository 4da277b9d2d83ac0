-- ===== src/ClientErrors/Issues/Touch.antt =====
-- What an event that comes in does to the issue that it is filed under.
use logingestor.Prelude.{max, min, ◌+◌, ◌≡◌, ℕ, true, refl, arith, none}
use logingestor.Prelude.Clock.{Time}
use logingestor.Alerting.Model.{Uuid}
use logingestor.ClientErrors.Model.{ErrorLevel, fatal, error, warning, resolved, ignored, Issue}
use logingestor.ClientErrors.Issues.{worse_level, touched, reopened, with_status}

module _ (at at' : Time) (level level' : ErrorLevel) (sample sample' : Uuid) (count count' : ℕ)
    (i : Issue) where
  -- After an event has reopened a resolved issue, every further event of the issue is reported as
  -- reopening it again.
  pub reopened_again :
      i.status ≡ resolved
      → reopened (touched at' level' sample' count' (touched at level sample count i)) ≡ true
  unfolding touched reopened
  reopened_again h = rw h refl

  -- An issue that was flagged, then ignored, reports each event as reopening it, though it stays ignored.
  pub ignored_reopened :
      (now : Time)
      → i.status ≡ resolved
      → (reopened (
            touched at' level' sample' count'
              (with_status ignored now (touched at level sample count i)))
          ≡ true)
        × ((touched at' level' sample' count'
              (with_status ignored now (touched at level sample count i))).status
            ≡ ignored)
  unfolding touched reopened with_status
  ignored_reopened now h = rw h (refl, refl)

worse_level_swap :
    (old a b : ErrorLevel) → worse_level (worse_level old a) b ≡ worse_level (worse_level old b) a
worse_level_swap old fatal fatal = refl
worse_level_swap fatal fatal error = refl
worse_level_swap error fatal error = refl
worse_level_swap warning fatal error = refl
worse_level_swap old fatal warning = refl
worse_level_swap fatal error fatal = refl
worse_level_swap error error fatal = refl
worse_level_swap warning error fatal = refl
worse_level_swap old warning fatal = refl
worse_level_swap old error error = refl
worse_level_swap old error warning = refl
worse_level_swap old warning error = refl
worse_level_swap old warning warning = refl

-- The issue but for the event that it shows as its sample.
abbrev pub without_sample : Issue → Issue
without_sample i = record i { sample_event_id = none }

-- Two events of an issue come to the same in either order, but for the sample that the issue shows.
pub touched_swap :
    (at at' : Time) (level level' : ErrorLevel) (sample sample' : Uuid) (count count' : ℕ)
    (i : Issue)
    → without_sample (touched at level sample count (touched at' level' sample' count' i))
      ≡ without_sample (touched at' level' sample' count' (touched at level sample count i))
unfolding touched
touched_swap at at' level level' sample sample' count count' i =
    let counts : i.event_count + count' + count ≡ i.event_count + count + count' = omega arith in
    let firsts : min (min i.first_seen_at at') at ≡ min (min i.first_seen_at at) at' =
      omega arith in
    let lasts : max (max i.last_seen_at at') at ≡ max (max i.last_seen_at at) at' = omega arith in
    rw (worse_level_swap i.level level' level, counts, firsts, lasts) refl
