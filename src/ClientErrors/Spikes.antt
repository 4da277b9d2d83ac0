-- ===== src/ClientErrors/Spikes.antt =====
-- business/domain/clienterrorbus/spike.go and `QuerySpikes` of stores/clienterrordb/clienterrordb.go. The
-- multiplier and the scale of the baseline are exact fractions in place of `float64` and `numeric`; a
-- multiplier below zero is zero, which the defaults replace too.
pub mod Stable
use logingestor.Prelude.{
  ℕ, ◌+◌, ◌-◌, ◌*◌, ◌%◌, max, Bool, true, false, not, ◌&&◌, List, [], ◌∷◌, ◌++◌, select, map,
  length, ltb, leb, ◌==◌, if◌then◌else◌,
}
use logingestor.Prelude.Int.{ℤ, pos, negsuc, leb_ℤ, ltb_ℤ}
use logingestor.Prelude.Clock.{Time, Duration, minute, hour, before}
use logingestor.Prelude.Result.{ok, err}
use logingestor.Prelude.Exec.{◌>>=◌, pure, reads}
use logingestor.Alerting.Model.{Uuid}
use logingestor.ClientErrors.Model.{IssueStatus, ignored, Issue}
use logingestor.ClientErrors.Issues.{is_event_of}
use logingestor.ClientErrors.World.{
  Row, Spike, Notice, issue_spiked, ErrorStore, query_spikes, call_failed, ErrorEnv, ErrorExec,
}

pub record SpikeConfig : Type 0 where
  pub window : Duration
  pub baseline : Duration
  pub numerator : ℕ
  pub denominator : ℕ
  pub min_events : ℤ

abbrev pub default_spike_window : Duration
default_spike_window = pos (10 * minute)

abbrev pub default_spike_baseline : Duration
default_spike_baseline = pos hour

abbrev pub default_spike_multiplier : ℕ
default_spike_multiplier = 5

abbrev pub default_spike_min_events : ℤ
default_spike_min_events = pos 25

-- The fields are replaced one after another: the baseline is compared with the new window.
abbrev window_or : Duration → Duration
window_or d = if leb_ℤ d (pos 0) then default_spike_window else d

unfoldable pub spike_defaults : SpikeConfig → SpikeConfig
spike_defaults c = record {
  window = window_or c.window;
  baseline = (if ltb_ℤ c.baseline (window_or c.window) then default_spike_baseline else c.baseline);
  numerator = (if leb c.numerator c.denominator then default_spike_multiplier else c.numerator);
  denominator = (if leb c.numerator c.denominator then 1 else c.denominator);
  min_events = (if leb_ℤ c.min_events (pos 0) then default_spike_min_events else c.min_events);
}

abbrev pub span : Duration → ℕ
span (pos n) = n
span (negsuc n) = 0

-- `spikeBounds`, for a window that is positive.
unfoldable pub spike_end : SpikeConfig → Time → Time
spike_end c now = now - now % span c.window

unfoldable pub spike_start : SpikeConfig → Time → Time
spike_start c now = spike_end c now - span c.window

unfoldable pub baseline_start : SpikeConfig → Time → Time
baseline_start c now = spike_start c now - span c.baseline

-- `sum(sampled_count)` of an issue's events in a period that does not hold its end.
abbrev falls_in : Time → Time → Row → Bool
falls_in from to r = not (before r.event.occurred_at from) && before r.event.occurred_at to

unfoldable pub events_between : Uuid → Time → Time → List Row → ℕ
events_between issue from to [] = 0
events_between issue from to (r ∷ rs) =
    let rest = events_between issue from to rs in
    if is_event_of issue r && falls_in from to r then r.event.sampled_count + rest else rest

abbrev pub is_ignored : IssueStatus → Bool
is_ignored ignored = true
is_ignored _ = false

unfoldable pub spike_of : SpikeConfig → Time → List Row → Issue → Spike
spike_of c now rows i = record {
  issue = i;
  current = events_between i.id (spike_start c now) (spike_end c now) rows;
  baseline_events = events_between i.id (baseline_start c now) (spike_start c now) rows;
  window = c.window;
}

-- `n >= multiplier * GREATEST(b * window / baseline, 1)`, cleared of its denominators.
unfoldable pub is_spike : SpikeConfig → Time → Spike → Bool
is_spike c now s =
    not (is_ignored s.issue.status)
    && before s.issue.first_seen_at (spike_start c now)
    && leb_ℤ c.min_events (pos s.current)
    && leb (c.numerator * max (s.baseline_events * span c.window) (span c.baseline))
        (s.current * c.denominator * span c.baseline)

-- `ORDER BY c.n DESC`
unfoldable pub insert_larger : Spike → List Spike → List Spike
insert_larger s [] = s ∷ []
insert_larger s (t ∷ ts) =
    let rest = insert_larger s ts in if leb t.current s.current then s ∷ t ∷ ts else t ∷ rest

unfoldable pub largest_first : List Spike → List Spike
largest_first [] = []
largest_first (s ∷ ss) = insert_larger s (largest_first ss)

unfoldable pub spikes_in : SpikeConfig → Time → List Row → List Issue → List Spike
spikes_in c now rows issues =
    largest_first (select (is_spike c now) (map (spike_of c now rows) issues))

-- The store applies the defaults again, for the bounds.
unfoldable pub query_spikes_of : ErrorEnv → Time → SpikeConfig → ErrorExec (List Spike)
query_spikes_of env now cfg =
    reads (env.fails query_spikes) (call_failed query_spikes)
      λ w. spikes_in (spike_defaults cfg) now w.rows w.issues

abbrev notice_spike : Spike → Notice
notice_spike s = issue_spiked s.issue s

abbrev tell_spikes : ErrorEnv → List Spike → ErrorExec ℕ
tell_spikes env ss w =
    if env.notifies
    then (ok (length ss), record w { notices = w.notices ++ map notice_spike ss })
    else (ok (length ss), w)

unfoldable pub evaluate_spikes : ErrorEnv → Time → SpikeConfig → ErrorExec ℕ
evaluate_spikes env now cfg = do ss ← query_spikes_of env now cfg; tell_spikes env ss
