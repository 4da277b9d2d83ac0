-- ===== src/ClientErrors/Spikes/Stable.antt =====
-- Which passes of the evaluator see the same, and what a spike that it tells of is.
use logingestor.Prelude.{◌≡◌, ◌/◌, ◌*◌, true, false, List, [], ◌∷◌, select, map, arith, refl}
use native.Mathlib.Omega.{div_any}
use logingestor.Prelude.Int.{pos, leb_ℤ, ltb_ℤ}
use logingestor.Prelude.Clock.{Time}
use logingestor.ClientErrors.Model.{Issue}
use logingestor.ClientErrors.World.{Row, Spike, ErrorStore, ErrorEnv}
use logingestor.ClientErrors.Spikes.{
  spike_of, baseline_start, baseline_start, spike_of, default_spike_baseline, SpikeConfig,
  spike_defaults, span, spike_end, spike_start, is_spike, spikes_in, query_spikes_of,
}

-- For a window of at most an hour the defaults leave a positive window, and a baseline that is not
-- shorter.
pub spike_defaults_sound :
    (c : SpikeConfig)
    → leb_ℤ c.window default_spike_baseline ≡ true
    → (leb_ℤ (spike_defaults c).window (pos 0) ≡ false)
      × (ltb_ℤ (spike_defaults c).baseline (spike_defaults c).window ≡ false)
unfolding spike_defaults
spike_defaults_sound c h = (ground arith, ground (arith, h))

spike_end_quotient :
    (c : SpikeConfig) (now : Time) → spike_end c now ≡ span c.window * (now / span c.window)
unfolding spike_end
spike_end_quotient c now = omega (arith, div_any now (span c.window))

module _ (c : SpikeConfig) (now now' : Time) (ends : spike_end c now ≡ spike_end c now')
    (rows : List Row) where
  spike_of_same : (i : Issue) → spike_of c now rows i ≡ spike_of c now' rows i
  unfolding spike_of spike_start baseline_start
  spike_of_same i = rw ends refl

  is_spike_same : (s : Spike) → is_spike c now s ≡ is_spike c now' s
  unfolding is_spike spike_start
  is_spike_same s = rw ends refl

  spikes_same :
      (issues : List Issue)
      → select (is_spike c now) (map (spike_of c now rows) issues)
        ≡ select (is_spike c now') (map (spike_of c now' rows) issues)
  spikes_same [] = refl
  spikes_same (i ∷ issues) =
      rw (spike_of_same i, is_spike_same (spike_of c now' rows i), spikes_same issues) refl

-- Two passes that begin in one window of the configuration see the same spikes in a table that did not
-- change between them, or both fail.
query_spikes_same :
    (env : ErrorEnv) (now now' : Time) (cfg : SpikeConfig) (w : ErrorStore)
    → now / span (spike_defaults cfg).window ≡ now' / span (spike_defaults cfg).window
    → query_spikes_of env now cfg w ≡ query_spikes_of env now' cfg w
unfolding query_spikes_of spikes_in
query_spikes_same env now now' cfg w h =
    rw (spikes_same (spike_defaults cfg) now now' ends w.rows w.issues) refl
  where
    ends : spike_end (spike_defaults cfg) now ≡ spike_end (spike_defaults cfg) now'
    ends = cc (
      h,
      spike_end_quotient (spike_defaults cfg) now,
      spike_end_quotient (spike_defaults cfg) now',
    )
