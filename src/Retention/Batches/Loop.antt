-- ===== src/Retention/Batches/Loop.antt =====
-- The rule for a loop of deletes: every turn keeps the invariant and shrinks a measure, so the loop ends
-- before its fuel does.
use logingestor.Prelude.{ℕ, zero, suc, ◌<◌, arith}
use logingestor.Retention.Model.{Tables}
use logingestor.Retention.Batches.{Purged, Turn, halt, go_on, after_turn, run_batches}

abbrev pub Ends : (ℕ → Tables → Type 0) → (Purged → Tables → Type 0) → Turn → Type 0
Ends inv post (halt o w) = post o w
Ends inv post (go_on d w) = inv d w

pub batches_rule :
    (turn : ℕ → Tables → Turn) (size : Tables → ℕ) (inv : ℕ → Tables → Type 0)
    (post : Purged → Tables → Type 0)
    → ((d : ℕ) (w : Tables)
        → inv d w
        → Ends (λ d' w'. inv d' w' × (size w' < size w)) post (turn d w))
    → (fuel d : ℕ) (w : Tables) → size w < fuel
    → inv d w
    → post (run_batches turn fuel d w).0 (run_batches turn fuel d w).1
unfolding run_batches
batches_rule turn size inv post step zero d w lt i = absurd (omega arith)
batches_rule turn size inv post step (suc fuel) d w lt i =
    go (turn d w) (step d w i)
      (λ d' w' smaller h. batches_rule turn size inv post step fuel d' w' (omega arith) h)
  where
    go :
        (t : Turn)
        → Ends (λ d' w'. inv d' w' × (size w' < size w)) post t
        → ((d' : ℕ) (w' : Tables)
            → size w' < size w
            → inv d' w'
            → post (run_batches turn fuel d' w').0 (run_batches turn fuel d' w').1)
        → post (after_turn (run_batches turn fuel) t).0 (after_turn (run_batches turn fuel) t).1
    go (halt o w') h more = h
    go (go_on d' w') (h, smaller) more = more d' w' smaller h
