-- ===== src/ClientErrors/Reports/Resend.antt =====
-- A batch that the browser sends again, as `sendBeacon` does when it does not know.
use logingestor.Prelude.{
  ℕ, suc, ◌≤◌, ◌≡◌, refl, Bool, true, false, ◌||◌, List, [], ◌∷◌, ◌++◌, any, All, length, ◌==◌,
  ==_iff, arith,
}
use logingestor.Prelude.Clock.{Time}
use logingestor.Prelude.Result.{ok}
use logingestor.Alerting.Model.{Uuid}
use logingestor.ClientErrors.Model.{max_batch_events, NewEvent, Reporter, Event}
use logingestor.ClientErrors.Scrub.{scrub}
use logingestor.ClientErrors.World.{Row, ErrorStore, insert_events, ErrorEnv}
use logingestor.ClientErrors.Reports.{
  stored_event, stored_events, new_row, has_key, insert_row, insert_rows, store_events, ingest,
}

abbrev Present : List Row → Event → Type 0
Present rows e = any (has_key e.event_id) rows ≡ true

any-append : (p : Row → Bool) (xs ys : List Row) → any p (xs ++ ys) ≡ (any p xs || any p ys)
any-append p [] ys = refl
any-append p (x ∷ xs) ys = ground (arith, any-append p xs ys)

insert_row-Present-old :
    (d e : Event) (rows : List Row) → Present rows d → Present (insert_row e rows) d
unfolding insert_row
insert_row-Present-old d e rows h =
    ground (arith, any-append (has_key d.event_id) rows (new_row e ∷ []))

insert_row-Present : (e : Event) (rows : List Row) → Present (insert_row e rows) e
unfolding insert_row
insert_row-Present e rows =
    ground
      (arith, any-append (has_key e.event_id) rows (new_row e ∷ []), ==_iff e.event_id e.event_id)

insert_rows-Present-old :
    (d : Event) (es : List Event) (rows : List Row)
    → Present rows d
    → Present (insert_rows es rows) d
unfolding insert_rows
insert_rows-Present-old d [] rows h = h
insert_rows-Present-old d (e ∷ es) rows h =
    insert_rows-Present-old d es (insert_row e rows) (insert_row-Present-old d e rows h)

insert_rows-Present : (es : List Event) (rows : List Row) → All (Present (insert_rows es rows)) es
unfolding insert_rows
insert_rows-Present [] rows = tt
insert_rows-Present (e ∷ es) rows = (
  insert_rows-Present-old e es (insert_row e rows) (insert_row-Present e rows),
  insert_rows-Present es (insert_row e rows),
)

insert_rows_known :
    (es : List Event) (rows : List Row) → All (Present rows) es → insert_rows es rows ≡ rows
unfolding insert_rows insert_row
insert_rows_known [] rows h = refl
insert_rows_known (e ∷ es) rows h = rw h.0 (insert_rows_known es rows h.1)

-- The client gave the report a key.
abbrev pub HasKey : NewEvent → Type 0
HasKey ne = (ne.event_id == 0) ≡ false

-- What is stored under a client's key does not depend on who sends the batch, and when.
stored_events-Present :
    (env : ErrorEnv) (now now' : Time) (ids ids' : ℕ → Uuid) (n : ℕ) (who who' : Reporter)
    (nes : List NewEvent) (rows : List Row)
    → All HasKey nes
    → All (Present rows) (stored_events env now ids n who nes)
    → All (Present rows) (stored_events env now' ids' n who' nes)
unfolding stored_events stored_event scrub
stored_events-Present env now now' ids ids' n who who' [] rows k h = tt
stored_events-Present env now now' ids ids' n who who' (ne ∷ nes) rows k h = (
  ground (arith, k.0, h.0),
  stored_events-Present env now now' ids ids' (suc n) who who' nes rows k.1 h.1,
)

module _ (env : ErrorEnv) (now now' : Time) (ids ids' : ℕ → Uuid) (who who' : Reporter)
    (nes : List NewEvent) (w : ErrorStore) where
  -- Sending a batch of one to fifty reports again, all with keys of the client, is accepted while the
  -- insert works, stores nothing and counts nothing as new, whoever sends it and when.
  pub ingest_again :
      env.fails insert_events ≡ false
      → 1 ≤ length nes
      → length nes ≤ max_batch_events
      → All HasKey nes
      → ingest env now' ids' who' nes (ingest env now ids who nes w).1
        ≡ (ok 0, (ingest env now ids who nes w).1)
  unfolding ingest store_events
  ingest_again works some_of few keys = ground (arith, works, repeat)
    where
      repeat :
          insert_rows
            (stored_events env now' ids' 0 who' nes)
            (insert_rows (stored_events env now ids 0 who nes) w.rows)
          ≡ insert_rows (stored_events env now ids 0 who nes) w.rows
      repeat = insert_rows_known _ _ (
          stored_events-Present env now now' ids ids' 0 who who' nes _ keys
            (insert_rows-Present (stored_events env now ids 0 who nes) w.rows))
