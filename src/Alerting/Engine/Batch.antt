-- ===== src/Alerting/Engine/Batch.antt =====
-- `matchPayloads`: the count and the representative of a batch.
use logingestor.Prelude.{
  All-map, ℕ, ◌+◌, ◌≡◌, refl, Bool, true, false, Option, none, some, List, [], ◌∷◌, ◌++◌, All,
  All-append, length, length-append, select, arith, Bool-cases, if◌then◌else◌, inl, inr,
}
use logingestor.Prelude.Int.{ltb_ℤ}
use logingestor.Prelude.Text.{CaseTable}
use logingestor.Alerting.Condition.{Condition, severity_rank, matches_log}
use logingestor.Alerting.Model.{AlertPayload}
use logingestor.Alerting.Engine.{louder, match_from, match_payloads}
use mathlib.Core.List.{append_assoc, append-nil}

-- The first log is strictly less severe than the second.
abbrev pub Below : AlertPayload → AlertPayload → Type 0
Below p q = ltb_ℤ (severity_rank p.level) (severity_rank q.level) ≡ true

abbrev pub NotAbove : AlertPayload → AlertPayload → Type 0
NotAbove r p = ltb_ℤ (severity_rank r.level) (severity_rank p.level) ≡ false

-- `r` is the first of the most severe logs of the list.
pub record IsLoudest (r : AlertPayload) (ps : List AlertPayload) : Type 0 where
  pub earlier : List AlertPayload
  pub later : List AlertPayload
  pub split : ps ≡ earlier ++ r ∷ later
  pub louder_than : All (λ p. Below p r) earlier
  pub no_louder : All (NotAbove r) later

abbrev pub Represents : Option AlertPayload → List AlertPayload → Type 0
Represents none ps = ps ≡ []
Represents (some r) ps = IsLoudest r ps

Below-new : (r p : AlertPayload) → Below r p → (q : AlertPayload) → Below q r → Below q p
Below-new r p h q k = ground arith

Below-old : (r p : AlertPayload) → Below r p → (q : AlertPayload) → NotAbove r q → Below q p
Below-old r p h q k = ground arith

louder-Represents :
    (rep : Option AlertPayload) (p : AlertPayload) (seen : List AlertPayload)
    → Represents rep seen
    → Represents (louder rep p) (seen ++ p ∷ [])
louder-Represents none p seen h = record {
  earlier = [];
  later = [];
  split = rw h;
  louder_than = tt;
  no_louder = tt;
}
louder-Represents (some r) p seen h =
    elim (Bool-cases (ltb_ℤ (severity_rank r.level) (severity_rank p.level))) [
      | inl up ↦
          let below : All (λ q. Below q p) (h.earlier ++ r ∷ h.later) =
            All-append (λ q. Below q p) h.earlier (r ∷ h.later)
              (All-map (λ q. Below q r) h.earlier (Below-new r p up) h.louder_than)
              (up, All-map (NotAbove r) h.later (Below-old r p up) h.no_louder) in
          rw up (record {
            earlier = seen;
            later = [];
            split = refl;
            louder_than = rw h.split below;
            no_louder = tt;
          })
      | inr same ↦ rw same (record {
        earlier = h.earlier;
        later = h.later ++ p ∷ [];
        split = rw h.split (append_assoc h.earlier (r ∷ h.later) (p ∷ []));
        louder_than = h.louder_than;
        no_louder = All-append (NotAbove r) h.later (p ∷ []) h.no_louder (same, tt);
      })
    ]

module _ (u : CaseTable) (c : Condition) where
  abbrev pub fires : AlertPayload → Bool
  fires p = matches_log u c p.level p.message p.source

  match_from_nil : (n : ℕ) (rep : Option AlertPayload) → match_from u c n rep [] ≡ (n, rep)
  unfolding match_from
  match_from_nil n rep = refl

  match_from_cons :
      (n : ℕ) (rep : Option AlertPayload) (p : AlertPayload) (ps : List AlertPayload)
      → match_from u c n rep (p ∷ ps)
        ≡ match_from u c (if fires p then n + 1 else n) (if fires p then louder rep p else rep) ps
  unfolding match_from
  match_from_cons n rep p ps = refl

  match_from_lem :
      (ps : List AlertPayload) (rep : Option AlertPayload) (seen : List AlertPayload)
      → Represents rep seen
      → ((match_from u c (length seen) rep ps).0 ≡ length (seen ++ select fires ps))
        × Represents (match_from u c (length seen) rep ps).1 (seen ++ select fires ps)
  match_from_lem [] rep seen h = rw (match_from_nil, append-nil) (refl, h)
  match_from_lem (p ∷ ps) rep seen h = elim (Bool-cases (fires p)) [
    | inr out ↦ rw (match_from_cons, out) (match_from_lem ps rep seen h)
    | inl fit ↦
        rw (match_from_cons, fit)
          (rw (← append_assoc seen (p ∷ []) (select fires ps)) (
            rw longer at
              (match_from_lem ps (louder rep p) (seen ++ p ∷ []) (louder-Represents rep p seen h))))
  ]
    where
      longer : length (seen ++ p ∷ []) ≡ length seen + 1
      longer = length-append seen (p ∷ [])

  -- The count is the number of logs of the batch that the condition fires on, and the representative
  -- is the first of the most severe among them; there is none exactly when no log fires.
  pub match_payloads_lem :
      (ps : List AlertPayload)
      → ((match_payloads u c ps).0 ≡ length (select fires ps))
        × Represents (match_payloads u c ps).1 (select fires ps)
  unfolding match_payloads
  match_payloads_lem ps = match_from_lem ps none [] refl
