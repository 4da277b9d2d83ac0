-- ===== src/Alerting/Engine/Grows.antt =====
-- Messages that are appended to the outbox, and members of lists.
use logingestor.Prelude.{
  ap, ◌≡◌, refl, sym, ◌∙◌, Bool, true, List, [], ◌∷◌, ◌++◌, select, Bool-cases, inl, inr,
}
use mathlib.Core.List.Memᴰ
use mathlib.Core.List.{Memᴰ, append_assoc, append-nil}
use logingestor.Alerting.Model.{Uuid, AlertPayload, AlertRule}
use logingestor.Alerting.World.{World}

-- The messages come from the rules in their order, at most one from each, and each satisfies the predicate
-- of its own rule.
pub data OnePerRule (P : AlertRule → Uuid × AlertPayload → Type 0)
    : List AlertRule → List (Uuid × AlertPayload) → Type 0 where
  done : OnePerRule P [] []
  silent :
      (r : AlertRule) {rs : List AlertRule} {ms : List (Uuid × AlertPayload)}
      → OnePerRule P rs ms
      → OnePerRule P (r ∷ rs) ms
  sends :
      (r : AlertRule) {rs : List AlertRule} {m : Uuid × AlertPayload}
      {ms : List (Uuid × AlertPayload)}
      → P r m
      → OnePerRule P rs ms
      → OnePerRule P (r ∷ rs) (m ∷ ms)

-- The outbox grew by such messages.
pub record Grows (P : AlertRule → Uuid × AlertPayload → Type 0) (rules : List AlertRule)
    (w w' : World) : Type 0 where
  pub sent : List (Uuid × AlertPayload)
  pub appended : w'.outbox ≡ w.outbox ++ sent
  pub accounted : OnePerRule P rules sent

module _ {P : AlertRule → Uuid × AlertPayload → Type 0} where
  all_silent : (rs : List AlertRule) → OnePerRule P rs []
  all_silent [] = done
  all_silent (r ∷ rs) = silent r (all_silent rs)

  pub Grows-none : (rs : List AlertRule) {w w' : World} → w'.outbox ≡ w.outbox → Grows P rs w w'
  Grows-none rs {w} e = record {
    sent = [];
    appended = e ∙ sym (append-nil w.outbox);
    accounted = all_silent rs;
  }

  pub Grows-one :
      {r : AlertRule} (m : Uuid × AlertPayload) {w w' : World}
      → w'.outbox ≡ w.outbox ++ m ∷ []
      → P r m
      → Grows P (r ∷ []) w w'
  Grows-one {r} m e fine = record { sent = m ∷ []; appended = e; accounted = sends r fine done }

  -- What leaves the outbox alone before or after changes nothing.
  pub Grows-between :
      {rs : List AlertRule} {v w w' v' : World}
      → w.outbox ≡ v.outbox
      → v'.outbox ≡ w'.outbox
      → Grows P rs w w'
      → Grows P rs v v'
  Grows-between before after g = record {
    sent = g.sent;
    appended = after ∙ g.appended ∙ ap (λ o. o ++ g.sent) before;
    accounted = g.accounted;
  }

  OnePerRule-cons :
      {r : AlertRule} {rs : List AlertRule} {ms ns : List (Uuid × AlertPayload)}
      → OnePerRule P (r ∷ []) ms
      → OnePerRule P rs ns
      → OnePerRule P (r ∷ rs) (ms ++ ns)
  OnePerRule-cons (silent r done) k = silent r k
  OnePerRule-cons (sends r fine done) k = sends r fine k

  pub Grows-cons :
      {r : AlertRule} {rs : List AlertRule} {w w' w'' : World}
      → Grows P (r ∷ []) w w'
      → Grows P rs w' w''
      → Grows P (r ∷ rs) w w''
  Grows-cons {w} g h = record {
    sent = g.sent ++ h.sent;
    appended = h.appended ∙ ap (λ o. o ++ h.sent) g.appended ∙ append_assoc w.outbox g.sent h.sent;
    accounted = OnePerRule-cons g.accounted h.accounted;
  }

pub Grows-map :
    {P Q : AlertRule → Uuid × AlertPayload → Type 0} {rs : List AlertRule} {w w' : World}
    → ((r : AlertRule) (m : Uuid × AlertPayload) → P r m → Q r m)
    → Grows P rs w w'
    → Grows Q rs w w'
Grows-map {P} {Q} f g = record {
  sent = g.sent;
  appended = g.appended;
  accounted = weaken g.accounted;
}
  where
    weaken :
        {rs : List AlertRule} {ms : List (Uuid × AlertPayload)}
        → OnePerRule P rs ms
        → OnePerRule Q rs ms
    weaken done = done
    weaken (silent r k) = silent r (weaken k)
    weaken (sends r {m = m} fine k) = sends r (f r m fine) (weaken k)

pub mem-append_middle {ℓ} : {A : Type ℓ} (xs : List A) (a : A) (ys : List A) → Memᴰ a (xs ++ a ∷ ys)
mem-append_middle [] a ys = Memᴰ.head refl
mem-append_middle (x ∷ xs) a ys = Memᴰ.tail (mem-append_middle xs a ys)

pub mem-select {ℓ} :
    {A : Type ℓ} (p : A → Bool) (a : A) (xs : List A)
    → Memᴰ a (select p xs)
    → Memᴰ a xs × (p a ≡ true)
mem-select p a [] m = absurd (Memᴰ.not-nil m)
mem-select p a (x ∷ xs) m = elim (Bool-cases (p x)) [
  | inr q ↦ let (n, h) = mem-select p a xs (rw q at m) in (Memᴰ.tail n, h)
  | inl q ↦ elim (Memᴰ.cases_cons (rw q at m)) [
    | inl e ↦ (Memᴰ.head e, rw e q)
    | inr n ↦ let (k, h) = mem-select p a xs n in (Memᴰ.tail k, h)
  ]
]
