-- ===== src/Alerting/Threshold/Evaluate.antt =====
-- What one pass of `EvaluateThresholds` sends.
use logingestor.Prelude.{
  ℕ, ◌≡◌, refl, ◌∙◌, true, Option, none, some, List, [], ◌∷◌, arith, All, All-map, Bool-cases, inl,
  inr, ◌&&◌,
}
use mathlib.Core.List.{Memᴰ}
use logingestor.Prelude.Clock.{Time}
use logingestor.Prelude.Text.{text_eq, text_eq_iff}
use logingestor.Prelude.Result.{Result, ok, err}
use logingestor.Alerting.Condition.{Query, satisfied, condition_threshold}
use logingestor.Alerting.Model.{Uuid, AlertPayload, AlertRule}
use logingestor.Alerting.World.{AlertError, World, Env, count_logs, query_threshold_rules}
use logingestor.Alerting.Engine.{raise}
use logingestor.Alerting.Engine.Grows.{Grows, Grows-none, Grows-one, Grows-between, Grows-cons}
use logingestor.Alerting.Engine.Justified.{raise-outbox, outbox-load_windows}
use logingestor.Alerting.Engine.Raise.{delivered}
use logingestor.Alerting.Threshold.{
  Pass, threshold_payload, window_start, resolve_open, windows_for, after_raise, after_resolve,
  breach, evaluate_query, evaluate_with, evaluate_rule, evaluate_rules, threshold_rules,
  evaluate_thresholds,
}

-- Why a rule may send a message in a pass of the evaluator: it is a stored, active threshold rule whose count over its window is
-- reached; the message goes over the rule's connection and reports that count.
pub record IsBreach (env : Env) (now : Time) (rules : List AlertRule) (rule : AlertRule)
    (d : Uuid × AlertPayload) : Type 0 where
  pub query : Query
  pub matched : ℕ
  pub stored : Memᴰ rule rules
  pub is_on : rule.is_active ≡ true
  pub is_threshold : rule.condition.type ≡ condition_threshold
  pub asks : rule.condition.query ≡ some query
  pub counted :
      matched ≡ env.count_matching rule.project_id query (window_start rule.condition now) now
  pub reached : satisfied rule.condition matched ≡ true
  pub over : d.0 ≡ rule.connection_id
  pub message : d.1 ≡ delivered (threshold_payload env rule query matched now) matched

abbrev pub IsThresholdRule : List AlertRule → AlertRule → Type 0
IsThresholdRule rules rule =
    Memᴰ rule rules × (rule.is_active ≡ true) × (rule.condition.type ≡ condition_threshold)

threshold_tail :
    (r : AlertRule) (rs : List AlertRule) (s : AlertRule)
    → IsThresholdRule rs s
    → IsThresholdRule (r ∷ rs) s
threshold_tail r rs s h = (Memᴰ.tail h.0, h.1, h.2)

threshold_rules-IsThresholdRule :
    (rules : List AlertRule) → All (IsThresholdRule rules) (threshold_rules rules)
unfolding threshold_rules
threshold_rules-IsThresholdRule [] = tt
threshold_rules-IsThresholdRule (r ∷ rs) =
    let rest : All (IsThresholdRule (r ∷ rs)) (threshold_rules rs) =
      All-map (IsThresholdRule rs) (threshold_rules rs) (threshold_tail r rs)
        (threshold_rules-IsThresholdRule rs) in
    elim (Bool-cases (r.is_active && text_eq r.condition.type condition_threshold)) [
      | inl q ↦ rw q (
        (
          Memᴰ.head refl,
          ground arith,
          (text_eq_iff r.condition.type condition_threshold).0 (ground arith),
        ),
        rest,
      )
      | inr q ↦ rw q rest
    ]

resolve_open-outbox :
    (env : Env) (rule : AlertRule) (now : Time) (w : World)
    → (resolve_open env rule now w).1.outbox ≡ w.outbox
unfolding resolve_open
resolve_open-outbox env rule now w = ground arith

after_resolve-outbox :
    (rule : Uuid) (p : Pass) (r : Result AlertError (Unit {0}) × World)
    → (after_resolve rule p r).world.outbox ≡ r.1.outbox
unfolding after_resolve
after_resolve-outbox rule p (ok a, w) = refl
after_resolve-outbox rule p (err e, w) = refl

after_raise-outbox :
    (rule : Uuid) (p : Pass) (r : Result AlertError (Unit {0}) × World)
    → (after_raise rule p r).world.outbox ≡ r.1.outbox
unfolding after_raise
after_raise-outbox rule p (ok a, w) = refl
after_raise-outbox rule p (err e, w) = refl

windows_for-outbox :
    (env : Env) (org : Uuid) (now : Time) (p : Pass)
    → (windows_for env org now p).1.world.outbox ≡ p.world.outbox
unfolding windows_for
windows_for-outbox env org now p = ground (arith, outbox-load_windows env org now p.world)

module _ (env : Env) (now : Time) (rules : List AlertRule) where
  abbrev Fine : AlertRule → Uuid × AlertPayload → Type 0
  Fine = IsBreach env now rules

  breach-Grows :
      (rule : AlertRule) (q : Query) (matched : ℕ) (p : Pass)
      → Fine rule (rule.connection_id, delivered (threshold_payload env rule q matched now) matched)
      → Grows Fine (rule ∷ []) p.world (breach env rule q matched now p).world
  unfolding breach
  breach-Grows rule q matched p fine =
      let (ws, p') = windows_for env rule.org_id now p in
      let sent : Grows Fine (rule ∷ []) p'.world
          (raise env rule (threshold_payload env rule q matched now) matched ws now p'.world).1 =
        elim (raise-outbox env rule (threshold_payload env rule q matched now) matched ws now
          p'.world) [ inl same ↦ Grows-none (rule ∷ []) same | inr one ↦ Grows-one _ one fine ] in
      Grows-between (windows_for-outbox env rule.org_id now p) (after_raise-outbox rule.id p' _)
        sent

  evaluate_query-Grows :
      (rule : AlertRule) (q : Query) (p : Pass)
      → IsThresholdRule rules rule
      → rule.condition.query ≡ some q
      → Grows Fine (rule ∷ []) p.world (evaluate_query env rule q now p).world
  unfolding evaluate_query
  evaluate_query-Grows rule q p listed asks =
      let n = env.count_matching rule.project_id q (window_start rule.condition now) now in
      elim (Bool-cases (env.fails (count_logs rule.id))) [
        | inl f ↦ rw f (Grows-none _ refl)
        | inr f ↦ rw f (elim (Bool-cases (satisfied rule.condition n)) [
          | inr s ↦ rw s (
              Grows-none (rule ∷ []) (
                after_resolve-outbox rule.id p (resolve_open env rule now p.world)
                ∙ resolve_open-outbox env rule now p.world))
          | inl s ↦ rw s (
              breach-Grows rule q n p (record {
                query = q;
                matched = n;
                stored = listed.0;
                is_on = listed.1;
                is_threshold = listed.2;
                asks = asks;
                counted = refl;
                reached = s;
                over = refl;
                message = refl;
              }))
        ])
      ]

  evaluate_with-Grows :
      (rule : AlertRule) (o : Option Query) (p : Pass)
      → IsThresholdRule rules rule
      → rule.condition.query ≡ o
      → Grows Fine (rule ∷ []) p.world (evaluate_with env rule o now p).world
  evaluate_with-Grows rule none p listed e = Grows-none _ refl
  evaluate_with-Grows rule (some q) p listed e = evaluate_query-Grows rule q p listed e

  evaluate_rule-Grows :
      (rule : AlertRule) (p : Pass)
      → IsThresholdRule rules rule
      → Grows Fine (rule ∷ []) p.world (evaluate_rule env now rule p).world
  unfolding evaluate_rule
  evaluate_rule-Grows rule p listed =
      elim (Bool-cases (text_eq rule.condition.type condition_threshold)) [
        | inr q ↦ rw q (Grows-none _ refl)
        | inl q ↦ rw q (evaluate_with-Grows rule rule.condition.query p listed refl)
      ]

  evaluate_rules-Grows :
      (rs : List AlertRule) (p : Pass)
      → All (IsThresholdRule rules) rs
      → Grows Fine rs p.world (evaluate_rules env now rs p).world
  unfolding evaluate_rules
  evaluate_rules-Grows [] p h = Grows-none [] refl
  evaluate_rules-Grows (r ∷ rs) p h =
      Grows-cons (evaluate_rule-Grows r p h.0)
        (evaluate_rules-Grows rs (evaluate_rule env now r p) h.1)

-- A pass of `EvaluateThresholds` only appends to the outbox. Its messages come from the active threshold
-- rules in their order, at most one from each, and each reports a breach of its rule: the count over the
-- rule's window satisfies the comparator, and the message goes over the rule's connection.
pub evaluate_thresholds_justified :
    (env : Env) (now : Time) (w : World)
    → Grows (IsBreach env now w.rules) (threshold_rules w.rules) w (evaluate_thresholds env now w).1
unfolding evaluate_thresholds
evaluate_thresholds_justified env now w = elim (Bool-cases (env.fails query_threshold_rules)) [
  | inl q ↦ rw q (Grows-none _ refl)
  | inr q ↦ rw q (
      evaluate_rules-Grows env now w.rules (threshold_rules w.rules)
        (record { world = w; windows_by_org = []; fired = 0 })
        (threshold_rules-IsThresholdRule w.rules))
]
