-- ===== src/Alerting/Engine/Justified.antt =====
-- Every message that `FireAlerts` sends is accounted for by a rule and a log of the batch.
use logingestor.Prelude.{
  All-map, ℕ, ◌≡◌, refl, Bool, true, false, Option, none, some, List, [], ◌∷◌, ◌++◌, arith, All,
  select, length, Bool-cases, inl, inr, ◌⊎◌, ◌==◌, ◌&&◌,
}
use mathlib.Core.List.{Memᴰ}
use logingestor.Prelude.Clock.{Time}
use logingestor.Prelude.Result.{Result, ok, err}
use logingestor.Alerting.Condition.{needs_evaluator}
use logingestor.Alerting.Model.{
  Uuid, SuppressReason, MaintenanceWindow, AlertEvent, AlertPayload, AlertRule,
}
use logingestor.Alerting.World.{query_active_rules, AlertError, World, Env, query_open, record_row}
use logingestor.Alerting.Engine.{
  fire_active, raise, conclude, send_alert, query_integration, send_by, deliver_to, save_notified,
  fire_matched, fire_rule, fire_rules, log_raise, active_rules, load_windows, fire_alerts,
  match_payloads,
}
use logingestor.Alerting.Engine.Grows.{
  Grows, Grows-none, Grows-one, Grows-between, Grows-cons, mem-append_middle, mem-select,
}
use logingestor.Alerting.Engine.Batch.{fires, match_payloads_lem, Represents}
use logingestor.Alerting.Engine.Raise.{
  key_of, delivered, raise_records, raise_query_fails, raise_record_fails,
}

-- What one call of `conclude` sends: nothing, or its message over the rule's connection.
conclude-outbox :
    (env : Env) (rule : AlertRule) (p : AlertPayload) (e : AlertEvent) (now : Time)
    (d : Bool × SuppressReason) (w : World)
    → ((conclude env rule p e now d w).1.outbox ≡ w.outbox)
      ⊎ ((conclude env rule p e now d w).1.outbox ≡ w.outbox ++ (rule.connection_id, p) ∷ [])
unfolding conclude send_alert query_integration send_by deliver_to save_notified
conclude-outbox env rule p e now (false, why) w = inl refl
conclude-outbox env rule p e now (true, why) w = ground arith

pub raise-outbox :
    (env : Env) (rule : AlertRule) (rep : AlertPayload) (matched : ℕ)
    (windows : List MaintenanceWindow) (now : Time) (w : World)
    → ((raise env rule rep matched windows now w).1.outbox ≡ w.outbox)
      ⊎ ((raise env rule rep matched windows now w).1.outbox
          ≡ w.outbox ++ (rule.connection_id, delivered rep matched) ∷ [])
raise-outbox env rule rep matched windows now w =
    elim (Bool-cases (env.fails (query_open rule.id (key_of env rule rep)))) [
      | inl q ↦ inl (rw (raise_query_fails env rule rep matched windows now w q))
      | inr q ↦ elim (Bool-cases (env.fails (record_row rule.id))) [
        | inl r ↦ inl (rw (raise_record_fails env rule rep matched windows now w q r))
        | inr r ↦
            rw (raise_records env rule rep matched windows now w q r)
              (conclude-outbox env rule _ _ now _ _)
      ]
    ]

-- Why a rule may send a message for a project and a batch: it is a rule of the store, of that project, switched
-- on and decided log by log, whose condition fires on a log of the batch; the message goes over the
-- rule's connection and is that log's, with the number of logs that the condition fires on.
pub record IsJustified (env : Env) (project : Uuid) (rules : List AlertRule)
    (batch : List AlertPayload) (rule : AlertRule) (d : Uuid × AlertPayload) : Type 0 where
  pub rep : AlertPayload
  pub stored : Memᴰ rule rules
  pub in_project : rule.project_id ≡ project
  pub is_on : rule.is_active ≡ true
  pub by_log : needs_evaluator rule.condition ≡ false
  pub among : Memᴰ rep batch
  pub fits : fires env.unicode rule.condition rep ≡ true
  pub over : d.0 ≡ rule.connection_id
  pub message : d.1 ≡ delivered rep (length (select (fires env.unicode rule.condition) batch))

-- A rule that `QueryActiveRules` answers with.
abbrev pub IsListed : Uuid → List AlertRule → AlertRule → Type 0
IsListed project rules rule =
    Memᴰ rule rules × (rule.project_id ≡ project) × (rule.is_active ≡ true)

IsListed-tail :
    (project : Uuid) (r : AlertRule) (rs : List AlertRule) (s : AlertRule)
    → IsListed project rs s
    → IsListed project (r ∷ rs) s
IsListed-tail project r rs s h = (Memᴰ.tail h.0, h.1, h.2)

active_rules-IsListed :
    (project : Uuid) (rules : List AlertRule)
    → All (IsListed project rules) (active_rules project rules)
unfolding active_rules
active_rules-IsListed project [] = tt
active_rules-IsListed project (r ∷ rs) =
    let rest : All (IsListed project (r ∷ rs)) (active_rules project rs) =
      All-map (IsListed project rs) (active_rules project rs) (IsListed-tail project r rs)
        (active_rules-IsListed project rs) in
    elim (Bool-cases (r.project_id == project && r.is_active)) [
      | inl q ↦ rw q ((Memᴰ.head refl, ground arith, ground arith), rest)
      | inr q ↦ rw q rest
    ]

module _ (env : Env) (project : Uuid) (rules : List AlertRule) (batch : List AlertPayload)
    (windows : List MaintenanceWindow) (now : Time) where
  abbrev Fine : AlertRule → Uuid × AlertPayload → Type 0
  Fine = IsJustified env project rules batch

  justify :
      (rule : AlertRule) (rep : AlertPayload)
      → IsListed project rules rule
      → needs_evaluator rule.condition ≡ false
      → Memᴰ rep (select (fires env.unicode rule.condition) batch)
      → Fine rule (
        rule.connection_id,
        delivered rep (length (select (fires env.unicode rule.condition) batch)),
      )
  justify rule rep listed by_log m =
      let (among, fits) = mem-select (fires env.unicode rule.condition) rep batch m in
      record {
        rep = rep;
        stored = listed.0;
        in_project = listed.1;
        is_on = listed.2;
        by_log = by_log;
        among = among;
        fits = fits;
        over = refl;
        message = refl;
      }

  raise-Grows :
      (rule : AlertRule) (rep : AlertPayload) (matched : ℕ) (w : World)
      → Fine rule (rule.connection_id, delivered rep matched)
      → Grows Fine (rule ∷ []) w (raise env rule rep matched windows now w).1
  raise-Grows rule rep matched w fine = elim (raise-outbox env rule rep matched windows now w) [
    | inl same ↦ Grows-none (rule ∷ []) same
    | inr one ↦ Grows-one _ one fine
  ]

  outbox-log_raise :
      (rule : Uuid) (r : Result AlertError (Unit {0}) × World)
      → (log_raise rule r).outbox ≡ r.1.outbox
  unfolding log_raise
  outbox-log_raise rule (ok a, w) = refl
  outbox-log_raise rule (err e, w) = refl

  fire_matched-Grows :
      (rule : AlertRule) (m : ℕ × Option AlertPayload) (w : World)
      → ((rep : AlertPayload) → m.1 ≡ some rep → Fine rule (rule.connection_id, delivered rep m.0))
      → Grows Fine (rule ∷ []) w (fire_matched env rule windows now m w)
  unfolding fire_matched
  fire_matched-Grows rule (matched, none) w fine = Grows-none _ refl
  fire_matched-Grows rule (matched, some rep) w fine = elim (Bool-cases (matched == 0)) [
    | inl q ↦ rw q (Grows-none _ refl)
    | inr q ↦ rw q (
        Grows-between refl (outbox-log_raise rule.id (raise env rule rep matched windows now w))
          (raise-Grows rule rep matched w (fine rep refl)))
  ]

  represented :
      (rule : AlertRule) (m : ℕ × Option AlertPayload) (rep : AlertPayload)
      → IsListed project rules rule
      → needs_evaluator rule.condition ≡ false
      → (m.0 ≡ length (select (fires env.unicode rule.condition) batch))
        × Represents m.1 (select (fires env.unicode rule.condition) batch)
      → m.1 ≡ some rep
      → Fine rule (rule.connection_id, delivered rep m.0)
  represented rule (matched, none) rep listed by_log h e = cc
  represented rule (matched, some r) rep listed by_log h e =
      let same : r ≡ rep = ground arith in
      let inside : Memᴰ rep (select (fires env.unicode rule.condition) batch) =
        rw (← same) (rw h.1.split (mem-append_middle h.1.earlier r h.1.later)) in
      rw h.0 (justify rule rep listed by_log inside)

  fire_rule-Grows :
      (rule : AlertRule) (w : World)
      → IsListed project rules rule
      → Grows Fine (rule ∷ []) w (fire_rule env batch windows now rule w)
  unfolding fire_rule
  fire_rule-Grows rule w listed = elim (Bool-cases (needs_evaluator rule.condition)) [
    | inl q ↦ rw q (Grows-none _ refl)
    | inr q ↦ rw q (
        fire_matched-Grows rule (match_payloads env.unicode rule.condition batch) w (λ rep e.
          represented rule (match_payloads env.unicode rule.condition batch) rep listed q
            (match_payloads_lem env.unicode rule.condition batch) e))
  ]

  fire_rules-Grows :
      (rs : List AlertRule) (w : World)
      → All (IsListed project rules) rs
      → Grows Fine rs w (fire_rules env batch windows now rs w)
  unfolding fire_rules
  fire_rules-Grows [] w h = Grows-none [] refl
  fire_rules-Grows (r ∷ rs) w h =
      Grows-cons (fire_rule-Grows r w h.0)
        (fire_rules-Grows rs (fire_rule env batch windows now r w) h.1)

pub outbox-load_windows :
    (env : Env) (org : Uuid) (now : Time) (w : World)
    → (load_windows env org now w).1.outbox ≡ w.outbox
unfolding load_windows
outbox-load_windows env org now w = ground arith

fire_active-Grows :
    (env : Env) (project : Uuid) (rules : List AlertRule) (batch : List AlertPayload) (now : Time)
    (rs : List AlertRule) (w : World)
    → All (IsListed project rules) rs
    → Grows (IsJustified env project rules batch) rs w (fire_active env batch now rs w).1
fire_active-Grows env project rules batch now [] w h = Grows-none [] refl
fire_active-Grows env project rules batch now (r ∷ rs) w h =
    Grows-between (outbox-load_windows env r.org_id now w) refl (
      fire_rules-Grows env project rules batch (load_windows env r.org_id now w).0 now (r ∷ rs)
        (load_windows env r.org_id now w).1 h)

-- `FireAlerts` only appends to the outbox. Its messages come from the active rules of the project in their
-- order, at most one from each, and each is justified by its rule: the rule is no threshold rule, the log
-- is one of the batch that the rule's condition fires on, the message tells how many logs of the batch the
-- condition fires on, and it goes over the rule's connection.
pub fire_alerts-IsJustified :
    (env : Env) (project : Uuid) (batch : List AlertPayload) (now : Time) (w : World)
    → Grows
        (IsJustified env project w.rules batch)
        (active_rules project w.rules)
        w
        (fire_alerts env project batch now w).1
unfolding fire_alerts
fire_alerts-IsJustified env project [] now w = Grows-none _ refl
fire_alerts-IsJustified env project (p ∷ ps) now w =
    elim (Bool-cases (env.fails (query_active_rules project))) [
      | inl q ↦ rw q (Grows-none _ refl)
      | inr q ↦ rw q (
          fire_active-Grows env project w.rules (p ∷ ps) now (active_rules project w.rules) w
            (active_rules-IsListed project w.rules))
    ]
