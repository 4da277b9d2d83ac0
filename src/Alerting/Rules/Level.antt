-- ===== src/Alerting/Rules/Level.antt =====
-- `UpdateRule`: what it keeps of a rule's condition.
use logingestor.Prelude.{inr, inl, ◌≡◌, refl, Bool, true, false, Option, none, some, arith}
use logingestor.Prelude.Clock.{Time}
use logingestor.Prelude.Text.{Text}
use logingestor.Prelude.Result.{ok, Result-cases}
use logingestor.Alerting.Condition.{level_condition, condition_level}
use logingestor.Alerting.Model.{AlertRule}
use logingestor.Alerting.World.{World, Env}
use logingestor.Alerting.Rules.{UpdateAlertRule, updated_rule, check_update, update_rule, save_rule}

update_rule_returns :
    (env : Env) (now : Time) (r r' : AlertRule) (ur : UpdateAlertRule) (w w' : World)
    → update_rule env now r ur w ≡ (ok r', w')
    → r' ≡ updated_rule now r ur
unfolding update_rule save_rule
update_rule_returns env now r r' ur w w' h = elim (Result-cases (check_update env r ur w).0) [
  | inl (e, q) ↦ absurd (ground (arith, q))
  | inr (u, q) ↦ ground (arith, q)
]

-- Changing only the level of a rule that fires by level changes what it fires at: the rule that
-- `UpdateRule` returns has the new level, and its condition is the one of that level.
update_rule_retargets :
    (env : Env) (now : Time) (r r' : AlertRule) (ur : UpdateAlertRule) (l : Text) (w w' : World)
    → ur.level ≡ some l
    → ur.condition ≡ none
    → r.condition.type ≡ condition_level
    → update_rule env now r ur w ≡ (ok r', w')
    → (r'.level ≡ l) × (r'.condition ≡ level_condition l)
unfolding updated_rule level_condition logingestor.Prelude.Text.text_eq
update_rule_retargets env now r r' ur l w w' level kept by_level h =
    rw (update_rule_returns env now r r' ur w w' h) (rw (level, kept, by_level) (refl, refl))
