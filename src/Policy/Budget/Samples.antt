-- ===== src/Policy/Budget/Samples.antt =====
-- Concrete budgets.
use agent_mission_control.Prelude.{◌≡◌, ◌↔◌, refl, some, List, [], ◌∷◌}
use agent_mission_control.Prelude.Word.{saturating_add, saturating_mul}
use agent_mission_control.Policy.Approval.{user}
use agent_mission_control.Policy.Budget.{
  BudgetDimension, BudgetLimits, ask, UsageRecord, sample, unknown_usage, correction, known,
  BudgetTracker, warning, require_approval, pause_at_safe_boundary, one_usage, new, record_usage,
  limit_value, evaluate_safe_boundary, BudgetChange,
}
use agent_mission_control.Policy.Budget.Usage.{usage, record_each, record_each_lem}
use agent_mission_control.Policy.Budget.Signals.{signals_of, Spent, pause_iff}

abbrev limits : BudgetLimits
limits = record {
  tokens = 100;
  money_micros = 50;
  wall_clock = record { secs = 2; nanos = 500000000 };
  changed_lines = 10;
  changed_files = 10;
  model_calls = 10;
}

abbrev history : List UsageRecord
history =
    sample (one_usage BudgetDimension.tokens 85)
    ∷ sample (one_usage BudgetDimension.model_calls 12)
    ∷ unknown_usage BudgetDimension.wall_clock
    ∷ correction BudgetDimension.model_calls 3
    ∷ []

abbrev spent_history : List UsageRecord
spent_history = sample (one_usage BudgetDimension.money_micros 60) ∷ history

tracker : BudgetTracker
unfolding new record_each
tracker = record_each (new 1 limits ask) history

tracker_signals :
    (evaluate_safe_boundary tracker).1
    ≡ warning BudgetDimension.tokens ∷ require_approval BudgetDimension.wall_clock ∷ []
unfolding tracker record_usage one_usage saturating_add evaluate_safe_boundary limit_value
    saturating_mul
tracker_signals = refl

record_each_lem_example :
    ((record_each (new 1 limits ask) spent_history).records ≡ spent_history)
    × ((d : BudgetDimension)
        → (record_each (new 1 limits ask) spent_history).projection d
          ≡ some (usage d (known 0) spent_history))
record_each_lem_example = record_each_lem 1 limits ask spent_history

pause_iff_example :
    (signals_of BudgetDimension.tokens (evaluate_safe_boundary tracker).1
      ≡ pause_at_safe_boundary BudgetDimension.tokens ∷ [])
    ↔ Spent tracker BudgetDimension.tokens (tracker.projection BudgetDimension.tokens)
pause_iff_example = pause_iff tracker BudgetDimension.tokens

abbrev raise : BudgetChange
raise = record { actor = user; contract_version = 2; limits = limits }
