-- ===== src/Supervisor/Budgets.antt =====
-- crates/supervisor/src/mission_service.rs: the budget that a mission is created with, the budget that is
-- read back from its events, and what an event of a run says of the tokens it has used.
pub mod Tokens
use agent_mission_control.Prelude.{
  ℕ, ◌+◌, ◌-◌, ◌*◌, ◌/◌, ◌%◌, ◌^◌, max, Option, none, some, List, [], ◌∷◌, String, if◌then◌else◌,
  Bool, true, false,
}
use agent_mission_control.Prelude.Text.{str_eq}
use agent_mission_control.Prelude.Word.{u64_mod}
use agent_mission_control.Domain.Event.{Json, EventKind, EventEnvelope}
use agent_mission_control.Policy.Budget.{
  BudgetDimension, Duration, BudgetLimits, BudgetTracker, BudgetSignal, UsageRecord, sample,
  unknown_usage, UnknownUsagePolicy, pause, new, one_usage, with_usage, record_usage,
  evaluate_safe_boundary,
}

pub record MissionBudgetRequest : Type 0 where
  pub tokens : Option ℕ
  pub money_micros : Option ℕ
  pub wall_clock_ms : Option ℕ
  pub changed_lines : Option ℕ
  pub changed_files : Option ℕ
  pub model_calls : Option ℕ

-- The request that `create_mission` takes where it is given none.
abbrev pub no_budget_request : MissionBudgetRequest
no_budget_request = record {
  tokens = none;
  money_micros = none;
  wall_clock_ms = none;
  changed_lines = none;
  changed_files = none;
  model_calls = none;
}

abbrev pub default_budget_limits : BudgetLimits
default_budget_limits = record {
  tokens = 100000;
  money_micros = 10000000;
  wall_clock = record { secs = 30 * 60; nanos = 0 };
  changed_lines = 10000;
  changed_files = 1000;
  model_calls = 100;
}

abbrev pub unwrap_or {ℓ} : {A : Type ℓ} → Option A → A → A
unwrap_or none d = d
unwrap_or (some a) d = a

-- `Duration::from_millis`.
abbrev pub from_millis : ℕ → Duration
from_millis ms = record { secs = ms / 1000; nanos = ms % 1000 * 1000000 }

-- `as_millis() as u64`.
abbrev pub as_millis : Duration → ℕ
as_millis d = (d.secs * 1000 + d.nanos / 1000000) % u64_mod

-- `MissionBudgetRequest::limits`.
unfoldable pub limits : MissionBudgetRequest → BudgetLimits
limits r = record {
  tokens = unwrap_or r.tokens default_budget_limits.tokens;
  money_micros = unwrap_or r.money_micros default_budget_limits.money_micros;
  wall_clock = from_millis (unwrap_or r.wall_clock_ms (as_millis default_budget_limits.wall_clock));
  changed_lines = unwrap_or r.changed_lines default_budget_limits.changed_lines;
  changed_files = unwrap_or r.changed_files default_budget_limits.changed_files;
  model_calls = unwrap_or r.model_calls default_budget_limits.model_calls;
}

-- The object under `budget` in the payload that `create_mission` writes, as a request.
unfoldable pub written_budget : BudgetLimits → MissionBudgetRequest
written_budget l = record {
  tokens = some l.tokens;
  money_micros = some l.money_micros;
  wall_clock_ms = some (as_millis l.wall_clock);
  changed_lines = some l.changed_lines;
  changed_files = some l.changed_files;
  model_calls = some l.model_calls;
}

unfoldable pub default_budget_tracker : BudgetTracker
unfolding new
default_budget_tracker = new 1 default_budget_limits pause

unfoldable pub is_contract_updated : EventKind → Bool
is_contract_updated EventKind.contract_updated = true
is_contract_updated _ = false

-- What the service asks of the JSON library besides: `Value::get`, `as_u64`, and the request under
-- `budget`, where there is one and it parses.
pub record Fields (j : Json) : Type 0 where
  pub get : j.Value → String → Option j.Value
  pub as_u64 : j.Value → Option ℕ
  pub read_request : j.Value → Option MissionBudgetRequest

abbrev pub and_then {ℓ κ} : {A : Type ℓ} {B : Type κ} → Option A → (A → Option B) → Option B
and_then none f = none
and_then (some a) f = f a

abbrev pub or_else {ℓ} : {A : Type ℓ} → Option A → Option A → Option A
or_else none o = o
or_else (some a) o = some a

-- `value == Some(text)`.
abbrev pub is_text : Option String → String → Bool
is_text none t = false
is_text (some s) t = str_eq s t

module _ (j : Json) (fields : Fields j) where
  open fields use {get, as_u64, read_request}

  -- The last event that updates the contract, the search begun behind `found`.
  unfoldable pub last_contract :
      Option (EventEnvelope j) → List (EventEnvelope j) → Option (EventEnvelope j)
  unfolding is_contract_updated
  last_contract found [] = found
  last_contract found (e ∷ es) =
      last_contract (if is_contract_updated e.kind then some e else found) es

  abbrev pub limits_or_default : Option MissionBudgetRequest → BudgetLimits
  limits_or_default none = default_budget_limits
  limits_or_default (some r) = limits r

  unfoldable pub budget_tracker_from_events : List (EventEnvelope j) → BudgetTracker
  unfolding last_contract limits new
  budget_tracker_from_events events =
      new 1 (limits_or_default (and_then (last_contract none events) (λ e. read_request e.payload)))
        pause

  -- `usage.total.totalTokens` of a payload.
  unfoldable pub total_tokens : j.Value → Option ℕ
  total_tokens payload =
      let usage =
        or_else (get payload "tokenUsage")
          (and_then (get payload "data") (λ v. get v "tokenUsage")) in
      and_then (and_then (and_then usage (λ v. get v "total")) (λ v. get v "totalTokens")) as_u64

  -- What follows from the total, and the total that is remembered.
  unfoldable pub usage_of_total : Option ℕ → ℕ → Option UsageRecord × ℕ
  unfolding one_usage with_usage
  usage_of_total none previous = (some (unknown_usage BudgetDimension.tokens), previous)
  usage_of_total (some total) previous = (
    some (
        sample (
          with_usage (one_usage BudgetDimension.tokens (total - previous))
            BudgetDimension.model_calls 1)),
    max previous total,
  )

  unfoldable pub usage_record_from_event : j.Value → ℕ → Option UsageRecord × ℕ
  unfolding total_tokens usage_of_total
  usage_record_from_event payload previous =
      if is_text (j.get_str payload "native_type") "thread/tokenUsage/updated"
      then usage_of_total (total_tokens payload) previous
      else (none, previous)

  -- How the loop over a run's events uses its tracker: it records, and evaluates at once.
  unfoldable pub take_usage : Option UsageRecord → BudgetTracker → BudgetTracker × List BudgetSignal
  unfolding record_usage evaluate_safe_boundary
  take_usage none t = (t, [])
  take_usage (some r) t = evaluate_safe_boundary (record_usage t r)

  -- The tracker and the remembered total behind the payloads of a run's events.
  unfoldable pub take_each : List j.Value → BudgetTracker → ℕ → BudgetTracker × ℕ
  unfolding usage_record_from_event take_usage
  take_each [] t previous = (t, previous)
  take_each (payload ∷ rest) t previous =
      let (usage, next) = usage_record_from_event payload previous in
      take_each rest (take_usage usage t).0 next
