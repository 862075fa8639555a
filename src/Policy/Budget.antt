-- ===== src/Policy/Budget.antt =====
-- crates/policy/src/budget.rs: what a mission has used and may use. A map or set keyed by the six
-- dimensions is a function of the dimension; amounts are `u64`.
pub mod Usage
pub mod Signals
pub mod Samples
use agent_mission_control.Prelude.{
  ℕ, ◌+◌, ◌*◌, ◌/◌, min, Bool, true, false, not, ◌&&◌, ◌||◌, ◌==◌, leb, Option, none, some, List,
  [], ◌∷◌, ◌++◌, Result, ok, err, if◌then◌else◌,
}
use agent_mission_control.Prelude.Word.{u64_max, saturating_add, saturating_mul}
use agent_mission_control.Policy.Approval.{ApprovalActor, is_user}

pub data BudgetDimension : Type 0 where
  tokens money_micros wall_clock changed_lines changed_files model_calls : BudgetDimension

-- `BudgetDimension::ALL`, which is the order of a `BTreeMap` keyed by the dimensions too.
abbrev pub all_dimensions : List BudgetDimension
all_dimensions =
    tokens ∷ money_micros ∷ wall_clock ∷ changed_lines ∷ changed_files ∷ model_calls ∷ []

-- The derived `==` of the dimensions, by their place in the enum.
unfoldable pub discriminant : BudgetDimension → ℕ
discriminant tokens = 0
discriminant money_micros = 1
discriminant wall_clock = 2
discriminant changed_lines = 3
discriminant changed_files = 4
discriminant model_calls = 5

unfoldable pub same_dimension : BudgetDimension → BudgetDimension → Bool
unfolding discriminant
same_dimension d e = discriminant d == discriminant e

-- `BTreeMap::insert` on a map read as a function.
unfoldable pub insert {ℓ} :
    {A : Type ℓ} → BudgetDimension → A → (BudgetDimension → A) → BudgetDimension → A
unfolding same_dimension
insert d v m e = if same_dimension d e then v else m e

-- `std::time::Duration`.
pub record Duration : Type 0 where
  pub secs : ℕ
  pub nanos : ℕ

-- `as_millis().min(u128::from(u64::MAX)) as u64`.
unfoldable pub millis : Duration → ℕ
millis d = min (d.secs * 1000 + d.nanos / 1000000) u64_max

pub record BudgetLimits : Type 0 where
  pub tokens : ℕ
  pub money_micros : ℕ
  pub wall_clock : Duration
  pub changed_lines : ℕ
  pub changed_files : ℕ
  pub model_calls : ℕ

-- `BudgetLimits::value`.
unfoldable pub limit_value : BudgetLimits → BudgetDimension → ℕ
unfolding millis
limit_value l tokens = l.tokens
limit_value l money_micros = l.money_micros
limit_value l wall_clock = millis l.wall_clock
limit_value l changed_lines = l.changed_lines
limit_value l changed_files = l.changed_files
limit_value l model_calls = l.model_calls

pub data UnknownUsagePolicy : Type 0 where
  ask pause : UnknownUsagePolicy

abbrev pub UsageSample : Type 0
UsageSample = BudgetDimension → Option ℕ

-- `UsageSample::with`.
unfoldable pub with_usage : UsageSample → BudgetDimension → ℕ → UsageSample
unfolding insert
with_usage s d v = insert d (some v) s

-- `UsageSample::one`, behind its public constructors.
unfoldable pub one_usage : BudgetDimension → ℕ → UsageSample
unfolding with_usage
one_usage d v = with_usage (λ _. none) d v

pub data UsageRecord : Type 0 where
  sample : UsageSample → UsageRecord
  unknown_usage : BudgetDimension → UsageRecord
  correction : BudgetDimension → ℕ → UsageRecord

pub data BudgetSignal : Type 0 where
  warning require_approval pause_at_safe_boundary : BudgetDimension → BudgetSignal

pub data Projection : Type 0 where
  known : ℕ → Projection
  unknown : Projection

pub record BudgetTracker : Type 0 where
  pub contract_version : ℕ
  pub limits : BudgetLimits
  pub unknown_policy : UnknownUsagePolicy
  pub records : List UsageRecord
  pub projection : BudgetDimension → Option Projection
  pub warned : BudgetDimension → Bool

unfoldable pub new : ℕ → BudgetLimits → UnknownUsagePolicy → BudgetTracker
new contract_version limits unknown_policy = record {
  contract_version = contract_version;
  limits = limits;
  unknown_policy = unknown_policy;
  records = [];
  projection = λ _. some (known 0);
  warned = λ _. false;
}

-- One round of the loop over a sample's values.
unfoldable pub add_usage :
    Option ℕ
    → BudgetDimension
    → (BudgetDimension → Option Projection)
    → BudgetDimension
    → Option Projection
unfolding insert
add_usage none d p = p
add_usage (some increment) d p = elim (p d) [
  | some (known total) ↦ insert d (some (known (saturating_add total increment))) p
  | some unknown ↦ p
  | none ↦ p
]

unfoldable pub add_each :
    UsageSample
    → List BudgetDimension
    → (BudgetDimension → Option Projection)
    → BudgetDimension
    → Option Projection
unfolding add_usage
add_each s [] p = p
add_each s (d ∷ ds) p = add_each s ds (add_usage (s d) d p)

unfoldable pub project :
    UsageRecord → (BudgetDimension → Option Projection) → BudgetDimension → Option Projection
unfolding add_each insert
project (sample s) p = add_each s all_dimensions p
project (unknown_usage d) p = insert d (some unknown) p
project (correction d total) p = insert d (some (known total)) p

-- `BudgetTracker::record`.
unfoldable pub record_usage : BudgetTracker → UsageRecord → BudgetTracker
unfolding project
record_usage t r = record t { projection = project r t.projection; records = t.records ++ r ∷ [] }

unfoldable pub unknown_signal : UnknownUsagePolicy → BudgetDimension → BudgetSignal
unknown_signal ask d = require_approval d
unknown_signal pause d = pause_at_safe_boundary d

-- One round of `evaluate_safe_boundary`: the signals it pushes, and the tracker it leaves.
unfoldable pub evaluate_known :
    ℕ → BudgetTracker → BudgetDimension → BudgetTracker × List BudgetSignal
evaluate_known used t d =
    let limit = limit_value t.limits d in
    if limit == 0 || leb limit used
    then (t, pause_at_safe_boundary d ∷ [])
    else if leb (saturating_mul limit 4) (saturating_mul used 5) && not (t.warned d)
    then (record t { warned = insert d true t.warned }, warning d ∷ [])
    else (t, [])

unfoldable pub evaluate_dimension :
    BudgetTracker → BudgetDimension → BudgetTracker × List BudgetSignal
unfolding evaluate_known unknown_signal
evaluate_dimension t d = elim (t.projection d) [
  | some unknown ↦ (t, unknown_signal t.unknown_policy d ∷ [])
  | some (known used) ↦ evaluate_known used t d
  | none ↦ (t, pause_at_safe_boundary d ∷ [])
]

unfoldable pub evaluate_each :
    BudgetTracker → List BudgetDimension → BudgetTracker × List BudgetSignal
unfolding evaluate_dimension
evaluate_each t [] = (t, [])
evaluate_each t (d ∷ ds) =
    let (u, signals) = evaluate_dimension t d in
    let (v, rest) = evaluate_each u ds in (v, signals ++ rest)

unfoldable pub evaluate_safe_boundary : BudgetTracker → BudgetTracker × List BudgetSignal
unfolding evaluate_each
evaluate_safe_boundary t = evaluate_each t all_dimensions

pub record BudgetChange : Type 0 where
  pub actor : ApprovalActor
  pub contract_version : ℕ
  pub limits : BudgetLimits

pub data BudgetChangeError : Type 0 where
  forbidden_actor contract_version_not_advanced : BudgetChangeError

unfoldable pub replace_limits :
    BudgetTracker → BudgetChange → BudgetTracker × Result (Unit {0}) BudgetChangeError
replace_limits t change =
    if not (is_user change.actor)
    then (t, err forbidden_actor)
    else if leb change.contract_version t.contract_version
    then (t, err contract_version_not_advanced)
    else (
      record t {
        contract_version = change.contract_version;
        limits = change.limits;
        warned = λ _. false;
      },
      ok tt,
    )
