-- ===== src/Domain/Contract.antt =====
-- crates/domain/src/contract.rs: the mission contract and its patches. Versions are `u64`. How a field
-- is serialized, and when two JSON values are equal, are parameters.
pub mod Fields
pub mod Patches
pub mod Samples
use agent_mission_control.Prelude.{
  ℕ, Bool, true, false, not, ◌==◌, Option, none, some, List, [], ◌∷◌, ◌++◌, String, Result, ok, err,
  if◌then◌else◌,
}
use agent_mission_control.Prelude.Word.{increment}

pub data DrivingMode : Type 0 where
  manual assisted autopilot : DrivingMode

pub record ApprovalPolicy : Type 0 where
  pub require_plan_approval : Bool
  pub require_write_approval : Bool
  pub require_final_acceptance : Bool

pub record Budget : Type 0 where
  pub max_tokens : Option ℕ
  pub max_duration_seconds : Option ℕ
  pub max_cost_micros : Option ℕ

pub record Loadout : Type 0 where
  pub provider : String
  pub model : String
  pub configuration_digest : String

pub record MissionContract : Type 0 where
  pub version : ℕ
  pub goal : String
  pub non_goals : List String
  pub acceptance_criteria : List String
  pub allowed_paths : List String
  pub forbidden_scopes : List String
  pub driving_mode : DrivingMode
  pub approval_policy : ApprovalPolicy
  pub budget : Budget
  pub loadout : Loadout
  pub confirmed_assumptions : List String
  pub risks : List String

-- `MissionContract::default`.
abbrev pub default_contract : MissionContract
default_contract = record {
  version = 1;
  goal = "";
  non_goals = [];
  acceptance_criteria = [];
  allowed_paths = [];
  forbidden_scopes = [];
  driving_mode = manual;
  approval_policy = record {
    require_plan_approval = false;
    require_write_approval = false;
    require_final_acceptance = false;
  };
  budget = record { max_tokens = none; max_duration_seconds = none; max_cost_micros = none };
  loadout = record { provider = ""; model = ""; configuration_digest = "" };
  confirmed_assumptions = [];
  risks = [];
}

pub record ContractPatch : Type 0 where
  pub goal : Option String
  pub non_goals : Option (List String)
  pub acceptance_criteria : Option (List String)
  pub allowed_paths : Option (List String)
  pub forbidden_scopes : Option (List String)
  pub driving_mode : Option DrivingMode
  pub approval_policy : Option ApprovalPolicy
  pub budget : Option Budget
  pub loadout : Option Loadout
  pub confirmed_assumptions : Option (List String)
  pub risks : Option (List String)

pub data PatchActor : Type 0 where
  user system agent : PatchActor

unfoldable pub is_agent : PatchActor → Bool
is_agent agent = true
is_agent _ = false

pub data VersionConflict : Type 0 where
  expected_version : ℕ → ℕ → VersionConflict
  agent_mutation_forbidden : VersionConflict

-- `serde_json::to_value` at the types of the fields, and `==` on its values.
pub record Serializer : Type 1 where
  pub Value : Type 0
  pub equal : Value → Value → Bool
  pub text : String → Value
  pub texts : List String → Value
  pub mode : DrivingMode → Value
  pub policy : ApprovalPolicy → Value
  pub limits : Budget → Value
  pub equipment : Loadout → Value

module _ (s : Serializer) where
  open s use {Value, equal, text, texts, mode, policy, limits, equipment}

  pub record ContractFieldDiff : Type 0 where
    pub field : String
    pub before : Value
    pub after : Value

  pub record ContractDiff : Type 0 where
    pub from_version : ℕ
    pub to_version : ℕ
    pub fields : List ContractFieldDiff

  -- `update!`: the field that it leaves.
  unfoldable pub updated {ℓ} : {A : Type ℓ} → (A → Value) → A → Option A → A
  updated to_value old none = old
  updated to_value old (some value) =
      if not (equal (to_value old) (to_value value)) then value else old

  -- `update!`: what it pushes.
  unfoldable pub pushed {ℓ} :
      {A : Type ℓ} → String → (A → Value) → A → Option A → List ContractFieldDiff
  pushed field to_value old none = []
  pushed field to_value old (some value) =
      if not (equal (to_value old) (to_value value))
      then record { field = field; before = to_value old; after = to_value value } ∷ []
      else []

  -- The eleven uses of `update!`, each of which writes one field of its own.
  unfoldable pub patched : MissionContract → ContractPatch → MissionContract
  unfolding updated
  patched c patch = record {
    version = c.version;
    goal = updated text c.goal patch.goal;
    non_goals = updated texts c.non_goals patch.non_goals;
    acceptance_criteria = updated texts c.acceptance_criteria patch.acceptance_criteria;
    allowed_paths = updated texts c.allowed_paths patch.allowed_paths;
    forbidden_scopes = updated texts c.forbidden_scopes patch.forbidden_scopes;
    driving_mode = updated mode c.driving_mode patch.driving_mode;
    approval_policy = updated policy c.approval_policy patch.approval_policy;
    budget = updated limits c.budget patch.budget;
    loadout = updated equipment c.loadout patch.loadout;
    confirmed_assumptions = updated texts c.confirmed_assumptions patch.confirmed_assumptions;
    risks = updated texts c.risks patch.risks;
  }

  unfoldable pub changed_fields : MissionContract → ContractPatch → List ContractFieldDiff
  unfolding pushed
  changed_fields c patch =
      pushed "goal" text c.goal patch.goal
      ++ pushed "non_goals" texts c.non_goals patch.non_goals
      ++ pushed "acceptance_criteria" texts c.acceptance_criteria patch.acceptance_criteria
      ++ pushed "allowed_paths" texts c.allowed_paths patch.allowed_paths
      ++ pushed "forbidden_scopes" texts c.forbidden_scopes patch.forbidden_scopes
      ++ pushed "driving_mode" mode c.driving_mode patch.driving_mode
      ++ pushed "approval_policy" policy c.approval_policy patch.approval_policy
      ++ pushed "budget" limits c.budget patch.budget
      ++ pushed "loadout" equipment c.loadout patch.loadout
      ++ pushed "confirmed_assumptions" texts c.confirmed_assumptions patch.confirmed_assumptions
      ++ pushed "risks" texts c.risks patch.risks

  unfoldable pub apply_patch :
      MissionContract
      → ℕ
      → ContractPatch
      → PatchActor
      → Result (MissionContract × ContractDiff) VersionConflict
  unfolding is_agent patched changed_fields
  apply_patch c expected patch actor =
      if is_agent actor
      then err agent_mutation_forbidden
      else if not (expected == c.version)
      then err (expected_version expected c.version)
      else ok (
        record (patched c patch) { version = increment c.version },
        record {
          from_version = c.version;
          to_version = increment c.version;
          fields = changed_fields c patch;
        },
      )
