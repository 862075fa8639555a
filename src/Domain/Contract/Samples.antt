-- ===== src/Domain/Contract/Samples.antt =====
-- A contract, and patches of it.
use agent_mission_control.Prelude.{false, ◌≡◌, ◌≢◌, refl, none, some, [], ◌∷◌, String, ok, is_ok}
use agent_mission_control.Prelude.Text.{str_eq}
use agent_mission_control.Prelude.Word.{increment}
use agent_mission_control.Domain.Contract.{
  Serializer, default_contract, MissionContract, ContractPatch, ContractDiff, user, is_agent,
  updated, pushed, patched, changed_fields, apply_patch,
}
use agent_mission_control.Domain.Contract.Patches.{apply_patch_lem}

-- Texts stand for themselves, and every other value for one text.
abbrev sample_serializer : Serializer
sample_serializer = record {
  Value = String;
  equal = str_eq;
  text = λ t. t;
  texts = λ _. "[]";
  mode = λ _. "manual";
  policy = λ _. "{}";
  limits = λ _. "{}";
  equipment = λ _. "{}";
}

abbrev goal_patch : ContractPatch
goal_patch = record {
  goal = some "ship it";
  non_goals = some [];
  acceptance_criteria = none;
  allowed_paths = none;
  forbidden_scopes = none;
  driving_mode = none;
  approval_policy = none;
  budget = none;
  loadout = none;
  confirmed_assumptions = none;
  risks = none;
}

abbrev with_goal : MissionContract
with_goal = record default_contract { version = 2; goal = "ship it" }

abbrev goal_diff : ContractDiff sample_serializer
goal_diff = record {
  from_version = 1;
  to_version = 2;
  fields = record { field = "goal"; before = ""; after = "ship it" } ∷ [];
}

goal_patched :
    apply_patch sample_serializer default_contract 1 goal_patch user ≡ ok (with_goal, goal_diff)
unfolding apply_patch is_agent patched changed_fields updated pushed increment
goal_patched = refl

apply_patch_lem_example :
    (with_goal.version ≢ 1)
    × (goal_diff.from_version ≡ 1)
    × (goal_diff.to_version ≡ with_goal.version)
    × (is_ok (apply_patch sample_serializer with_goal 1 goal_patch user) ≡ false)
apply_patch_lem_example =
    let (different, from, to, late) =
      (apply_patch_lem sample_serializer default_contract 1 goal_patch user).1 with_goal goal_diff
        goal_patched in
    (different, from, to, late goal_patch user)
