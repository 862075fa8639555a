-- ===== src/Policy/Engine.antt =====
-- crates/policy/src/engine.rs: the decision on one intent.
pub mod Decisions
pub mod Samples
use agent_mission_control.Prelude.{Bool, true, false, not, ◌&&◌, ◌||◌, List, String, if◌then◌else◌}
use agent_mission_control.Domain.Contract.{DrivingMode, manual, assisted, autopilot}
use agent_mission_control.Policy.Action.{
  ActionClass, ActionEvidence, ActionIntent, Deviation, no_deviation, suspected, confirmed,
  same_class, is_assisted_low_risk, always_requires_user, contains_class, is_trusted, is_complete,
}

pub record PolicyContext : Type 0 where
  pub driving_mode : DrivingMode
  pub autopilot_allowed_actions : List ActionClass

pub data ReasonCode : Type 0 where
  missing_action_evidence untrusted_intent_source unknown_action outside_allowed_paths : ReasonCode
  confirmed_contract_deviation suspected_contract_deviation manual_approval_required : ReasonCode
  assisted_approval_required outside_autopilot_envelope user_boundary_required : ReasonCode

pub data PolicyDecision : Type 0 where
  allow : PolicyDecision
  require_approval : ReasonCode → ActionEvidence → PolicyDecision
  require_user_judgment : ReasonCode → ActionEvidence → PolicyDecision
  deny_and_pause : String → ReasonCode → ActionEvidence → PolicyDecision

unfoldable pub approval : ReasonCode → ActionIntent → PolicyDecision
approval reason intent = require_approval reason intent.evidence

unfoldable pub deny : String → ReasonCode → ActionIntent → PolicyDecision
deny clause reason intent = deny_and_pause clause reason intent.evidence

-- The `match` on the driving mode that ends `evaluate`.
unfoldable pub by_mode : DrivingMode → List ActionClass → ActionIntent → PolicyDecision
unfolding approval
by_mode manual allowed intent =
    if not (same_class intent.class ActionClass.read)
    then approval manual_approval_required intent
    else allow
by_mode assisted allowed intent =
    if not intent.planned || not (is_assisted_low_risk intent.class)
    then approval assisted_approval_required intent
    else allow
by_mode autopilot allowed intent =
    if not intent.planned || not (contains_class allowed intent.class)
    then approval outside_autopilot_envelope intent
    else allow

-- The `match` on the deviation, and what follows it.
unfoldable pub by_deviation : Deviation → PolicyContext → ActionIntent → PolicyDecision
unfolding approval deny by_mode
by_deviation confirmed context intent =
    deny "goal_and_non_goals" confirmed_contract_deviation intent
by_deviation suspected context intent =
    require_user_judgment suspected_contract_deviation intent.evidence
by_deviation no_deviation context intent =
    if always_requires_user intent.class
    then approval user_boundary_required intent
    else by_mode context.driving_mode context.autopilot_allowed_actions intent

unfoldable pub evaluate : PolicyContext → ActionIntent → PolicyDecision
unfolding deny by_deviation
evaluate context intent =
    if not (is_complete intent.evidence)
    then deny "action_evidence_required" missing_action_evidence intent
    else if not (is_trusted intent.origin)
    then deny "trusted_intent_source" untrusted_intent_source intent
    else if same_class intent.class ActionClass.unknown
    then deny "known_action_required" unknown_action intent
    else if not intent.within_allowed_paths
    then deny "allowed_paths" outside_allowed_paths intent
    else by_deviation intent.deviation context intent
