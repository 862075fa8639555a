-- ===== src/Domain/Route/Samples.antt =====
-- Concrete lives of a route.
use agent_mission_control.Prelude.{◌≡◌, refl, some, none, List, [], ◌∷◌}
use agent_mission_control.Prelude.Word.{increment}
use agent_mission_control.Prelude.Text.{is_blank}
use agent_mission_control.Domain.Ids.{now}
use agent_mission_control.Domain.Evidence.{
  Approval, CriterionStatus, EvidenceMatrix, is_acceptance, is_complete,
}
use agent_mission_control.Domain.Route.{
  read_only_exploration, awaiting_plan_approval, executing, verifying, awaiting_acceptance,
  completed, paused, abandoned, Route, RouteTransitioned, RouteAbandonment, new, transition,
  apply_transition, complete_with_evidence,
}
use agent_mission_control.Domain.Route.Lifecycle.{
  Request, moves, completes, run, perform, IsJustified, run-new-IsJustified,
}

abbrev acceptance : Approval
acceptance = record { actor = "ana"; decision = "accept"; evidence_event_ids = "e1" ∷ [] }

abbrev matrix : EvidenceMatrix
matrix = record {
  criteria =
      record {
        criterion_id = "tests";
        description = "pass";
        status = CriterionStatus.verified;
        evidence_ids = "e1" ∷ [];
      }
      ∷ [];
  entries = [];
}

abbrev straight : List Request
straight =
    moves read_only_exploration
    ∷ moves awaiting_plan_approval
    ∷ moves executing
    ∷ moves verifying
    ∷ moves awaiting_acceptance
    ∷ completes acceptance matrix
    ∷ []

straight_completes :
    ((run (new 1) straight).state ≡ completed) × ((run (new 1) straight).version ≡ 6)
unfolding run perform new transition apply_transition complete_with_evidence is_acceptance
    is_complete is_blank increment
straight_completes = (refl, refl)

run-new-IsJustified_example : IsJustified (run (new 1) straight)
run-new-IsJustified_example = run-new-IsJustified 1 straight

-- A route that has been given up, with what it leaves behind.
abbrev leftovers : RouteAbandonment
leftovers = record {
  last_checkpoint_id = "c1";
  reason = "the build cannot be fixed";
  failure_evidence_ids = "e9" ∷ [];
  reusable_artifacts = [];
}

abbrev given_up : Route
given_up = record {
  route_id = 1;
  state = abandoned;
  version = 1;
  derived_from = none;
  abandonment = some leftovers;
  final_approval = none;
  evidence_matrix = record { criteria = []; entries = [] };
  updated_at = now;
}

abbrev at_acceptance : Route
at_acceptance = record given_up { state = awaiting_acceptance; abandonment = none; version = 5 }

abbrev pause_event : RouteTransitioned
pause_event = record {
  route_id = 1;
  from = awaiting_acceptance;
  to = paused;
  expected_version = 5;
  acceptance = none;
}

abbrev completion_event : RouteTransitioned
completion_event = record {
  route_id = 1;
  from = awaiting_acceptance;
  to = completed;
  expected_version = 5;
  acceptance = some (record { approval = acceptance; evidence_matrix = matrix });
}
