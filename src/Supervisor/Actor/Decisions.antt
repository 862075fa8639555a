-- ===== src/Supervisor/Actor/Decisions.antt =====
-- The decisions of crates/protocol/src/command.rs on an approval, and what the actor makes of them.
use agent_mission_control.Prelude.{
  ℕ, not, ◌==◌, Option, none, some, String, Result, ok, err, if◌then◌else◌,
}
use agent_mission_control.Domain.Event.{EventKind}
use agent_mission_control.Policy.Action.{ActionClass}
use agent_mission_control.Policy.Approval.{
  ApprovalState, ApprovalActor, ApprovalAction, ApprovalScope, ApprovalError, ApprovalSubject,
  ApprovalRequest, set_scope, resolve, revoke,
}

-- `command::Actor`.
pub data Actor : Type 0 where
  user renderer supervisor agent : Actor

unfoldable pub protocol_actor : Actor → ApprovalActor
protocol_actor user = ApprovalActor.user
protocol_actor supervisor = ApprovalActor.supervisor
protocol_actor agent = ApprovalActor.agent
protocol_actor renderer = ApprovalActor.agent

pub data ApprovalDecision : Type 0 where
  approve deny revoke_decision : ApprovalDecision

pub data ApprovalGrantScope : Type 0 where
  once route_action_class : ApprovalGrantScope

pub record ResolveApproval : Type 0 where
  pub approval_id : String
  pub expected_revision : ℕ
  pub decision : ApprovalDecision
  pub mission_id : String
  pub route_id : String
  pub contract_version : ℕ
  pub loadout_fingerprint : String
  pub action_digest : String
  pub now_ms : ℕ
  pub scope : Option ApprovalGrantScope

unfoldable pub granted_scope : Option ApprovalGrantScope → ActionClass → ApprovalScope
granted_scope (some route_action_class) class = ApprovalScope.route_action_class class
granted_scope (some once) class = ApprovalScope.once
granted_scope none class = ApprovalScope.once

-- The derived `==` of the approval states, by their place in the enum.
unfoldable pub discriminant : ApprovalState → ℕ
discriminant ApprovalState.pending = 0
discriminant ApprovalState.approved = 1
discriminant ApprovalState.denied = 2
discriminant ApprovalState.expired = 3
discriminant ApprovalState.revoked = 4
discriminant ApprovalState.consumed = 5

-- What a method of a request leaves, or its error.
unfoldable pub outcome_of :
    ApprovalRequest × Result (Unit {0}) ApprovalError → Result ApprovalRequest ApprovalError
outcome_of (r, ok _) = ok r
outcome_of (r, err e) = err e

-- What the decisions `Approve` and `Deny` make of a request.
unfoldable pub resolved_with :
    ApprovalAction
    → ApprovalActor
    → ResolveApproval
    → ApprovalSubject
    → ApprovalRequest
    → Result ApprovalRequest ApprovalError
unfolding outcome_of
resolved_with decision actor c subject r = outcome_of (
    resolve r (record {
      approval_id = c.approval_id;
      expected_revision = c.expected_revision;
      actor = actor;
      decision = decision;
      subject = subject;
      now_ms = c.now_ms;
    }))

-- The `match` on the decision of a command: the request it leaves, and the kind of the event.
unfoldable pub decide :
    ApprovalDecision
    → ApprovalActor
    → ResolveApproval
    → ApprovalSubject
    → ApprovalRequest
    → Result (ApprovalRequest × EventKind) ApprovalError
unfolding resolved_with outcome_of granted_scope
decide approve actor c subject r =
    elim (outcome_of (set_scope r (granted_scope c.scope r.subject.action_class))) [
      | err e ↦ err e
      | ok scoped ↦ elim (resolved_with ApprovalAction.approve actor c subject scoped) [
        | err e ↦ err e
        | ok next ↦ ok (next, EventKind.approval_resolved)
      ]
    ]
decide deny actor c subject r = elim (resolved_with ApprovalAction.deny actor c subject r) [
  | err e ↦ err e
  | ok next ↦ ok (next, EventKind.approval_resolved)
]
decide revoke_decision actor c subject r =
    if not (c.expected_revision == r.revision)
    then err (ApprovalError.revision_conflict c.expected_revision r.revision)
    else elim (outcome_of (revoke r actor)) [
      | err e ↦ err e
      | ok next ↦ ok (next, EventKind.approval_revoked)
    ]
