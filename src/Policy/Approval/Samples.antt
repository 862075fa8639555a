-- ===== src/Policy/Approval/Samples.antt =====
-- Concrete approval requests.
use agent_mission_control.Prelude.{◌≤◌, ◌≡◌, refl, none, some, List, [], ◌∷◌}
use agent_mission_control.Prelude.Text.{is_blank}
use agent_mission_control.Prelude.Word.{increment}
use agent_mission_control.Policy.Action.{ActionClass}
use agent_mission_control.Policy.Approval.{
  ApprovalSubject, ApprovalRequest, ApprovalResolution, pending, approved, denied, consumed, user,
  supervisor, agent, approve, deny, once, route_action_class, revision_conflict, new, resolve,
  authorize, matches_authority_context, is_open,
}
use agent_mission_control.Policy.Approval.Authority.{Authorized, authorize-Authorized}
use agent_mission_control.Policy.Approval.History.{
  Call, scopes, resolves, authorizes, revokes, changes_loadout, expires, run, IsAuthentic,
  run-new-IsAuthentic, grants, once_grants_once, approves, grants_need_approval,
}

abbrev push_subject : ApprovalSubject
push_subject = record {
  mission_id = 1;
  route_id = 2;
  action_digest = "d1";
  action_class = ActionClass.git_push;
  contract_version = 3;
  loadout_fingerprint = "f1";
}

abbrev request : ApprovalRequest
request = record {
  id = "a1";
  subject = push_subject;
  scope = once;
  requested_by = supervisor;
  resolved_by = none;
  expires_at_ms = 1000;
  state = pending;
  revision = 0;
}

abbrev yes_from_user : ApprovalResolution
yes_from_user = record {
  approval_id = "a1";
  expected_revision = 0;
  actor = user;
  decision = approve;
  subject = push_subject;
  now_ms = 10;
}

abbrev granted_request : ApprovalRequest
granted_request = record request { state = approved; resolved_by = some user; revision = 1 }

abbrev calls : List Call
calls =
    resolves yes_from_user
    ∷ authorizes push_subject 20
    ∷ authorizes push_subject 30
    ∷ revokes user
    ∷ []

calls_grant_one : grants request calls ≡ 1
unfolding grants agent_mission_control.Policy.Approval.History.step resolve authorize
    matches_authority_context agent_mission_control.Policy.Approval.revoke increment
calls_grant_one = refl

run-new-IsAuthentic_example : IsAuthentic (run request calls)
unfolding new is_blank
run-new-IsAuthentic_example =
    run-new-IsAuthentic "a1" push_subject once supervisor 1000 request calls refl

once_grants_once_example : grants granted_request calls ≤ 1
once_grants_once_example = once_grants_once granted_request calls refl refl

authorize-Authorized_example :
    Authorized granted_request push_subject 20 (authorize granted_request push_subject 20).0
unfolding authorize matches_authority_context
authorize-Authorized_example = authorize-Authorized granted_request push_subject 20 refl
