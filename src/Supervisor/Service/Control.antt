-- ===== src/Supervisor/Service/Control.antt =====
-- crates/supervisor/src/mission_service.rs: the commands that hold a run back: the safe pause, the
-- decision on an approval, the forced termination, and the check of the loadout.
use agent_mission_control.Prelude.{Option, none, some, String, Result, ok, err, if◌then◌else◌}
use agent_mission_control.Prelude.Text.{str_eq}
use agent_mission_control.Prelude.Dict.{lookup, remove}
use agent_mission_control.Domain.Ids.{MissionId}
use agent_mission_control.Supervisor.Pause.{can_force_terminate}
use agent_mission_control.Supervisor.Actor.{Host, MissionActor}
use agent_mission_control.Supervisor.Actor.Pausing
use agent_mission_control.Supervisor.Actor.Approvals
use agent_mission_control.Supervisor.Actor.Decisions.{
  Actor, ResolveApproval, ApprovalDecision, approve, deny, revoke_decision, ApprovalGrantScope,
  once, route_action_class,
}
use agent_mission_control.Supervisor.Budgets.{unwrap_or, or_else}
use agent_mission_control.Supervisor.Loadouts.{LoadoutChange, check_fingerprint}
use agent_mission_control.Supervisor.Service.{
  MissionCommandRequest, MissionCommandResult, PendingServerRequest, safe_pause,
  terminate_owned_tree, respond, Platform,
}
use agent_mission_control.Supervisor.Service.Action.{
  Action, ◌>>=◌, ◌>>◌, pure, lift, on_actor, shown, call, adapter, required, request_mission_id,
  request_route_id, required_text, result, active_run_id, control_run,
}

-- The decision and the scope that a request asks for.
unfoldable pub scope_of_text : Option String → Result (Option ApprovalGrantScope) String
scope_of_text none = ok (some once)
scope_of_text (some scope) =
    if str_eq scope "once"
    then ok (some once)
    else if str_eq scope "approve-once"
    then ok (some once)
    else if str_eq scope "route"
    then ok (some route_action_class)
    else if str_eq scope "route_action_class"
    then ok (some route_action_class)
    else if str_eq scope "approve-route"
    then ok (some route_action_class)
    else err "APPROVAL_SCOPE_INVALID"

abbrev with_decision :
    ApprovalDecision
    → Result (Option ApprovalGrantScope) String
    → Result (ApprovalDecision × Option ApprovalGrantScope) String
with_decision d (ok scope) = ok (d, scope)
with_decision d (err e) = err e

unfoldable pub decision_and_scope :
    Option String → Option String → Result (ApprovalDecision × Option ApprovalGrantScope) String
unfolding scope_of_text
decision_and_scope none scope = err "APPROVAL_DECISION_INVALID"
decision_and_scope (some decision) scope =
    if str_eq decision "approve-once"
    then ok (approve, some once)
    else if str_eq decision "approve-route"
    then ok (approve, some route_action_class)
    else if str_eq decision "approve"
    then with_decision approve (scope_of_text scope)
    else if str_eq decision "deny"
    then ok (deny, none)
    else if str_eq decision "revoke"
    then ok (revoke_decision, none)
    else err "APPROVAL_DECISION_INVALID"

-- What is answered to the agent's request.
unfoldable pub response_text : Option String → String
response_text none = "decline"
response_text (some decision) =
    if str_eq decision "approve-route"
    then "acceptForSession"
    else if str_eq decision "approve-once"
    then "accept"
    else if str_eq decision "approve"
    then "accept"
    else "decline"

module _ {h : Host} (p : Platform h) where
  unfoldable pub request_safe_pause : MissionCommandRequest h → Action h (MissionCommandResult h)
  request_safe_pause r = do
    m ← lift (request_mission_id p r)
    let key = p.id_text m
    active ← active_run_id key
    on_actor key (shown p "SAFE_PAUSE_FAILED:")
        (Pausing.request_safe_pause h (unwrap_or r.reason "user requested"))
    answer ← result p key
    control_run p safe_pause "SAFE_PAUSE_CONTROL_FAILED:" key active
    pure answer

  -- What `resolve_approval` reads of its request, in its order.
  unfoldable pub read_resolution : MissionCommandRequest h → Action h ResolveApproval
  unfolding decision_and_scope
  read_resolution r = do
    m ← lift (request_mission_id p r)
    route ← lift (request_route_id p r)
    id ← lift (required_text p "APPROVAL_ID_REQUIRED" r.approval_id)
    asked ← lift (decision_and_scope r.approval_decision r.approval_scope)
    revision ←
        lift
          (required p "APPROVAL_REVISION_REQUIRED" (or_else r.expected_revision r.expected_version))
    digest ← lift (required_text p "ACTION_DIGEST_REQUIRED" r.action_digest)
    version ← lift (required p "CONTRACT_VERSION_REQUIRED" r.contract_version)
    loadout ← lift (required_text p "LOADOUT_FINGERPRINT_REQUIRED" r.loadout_fingerprint)
    pure (record {
      approval_id = id;
      expected_revision = revision;
      decision = asked.0;
      mission_id = p.id_text m;
      route_id = p.id_text route;
      contract_version = version;
      loadout_fingerprint = loadout;
      action_digest = digest;
      now_ms = unwrap_or r.now_ms p.clock_ms;
      scope = asked.1;
    })

  -- The answer to the request that waited for the approval.
  unfoldable pub answer_pending :
      Option String → Option (PendingServerRequest h) → Action h (Unit {0})
  unfolding response_text
  answer_pending decision none = pure tt
  answer_pending decision (some waiting) = do
    adapter p waiting.provider
    call p "APPROVAL_RESPONSE_FAILED:"
        (respond waiting.provider waiting.run_id waiting.request_id (response_text decision))

  -- `pending_server_requests.remove(..)`.
  unfoldable pub take_pending : String → Action h (Option (PendingServerRequest h))
  take_pending id s = (
    record s { pending_server_requests = remove id s.pending_server_requests },
    ok (lookup id s.pending_server_requests),
  )

  -- `resolve_approval` behind the actor's decision.
  unfoldable pub answer_agent :
      MissionCommandRequest h → ResolveApproval → Action h (MissionCommandResult h)
  unfolding take_pending answer_pending
  answer_agent r command = do
    answer ← result p command.mission_id
    waiting ← take_pending command.approval_id
    answer_pending r.approval_decision waiting
    pure answer

  unfoldable pub resolve_with :
      MissionCommandRequest h → ResolveApproval → Action h (MissionCommandResult h)
  unfolding answer_agent
  resolve_with r command = do
    on_actor command.mission_id (shown p "APPROVAL_RESOLUTION_FAILED:")
        (Approvals.resolve_approval h Actor.user command)
    answer_agent r command

  unfoldable pub resolve_approval : MissionCommandRequest h → Action h (MissionCommandResult h)
  unfolding read_resolution resolve_with
  resolve_approval r = do command ← read_resolution r; resolve_with r command

  unfoldable pub request_force_termination :
      MissionCommandRequest h → Action h (MissionCommandResult h)
  request_force_termination r = do
    m ← lift (request_mission_id p r)
    let key = p.id_text m
    active ← active_run_id key
    token ←
        on_actor key (shown p "FORCE_TERMINATE_REQUEST_FAILED:")
          (Pausing.request_force_termination h)
    answer ← result p key
    control_run p safe_pause "SAFE_PAUSE_CONTROL_FAILED:" key active
    pure (record answer { confirmation_token = some token })

  -- `can_force_terminate` of the mission's actor, before anything is terminated.
  unfoldable pub token_checked : String → Option (MissionActor h) → Result (Unit {0}) String
  token_checked token none = err "MISSION_NOT_FOUND"
  token_checked token (some a) =
      if can_force_terminate a.pause token
      then ok tt
      else err "FORCE_TERMINATE_FAILED:invalid confirmation token"

  -- `force_terminate` of a mission and a token.
  unfoldable pub terminate_with : String → String → Action h (MissionCommandResult h)
  unfolding token_checked
  terminate_with key token = do
    active ← active_run_id key
    (λ s. lift (token_checked token (lookup key s.missions)) s)
    control_run p terminate_owned_tree "FORCE_TERMINATE_CONTROL_FAILED:" key active
    on_actor key (shown p "FORCE_TERMINATE_FAILED:") (Pausing.force_terminate h token)
    result p key

  unfoldable pub force_terminate : MissionCommandRequest h → Action h (MissionCommandResult h)
  unfolding terminate_with
  force_terminate r = do
    m ← lift (request_mission_id p r)
    token ← lift (required p "FORCE_TOKEN_REQUIRED" r.confirmation_token)
    terminate_with (p.id_text m) token

  -- `check_loadout_before_model_request` behind the monitor's answer.
  unfoldable pub loadout_checked :
      MissionId → Option LoadoutChange → Action h (Option LoadoutChange)
  loadout_checked m none = pure none
  loadout_checked m (some change) = do
    let key = p.id_text m
    on_actor key (shown p "LOADOUT_CHANGE_FAILED:")
        (Approvals.check_loadout_change h change.previous_fingerprint change.next_fingerprint)
    active ← active_run_id key
    control_run p safe_pause "LOADOUT_PAUSE_FAILED:" key active
    pure (some change)

  unfoldable pub check_loadout_before_model_request :
      MissionId → String → Action h (Option LoadoutChange)
  unfolding loadout_checked
  check_loadout_before_model_request m next = do
    change ← (λ s. lift (check_fingerprint s.loadouts m next) s)
    loadout_checked m change
