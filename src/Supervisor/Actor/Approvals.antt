-- ===== src/Supervisor/Actor/Approvals.antt =====
-- The methods of the actor that ask for approvals, resolve, use and revoke them.
use agent_mission_control.Prelude.{
  ℕ, Bool, true, false, not, ◌&&◌, ◌||◌, ◌==◌, Option, none, some, List, [], ◌∷◌, String, Result,
  ok, err, if◌then◌else◌,
}
use agent_mission_control.Prelude.Text.{str_eq, is_blank}
use agent_mission_control.Domain.Event.{EventKind}
use agent_mission_control.Policy.Action.{ActionIntent, same_class}
use agent_mission_control.Policy.Engine.{
  PolicyContext, PolicyDecision, require_user_judgment, deny_and_pause, evaluate,
}
use agent_mission_control.Policy.Approval.{
  ApprovalState, ApprovalError, ApprovalSubject, ApprovalRequest, is_open, authorize,
  revoke_for_loadout_change,
}
use agent_mission_control.Prelude.Dict.{lookup, insert}
use agent_mission_control.Supervisor.Actor.{
  Host, approval_error, missing_approval_request, approval_binding_mismatch,
  invalid_approval_subject, ApprovalMap, MissionActor, Step, ◌>>◌, pure, fail, append,
}
use agent_mission_control.Supervisor.Actor.Pausing.{request_safe_pause}
use agent_mission_control.Supervisor.Actor.Decisions.{
  Actor, protocol_actor, ResolveApproval, discriminant, outcome_of, decide,
}

pub data DispatchGate : Type 0 where
  ready paused : DispatchGate
  waiting_for_approval : String → DispatchGate

module _ (h : Host) where
  open h use {json, parse_id, with_approval, request_id_text}

  unfoldable pub put_approval : String → ApprovalRequest → Step h (Unit {0})
  put_approval id r a = (record a { approvals = insert id r a.approvals }, ok tt)

  unfoldable pub binds : MissionActor h → ActionIntent → ApprovalRequest → Bool
  binds a intent r =
      r.subject.mission_id == a.mission_id
      && r.subject.route_id == a.route_id
      && str_eq r.subject.action_digest intent.evidence.action_digest
      && same_class r.subject.action_class intent.class

  unfoldable pub ask : ApprovalRequest → Step h DispatchGate
  unfolding put_approval
  ask r = do
    append h EventKind.approval_requested (h.requested_payload r)
    put_approval r.id r
    pure (waiting_for_approval r.id)

  unfoldable pub ask_bound : Option ApprovalRequest → ActionIntent → Step h DispatchGate
  unfolding ask binds
  ask_bound none intent a = (a, err missing_approval_request)
  ask_bound (some r) intent a =
      if not (binds a intent r) then (a, err approval_binding_mismatch) else ask r a

  unfoldable pub stop_dispatch : Step h DispatchGate
  stop_dispatch = do request_safe_pause h "policy denied action dispatch"; pure paused

  unfoldable pub gated :
      PolicyDecision → ActionIntent → Option ApprovalRequest → Step h DispatchGate
  unfolding ask_bound stop_dispatch
  gated PolicyDecision.allow intent request = pure ready
  gated (PolicyDecision.require_approval reason evidence) intent request = ask_bound request intent
  gated (require_user_judgment reason evidence) intent request = stop_dispatch
  gated (deny_and_pause clause reason evidence) intent request = stop_dispatch

  unfoldable pub gate_action :
      PolicyContext → ActionIntent → Option ApprovalRequest → Step h DispatchGate
  unfolding gated
  gate_action context intent request = gated (evaluate context intent) intent request

  -- The subject of a command, with the class of the request that is there.
  unfoldable pub subject_of : ResolveApproval → ApprovalRequest → Option ApprovalSubject
  subject_of c r = elim (parse_id c.mission_id) [
    | none ↦ none
    | some mission_id ↦ elim (parse_id c.route_id) [
      | none ↦ none
      | some route_id ↦ some (record {
        mission_id = mission_id;
        route_id = route_id;
        action_digest = c.action_digest;
        action_class = r.subject.action_class;
        contract_version = c.contract_version;
        loadout_fingerprint = c.loadout_fingerprint;
      })
    ]
  ]

  -- A changed request: its event, then the map.
  unfoldable pub keep :
      String → Result (ApprovalRequest × EventKind) ApprovalError → Step h ApprovalState
  unfolding put_approval
  keep id (err e) = fail (approval_error e)
  keep id (ok (next, kind)) = do
    append h kind (h.approval_payload next)
    put_approval id next
    pure next.state

  -- The command on the request that is there, by its subject.
  unfoldable pub resolve_as :
      Option ApprovalSubject → ApprovalRequest → Actor → ResolveApproval → Step h ApprovalState
  unfolding keep decide protocol_actor
  resolve_as none r actor c = fail invalid_approval_subject
  resolve_as (some subject) r actor c =
      keep c.approval_id (decide c.decision (protocol_actor actor) c subject r)

  unfoldable pub resolve_found :
      Option ApprovalRequest → Actor → ResolveApproval → Step h ApprovalState
  unfolding subject_of resolve_as
  resolve_found none actor c = fail invalid_approval_subject
  resolve_found (some r) actor c = resolve_as (subject_of c r) r actor c

  unfoldable pub resolve_approval : Actor → ResolveApproval → Step h ApprovalState
  unfolding resolve_found
  resolve_approval actor c a = resolve_found (lookup c.approval_id a.approvals) actor c a

  -- A request behind its `authorize`: an event where the state has changed.
  unfoldable pub use_approval :
      String → ApprovalRequest → Result ApprovalRequest ApprovalError → Step h (Unit {0})
  unfolding put_approval discriminant
  use_approval id before (err e) = fail (approval_error e)
  use_approval id before (ok next) =
      if discriminant before.state == discriminant next.state
      then put_approval id next
      else do append h EventKind.approval_consumed (h.approval_payload next); put_approval id next

  unfoldable pub authorize_found :
      Option ApprovalRequest → String → ApprovalSubject → ℕ → Step h (Unit {0})
  unfolding use_approval outcome_of
  authorize_found none id subject now_ms = fail invalid_approval_subject
  authorize_found (some r) id subject now_ms =
      use_approval id r (outcome_of (authorize r subject now_ms))

  unfoldable pub authorize_approved_action : String → ApprovalSubject → ℕ → Step h (Unit {0})
  unfolding authorize_found
  authorize_approved_action id subject now_ms a =
      authorize_found (lookup id a.approvals) id subject now_ms a

  -- The identifiers of the open approvals, in the order that the map gives.
  unfoldable pub open_ids : ApprovalMap → List String
  unfolding is_open
  open_ids [] = []
  open_ids ((k, r) ∷ m) = let rest = open_ids m in if is_open r.state then r.id ∷ rest else rest

  unfoldable pub revoked_for_loadout :
      String → Result ApprovalRequest ApprovalError → Step h (Unit {0})
  unfolding put_approval
  revoked_for_loadout id (err e) = fail (approval_error e)
  revoked_for_loadout id (ok next) = do
    append h EventKind.approval_revoked (h.loadout_revoked_payload next)
    put_approval id next

  unfoldable pub revoke_found : Option ApprovalRequest → String → Step h (Unit {0})
  unfolding revoked_for_loadout outcome_of
  revoke_found none id = fail invalid_approval_subject
  revoke_found (some r) id = revoked_for_loadout id (outcome_of (revoke_for_loadout_change r))

  unfoldable pub revoke_one : String → Step h (Unit {0})
  unfolding revoke_found
  revoke_one id a = revoke_found (lookup id a.approvals) id a

  unfoldable pub revoke_each : List String → Step h (Unit {0})
  unfolding revoke_one
  revoke_each [] = pure tt
  revoke_each (id ∷ ids) = do revoke_one id; revoke_each ids

  -- What `check_loadout_change` does about a change.
  unfoldable pub change_loadout : String → String → List String → Step h Bool
  unfolding revoke_each
  change_loadout previous next ids = do
    revoke_each ids
    append h EventKind.loadout_changed (h.loadout_payload previous next)
    request_safe_pause h "provider loadout changed"
    pure true

  unfoldable pub check_loadout_change : String → String → Step h Bool
  unfolding change_loadout open_ids
  check_loadout_change previous next a =
      if is_blank previous || is_blank next || str_eq previous next
      then (a, ok false)
      else change_loadout previous next (open_ids a.approvals) a
