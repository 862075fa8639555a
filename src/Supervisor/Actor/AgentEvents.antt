-- ===== src/Supervisor/Actor/AgentEvents.antt =====
-- The events of an agent, crates/adapter-core/src/adapter.rs, and how the actor takes them in.
use agent_mission_control.Prelude.{
  ℕ, Bool, true, false, Option, none, some, String, ok, err, if◌then◌else◌,
}
use agent_mission_control.Prelude.Word.{u64_max, increment}
use agent_mission_control.Domain.Ids.{EventId, MissionId, RouteId}
use agent_mission_control.Domain.Event.{
  EventKind, EventSource, EventConfidence, EventEnvelope, new, payload_hash,
}
use agent_mission_control.Policy.Action.{ActionClass}
use agent_mission_control.Policy.Approval.{
  ApprovalState, ApprovalActor, ApprovalAction, ApprovalScope, ApprovalError, ApprovalSubject,
  ApprovalRequest, ApprovalResolution, is_open, set_scope, resolve, authorize, revoke,
  revoke_for_loadout_change,
}
use agent_mission_control.Policy.Approval
use agent_mission_control.Supervisor.Actor.{Host, Step, ◌>>◌, pure, append_envelope}
use agent_mission_control.Supervisor.Actor.Approvals.{put_approval}

pub record AgentEvent (h : Host) : Type 0 where
  pub event_id : EventId
  pub agent_run_id : Option String
  pub event_kind : EventKind
  pub payload : h.json.Value
  pub requires_safe_pause : Bool
  pub raw_evidence : Option h.json.Value

unfoldable pub is_request_kind : EventKind → Bool
is_request_kind EventKind.approval_requested = true
is_request_kind _ = false

abbrev pub or_else {ℓ} : {A : Type ℓ} → Option A → Option A → Option A
or_else none o = o
or_else (some a) o = some a

abbrev pub unwrap_or {ℓ} : {A : Type ℓ} → Option A → A → A
unwrap_or none d = d
unwrap_or (some a) d = a

module _ (h : Host) where
  open h use {json, parse_id, with_approval, request_id_text}

  -- `approval_from_agent_event`; a payload that is no object has no identifier.
  unfoldable pub approval_from_agent_event :
      AgentEvent h → MissionId → RouteId → Option ApprovalRequest
  approval_from_agent_event e mission_id route_id =
      elim (or_else (json.get_str e.payload "approval_id") (request_id_text e.payload)) [
        | none ↦ none
        | some id ↦
            elim (Approval.new id
              (record {
                mission_id = mission_id;
                route_id = route_id;
                action_digest =
                    unwrap_or (json.get_str e.payload "action_digest") "protocol-request";
                action_class = ActionClass.write;
                contract_version = unwrap_or (json.get_u64 e.payload "contract_version") 1;
                loadout_fingerprint =
                    unwrap_or (json.get_str e.payload "loadout_fingerprint") "protocol";
              })
              ApprovalScope.once ApprovalActor.supervisor u64_max) [ ok r ↦ some r | err x ↦ none ]
      ]

  -- `AgentEvent::into_envelope`, and the source and confidence that `record_agent_event` writes.
  unfoldable pub into_envelope : AgentEvent h → MissionId → RouteId → ℕ → EventEnvelope json
  into_envelope e mission_id route_id sequence =
      record (new json e.event_id mission_id route_id sequence e.event_kind e.payload) {
        agent_run_id = e.agent_run_id;
        raw_evidence = e.raw_evidence;
        source = EventSource.agent;
        confidence = EventConfidence.observed;
      }

  unfoldable pub with_request : Option ApprovalRequest → EventEnvelope json → EventEnvelope json
  with_request none e = e
  with_request (some r) e =
      let payload = with_approval e.payload r in
      record e { payload = payload; hash_of_payload = payload_hash json payload }

  unfoldable pub put_request : Option ApprovalRequest → Step h (Unit {0})
  unfolding put_approval
  put_request none = pure tt
  put_request (some r) = put_approval h r.id r

  unfoldable pub requested_by : AgentEvent h → MissionId → RouteId → Option ApprovalRequest
  unfolding is_request_kind approval_from_agent_event
  requested_by e mission_id route_id =
      if is_request_kind e.event_kind then approval_from_agent_event e mission_id route_id else none

  unfoldable pub record_agent_event : AgentEvent h → Step h (Unit {0})
  unfolding requested_by into_envelope with_request put_request
  record_agent_event e a =
      let request = requested_by e a.mission_id a.route_id in
      (do
        append_envelope h
            (with_request request (into_envelope e a.mission_id a.route_id (increment a.sequence)))
        put_request request)
        a
