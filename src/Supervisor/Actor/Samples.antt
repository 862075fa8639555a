-- ===== src/Supervisor/Actor/Samples.antt =====
-- An actor over a ledger in memory.
use agent_mission_control.Prelude.{
  ◌≡◌, refl, Bool, true, false, Option, none, some, List, [], ◌∷◌, String, Result, ok, err,
  if◌then◌else◌, arith,
}
use agent_mission_control.Prelude.Text.{str_eq}
use agent_mission_control.Domain.Event.{Json, EventKind}
use agent_mission_control.Domain.Contract.{manual}
use agent_mission_control.Policy.Action.{ActionClass, IntentOrigin, ActionIntent, no_deviation}
use agent_mission_control.Policy.Engine.{PolicyContext}
use agent_mission_control.Policy.Approval.{ApprovalRequest, ApprovalSubject, pending, supervisor}
use agent_mission_control.Policy.Approval
use agent_mission_control.Ledger.Events.{
  LedgerError, Row, no_faults, Codec, of_mission, insert_row, order_by_sequence, read_row,
  read_each, check_each, replay_events,
}
use agent_mission_control.Supervisor.Actor.{
  Host, MissionActor, largest, is_approval_kind, recovery_required, recovery_loop, replay_approvals,
  replay_loop, is_running, try_new,
}
use agent_mission_control.Supervisor.Actor.Decisions.{Actor, ResolveApproval, approve}
use agent_mission_control.Supervisor.Actor.AgentEvents.{
  AgentEvent, is_request_kind, approval_from_agent_event, requested_by, record_agent_event,
}
use agent_mission_control.Supervisor.Actor.InMemory
use agent_mission_control.Supervisor.Actor.InMemory.{in_memory, HoldsApprovals, faithful}
use agent_mission_control.Supervisor.Actor.History.{
  Call, gates, resolves, takes_in, records, connects,
}
use agent_mission_control.Supervisor.Actor.Unreadable.{unnamed_approval_lem}
use agent_mission_control.Supervisor.Actor.Encrypted.{after, encrypted, unreadable_ledger_lem}
use agent_mission_control.Supervisor.Pause
use agent_mission_control.Supervisor.Pause.{running, from_events, see_each, default_controller}

-- A payload: a name, and an approval.
abbrev Payload : Type 0
Payload = Option String × Option ApprovalRequest

abbrev payload_json : Json
payload_json = record {
  Value = Payload;
  to_vec = λ v. [];
  sha256 = λ bytes. 171 ∷ [];
  get_u64 = λ v field. none;
  get_str = λ v field. if str_eq field "approval_id" then v.0 else none;
}

abbrev approval_in : Option ApprovalRequest → Option (Result ApprovalRequest String)
approval_in none = none
approval_in (some r) = some (ok r)

abbrev base : Host
base = record {
  json = payload_json;
  Ledger = Unit {0};
  append_event = λ l e. (l, ok tt);
  replay_after = λ l id sequence. [];
  Tree = Bool;
  new_tree = true;
  terminate = λ tree. (false, ok tt);
  fresh_id = λ n. n;
  parse_id = λ s. if str_eq s "m" then some 1 else if str_eq s "r" then some 2 else none;
  requested_payload = λ r. (none, some r);
  approval_payload = λ r. (none, some r);
  loadout_revoked_payload = λ r. (none, some r);
  dimension_payload = λ d. (none, none);
  identity_payload = λ i. (none, none);
  loadout_payload = λ previous next. (none, none);
  decision_payload = λ decision manifest. (none, none);
  pause_payload = λ reason state. (none, none);
  state_payload = λ state. (none, none);
  token_payload = λ state. (none, none);
  failure_payload = λ message. (none, none);
  with_approval = λ v r. (v.0, some r);
  read_approval = λ v. approval_in v.1;
  request_id_text = λ v. none;
}

-- The actor's ledger is a list of events.
abbrev host : Host
host = in_memory base

abbrev holds : HoldsApprovals base 1
holds = record {
  requested = λ r. refl;
  resolved = λ r. refl;
  revoked = λ r. refl;
  attached = λ e route r found. refl;
}

abbrev fresh : MissionActor host
fresh = record {
  mission_id = 1;
  route_id = 2;
  ledger = [];
  sequence = 0;
  pause = from_events [];
  process_tree = true;
  ui_connected = true;
  requires_recovery = false;
  approvals = [];
}

fresh_lem : try_new host 1 2 [] ≡ ok fresh
unfolding InMemory.replay_after after try_new replay_approvals replay_loop recovery_required
    recovery_loop largest is_running from_events see_each default_controller
fresh_lem = refl

abbrev push : ActionIntent
push = record {
  class = ActionClass.git_push;
  origin = IntentOrigin.supervisor;
  planned = true;
  within_allowed_paths = true;
  deviation = no_deviation;
  evidence = record { event_id = "e1"; action_digest = "d1" };
}

abbrev push_subject : ApprovalSubject
push_subject = record {
  mission_id = 1;
  route_id = 2;
  action_digest = "d1";
  action_class = ActionClass.git_push;
  contract_version = 3;
  loadout_fingerprint = "f1";
}

abbrev request : ApprovalRequest
request = record {
  id = "a1";
  subject = push_subject;
  scope = Approval.once;
  requested_by = supervisor;
  resolved_by = none;
  expires_at_ms = 1000;
  state = pending;
  revision = 0;
}

abbrev permission : ResolveApproval
permission = record {
  approval_id = "a1";
  expected_revision = 0;
  decision = approve;
  mission_id = "m";
  route_id = "r";
  contract_version = 3;
  loadout_fingerprint = "f1";
  action_digest = "d1";
  now_ms = 10;
  scope = none;
}

abbrev asked : Payload → AgentEvent host
asked payload = record {
  event_id = 9;
  agent_run_id = none;
  event_kind = EventKind.approval_requested;
  payload = payload;
  requires_safe_pause = false;
  raw_evidence = none;
}

abbrev pilot : PolicyContext
pilot = record { driving_mode = manual; autopilot_allowed_actions = [] }

abbrev calls : List (Call host)
calls =
    gates pilot push (some request)
    ∷ resolves Actor.user permission
    ∷ takes_in (asked (some "a2", none))
    ∷ records EventKind.agent_run_started (none, none)
    ∷ connects false
    ∷ []

unnamed : requested_by host (asked (none, none)) 1 2 ≡ none
unfolding requested_by is_request_kind approval_from_agent_event
unnamed = refl

unnamed_approval_lem_example :
    ((record_agent_event host (asked (none, none)) fresh).1 ≡ ok tt)
    × ((text : String) × (try_new host 1 2
            (record_agent_event host (asked (none, none)) fresh).0.ledger
          ≡ err text))
unfolding InMemory.replay_after InMemory.append_event after
unnamed_approval_lem_example =
    unnamed_approval_lem host 1 2 (faithful base 1 holds) [] fresh (asked (none, none))
      (unfold largest in omega arith) fresh_lem (unfold is_approval_kind in refl) unnamed refl refl

-- A ledger of one row, whose payload does not parse.
abbrev broken_codec : Codec payload_json
broken_codec = record {
  redact_event = λ v. some v;
  to_text = λ v. ok "{}";
  from_text = λ s. err "invalid JSON";
  show_id = λ id. "m";
}

abbrev broken_row : Row
broken_row = record {
  mission_id = 1;
  route_id = 2;
  sequence = 1;
  event_id = 7;
  schema_version = 1;
  kind = "agent_run_started";
  occurred_at = "1970-01-01T00:00:00Z";
  payload = "{";
  raw_evidence = none;
  payload_hash = "ab";
}

broken :
    replay_events payload_json broken_codec (broken_row ∷ []) 1
    ≡ err (LedgerError.database "invalid JSON")
unfolding replay_events order_by_sequence insert_row of_mission read_each read_row check_each
broken = refl

abbrev on_broken : Host
on_broken = encrypted host broken_codec (λ e. "error")

unreadable_ledger_lem_example :
    (a : MissionActor on_broken) × (try_new on_broken 1 2 (no_faults, broken_row ∷ []) ≡ ok a)
    × (a.ledger ≡ (no_faults, broken_row ∷ []))
    × (a.sequence ≡ 0)
    × (a.pause.state ≡ running)
    × (a.requires_recovery ≡ false)
    × (a.approvals ≡ [])
unreadable_ledger_lem_example =
    unreadable_ledger_lem host broken_codec (λ e. "error") no_faults (broken_row ∷ []) 1 2
      (LedgerError.database "invalid JSON") broken
