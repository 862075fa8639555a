-- ===== src/Supervisor/Service/Samples.antt =====
-- A service over a ledger in memory, with one mission.
use agent_mission_control.Prelude.{
  ℕ, ◌≡◌, refl, ◌⊎◌, true, false, none, some, List, [], ◌∷◌, ◌++◌, String, Result, ok, err, arith,
}
use agent_mission_control.Prelude.Text.{is_blank}
use agent_mission_control.Prelude.Dict.{lookup, insert, remove}
use agent_mission_control.Domain.Event.{Json, EventKind, EventEnvelope, new}
use agent_mission_control.Policy.Approval.{ApprovalRequest, pending, supervisor}
use agent_mission_control.Policy.Approval.{ApprovalState}
use agent_mission_control.Policy.Approval
use agent_mission_control.Policy.Budget.{BudgetLimits, known, pause}
use agent_mission_control.Policy.Budget
use agent_mission_control.Supervisor.Budgets
use agent_mission_control.Supervisor.Budgets.{
  MissionBudgetRequest, no_budget_request, limits, written_budget, default_budget_tracker,
  budget_tracker_from_events, is_contract_updated, take_each,
}
use agent_mission_control.Supervisor.Budgets.Tokens.{take_each-tokens}
use agent_mission_control.Supervisor.Loadouts.{ProviderId}
use agent_mission_control.Supervisor.Pause.{default_controller, from_events, see_each, see}
use agent_mission_control.Supervisor.Actor.{
  MissionActor, try_new, replay_approvals, replay_loop, file, is_approval_kind, is_running,
  recovery_required, recovery_loop, largest, append, append_envelope, appended, continue,
}
use agent_mission_control.Supervisor.Actor.Approvals.{resolve_approval}
use agent_mission_control.Supervisor.Actor.Decisions.{ResolveApproval}
use agent_mission_control.Supervisor.Actor.AgentEvents.{
  AgentEvent, record_agent_event, into_envelope, put_request, with_request, requested_by,
  is_request_kind,
}
use agent_mission_control.Supervisor.Service.{
  MissionCommandResult, MissionService, StartAgentRequest, safe_pause,
}
use agent_mission_control.Supervisor.Service.Action.{
  bound, result, result_of, event_values, on_actor, on_found, kept, adapter, call,
  request_mission_id, request_route_id, required_text,
}
use agent_mission_control.Supervisor.Service.Missions.{
  create_as, creation_events, creatable, write_creation, actor_on_disk, enter,
}
use agent_mission_control.Supervisor.Service.Creation.{IsNew, asked, create_as-ok}
use agent_mission_control.Supervisor.Service.Restart.{updated_budget_forgotten}
use agent_mission_control.Supervisor.Service.Presence.{pause_for_ui_disconnect}
use agent_mission_control.Supervisor.Service.Presence.Quiet.{AreAway, disconnect_once}
use agent_mission_control.Supervisor.Service.Control
use agent_mission_control.Supervisor.Service.Control.{
  terminate_with, read_resolution, resolve_with, answer_agent, answer_pending, take_pending,
}
use agent_mission_control.Supervisor.Service.Guards.{
  IsConfirmed, IsAnswer, answered, decided, terminate_with-guarded, resolve_approval-ok,
}
use agent_mission_control.Supervisor.Service.Launch.{launch_agent, launch_route}
use agent_mission_control.Supervisor.Service.Launches.{Starts, launch_agent-guarded}
use agent_mission_control.Supervisor.Service.Busy.{began, launch_route-busy}
use agent_mission_control.Supervisor.Service.Runs.{Run, finish_round}
use agent_mission_control.Supervisor.Service.Unrecorded.{unrecorded_stops}
use agent_mission_control.Supervisor.Service.Fixture.{
  blank, note_json, host, platform, empty, busy, hundred_tokens, request,
}

-- Totals that are told twice and out of order.
abbrev totals_json : Json
totals_json = record {
  Value = ℕ;
  to_vec = λ v. [];
  sha256 = λ bytes. [];
  get_u64 = λ v field. some v;
  get_str = λ v field. some "thread/tokenUsage/updated";
}

abbrev totals_fields : Budgets.Fields totals_json
totals_fields = record { get = λ v field. some v; as_u64 = λ v. some v; read_request = λ v. none }

abbrev totals : List ℕ
totals = 500 ∷ 900 ∷ 900 ∷ 700 ∷ []

take_each-tokens_example :
    ((take_each totals_json totals_fields totals default_budget_tracker 0).1 ≡ 900)
    × ((take_each totals_json totals_fields totals default_budget_tracker 0).0.projection
          Budget.BudgetDimension.tokens
        ≡ some (known 900))
unfolding Budgets.total_tokens default_budget_tracker Budget.new
take_each-tokens_example =
    take_each-tokens totals_json totals_fields totals default_budget_tracker 0 0
      (λ u. (500, refl), (λ u. (900, refl), (λ u. (900, refl), (λ u. (700, refl), tt))))
      (omega arith) refl

disconnect_once_example :
    let away = pause_for_ui_disconnect platform busy in
    AreAway away.missions
    × ((pause_for_ui_disconnect platform away).disk ≡ away.disk)
    × ((pause_for_ui_disconnect platform away).calls ≡ away.calls)
disconnect_once_example = disconnect_once platform busy

later : EventEnvelope note_json
later = new note_json 9 1 2 4 EventKind.agent_message blank

update : EventEnvelope note_json
update = new note_json 8 1 2 4 EventKind.contract_updated (platform.goal_payload none none)

updated_budget_forgotten_example :
    budget_tracker_from_events note_json platform.fields
      (creation_events platform request 1 2 (limits hundred_tokens) ++ update ∷ later ∷ [])
    ≡ default_budget_tracker
unfolding update later new is_contract_updated
updated_budget_forgotten_example =
    updated_budget_forgotten platform (creation_events platform request 1 2 (limits hundred_tokens))
      (later ∷ []) update none none refl refl refl (refl, tt)

-- What a creation gives where the mission is new, and where it is there.
created : MissionService host × Result (MissionCommandResult host) String
created = create_as platform request 1 2 empty

answer_of : Result (MissionCommandResult host) String → MissionCommandResult host
answer_of (ok answer) = answer
answer_of (err text) = record {
  accepted = false;
  mission_id = none;
  route_id = none;
  sequence = none;
  error_code = none;
  confirmation_token = none;
  provider = none;
  capability = none;
  events = [];
  data_value = none;
  recovery_required = false;
}

create_as-ok_example :
    IsNew platform request 1 2 empty
    × ((platform.append_batch empty.disk
          (creation_events platform request 1 2 (asked platform request 1 2))).1
        ≡ ok tt)
    × ((a : MissionActor host) × (try_new host 1 2 created.0.disk ≡ ok a)
        × (created.0 ≡ record empty {
          disk =
              (platform.append_batch empty.disk
                (creation_events platform request 1 2 (asked platform request 1 2))).0;
          missions = insert "m" a [];
          budgets = insert "m" (Budget.new 1 (asked platform request 1 2) pause) [];
        })
        × (lookup "m" created.0.missions ≡ some a)
        × (lookup "m" created.0.budgets ≡ some (Budget.new 1 (asked platform request 1 2) pause)))
unfolding created answer_of create_as bound creatable lookup try_new replay_approvals replay_loop
    file is_approval_kind result result_of event_values write_creation actor_on_disk enter insert
    new is_running recovery_required recovery_loop largest from_events see_each see
    default_controller creation_events
create_as-ok_example = create_as-ok platform request 1 2 empty created.0 (answer_of created.1) refl

terminate_with-guarded_example :
    IsConfirmed platform "m" "guess" busy
    ⊎ ((text : String) × (terminate_with platform "m" "guess" busy ≡ (busy, err text)))
terminate_with-guarded_example = terminate_with-guarded platform "m" "guess" busy

resolved : MissionService host × Result (MissionCommandResult host) String
resolved = Control.resolve_approval platform request busy

resolve_approval-ok_example :
    (c : ResolveApproval) × (read_resolution platform request busy ≡ (busy, ok c))
    × ((state : ApprovalState) × ((decided platform c busy).1 ≡ ok state))
    × ((text : String) × IsAnswer c.decision c.scope text
        × (resolved.0.calls
            ≡ answered platform text (lookup c.approval_id busy.pending_server_requests) []))
    × (lookup c.approval_id resolved.0.pending_server_requests ≡ none)
unfolding resolved answer_of resolve_with bound on_actor on_found kept Control.resolve_approval
    resolve_approval lookup insert remove result result_of event_values answer_agent answer_pending
    take_pending adapter call Approval.set_scope Approval.resolve Approval.matches_authority_context
    continue append new request_mission_id request_route_id required_text is_blank
resolve_approval-ok_example =
    resolve_approval-ok platform request busy resolved.0 (answer_of resolved.1) refl

launch_agent-guarded_example :
    ((launch_agent platform 1 2 request empty).0.calls ≡ [])
    ⊎ ((start : StartAgentRequest) × Starts platform 1 ProviderId.codex empty
          (launch_agent platform 1 2 request empty).0
          start)
launch_agent-guarded_example = launch_agent-guarded platform 1 2 request empty

launch_route-busy_example :
    ((launch_route platform request busy).0 ≡ (began platform 1 2 request busy).0)
    × ((launch_route platform request busy).0.calls ≡ [])
    × ((began platform 1 2 request busy).1 ≡ ok tt
        → (launch_route platform request busy).1 ≡ err "ROUTE_ALREADY_RUNNING")
launch_route-busy_example =
    launch_route-busy platform 1 2 request busy "run-1" (unfold request_mission_id in refl)
      (unfold request_route_id in refl) (unfold lookup in refl)

-- An event that the ledger refuses.
abbrev finished : AgentEvent host
finished = record {
  event_id = 9;
  agent_run_id = none;
  event_kind = EventKind.agent_run_completed;
  payload = blank;
  requires_safe_pause = false;
  raw_evidence = none;
}

abbrev run : Run
run = record { key = "m"; run_id = "run-1"; provider = ProviderId.codex }

unrecorded_stops_example :
    ((finish_round platform run finished false busy).1 ≡ ok true)
    × ((finish_round platform run finished false busy).0.calls
        ≡ safe_pause ProviderId.codex "run-1" ∷ [])
unfolding on_actor on_found kept lookup record_agent_event into_envelope append_envelope appended
    put_request with_request requested_by is_request_kind continue new
unrecorded_stops_example = unrecorded_stops platform run finished false busy "error" refl
