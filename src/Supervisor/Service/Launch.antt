-- ===== src/Supervisor/Service/Launch.antt =====
-- crates/supervisor/src/mission_service.rs: the launch of a route, and the loop over a run's events.
use Prim.Native.String.{◌++◌ as cat}
use agent_mission_control.Prelude.{
  ℕ, Bool, true, false, not, ◌&&◌, Option, none, some, List, [], ◌∷◌, String, Result, ok, err,
  if◌then◌else◌,
}
use agent_mission_control.Prelude.Text.{is_blank}
use agent_mission_control.Prelude.Dict.{lookup, insert}
use agent_mission_control.Domain.Ids.{MissionId, RouteId}
use agent_mission_control.Domain.Event.{EventKind, EventEnvelope}
use agent_mission_control.Supervisor.Actor.{Host, MissionActor, record_event}
use agent_mission_control.Supervisor.Actor
use agent_mission_control.Supervisor.Budgets.{unwrap_or, or_else, and_then, last_contract}
use agent_mission_control.Supervisor.Loadouts.{
  ProviderId, same_provider, as_str, AgentCapabilityReport, is_available, LoadoutSnapshot,
  fingerprint_material, join, freeze_fingerprint,
}
use agent_mission_control.Supervisor.Service.{
  MissionCommandRequest, MissionCommandResult, MissionService, StartAgentRequest, start, Platform,
  is_some,
}
use agent_mission_control.Supervisor.Service.Action.{
  Action, ◌>>=◌, ◌>>◌, pure, lift, prefixed, refuse, modify, ignore, on_actor, shown, call,
  required, request_mission_id, request_route_id, result, active_run_id, provider_or_default,
}

abbrev pub has_other_provider : Option LoadoutSnapshot → ProviderId → Bool
has_other_provider none provider = false
has_other_provider (some loadout) provider = not (same_provider loadout.provider provider)

abbrev pub material : Option LoadoutSnapshot → Option String
material none = none
material (some loadout) = some (join "|" (fingerprint_material loadout))

abbrev pub model_of : Option LoadoutSnapshot → Option String
model_of none = none
model_of (some loadout) = loadout.model

abbrev pub is_created : EventKind → Bool
is_created EventKind.mission_created = true
is_created _ = false

-- `to_ascii_uppercase` of a provider's text.
unfoldable pub upper : ProviderId → String
upper ProviderId.codex = "CODEX"
upper ProviderId.claude = "CLAUDE"
upper ProviderId.open_code = "OPENCODE"
upper ProviderId.z_code = "ZCODE"

module _ {h : Host} (p : Platform h) where
  -- The events of the actor under the key; none, where there is no actor.
  abbrev pub events_of : String → MissionService h → List (EventEnvelope h.json)
  events_of key s = elim (lookup key s.missions) [
    | none ↦ []
    | some a ↦ h.replay_after s.disk a.mission_id 0
  ]

  -- The goal of the first event that creates a mission.
  unfoldable pub created_goal : List (EventEnvelope h.json) → Option String
  created_goal [] = none
  created_goal (e ∷ es) =
      let rest = created_goal es in
      if is_created e.kind then h.json.get_str e.payload "goal" else rest

  unfoldable pub contract_version_of : List (EventEnvelope h.json) → ℕ
  contract_version_of events =
      unwrap_or
        (and_then (last_contract h.json p.fields none events)
          (λ e. h.json.get_u64 e.payload "contract_version"))
        1

  abbrev pub in_recovery : Option (MissionActor h) → Bool
  in_recovery none = false
  in_recovery (some a) = a.requires_recovery

  unfoldable pub unavailable : AgentCapabilityReport → String
  unavailable report =
      cat "PROVIDER_UNAVAILABLE:" (unwrap_or report.unavailable_reason "capability unavailable")

  -- The fingerprint that is frozen for the run.
  unfoldable pub chosen_fingerprint : MissionCommandRequest h → Result String String
  chosen_fingerprint r = elim (or_else r.loadout_fingerprint (material r.loadout)) [
    | none ↦ err "LOADOUT_FINGERPRINT_REQUIRED"
    | some text ↦ elim (is_blank text) [
      | true ↦ err "LOADOUT_FINGERPRINT_REQUIRED"
      | false ↦ ok text
    ]
  ]

  -- `freeze_fingerprint(..)?`.
  unfoldable pub frozen : MissionId → String → Action h (Unit {0})
  frozen m text s =
      let (monitor, outcome) = freeze_fingerprint s.loadouts m text in
      (record s { loadouts = monitor }, outcome)

  unfoldable pub enter_run : String → String → ProviderId → MissionService h → MissionService h
  enter_run key run_id provider s = record s {
    runs = insert key run_id s.runs;
    run_providers = insert key provider s.run_providers;
  }

  -- The checks of `launch_agent` before it changes anything: what the adapter reports of itself, and the
  -- fingerprint of the run.
  unfoldable pub launch_checks :
      ProviderId
      → MissionCommandRequest h
      → Option (MissionActor h)
      → Result (AgentCapabilityReport × String) String
  unfolding unavailable chosen_fingerprint
  launch_checks provider r actor =
      if has_other_provider r.loadout provider
      then err "LOADOUT_PROVIDER_MISMATCH"
      else if not (p.has_adapter provider)
      then err (cat "PROVIDER_UNAVAILABLE:" (as_str provider))
      else if in_recovery actor
      then err "RECOVERY_REQUIRED"
      else Actor.and_then (prefixed "PROVIDER_PROBE_FAILED:" (p.probe provider)) (λ report.
        if not (is_available report)
        then err (unavailable report)
        else if is_some r.resume_token && not report.capability.resume
        then err "RESUME_UNSUPPORTED"
        else Actor.and_then (chosen_fingerprint r) (λ text. ok (report, text)))

  -- What the adapter is told to start.
  unfoldable pub start_request :
      String
      → MissionId
      → RouteId
      → MissionCommandRequest h
      → String
      → List (EventEnvelope h.json)
      → StartAgentRequest
  unfolding created_goal contract_version_of
  start_request project_root m route r text events = record {
    provider = provider_or_default r.provider;
    mission_id = m;
    route_id = route;
    project_root = project_root;
    route_workspace = project_root;
    read_only = true;
    approved_environment = [];
    model = model_of r.loadout;
    goal = or_else r.goal (created_goal events);
    loadout_fingerprint = text;
    resume_thread_id = r.resume_token;
    loadout = r.loadout;
    contract_version = unwrap_or r.contract_version (contract_version_of events);
  }

  -- The start of the agent, behind the checks and the freeze of the fingerprint.
  unfoldable pub start_agent : String → ProviderId → StartAgentRequest → Action h (Unit {0})
  unfolding enter_run
  start_agent key provider request = do
    call p (cat (upper provider) "_ADAPTER_START_FAILED:") (start provider request)
    modify (enter_run key (p.started_run request) provider)

  -- `launch_agent` of a project, up to the event consumer, which is `consume` of `Runs`.
  unfoldable pub launch_in :
      String → MissionId → RouteId → MissionCommandRequest h → Action h AgentCapabilityReport
  launch_in project_root m route r = do
    let key = p.id_text m
    let provider = provider_or_default r.provider
    checked ← (λ s. lift (launch_checks provider r (lookup key s.missions)) s)
    frozen m checked.1
    (λ s.
        start_agent key provider (start_request project_root m route r checked.1 (events_of key s))
          s)
    pure checked.0

  unfoldable pub launch_agent :
      MissionId → RouteId → MissionCommandRequest h → Action h AgentCapabilityReport
  unfolding launch_in
  launch_agent m route r = do
    project_root ← lift (required p "PROJECT_ROOT_REQUIRED" r.project_root)
    launch_in project_root m route r

  -- Where the launch fails, the actor records it, and the command fails.
  unfoldable pub launched :
      String
      → ProviderId
      → MissionService h × Result AgentCapabilityReport String
      → MissionService h × Result AgentCapabilityReport String
  launched key provider (s, ok report) = (s, ok report)
  launched key provider (s, err e) = (
    (ignore
        (on_actor key (shown p "")
          (record_event h (EventKind.unknown "adapter.start_failed") (p.error_payload e)))
        s).0,
    err (cat (upper provider) "_START_FAILED"),
  )

  unfoldable pub launch_route : MissionCommandRequest h → Action h (MissionCommandResult h)
  unfolding launch_agent launched
  launch_route r = do
    m ← lift (request_mission_id p r)
    route ← lift (request_route_id p r)
    let key = p.id_text m
    let provider = provider_or_default r.provider
    on_actor key (shown p "ROUTE_LAUNCH_FAILED:")
        (record_event h EventKind.exploration_started (p.exploration_payload route))
    active ← active_run_id key
    refuse (is_some active) "ROUTE_ALREADY_RUNNING"
    report ← (λ s. launched key provider (launch_agent m route r s))
    answer ← result p key
    pure (record answer { provider = some provider; capability = some report })
