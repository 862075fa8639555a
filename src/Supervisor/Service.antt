-- ===== src/Supervisor/Service.antt =====
-- crates/supervisor/src/mission_service.rs: the service that keeps the missions' actors and carries out the
-- commands of the desktop. Its locks are never poisoned here, and a command runs to its end before the
-- next. Every ledger that the source opens is a connection to one database, the field `disk`: an actor's
-- call finds the database there and leaves it there. What the service asks of the adapters is logged in
-- `calls`, the latest last, and `Platform` says what they answer.
pub mod Action
pub mod Control
pub mod Launch
pub mod Runs
pub mod Succeeds
pub mod Ended
pub mod Fixture
pub mod Samples
pub mod Missions
pub mod Unrecorded
pub mod Launches
pub mod Busy
pub mod Guards
pub mod Creation
pub mod Atomic
pub mod Restart
pub mod Presence
use Prim.Native.String.{◌++◌ as cat}
use agent_mission_control.Prelude.{
  ℕ, Bool, true, false, ◌==◌, ltb, Option, none, some, List, [], ◌∷◌, ◌++◌, String, Result, ok, err,
  ok_or, refuse_if, ◌>>=◌, ◌>>◌, if◌then◌else◌,
}
use agent_mission_control.Prelude.Text.{byte_len}
use agent_mission_control.Prelude.Dict.{Dict, lookup, insert}
use agent_mission_control.Domain.Ids.{MissionId, RouteId}
use agent_mission_control.Domain.Event.{EventEnvelope}
use agent_mission_control.Policy.Budget.{BudgetTracker}
use agent_mission_control.Supervisor.Budgets.{MissionBudgetRequest, Fields}
use agent_mission_control.Supervisor.Loadouts.{
  ProviderId, AgentCapabilityReport, LoadoutSnapshot, LoadoutMonitor,
}
use agent_mission_control.Supervisor.Actor.{Host, ActorError, MissionActor, Step}

-- The fields that the modelled commands read.
pub record MissionCommandRequest (h : Host) : Type 0 where
  pub provider : Option ProviderId
  pub loadout : Option LoadoutSnapshot
  pub mission_id : Option String
  pub route_id : Option String
  pub expected_version : Option ℕ
  pub project_root : Option String
  pub goal : Option String
  pub reason : Option String
  pub confirmation_token : Option String
  pub approval_id : Option String
  pub approval_decision : Option String
  pub approval_scope : Option String
  pub action_digest : Option String
  pub expected_revision : Option ℕ
  pub now_ms : Option ℕ
  pub loadout_fingerprint : Option String
  pub resume_token : Option String
  pub contract_version : Option ℕ
  pub memory_id : Option String
  pub memory_decision : Option String
  pub budget : Option MissionBudgetRequest
  pub impact_hash : Option String
  pub archive_plan : Option h.json.Value
  pub delete_plan : Option h.json.Value

-- The fields that the modelled commands set; the others are `None` or empty there.
pub record MissionCommandResult (h : Host) : Type 0 where
  pub accepted : Bool
  pub mission_id : Option String
  pub route_id : Option String
  pub sequence : Option ℕ
  pub error_code : Option String
  pub confirmation_token : Option String
  pub provider : Option ProviderId
  pub capability : Option AgentCapabilityReport
  pub events : List h.json.Value
  pub data_value : Option h.json.Value
  pub recovery_required : Bool

pub record PendingServerRequest (h : Host) : Type 0 where
  pub run_id : String
  pub request_id : h.json.Value
  pub provider : ProviderId

-- What `launch_agent` tells an adapter to start.
pub record StartAgentRequest : Type 0 where
  pub provider : ProviderId
  pub mission_id : MissionId
  pub route_id : RouteId
  pub project_root : String
  pub route_workspace : String
  pub read_only : Bool
  pub approved_environment : List (String × String)
  pub model : Option String
  pub goal : Option String
  pub loadout_fingerprint : String
  pub resume_thread_id : Option String
  pub loadout : Option LoadoutSnapshot
  pub contract_version : ℕ

-- A call of an adapter that changes what runs.
pub data ControlCall (h : Host) : Type 0 where
  safe_pause terminate_owned_tree : ProviderId → String → ControlCall h
  respond : ProviderId → String → h.json.Value → String → ControlCall h
  start : ProviderId → StartAgentRequest → ControlCall h

pub record MissionService (h : Host) : Type 0 where
  pub missions : Dict (MissionActor h)
  pub budgets : Dict BudgetTracker
  pub runs : Dict String
  pub run_providers : Dict ProviderId
  pub pending_server_requests : Dict (PendingServerRequest h)
  pub loadouts : LoadoutMonitor
  pub disk : h.Ledger
  pub calls : List (ControlCall h)

-- What the service uses: the ledger's methods besides those of an actor, the adapters, the payloads that
-- it builds, and how errors and identifiers print.
pub record Platform (h : Host) : Type 0 where
  pub fields : Fields h.json
  pub open_ledger : h.Ledger → Result (Unit {0}) String
  pub mission_ids : h.Ledger → Result (List MissionId) String
  pub append_batch : h.Ledger → List (EventEnvelope h.json) → h.Ledger × Result (Unit {0}) String
  pub has_adapter : ProviderId → Bool
  -- `AgentAdapter::probe`: a question, which is no entry of the list of calls.
  pub probe : ProviderId → Result AgentCapabilityReport String
  pub control : ControlCall h → Result (Unit {0}) String
  pub started_run : StartAgentRequest → String
  pub id_text : ℕ → String
  pub debug : ActorError → String
  pub clock_ms : ℕ
  pub new_mission_id : MissionId
  pub new_route_id : RouteId
  pub creation_id : ℕ → ℕ
  pub event_value : EventEnvelope h.json → Option h.json.Value
  pub created_payload : Option String → Option String → h.json.Value
  pub route_payload : RouteId → h.json.Value
  pub contract_payload : Option String → MissionBudgetRequest → h.json.Value
  pub goal_payload : Option String → Option ℕ → h.json.Value
  pub exploration_payload : RouteId → h.json.Value
  pub error_payload : String → h.json.Value
  pub degraded_payload : String → h.json.Value
  pub memory_payload : String → h.json.Value → h.json.Value
  pub set_text : h.json.Value → String → String → Option h.json.Value

abbrev pub is_some {ℓ} : {A : Type ℓ} → Option A → Bool
is_some none = false
is_some (some a) = true

-- `is_some_and(|value| value.len() > limit)`.
unfoldable pub is_longer : ℕ → Option String → Bool
is_longer limit none = false
is_longer limit (some text) = ltb limit (byte_len text)

unfoldable pub validate_mission_request :
    {h : Host} → MissionCommandRequest h → Result (Unit {0}) String
unfolding is_longer
validate_mission_request r = do
  refuse_if (is_longer 4096 r.project_root) "PROJECT_ROOT_TOO_LONG"
  refuse_if (is_longer 32000 r.goal) "GOAL_TOO_LONG"
  refuse_if (is_longer 256 r.confirmation_token) "CONFIRMATION_TOKEN_TOO_LONG"
  refuse_if (is_longer 512 r.loadout_fingerprint) "LOADOUT_FINGERPRINT_TOO_LONG"
  refuse_if (is_longer 4096 r.resume_token) "RESUME_TOKEN_TOO_LONG"
