-- ===== src/Supervisor/Service/Fixture.antt =====
-- A service over a ledger in memory, with one mission: the data of the concrete runs.
use agent_mission_control.Prelude.{
  ltb, length, ◌+◌, Bool, true, false, ◌==◌, Option, none, some, List, [], ◌∷◌, ◌++◌, String,
  Result, ok, err, if◌then◌else◌,
}
use agent_mission_control.Prelude.Text.{str_eq}
use agent_mission_control.Domain.Ids.{MissionId}
use agent_mission_control.Domain.Event.{Json, EventKind, EventEnvelope}
use agent_mission_control.Policy.Action.{ActionClass}
use agent_mission_control.Policy.Approval.{ApprovalRequest, pending, supervisor}
use agent_mission_control.Policy.Approval
use agent_mission_control.Supervisor.Budgets.{MissionBudgetRequest, no_budget_request}
use agent_mission_control.Supervisor.Loadouts.{ProviderId, AgentCapabilityReport, installed}
use agent_mission_control.Supervisor.Pause.{running}
use agent_mission_control.Supervisor.Actor.{Host, MissionActor}
use agent_mission_control.Supervisor.Service.{MissionCommandRequest, MissionService, Platform}

-- A payload: a text, an approval, and a budget.
pub record Note : Type 0 where
  pub text : Option String
  pub approval : Option ApprovalRequest
  pub budget : Option MissionBudgetRequest

abbrev pub blank : Note
blank = record { text = none; approval = none; budget = none }

abbrev pub note_json : Json
note_json = record {
  Value = Note;
  to_vec = λ v. [];
  sha256 = λ bytes. 171 ∷ [];
  get_u64 = λ v field. none;
  get_str = λ v field. v.text;
}

abbrev pub approval_in : Option ApprovalRequest → Option (Result ApprovalRequest String)
approval_in none = none
approval_in (some r) = some (ok r)

abbrev pub events_of_mission :
    MissionId → List (EventEnvelope note_json) → List (EventEnvelope note_json)
events_of_mission m [] = []
events_of_mission m (e ∷ es) =
    let rest = events_of_mission m es in if e.mission_id == m then e ∷ rest else rest

-- The ledger refuses the events of an agent's run.
abbrev pub refuses : EventKind → Bool
refuses EventKind.agent_run_completed = true
refuses _ = false

abbrev pub stored_unless :
    Bool
    → List (EventEnvelope note_json)
    → EventEnvelope note_json
    → List (EventEnvelope note_json) × Result (Unit {0}) String
stored_unless true l e = (l, err "disk full")
stored_unless false l e = (l ++ e ∷ [], ok tt)

abbrev pub ids_of : List (EventEnvelope note_json) → List MissionId
ids_of [] = []
ids_of (e ∷ es) = e.mission_id ∷ ids_of es

-- The ledger redacts the budget of every event in a batch.
abbrev pub redacted : List (EventEnvelope note_json) → List (EventEnvelope note_json)
redacted [] = []
redacted (e ∷ es) = record e { payload = record e.payload { budget = none } } ∷ redacted es

-- The ledger has room for a batch as long as it has at most three events.
abbrev pub batch_unless :
    Bool
    → List (EventEnvelope note_json)
    → List (EventEnvelope note_json)
    → List (EventEnvelope note_json) × Result (Unit {0}) String
batch_unless true l events = (l, err "disk full")
batch_unless false l events = (l ++ redacted events, ok tt)

abbrev pub host : Host
host = record {
  json = note_json;
  Ledger = List (EventEnvelope note_json);
  append_event = λ l e. stored_unless (refuses e.kind) l e;
  replay_after = λ l id sequence. events_of_mission id l;
  Tree = Bool;
  new_tree = true;
  terminate = λ tree. (false, ok tt);
  fresh_id = λ n. n;
  parse_id = λ s. if str_eq s "m" then some 1 else if str_eq s "r" then some 2 else none;
  requested_payload = λ r. record blank { approval = some r };
  approval_payload = λ r. record blank { approval = some r };
  loadout_revoked_payload = λ r. record blank { approval = some r };
  dimension_payload = λ d. blank;
  identity_payload = λ i. blank;
  loadout_payload = λ previous next. blank;
  decision_payload = λ decision manifest. blank;
  pause_payload = λ reason state. record blank { text = some reason };
  state_payload = λ state. blank;
  token_payload = λ state. blank;
  failure_payload = λ message. blank;
  with_approval = λ v r. record v { approval = some r };
  read_approval = λ v. approval_in v.approval;
  request_id_text = λ v. none;
}

abbrev pub codex_report : AgentCapabilityReport
codex_report = record {
  provider = ProviderId.codex;
  agent = "codex";
  version = none;
  install_state = installed;
  capability = record {
    structured_events = true;
    resume = true;
    approval = true;
    safe_pause = true;
    terminal_fallback = false;
  };
  unavailable_reason = none;
  executable_hash = none;
  configuration_source = none;
}

abbrev pub platform : Platform host
platform = record {
  fields = record { get = λ v field. none; as_u64 = λ v. none; read_request = λ v. v.budget };
  open_ledger = λ l. ok tt;
  mission_ids = λ l. ok (ids_of l);
  append_batch = λ l events. batch_unless (ltb 3 (length l)) l events;
  has_adapter = λ provider. true;
  probe = λ provider. ok codex_report;
  control = λ c. ok tt;
  started_run = λ request. "run-1";
  id_text = λ n. if n == 1 then "m" else "r";
  debug = λ e. "error";
  clock_ms = 10;
  new_mission_id = 1;
  new_route_id = 2;
  creation_id = λ n. n + 100;
  event_value = λ e. some e.payload;
  created_payload = λ root goal. record blank { text = goal };
  route_payload = λ route. blank;
  contract_payload = λ goal budget. record { text = goal; approval = none; budget = some budget };
  goal_payload = λ goal version. record blank { text = goal };
  exploration_payload = λ route. blank;
  error_payload = λ text. record blank { text = some text };
  degraded_payload = λ text. record blank { text = some text };
  memory_payload = λ decision item. item;
  set_text = λ v field text. some v;
}

abbrev pub waiting_approval : ApprovalRequest
waiting_approval = record {
  id = "a1";
  subject = record {
    mission_id = 1;
    route_id = 2;
    action_digest = "d1";
    action_class = ActionClass.git_push;
    contract_version = 3;
    loadout_fingerprint = "f1";
  };
  scope = Approval.once;
  requested_by = supervisor;
  resolved_by = none;
  expires_at_ms = 1000;
  state = pending;
  revision = 0;
}

abbrev pub actor : MissionActor host
actor = record {
  mission_id = 1;
  route_id = 2;
  ledger = [];
  sequence = 3;
  pause = record { state = running; token_counter = 0 };
  process_tree = true;
  ui_connected = true;
  requires_recovery = false;
  approvals = ("a1", waiting_approval) ∷ [];
}

abbrev pub empty : MissionService host
empty = record {
  missions = [];
  budgets = [];
  runs = [];
  run_providers = [];
  pending_server_requests = [];
  loadouts = [];
  disk = [];
  calls = [];
}

-- One mission, whose run waits for an approval.
abbrev pub busy : MissionService host
busy = record empty {
  missions = ("m", actor) ∷ [];
  runs = ("m", "run-1") ∷ [];
  pending_server_requests =
      ("a1", record { run_id = "run-1"; request_id = blank; provider = ProviderId.codex }) ∷ [];
}

abbrev pub hundred_tokens : MissionBudgetRequest
hundred_tokens = record no_budget_request { tokens = some 100; wall_clock_ms = some 1500 }

abbrev pub request : MissionCommandRequest host
request = record {
  provider = none;
  loadout = none;
  mission_id = some "m";
  route_id = some "r";
  expected_version = none;
  project_root = some "/project";
  goal = some "goal";
  reason = none;
  confirmation_token = some "guess";
  approval_id = some "a1";
  approval_decision = some "approve-once";
  approval_scope = none;
  action_digest = some "d1";
  expected_revision = some 0;
  now_ms = some 10;
  loadout_fingerprint = some "f1";
  resume_token = none;
  contract_version = some 3;
  memory_id = none;
  memory_decision = none;
  budget = some hundred_tokens;
  impact_hash = none;
  archive_plan = none;
  delete_plan = none;
}
