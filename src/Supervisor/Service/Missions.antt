-- ===== src/Supervisor/Service/Missions.antt =====
-- crates/supervisor/src/mission_service.rs: the commands that create a mission, update its contract, read
-- it, and review an item of its memory.
use agent_mission_control.Prelude.{
  ℕ, Bool, true, false, not, ◌&&◌, ◌||◌, ◌==◌, Option, none, some, List, [], ◌∷◌, String, Result,
  ok, err, refuse_if, if◌then◌else◌,
}
use agent_mission_control.Prelude.Text.{str_eq}
use agent_mission_control.Prelude.Dict.{lookup, insert}
use agent_mission_control.Domain.Ids.{MissionId, RouteId}
use agent_mission_control.Domain.Event.{EventKind, EventEnvelope, new}
use agent_mission_control.Policy.Budget.{BudgetLimits, BudgetTracker, pause}
use agent_mission_control.Policy.Budget
use agent_mission_control.Supervisor.Actor.{Host, MissionActor, try_new, record_event, and_then}
use agent_mission_control.Supervisor.Budgets.{
  no_budget_request, limits, written_budget, unwrap_or, or_else, is_text,
}
use agent_mission_control.Supervisor.Service.{
  MissionCommandRequest, MissionCommandResult, MissionService, Platform, is_some,
}
use agent_mission_control.Supervisor.Service.Action.{
  Action, ◌>>=◌, ◌>>◌, lift, prefixed, modify, on_actor, shown, parsed, required,
  request_mission_id, result, event_values, first_route,
}

abbrev pub has_mission : MissionId → List MissionId → Bool
has_mission m [] = false
has_mission m (n ∷ ns) = n == m || has_mission m ns

module _ {h : Host} (p : Platform h) where
  -- The three events of a mission that is created.
  unfoldable pub creation_events :
      MissionCommandRequest h → MissionId → RouteId → BudgetLimits → List (EventEnvelope h.json)
  unfolding written_budget
  creation_events r m route budget =
      new h.json (p.creation_id 1) m route 1 EventKind.mission_created
        (p.created_payload r.project_root r.goal)
      ∷ new h.json (p.creation_id 2) m route 2 EventKind.route_created (p.route_payload route)
      ∷ new h.json (p.creation_id 3) m route 3 EventKind.contract_updated
          (p.contract_payload r.goal (written_budget budget))
      ∷ []

  -- `append_batch(..)` and its `map_err`.
  unfoldable pub write_creation : List (EventEnvelope h.json) → Action h (Unit {0})
  write_creation events s =
      let (disk, outcome) = p.append_batch s.disk events in
      (record s { disk = disk }, prefixed "MISSION_CREATE_FAILED:" outcome)

  -- The checks of `create_mission` before it writes: the map of the missions, then the ledger's list.
  unfoldable pub creatable : MissionId → MissionService h → Result (Unit {0}) String
  creatable m s =
      if is_some (lookup (p.id_text m) s.missions)
      then err "MISSION_ALREADY_EXISTS"
      else and_then (prefixed "LEDGER_OPEN_FAILED:" (p.open_ledger s.disk)) (λ _.
        and_then (prefixed "MISSION_CREATE_FAILED:" (p.mission_ids s.disk))
          (λ ids. refuse_if (has_mission m ids) "MISSION_ALREADY_EXISTS"))

  -- `MissionActor::new`, which panics where `try_new` fails.
  unfoldable pub actor_on_disk : MissionId → RouteId → Action h (MissionActor h)
  actor_on_disk m route s =
      (s, prefixed "mission actor recovery failed: " (try_new h m route s.disk))

  unfoldable pub enter :
      String → BudgetTracker → MissionActor h → MissionService h → MissionService h
  enter key tracker a s = record s {
    missions = insert key a s.missions;
    budgets = insert key tracker s.budgets;
  }

  -- `create_mission` with the identifiers of the mission and of its route.
  unfoldable pub create_as :
      MissionCommandRequest h → MissionId → RouteId → Action h (MissionCommandResult h)
  unfolding write_creation actor_on_disk enter
  create_as r m route = do
    let key = p.id_text m
    let budget = limits (unwrap_or r.budget no_budget_request)
    (λ s. lift (creatable m s) s)
    write_creation (creation_events r m route budget)
    a ← actor_on_disk m route
    modify (enter key (Budget.new 1 budget pause) a)
    result p key

  unfoldable pub create_mission : MissionCommandRequest h → Action h (MissionCommandResult h)
  unfolding create_as
  create_mission r = do
    m ← lift (parsed p "MISSION_ID_INVALID" r.mission_id)
    route ← lift (parsed p "ROUTE_ID_INVALID" r.route_id)
    create_as r (unwrap_or m p.new_mission_id) (unwrap_or route p.new_route_id)

  unfoldable pub update_mission_contract :
      MissionCommandRequest h → Action h (MissionCommandResult h)
  update_mission_contract r = do
    m ← lift (request_mission_id p r)
    let key = p.id_text m
    on_actor key (shown p "CONTRACT_UPDATE_FAILED:")
        (record_event h EventKind.contract_updated (p.goal_payload r.goal r.expected_version))
    result p key

  -- `subscribe_mission` with the actor that is found.
  unfoldable pub subscription :
      MissionCommandRequest h
      → String
      → Option (MissionActor h)
      → h.Ledger
      → Result (MissionCommandResult h) String
  subscription r key none disk = err "MISSION_NOT_FOUND"
  subscription r key (some a) disk =
      and_then (event_values p (h.replay_after disk a.mission_id (unwrap_or r.expected_version 0)))
        (λ values. ok (record {
          accepted = true;
          mission_id = some key;
          route_id = or_else (first_route p (h.replay_after disk a.mission_id 0)) r.route_id;
          sequence = some a.sequence;
          error_code = none;
          confirmation_token = none;
          provider = r.provider;
          capability = none;
          events = values;
          data_value = none;
          recovery_required = a.requires_recovery;
        }))

  unfoldable pub subscribe_mission : MissionCommandRequest h → Action h (MissionCommandResult h)
  unfolding subscription
  subscribe_mission r = do
    m ← lift (request_mission_id p r)
    (λ s. (s, subscription r (p.id_text m) (lookup (p.id_text m) s.missions) s.disk))

  -- The status of a decision.
  unfoldable pub memory_status : String → Result String String
  memory_status decision =
      if str_eq decision "confirm"
      then ok "confirmed"
      else if str_eq decision "reject"
      then ok "rejected"
      else if str_eq decision "defer"
      then ok "deferred"
      else err "MEMORY_DECISION_INVALID"

  unfoldable pub is_memory_kind : EventKind → Bool
  is_memory_kind EventKind.memory_item_changed = true
  is_memory_kind _ = false

  -- The item of an event that is about the memory item.
  unfoldable pub item_of : String → EventEnvelope h.json → Option h.json.Value
  unfolding is_memory_kind
  item_of id e =
      if is_memory_kind e.kind
      then elim (p.fields.get e.payload "item") [
        | none ↦ none
        | some v ↦ if is_text (h.json.get_str v "id") id then some v else none
      ]
      else none

  -- The item of the last such event, the search begun behind `found`.
  unfoldable pub last_item :
      String → Option h.json.Value → List (EventEnvelope h.json) → Option h.json.Value
  unfolding item_of
  last_item id found [] = found
  last_item id found (e ∷ es) = last_item id (or_else (item_of id e) found) es

  -- The item with its new status and author; only an object takes them.
  unfoldable pub reviewed_item : String → h.json.Value → Result h.json.Value String
  reviewed_item status item =
      if is_text (h.json.get_str item "kind") "inference" && str_eq status "confirmed"
      then err "MEMORY_INFERENCE_CANNOT_CONFIRM"
      else elim (p.set_text item "status" status) [
        | none ↦ err "MEMORY_ITEM_INVALID"
        | some v ↦ elim (p.set_text v "author" "user") [
          | none ↦ err "MEMORY_ITEM_INVALID"
          | some w ↦ ok w
        ]
      ]

  abbrev pub is_other_version : Option ℕ → ℕ → Bool
  is_other_version none sequence = false
  is_other_version (some expected) sequence = not (expected == sequence)

  -- What `review_memory` finds of the actor before it records.
  unfoldable pub reviewed :
      MissionCommandRequest h
      → String
      → String
      → Option (MissionActor h)
      → h.Ledger
      → Result h.json.Value String
  unfolding last_item reviewed_item
  reviewed r id status none disk = err "MISSION_NOT_FOUND"
  reviewed r id status (some a) disk =
      if is_other_version r.expected_version a.sequence
      then err "MISSION_VERSION_CONFLICT"
      else and_then
          (required p "MEMORY_NOT_FOUND" (last_item id none (h.replay_after disk a.mission_id 0)))
          (reviewed_item status)

  unfoldable pub review_memory : MissionCommandRequest h → Action h (MissionCommandResult h)
  unfolding memory_status reviewed
  review_memory r = do
    m ← lift (request_mission_id p r)
    id ← lift (required p "MEMORY_ID_REQUIRED" r.memory_id)
    decision ← lift (required p "MEMORY_DECISION_REQUIRED" r.memory_decision)
    status ← lift (memory_status decision)
    let key = p.id_text m
    item ← (λ s. lift (reviewed r id status (lookup key s.missions) s.disk) s)
    on_actor key (shown p "MEMORY_REVIEW_FAILED:")
        (record_event h EventKind.memory_item_changed (p.memory_payload decision item))
    result p key
