-- ===== src/Domain/Event.antt =====
-- crates/domain/src/event.rs: the kinds of events and the event envelope. Payloads are JSON values of
-- a library, a parameter of the section.
pub mod Names
pub mod Samples
use agent_mission_control.Prelude.{
  ℕ, suc, ◌/◌, ◌%◌, ◌+◌, Bool, Option, none, some, List, [], ◌∷◌, String, if◌then◌else◌, ltb,
}
use Prim.Native.Char.{Char}
use agent_mission_control.Prelude.Text.{str_eq, digit}
use agent_mission_control.Domain.Ids.{EventId, MissionId, RouteId, Timestamp, now}

pub data EventSource : Type 0 where
  supervisor agent user system : EventSource

pub data EventConfidence : Type 0 where
  observed inferred confirmed : EventConfidence

pub data EventKind : Type 0 where
  mission_created contract_updated route_created route_state_changed exploration_started : EventKind
  agent_run_started agent_run_completed agent_run_aborted agent_message evidence_recorded :
      EventKind
  approval_requested approval_resolved approval_revoked approval_expired approval_consumed :
      EventKind
  budget_warning budget_approval_required budget_exceeded flight_envelope_changed : EventKind
  loadout_changed memory_item_changed pause_requested recovery_continued : EventKind
  recovery_abandoned : EventKind
  unknown : String → EventKind

-- `EventKind::as_str`, which is also how a kind is serialized.
unfoldable pub as_str : EventKind → String
as_str mission_created = "mission_created"
as_str contract_updated = "contract_updated"
as_str route_created = "route_created"
as_str route_state_changed = "route_state_changed"
as_str exploration_started = "exploration_started"
as_str agent_run_started = "agent_run_started"
as_str agent_run_completed = "agent_run_completed"
as_str agent_run_aborted = "agent_run_aborted"
as_str agent_message = "agent_message"
as_str evidence_recorded = "evidence_recorded"
as_str approval_requested = "approval_requested"
as_str approval_resolved = "approval_resolved"
as_str approval_revoked = "approval_revoked"
as_str approval_expired = "approval_expired"
as_str approval_consumed = "approval_consumed"
as_str budget_warning = "budget_warning"
as_str budget_approval_required = "budget_approval_required"
as_str budget_exceeded = "budget_exceeded"
as_str flight_envelope_changed = "flight_envelope_changed"
as_str loadout_changed = "loadout_changed"
as_str memory_item_changed = "memory_item_changed"
as_str pause_requested = "pause_requested"
as_str recovery_continued = "recovery_continued"
as_str recovery_abandoned = "recovery_abandoned"
as_str (unknown value) = value

-- The arms of the `match` in `visit_str`, in their order.
abbrev pub arms : List (String × EventKind)
arms =
    ("mission_created", mission_created)
    ∷ ("contract_updated", contract_updated)
    ∷ ("route_created", route_created)
    ∷ ("route_state_changed", route_state_changed)
    ∷ ("exploration_started", exploration_started)
    ∷ ("agent_run_started", agent_run_started)
    ∷ ("agent_run_completed", agent_run_completed)
    ∷ ("agent_run_aborted", agent_run_aborted)
    ∷ ("agent_message", agent_message)
    ∷ ("evidence_recorded", evidence_recorded)
    ∷ ("approval_requested", approval_requested)
    ∷ ("approval_resolved", approval_resolved)
    ∷ ("approval_revoked", approval_revoked)
    ∷ ("approval_expired", approval_expired)
    ∷ ("approval_consumed", approval_consumed)
    ∷ ("budget_warning", budget_warning)
    ∷ ("budget_approval_required", budget_approval_required)
    ∷ ("budget_exceeded", budget_exceeded)
    ∷ ("flight_envelope_changed", flight_envelope_changed)
    ∷ ("loadout_changed", loadout_changed)
    ∷ ("memory_item_changed", memory_item_changed)
    ∷ ("pause_requested", pause_requested)
    ∷ ("recovery_continued", recovery_continued)
    ∷ ("recovery_abandoned", recovery_abandoned)
    ∷ []

-- The first arm that matches; the last arm of the source takes every other text.
unfoldable pub first_arm : String → List (String × EventKind) → EventKind
first_arm value [] = unknown value
first_arm value ((name, kind) ∷ rest) = if str_eq value name then kind else first_arm value rest

-- `EventKindVisitor::visit_str`.
unfoldable pub visit_str : String → EventKind
unfolding first_arm
visit_str value = first_arm value arms

pub record EventLinks : Type 0 where
  pub parent_event_id : Option EventId
  pub source_event_ids : List EventId

-- What the domain asks of the JSON and hashing libraries.
pub record Json : Type 1 where
  pub Value : Type 0
  pub to_vec : Value → List ℕ
  pub sha256 : List ℕ → List ℕ
  pub get_u64 : Value → String → Option ℕ
  pub get_str : Value → String → Option String

-- `format!("{byte:02x}")`.
unfoldable pub hex_digit : ℕ → Char
hex_digit n = if ltb n 10 then digit n else letter n
  where
    letter : ℕ → Char
    letter m =
        if ltb m 11
        then "a"
        else if ltb m 12
        then "b"
        else if ltb m 13
        then "c"
        else if ltb m 14
        then "d"
        else if ltb m 15
        then "e"
        else "f"

unfoldable pub hex : List ℕ → String
unfolding hex_digit
hex [] = String.[]
hex (b ∷ bs) = String.◌∷◌ (hex_digit (b / 16)) (String.◌∷◌ (hex_digit (b % 16)) (hex bs))

module _ (j : Json) where
  open j use {Value, to_vec, sha256}

  unfoldable pub payload_hash : Value → String
  payload_hash payload = hex (sha256 (to_vec payload))

  pub record EventEnvelope : Type 0 where
    pub event_id : EventId
    pub schema_version : ℕ
    pub mission_id : MissionId
    pub route_id : RouteId
    pub agent_run_id : Option String
    pub sequence : ℕ
    pub occurred_at : Timestamp
    pub source : EventSource
    pub confidence : EventConfidence
    pub kind : EventKind
    pub payload : Value
    pub raw_evidence : Option Value
    pub hash_of_payload : String
    pub correlation_id : Option String
    pub causation_id : Option String
    pub links : EventLinks

  -- `EventEnvelope::new`.
  unfoldable pub new : EventId → MissionId → RouteId → ℕ → EventKind → Value → EventEnvelope
  unfolding payload_hash
  new event_id mission_id route_id sequence kind payload = record {
    event_id = event_id;
    schema_version = 1;
    mission_id = mission_id;
    route_id = route_id;
    agent_run_id = none;
    sequence = sequence;
    occurred_at = now;
    source = supervisor;
    confidence = observed;
    kind = kind;
    payload = payload;
    raw_evidence = none;
    hash_of_payload = payload_hash payload;
    correlation_id = none;
    causation_id = none;
    links = record { parent_event_id = none; source_event_ids = [] };
  }

  unfoldable pub has_valid_payload_hash : EventEnvelope → Bool
  has_valid_payload_hash e = str_eq e.hash_of_payload (payload_hash e.payload)
