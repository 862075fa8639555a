-- ===== src/Domain/ReadModel.antt =====
-- crates/domain/src/read_model.rs: the read model that a mission's events project to.
pub mod Reduce
pub mod Sequences
pub mod Replay
pub mod Gaps
pub mod Live
pub mod Samples
use Prim.Native.String.{◌++◌ as cat}
use agent_mission_control.Prelude.{
  ℕ, ◌+◌, ◌-◌, ◌==◌, Bool, true, false, not, ◌&&◌, ◌||◌, Option, none, some, List, [], ◌∷◌, ◌++◌,
  String, Result, ok, err, ◌>>=◌, ok_or, if◌then◌else◌, ltb, leb,
}
use agent_mission_control.Prelude.Text.{str_eq}
use agent_mission_control.Prelude.Word.{saturating_add}
use agent_mission_control.Domain.Ids.{EventId, MissionId, RouteId}
use agent_mission_control.Domain.Evidence.{EvidenceEntry, EvidenceMatrix, default_matrix}
use agent_mission_control.Domain.Route.{RouteState}
use agent_mission_control.Domain.Event.{Json, EventKind, EventEnvelope, has_valid_payload_hash}

pub record SequenceRange : Type 0 where
  pub start : ℕ
  pub end : ℕ

-- `applied_event_ids`, a `BTreeSet`, is the list of its members.
pub record ReadModel : Type 0 where
  pub mission_id : Option MissionId
  pub route_id : Option RouteId
  pub route_state : Option RouteState
  pub route_version : ℕ
  pub contract_version : ℕ
  pub evidence_matrix : EvidenceMatrix
  pub incomplete : Bool
  pub missing_sequences : List SequenceRange
  pub compatibility_warnings : List String
  pub applied_event_ids : List EventId

-- `ReadModel::default`.
abbrev pub default_model : ReadModel
default_model = record {
  mission_id = none;
  route_id = none;
  route_state = none;
  route_version = 0;
  contract_version = 0;
  evidence_matrix = default_matrix;
  incomplete = false;
  missing_sequences = [];
  compatibility_warnings = [];
  applied_event_ids = [];
}

pub data ProjectionError : Type 0 where
  payload_hash_mismatch mission_mismatch sequence_conflict : ℕ → ProjectionError
  malformed_payload : EventId → String → ProjectionError

-- `BTreeSet::contains`.
unfoldable pub contains : List ℕ → ℕ → Bool
contains [] n = false
contains (x ∷ xs) n = x == n || contains xs n

-- The names of the states under `rename_all = "PascalCase"`.
unfoldable pub parse_state : String → Option RouteState
parse_state value =
    if str_eq value "Draft"
    then some RouteState.draft
    else if str_eq value "ReadOnlyExploration"
    then some RouteState.read_only_exploration
    else if str_eq value "AwaitingPlanApproval"
    then some RouteState.awaiting_plan_approval
    else if str_eq value "Executing"
    then some RouteState.executing
    else if str_eq value "Verifying"
    then some RouteState.verifying
    else if str_eq value "AwaitingAcceptance"
    then some RouteState.awaiting_acceptance
    else if str_eq value "Completed"
    then some RouteState.completed
    else if str_eq value "Paused"
    then some RouteState.paused
    else if str_eq value "Blocked"
    then some RouteState.blocked
    else if str_eq value "Abandoned"
    then some RouteState.abandoned
    else none

-- `is_some_and(|mission_id| mission_id != event.mission_id)`.
abbrev pub is_other_mission : Option MissionId → MissionId → Bool
is_other_mission none id = false
is_other_mission (some m) id = not (m == id)

-- The payloads' library, and the decoder of an evidence entry with its error text.
module _ (j : Json) (decode_entry : j.Value → Result EvidenceEntry String) where
  open j use {get_u64, get_str}

  unfoldable pub number : j.Value → String → EventEnvelope j → Result ℕ ProjectionError
  number payload field event =
      ok_or (get_u64 payload field) (malformed_payload event.event_id (cat "missing " field))

  unfoldable pub string : j.Value → String → EventEnvelope j → Result String ProjectionError
  string payload field event =
      ok_or (get_str payload field) (malformed_payload event.event_id (cat "missing " field))

  decoded : EventId → Result EvidenceEntry String → Result EvidenceEntry ProjectionError
  decoded id (ok entry) = ok entry
  decoded id (err text) = err (malformed_payload id text)

  unfoldable pub warn : ReadModel → String → ReadModel
  warn m text = record m { compatibility_warnings = m.compatibility_warnings ++ text ∷ [] }

  -- The `match` on the kind of the event.
  unfoldable pub reduce_kind :
      EventKind → EventEnvelope j → ReadModel → Result ReadModel ProjectionError
  unfolding number string decoded warn
  reduce_kind EventKind.mission_created e next = ok next
  reduce_kind EventKind.contract_updated e next = do
    version ← number e.payload "version" e
    ok (record next { contract_version = version })
  reduce_kind EventKind.route_created e next = ok (record next {
    route_id = some e.route_id;
    route_state = some RouteState.draft;
    route_version = 0;
  })
  reduce_kind EventKind.route_state_changed e next = do
    name ← string e.payload "state" e
    state ← ok_or (parse_state name) (malformed_payload e.event_id "unknown route state")
    version ← number e.payload "version" e
    ok (record next {
      route_id = some e.route_id;
      route_state = some state;
      route_version = version;
    })
  reduce_kind EventKind.evidence_recorded e next = do
    entry ← decoded e.event_id (decode_entry e.payload)
    let matrix = next.evidence_matrix
    ok (record next { evidence_matrix = record matrix { entries = matrix.entries ++ entry ∷ [] } })
  reduce_kind (EventKind.unknown kind) e next = ok (warn next (cat "unknown event kind: " kind))
  reduce_kind EventKind.agent_message e next = ok (warn next "agent message cannot verify evidence")
  reduce_kind _ e next = ok next

  unfoldable pub reduce : ReadModel → EventEnvelope j → Result ReadModel ProjectionError
  reduce current e =
      if not (has_valid_payload_hash j e)
      then err (payload_hash_mismatch e.event_id)
      else if is_other_mission current.mission_id e.mission_id
      then err (mission_mismatch e.event_id)
      else if contains current.applied_event_ids e.event_id
      then ok current
      else reduce_kind e.kind e (record current {
        mission_id = some e.mission_id;
        applied_event_ids = e.event_id ∷ current.applied_event_ids;
      })

  -- `sort_by_key(|event| event.sequence)`, which is stable.
  unfoldable pub insert_sorted : EventEnvelope j → List (EventEnvelope j) → List (EventEnvelope j)
  insert_sorted e [] = e ∷ []
  insert_sorted e (x ∷ xs) =
      if leb e.sequence x.sequence then e ∷ x ∷ xs else x ∷ insert_sorted e xs

  unfoldable pub sort_by_sequence : List (EventEnvelope j) → List (EventEnvelope j)
  unfolding insert_sorted
  sort_by_sequence [] = []
  sort_by_sequence (e ∷ es) = insert_sorted e (sort_by_sequence es)

  -- The variables of the loop of `replay`.
  pub record Progress : Type 0 where
    pub model : ReadModel
    pub expected_sequence : ℕ
    pub seen_sequences : List ℕ

  abbrev pub start : Progress
  start = record { model = default_model; expected_sequence = 1; seen_sequences = [] }

  -- The gap in front of an event, if there is one.
  unfoldable pub note_gap : ReadModel → ℕ → ℕ → ReadModel
  note_gap m expected sequence =
      if ltb expected sequence
      then record m {
        incomplete = true;
        missing_sequences =
            m.missing_sequences ++ record { start = expected; end = sequence - 1 } ∷ [];
      }
      else m

  -- One round of the loop.
  unfoldable pub replay_one : Progress → EventEnvelope j → Result Progress ProjectionError
  unfolding note_gap
  replay_one p e =
      if contains p.seen_sequences e.sequence && not (contains p.model.applied_event_ids e.event_id)
      then err (sequence_conflict e.sequence)
      else if contains p.model.applied_event_ids e.event_id
      then ok (record p { seen_sequences = e.sequence ∷ p.seen_sequences })
      else do
        next ← reduce (note_gap p.model p.expected_sequence e.sequence) e
        ok (record {
          model = next;
          expected_sequence = saturating_add e.sequence 1;
          seen_sequences = e.sequence ∷ p.seen_sequences;
        })

  unfoldable pub replay_each : Progress → List (EventEnvelope j) → Result Progress ProjectionError
  replay_each p [] = ok p
  replay_each p (e ∷ es) = do next ← replay_one p e; replay_each next es

  unfoldable pub replay : List (EventEnvelope j) → Result ReadModel ProjectionError
  replay events = do p ← replay_each start (sort_by_sequence events); ok p.model
