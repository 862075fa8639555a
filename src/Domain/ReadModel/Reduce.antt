-- ===== src/Domain/ReadModel/Reduce.antt =====
-- What reducing by an event keeps.
use agent_mission_control.Prelude.{
  ℕ, ◌≡◌, true, false, some, ◌∷◌, String, Result, ok, arith, ==_refl,
}
use agent_mission_control.Domain.Evidence.{EvidenceEntry}
use agent_mission_control.Domain.Event.{Json, EventKind, EventEnvelope, has_valid_payload_hash}
use agent_mission_control.Domain.ReadModel.{
  ReadModel, contains, is_other_mission, reduce_kind, reduce,
}

-- Two models of one mission, with the same events applied and the same gaps.
pub record SameLog (m n : ReadModel) : Type 0 where
  pub mission : m.mission_id ≡ n.mission_id
  pub applied : m.applied_event_ids ≡ n.applied_event_ids
  pub flag : m.incomplete ≡ n.incomplete
  pub gaps : m.missing_sequences ≡ n.missing_sequences

module _ (j : Json) (decode_entry : j.Value → Result EvidenceEntry String) where
  reduce_kind-SameLog :
      (k : EventKind) (e : EventEnvelope j) (m n : ReadModel)
      → reduce_kind j decode_entry k e m ≡ ok n
      → SameLog n m
  unfolding reduce_kind
  reduce_kind-SameLog EventKind.contract_updated e m n h = ground arith
  reduce_kind-SameLog EventKind.route_state_changed e m n h = ground arith
  reduce_kind-SameLog EventKind.evidence_recorded e m n h = ground arith
  reduce_kind-SameLog _ e m n h = ground arith

  pub reduce-keeps :
      (m n : ReadModel) (e : EventEnvelope j)
      → reduce j decode_entry m e ≡ ok n
      → (has_valid_payload_hash j e ≡ true)
        × (is_other_mission n.mission_id e.mission_id ≡ false)
        × (contains n.applied_event_ids e.event_id ≡ true)
        × (n.incomplete ≡ m.incomplete)
        × (n.missing_sequences ≡ m.missing_sequences)
  unfolding reduce contains
  reduce-keeps m n e h =
      let next = record m {
        mission_id = some e.mission_id;
        applied_event_ids = e.event_id ∷ m.applied_event_ids;
      } in
      ground (arith, reduce_kind-SameLog e.kind e next n, ==_refl e.mission_id, ==_refl e.event_id)

  -- The events that a model has taken in behind a reduction: its own, and the event.
  pub reduce-applied :
      (m n : ReadModel) (e : EventEnvelope j) (id : ℕ)
      → reduce j decode_entry m e ≡ ok n
      → contains n.applied_event_ids id ≡ true
      → contains (e.event_id ∷ m.applied_event_ids) id ≡ true
  unfolding reduce contains
  reduce-applied m n e id h there =
      let next = record m {
        mission_id = some e.mission_id;
        applied_event_ids = e.event_id ∷ m.applied_event_ids;
      } in
      ground (arith, reduce_kind-SameLog e.kind e next n)

  -- An event that a model has taken in changes it no more: to reduce by it again is to keep the model.
  pub reduce_idem :
      (m n : ReadModel) (e : EventEnvelope j)
      → reduce j decode_entry m e ≡ ok n
      → reduce j decode_entry n e ≡ ok n
  unfolding reduce
  reduce_idem m n e h = ground (arith, reduce-keeps m n e h)
