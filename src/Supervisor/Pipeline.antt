-- ===== src/Supervisor/Pipeline.antt =====
-- crates/supervisor/src/event_pipeline.rs: events go to the ledger, then into the read model. A method
-- returns the new pipeline beside its outcome. The ledger behind the trait `AppendOnlyLedger`,
-- the channels of the standard library and the print of an identifier are parameters.
pub mod Delivery
pub mod Recovery
pub mod Samples
use Prim.Native.String.{◌++◌ as cat}
use agent_mission_control.Prelude.{
  ℕ, Bool, true, false, List, [], ◌∷◌, ◌++◌, String, Result, ok, err, if◌then◌else◌,
}
use agent_mission_control.Prelude.Text.{to_decimal}
use agent_mission_control.Domain.Ids.{EventId, MissionId}
use agent_mission_control.Domain.Evidence.{EvidenceEntry}
use agent_mission_control.Domain.Event.{Json, EventEnvelope}
use agent_mission_control.Domain.ReadModel.{
  ReadModel, default_model, ProjectionError, payload_hash_mismatch, mission_mismatch,
  sequence_conflict, malformed_payload, reduce, replay,
}

-- The trait; an error is its text.
pub record AppendOnlyLedger (j : Json) : Type 1 where
  pub State : Type 0
  pub append : State → EventEnvelope j → State × Result (Unit {0}) String
  pub replay_events : State → MissionId → Result (List (EventEnvelope j)) String

-- `std::sync::mpsc::Sender`: a send, and whether the receiver is still there.
pub record Channel : Type 1 where
  pub Sender : Type 0
  pub send : Sender → ReadModel → Sender × Bool

pub data PipelineStatus : Type 0 where
  running : PipelineStatus
  paused : String → PipelineStatus

pub data PipelineError : Type 0 where
  ledger_error : String → PipelineError
  projection_error : ProjectionError → PipelineError
  paused_error : String → PipelineError

-- The `Display` of a `ProjectionError`, from that of an identifier.
unfoldable pub error_text : (EventId → String) → ProjectionError → String
error_text show_id (payload_hash_mismatch id) =
    cat "event payload hash does not match event " (show_id id)
error_text show_id (mission_mismatch id) =
    cat "event " (cat (show_id id) " belongs to a different mission")
error_text show_id (sequence_conflict sequence) =
    cat "sequence " (cat (to_decimal sequence) " is already occupied by another event")
error_text show_id (malformed_payload id text) =
    cat "event " (cat (show_id id) (cat " contains malformed payload: " text))

module _ (j : Json) (decode_entry : j.Value → Result EvidenceEntry String)
    (store : AppendOnlyLedger j) (channel : Channel) (show_id : EventId → String) where
  pub record EventPipeline : Type 0 where
    pub ledger : store.State
    pub model : ReadModel
    pub status : PipelineStatus
    pub subscribers : List channel.Sender

  abbrev pub Outcome : Type 0
  Outcome = EventPipeline × Result ReadModel PipelineError

  unfoldable pub with_empty : store.State → EventPipeline
  with_empty l = record { ledger = l; model = default_model; status = running; subscribers = [] }

  unfoldable pub recover : store.State → MissionId → Result EventPipeline PipelineError
  recover l mission_id = elim (store.replay_events l mission_id) [
    | err text ↦ err (ledger_error text)
    | ok events ↦ elim (replay j decode_entry events) [
      | err e ↦ err (projection_error e)
      | ok m ↦ ok (record { ledger = l; model = m; status = running; subscribers = [] })
    ]
  ]

  -- `subscribers.retain(|subscriber| subscriber.send(..).is_ok())`.
  unfoldable pub retain_sent : List channel.Sender → ReadModel → List channel.Sender
  retain_sent [] m = []
  retain_sent (s ∷ rest) m =
      let (t, sent) = channel.send s m in
      let kept = retain_sent rest m in if sent then t ∷ kept else kept

  -- The `match` on what `reduce` answers, and what follows it.
  unfoldable pub take_in : Result ReadModel ProjectionError → EventPipeline → Outcome
  unfolding retain_sent
  take_in (err x) p =
      (record p { status = paused (error_text show_id x) }, err (projection_error x))
  take_in (ok next) p =
      (record p { model = next; subscribers = retain_sent p.subscribers next }, ok next)

  -- The test of what the ledger answers, and what follows it; `l` is the ledger behind the call.
  unfoldable pub written :
      store.State × Result (Unit {0}) String → EventPipeline → EventEnvelope j → Outcome
  unfolding take_in
  written (l, err reason) p e =
      (record p { ledger = l; status = paused reason }, err (ledger_error reason))
  written (l, ok _) p e = take_in (reduce j decode_entry p.model e) (record p { ledger = l })

  -- The test of the status that begins `append`, and what follows it.
  unfoldable pub append_in : PipelineStatus → EventPipeline → EventEnvelope j → Outcome
  unfolding written
  append_in (paused reason) p e = (p, err (paused_error reason))
  append_in running p e = written (store.append p.ledger e) p e

  unfoldable pub append : EventPipeline → EventEnvelope j → Outcome
  unfolding append_in
  append p e = append_in p.status p e

  unfoldable pub subscribe : EventPipeline → channel.Sender → EventPipeline
  subscribe p s =
      let (t, sent) = channel.send s p.model in record p { subscribers = p.subscribers ++ t ∷ [] }
