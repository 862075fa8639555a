-- ===== src/Supervisor/Pipeline/Recovery.antt =====
-- A pipeline that is recovered from a ledger, against the live one that took the same events.
use agent_mission_control.Prelude.{
  ◌≡◌, refl, sym, ap, ◌∙◌, inl, inr, List, String, Result, ok, Result-cases, arith,
}
use agent_mission_control.Domain.Ids.{EventId, MissionId}
use agent_mission_control.Domain.Evidence.{EvidenceEntry}
use agent_mission_control.Domain.Event.{Json, EventEnvelope}
use agent_mission_control.Domain.ReadModel.{ReadModel, default_model, start, replay_each, replay}
use agent_mission_control.Domain.ReadModel.Live.{
  forget_gaps, reduce_each, IsAscending, sort_by_sequence-ascending, replay_each-alike,
}
use agent_mission_control.Supervisor.Pipeline.{
  AppendOnlyLedger, Channel, PipelineStatus, running, with_empty, recover,
}
use agent_mission_control.Supervisor.Pipeline.Delivery.{
  Pipe, run, Delivers, all_taken, refused, not_projected, taken, run-Delivers,
}

module _ (j : Json) (decode_entry : j.Value → Result EvidenceEntry String)
    (store : AppendOnlyLedger j) (channel : Channel) (show_id : EventId → String) where
  -- Where every event was delivered, the model is the reduction of them all.
  Delivers-reduce_each :
      {l k : store.State} {m n : ReadModel} {es : List (EventEnvelope j)} {s : PipelineStatus}
      → Delivers j decode_entry store channel show_id l m es k n s
      → s ≡ running
      → reduce_each j decode_entry m es ≡ ok n
  unfolding reduce_each
  Delivers-reduce_each all_taken h = refl
  Delivers-reduce_each (refused a) h = absurd (ground arith)
  Delivers-reduce_each (not_projected a r) h = absurd (ground arith)
  Delivers-reduce_each (taken a r rest) h = rw r (Delivers-reduce_each rest h)

  -- What recover makes of the events of the ledger.
  recover-replay :
      (l : store.State) (mission_id : MissionId) (es : List (EventEnvelope j))
      (r : Pipe j decode_entry store channel show_id)
      → store.replay_events l mission_id ≡ ok es
      → recover j decode_entry store channel show_id l mission_id ≡ ok r
      → (replay j decode_entry es ≡ ok r.model) × (r.ledger ≡ l) × (r.status ≡ running)
  unfolding recover
  recover-replay l mission_id es r h recovered = elim (Result-cases (replay j decode_entry es)) [
    | inl (m, e) ↦ ground arith
    | inr (x, e) ↦ absurd (ground arith)
  ]

  replay-alike :
      (es : List (EventEnvelope j)) (m n : ReadModel)
      → IsAscending j decode_entry es
      → replay j decode_entry es ≡ ok m
      → reduce_each j decode_entry default_model es ≡ ok n
      → forget_gaps m ≡ forget_gaps n
  unfolding replay
  replay-alike es m n asc h r =
      let first = start j decode_entry in
      elim (Result-cases (replay_each j decode_entry first es)) [
        | inl (p, e) ↦
            let at_end : p.model ≡ m =
              ground (arith, sort_by_sequence-ascending j decode_entry es asc) in
            ap forget_gaps (sym at_end)
            ∙ replay_each-alike j decode_entry first p default_model n es refl e r
        | inr (x, e) ↦ absurd (ground (arith, sort_by_sequence-ascending j decode_entry es asc))
      ]

  -- A pipeline that took a sequence of events in ascending order, and still runs, has the model of a
  -- pipeline that is recovered from a ledger which gives those events back, the report of gaps aside;
  -- the recovered pipeline runs.
  pub recover_agrees :
      (l k : store.State) (mission_id : MissionId) (es : List (EventEnvelope j))
      (r : Pipe j decode_entry store channel show_id)
      → (run j decode_entry store channel show_id
          (with_empty j decode_entry store channel show_id l)
          es).status
        ≡ running
      → IsAscending j decode_entry es
      → store.replay_events k mission_id ≡ ok es
      → recover j decode_entry store channel show_id k mission_id ≡ ok r
      → (forget_gaps r.model
          ≡ forget_gaps
              (run j decode_entry store channel show_id
                (with_empty j decode_entry store channel show_id l)
                es).model)
        × (r.status ≡ running)
  unfolding with_empty
  recover_agrees l k mission_id es r live asc h recovered =
      let (replayed, same, runs) = recover-replay k mission_id es r h recovered in
      let empty = with_empty j decode_entry store channel show_id l in
      let delivered = run-Delivers j decode_entry store channel show_id empty es refl in
      (replay-alike es r.model _ asc replayed (Delivers-reduce_each delivered live), runs)
