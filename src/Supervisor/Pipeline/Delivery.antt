-- ===== src/Supervisor/Pipeline/Delivery.antt =====
-- What a pipeline does with a sequence of events: the specification is a relation that knows of no
-- pipeline, only of the ledger and of the read model.
use agent_mission_control.Prelude.{
  ◌≡◌, refl, sym, ap, ◌∙◌, inl, inr, List, [], ◌∷◌, String, Result, ok, err, Result-cases,
}
use mathlib.Core.Path.{subst}
use agent_mission_control.Domain.Ids.{EventId}
use agent_mission_control.Domain.Evidence.{EvidenceEntry}
use agent_mission_control.Domain.Event.{Json, EventEnvelope}
use agent_mission_control.Domain.ReadModel.{ReadModel, ProjectionError, reduce}
use agent_mission_control.Supervisor.Pipeline.{
  AppendOnlyLedger, Channel, PipelineStatus, running, paused, error_text, EventPipeline, append_in,
  append, written, take_in,
}

module _ (j : Json) (decode_entry : j.Value → Result EvidenceEntry String)
    (store : AppendOnlyLedger j) (channel : Channel) (show_id : EventId → String) where
  abbrev pub Pipe : Type 0
  Pipe = EventPipeline j decode_entry store channel show_id

  unfoldable pub run : Pipe → List (EventEnvelope j) → Pipe
  run p [] = p
  run p (e ∷ es) = run (append j decode_entry store channel show_id p e).0 es

  kept :
      (o : store.State × Result (Unit {0}) String) {a : Result (Unit {0}) String}
      → o.1 ≡ a
      → o ≡ (o.0, a)
  kept o h = ap (λ x. (o.0, x)) h

  -- From a ledger and a model, the events lead to a ledger, a model and a status.
  pub data Delivers
      : store.State
        → ReadModel
        → List (EventEnvelope j)
        → store.State
        → ReadModel
        → PipelineStatus
        → Type 0 where
    all_taken : {l : store.State} {m : ReadModel} → Delivers l m [] l m running
    refused :
        {l k : store.State} {m : ReadModel} {e : EventEnvelope j} {es : List (EventEnvelope j)}
        {reason : String}
        → store.append l e ≡ (k, err reason)
        → Delivers l m (e ∷ es) k m (paused reason)
    not_projected :
        {l k : store.State} {m : ReadModel} {e : EventEnvelope j} {es : List (EventEnvelope j)}
        {x : ProjectionError}
        → store.append l e ≡ (k, ok tt)
        → reduce j decode_entry m e ≡ err x
        → Delivers l m (e ∷ es) k m (paused (error_text show_id x))
    taken :
        {l k q : store.State} {m n r : ReadModel} {e : EventEnvelope j}
        {es : List (EventEnvelope j)} {s : PipelineStatus}
        → store.append l e ≡ (k, ok tt)
        → reduce j decode_entry m e ≡ ok n
        → Delivers k n es q r s
        → Delivers l m (e ∷ es) q r s

  append_paused :
      (p : Pipe) (e : EventEnvelope j) (reason : String)
      → p.status ≡ paused reason
      → (append j decode_entry store channel show_id p e).0 ≡ p
  unfolding append append_in
  append_paused p e reason h = ap (λ s. (append_in j decode_entry store channel show_id s p e).0) h

  run_paused :
      (p : Pipe) (es : List (EventEnvelope j)) (reason : String)
      → p.status ≡ paused reason
      → run p es ≡ p
  unfolding run
  run_paused p [] reason h = refl
  run_paused p (e ∷ es) reason h =
      ap (λ q. run q es) (append_paused p e reason h) ∙ run_paused p es reason h

  append_running :
      (p : Pipe) (e : EventEnvelope j) {o : store.State × Result (Unit {0}) String}
      → p.status ≡ running
      → store.append p.ledger e ≡ o
      → append j decode_entry store channel show_id p e
        ≡ written j decode_entry store channel show_id o p e
  unfolding append append_in
  append_running p e h a =
      ap (λ s. append_in j decode_entry store channel show_id s p e) h
      ∙ ap (λ o. written j decode_entry store channel show_id o p e) a

  append_taken :
      (p : Pipe) (e : EventEnvelope j) {l : store.State} {n : Result ReadModel ProjectionError}
      → p.status ≡ running
      → store.append p.ledger e ≡ (l, ok tt)
      → reduce j decode_entry p.model e ≡ n
      → append j decode_entry store channel show_id p e
        ≡ take_in j decode_entry store channel show_id n (record p { ledger = l })
  unfolding written
  append_taken p e {l} h a r =
      append_running p e h a
      ∙ ap (λ n. take_in j decode_entry store channel show_id n (record p { ledger = l })) r

  -- The pipeline behind the first event decides for the rest.
  abbrev Delivered : Pipe → List (EventEnvelope j) → Pipe → Type 0
  Delivered p es q = Delivers p.ledger p.model es q.ledger q.model q.status

  -- On a running pipeline a sequence of events goes to the ledger and into the model one by one, each
  -- event to the ledger first. The first that the ledger refuses pauses the pipeline for the ledger's
  -- reason, and the first that the model refuses pauses it with that event in the ledger; either leaves
  -- the model of the events before, and no later event reaches the ledger or the model. Where neither
  -- occurs the pipeline still runs.
  pub run-Delivers :
      (p : Pipe) (es : List (EventEnvelope j))
      → p.status ≡ running
      → Delivers p.ledger p.model es (run p es).ledger (run p es).model (run p es).status
  unfolding run take_in written
  run-Delivers p [] h =
      subst (λ s. Delivers p.ledger p.model [] p.ledger p.model s) (sym h) all_taken
  run-Delivers p (e ∷ es) h =
      let l = (store.append p.ledger e).0 in
      elim (Result-cases (store.append p.ledger e).1) [
        | inl (u, a) ↦ elim (Result-cases (reduce j decode_entry p.model e)) [
          | inl (n, r) ↦
              let step = append_taken p e h (kept _ a) r in
              let behind =
                (take_in j decode_entry store channel show_id (ok n) (record p { ledger = l })).0 in
              subst (λ o. Delivered p (e ∷ es) (run o.0 es)) (sym step)
                (taken (kept _ a) r (run-Delivers behind es h))
          | inr (x, r) ↦
              let step = append_taken p e h (kept _ a) r in
              let stop =
                run_paused (record p { ledger = l; status = paused (error_text show_id x) }) es
                  (error_text show_id x) refl in
              subst (λ o. Delivered p (e ∷ es) (run o.0 es)) (sym step)
                (subst (λ q. Delivered p (e ∷ es) q) (sym stop) (not_projected (kept _ a) r))
        ]
        | inr (reason, a) ↦
            let step = append_running p e h (kept _ a) in
            let stop =
              run_paused (record p { ledger = l; status = paused reason }) es reason refl in
            subst (λ o. Delivered p (e ∷ es) (run o.0 es)) (sym step)
              (subst (λ q. Delivered p (e ∷ es) q) (sym stop) (refused (kept _ a)))
      ]
