-- ===== src/Supervisor/Pipeline/Samples.antt =====
-- A pipeline over a ledger with room for a few events.
use agent_mission_control.Prelude.{
  ℕ, zero, suc, ◌≡◌, refl, true, List, [], ◌∷◌, ◌++◌, String, Result, ok, err, arith,
}
use agent_mission_control.Prelude.Text.{digit}
use agent_mission_control.Prelude.Word.{saturating_add}
use agent_mission_control.Domain.Event.{
  EventEnvelope, hex, hex_digit, new, payload_hash, has_valid_payload_hash,
}
use agent_mission_control.Domain.Event.Samples.{sample_json}
use agent_mission_control.Domain.ReadModel.{
  ReadModel, default_model, contains, parse_state, number, string, reduce_kind, reduce,
  insert_sorted, sort_by_sequence, note_gap, replay_one, replay_each, replay,
}
use agent_mission_control.Domain.ReadModel.Live.{forget_gaps}
use agent_mission_control.Domain.ReadModel.Samples.{
  sample_decoder, updated, moved, after_update, after_replay,
}
use agent_mission_control.Supervisor.Pipeline.{
  AppendOnlyLedger, Channel, running, paused, with_empty, recover, append, append_in, written,
  take_in,
}
use agent_mission_control.Supervisor.Pipeline.Delivery.{Pipe, run, Delivers, run-Delivers}
use agent_mission_control.Supervisor.Pipeline.Recovery.{recover_agrees}

abbrev Stored : Type 0
Stored = ℕ × List (EventEnvelope sample_json)

abbrev store_event : Stored → EventEnvelope sample_json → Stored × Result (Unit {0}) String
store_event (zero, events) e = ((zero, events), err "disk full")
store_event (suc room, events) e = ((room, events ++ e ∷ []), ok tt)

abbrev sample_store : AppendOnlyLedger sample_json
sample_store = record { State = Stored; append = store_event; replay_events = λ s id. ok s.1 }

-- A receiver that keeps what it was sent.
abbrev sample_channel : Channel
sample_channel = record { Sender = List ReadModel; send = λ s m. (s ++ m ∷ [], true) }

abbrev show_sample : ℕ → String
show_sample id = "an event"

abbrev SamplePipe : Type 0
SamplePipe = Pipe sample_json sample_decoder sample_store sample_channel show_sample

abbrev empty_with : ℕ → SamplePipe
empty_with room =
    with_empty sample_json sample_decoder sample_store sample_channel show_sample (room, [])

-- The second event finds no room.
run-Delivers_example :
    Delivers sample_json sample_decoder sample_store sample_channel show_sample
      (1, [])
      default_model
      (updated ∷ moved ∷ [])
      (0, updated ∷ [])
      after_update
      (paused "disk full")
unfolding with_empty run append append_in written take_in reduce reduce_kind number string
    parse_state contains has_valid_payload_hash new payload_hash hex hex_digit digit
run-Delivers_example =
    run-Delivers sample_json sample_decoder sample_store sample_channel show_sample (empty_with 1)
      (updated ∷ moved ∷ []) refl

abbrev recovered_pipe : SamplePipe
recovered_pipe = record {
  ledger = (0, updated ∷ moved ∷ []);
  model = after_replay;
  status = running;
  subscribers = [];
}

recover_agrees_example :
    (forget_gaps after_replay
      ≡ forget_gaps
          (run sample_json sample_decoder sample_store sample_channel show_sample
            (empty_with 2)
            (updated ∷ moved ∷ [])).model)
    × (running ≡ running)
unfolding with_empty recover run append append_in written take_in replay replay_each replay_one
    note_gap sort_by_sequence insert_sorted saturating_add reduce reduce_kind number string
    parse_state contains has_valid_payload_hash new payload_hash hex hex_digit digit
recover_agrees_example =
    recover_agrees sample_json sample_decoder sample_store sample_channel show_sample (2, [])
      (0, updated ∷ moved ∷ []) 1 (updated ∷ moved ∷ []) recovered_pipe refl
      ((omega arith, tt), (tt, tt)) refl refl
