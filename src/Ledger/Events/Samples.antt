-- ===== src/Ledger/Events/Samples.antt =====
-- A ledger of texts.
use agent_mission_control.Prelude.{
  ℕ, ◌≡◌, ◌≢◌, refl, sym, none, some, Option, [], ◌∷◌, String, ok, err, if◌then◌else◌,
}
use agent_mission_control.Prelude.Text.{str_eq, digit, byte_len, has_char, ends_with}
use agent_mission_control.Domain.Ids.{parse_timestamp}
use agent_mission_control.Domain.Event.{
  Json, EventKind, EventEnvelope, as_str, hex, hex_digit, new, payload_hash, has_valid_payload_hash,
}
use agent_mission_control.Ledger.Events.{
  LedgerError, Row, Faults, Statement, no_faults, execute, of_mission, largest, last_sequence,
  find_event, follows, place, finish, write_row, write_each, write_batch, append_row, Codec, stored,
  stored_evidence, prepare, append, prepare_each, append_batch, read_each, check_each,
  replay_events, order_by_sequence,
}
use agent_mission_control.Ledger.Events.Sequence.{
  IsLog, appends, appends_batch, run, run-empty-IsLog,
}
use agent_mission_control.Ledger.Events.Retry.{append_retry}
use agent_mission_control.Ledger.Events.Batch.{append_each, append_batch_lem}
use agent_mission_control.Ledger.Events.Replay.{redact_option, restored, replay-append}

abbrev text_json : Json
text_json = record {
  Value = String;
  to_vec = λ v. [];
  sha256 = λ bytes. 171 ∷ [];
  get_u64 = λ v field. none;
  get_str = λ v field. none;
}

abbrev text_codec : Codec text_json
text_codec = record {
  redact_event = λ v. if str_eq v "secret" then some "[REDACTED]" else some v;
  to_text = λ v. ok v;
  from_text = λ s. ok s;
  show_id = λ id. "m";
}

abbrev event : ℕ → ℕ → String → EventEnvelope text_json
event id sequence payload = new text_json id 1 2 sequence EventKind.mission_created payload

abbrev row : ℕ → ℕ → String → Row
row id sequence payload = record {
  mission_id = 1;
  route_id = 2;
  sequence = sequence;
  event_id = id;
  schema_version = 1;
  kind = "mission_created";
  occurred_at = "1970-01-01T00:00:00Z";
  payload = payload;
  raw_evidence = none;
  payload_hash = "ab";
}

abbrev commit_fails : Faults
commit_fails Statement.commit = some "disk full"
commit_fails _ = none

first_accepted :
    append text_json text_codec no_faults [] (event 7 1 "secret")
    ≡ (row 7 1 "[REDACTED]" ∷ [], ok tt)
unfolding append prepare stored stored_evidence append_row place execute finish find_event follows
    last_sequence largest of_mission has_valid_payload_hash new payload_hash hex hex_digit digit
    as_str
first_accepted = refl

-- A commit that fails rolls the batch back, and a gap is refused.
batch_rolled_back :
    (append_batch text_json text_codec commit_fails [] (event 7 1 "a" ∷ event 8 2 "b" ∷ [])
      ≡ ([], err (LedgerError.database "disk full")))
    × (append_batch text_json text_codec no_faults [] (event 7 1 "a" ∷ event 8 3 "b" ∷ [])
        ≡ ([], err LedgerError.sequence_violation))
unfolding append_batch prepare_each prepare stored stored_evidence write_batch write_each write_row
    place execute finish find_event follows last_sequence largest of_mission has_valid_payload_hash
    new payload_hash hex hex_digit digit as_str
batch_rolled_back = (refl, refl)

run-empty-IsLog_example : IsLog (
    run text_json text_codec []
      (appends no_faults (event 7 1 "a") ∷ appends_batch commit_fails (event 8 2 "b" ∷ []) ∷ []))
run-empty-IsLog_example =
    run-empty-IsLog text_json text_codec
      (appends no_faults (event 7 1 "a") ∷ appends_batch commit_fails (event 8 2 "b" ∷ []) ∷ [])

append_retry_example :
    ((append text_json text_codec commit_fails (row 7 1 "[REDACTED]" ∷ []) (event 7 1 "secret")).0
      ≡ row 7 1 "[REDACTED]" ∷ [])
    × (append text_json text_codec no_faults (row 7 1 "[REDACTED]" ∷ []) (event 7 1 "secret")
        ≡ (row 7 1 "[REDACTED]" ∷ [], ok tt))
append_retry_example =
    append_retry text_json text_codec no_faults commit_fails [] (row 7 1 "[REDACTED]" ∷ [])
      (event 7 1 "secret") first_accepted

append_batch_lem_example :
    append_batch text_json text_codec no_faults [] (event 7 1 "secret" ∷ [])
    ≡ (row 7 1 "[REDACTED]" ∷ [], ok tt)
unfolding append_each append has_valid_payload_hash new hex place find_event follows last_sequence
append_batch_lem_example =
    (append_batch_lem text_json text_codec no_faults [] (event 7 1 "secret" ∷ [])).1
      (row 7 1 "[REDACTED]" ∷ []) first_accepted

replay-append_example :
    ((payload : String) × (evidence : Option String) × (text_codec.redact_event "secret"
        ≡ some payload)
      × (redact_option text_json text_codec none ≡ some evidence)
      × (replay_events text_json text_codec (row 7 1 "[REDACTED]" ∷ []) 1
          ≡ ok (restored text_json text_codec (event 7 1 "secret") payload evidence ∷ [])))
    × ((m : ℕ)
        → m ≢ 1
        → replay_events text_json text_codec (row 7 1 "[REDACTED]" ∷ []) m
          ≡ replay_events text_json text_codec [] m)
unfolding new
replay-append_example =
    replay-append text_json text_codec (λ v text h. sym h) no_faults [] (row 7 1 "[REDACTED]" ∷ [])
      (event 7 1 "secret") [] (unfold of_mission in (record { numbered = λ m. tt; unique = tt }))
      (unfold find_event in refl) (unfold parse_timestamp byte_len has_char ends_with in refl)
      (unfold replay_events order_by_sequence of_mission read_each check_each in refl)
      first_accepted
