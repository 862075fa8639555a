-- ===== src/Domain/ReadModel/Samples.antt =====
-- Concrete events and the models that they project to.
use agent_mission_control.Prelude.{
  arith, false, not, ◌<◌, ◌==◌, if◌then◌else◌, ℕ, true, ◌≤◌, ◌<◌, ◌≡◌, refl, some, [], ◌∷◌, String,
  Result, ok, err,
}
use agent_mission_control.Prelude.Text.{digit}
use agent_mission_control.Prelude.Word.{saturating_add}
use agent_mission_control.Domain.Evidence.{EvidenceEntry}
use agent_mission_control.Domain.Route.{executing}
use agent_mission_control.Domain.Event.{
  EventKind, EventEnvelope, hex, hex_digit, new, payload_hash, has_valid_payload_hash,
}
use agent_mission_control.Domain.Event.Samples.{sample_json, sample_event}
use agent_mission_control.Domain.ReadModel.{
  ReadModel, default_model, contains, parse_state, number, string, reduce_kind, reduce,
  insert_sorted, sort_by_sequence, note_gap, replay_one, replay_each, replay,
}
use agent_mission_control.Domain.ReadModel.Sequences.{has_sequence}
use agent_mission_control.Domain.ReadModel.Replay.{IsHonest, reported}
use agent_mission_control.Domain.ReadModel.Gaps.{replay_reports_missing}

-- No payload is an evidence entry.
abbrev pub sample_decoder : ℕ × String → Result EvidenceEntry String
sample_decoder v = err "missing field"

abbrev pub updated : EventEnvelope sample_json
updated = sample_event 7 1 EventKind.contract_updated (4, "Executing")

abbrev pub moved : EventEnvelope sample_json
moved = sample_event 8 5 EventKind.route_state_changed (9, "Executing")

abbrev pub after_update : ReadModel
after_update = record default_model {
  mission_id = some 1;
  contract_version = 4;
  applied_event_ids = 7 ∷ [];
}

pub updated_reduced : reduce sample_json sample_decoder default_model updated ≡ ok after_update
unfolding reduce reduce_kind number contains has_valid_payload_hash new payload_hash hex hex_digit
    digit
updated_reduced = refl

-- The gap from 2 to 4 is reported.
abbrev pub after_replay : ReadModel
after_replay = record after_update {
  route_id = some 2;
  route_state = some executing;
  route_version = 9;
  incomplete = true;
  missing_sequences = record { start = 2; end = 4 } ∷ [];
  applied_event_ids = 8 ∷ 7 ∷ [];
}

replayed : replay sample_json sample_decoder (moved ∷ updated ∷ []) ≡ ok after_replay
unfolding replay replay_each replay_one note_gap sort_by_sequence insert_sorted saturating_add
    reduce reduce_kind number string parse_state contains has_valid_payload_hash new payload_hash
    hex hex_digit digit
replayed = refl

-- The number that an identifier stands for.
abbrev number_of : ℕ → ℕ
number_of id = if id == 7 then 1 else 5

replay_reports_missing_example :
    let es = moved ∷ updated ∷ [] in
    (largest : ℕ) × (1 ≤ largest → has_sequence sample_json sample_decoder es largest ≡ true)
    × ((n : ℕ) → largest < n → has_sequence sample_json sample_decoder es n ≡ false)
    × ((n : ℕ)
        → 1 ≤ n
        → n ≤ largest
        → reported n after_replay.missing_sequences
          ≡ not (has_sequence sample_json sample_decoder es n))
    × ((n : ℕ) → largest < n → reported n after_replay.missing_sequences ≡ false)
    × IsHonest after_replay
unfolding new
replay_reports_missing_example =
    replay_reports_missing sample_json sample_decoder number_of (moved ∷ updated ∷ []) after_replay
      ((refl, omega arith), ((refl, omega arith), tt)) replayed
