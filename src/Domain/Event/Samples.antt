-- ===== src/Domain/Event/Samples.antt =====
-- Concrete kinds and payloads.
use agent_mission_control.Prelude.{ℕ, true, ◌≡◌, refl, some, none, [], ◌∷◌, String, if◌then◌else◌}
use agent_mission_control.Prelude.Text.{str_eq, digit}
use agent_mission_control.Domain.Event.{
  Json, EventKind, first_arm, visit_str, hex, hex_digit, EventEnvelope, new, payload_hash,
  has_valid_payload_hash,
}

known_name : visit_str "approval_consumed" ≡ EventKind.approval_consumed
unfolding visit_str first_arm
known_name = refl

unknown_name : visit_str "warp_started" ≡ EventKind.unknown "warp_started"
unfolding visit_str first_arm
unknown_name = refl

hex_bytes : hex (0 ∷ 10 ∷ 171 ∷ 255 ∷ []) ≡ "000aabff"
unfolding hex hex_digit digit
hex_bytes = refl

-- A payload of one number, which is its own hash, and of one state name.
abbrev pub sample_json : Json
sample_json = record {
  Value = ℕ × String;
  to_vec = λ v. v.0 ∷ [];
  sha256 = λ bytes. bytes;
  get_u64 = λ v field. if str_eq field "version" then some v.0 else none;
  get_str = λ v field. if str_eq field "state" then some v.1 else none;
}

-- An event of mission 1 on route 2.
abbrev pub sample_event : ℕ → ℕ → EventKind → ℕ × String → EventEnvelope sample_json
sample_event event_id sequence kind payload = new sample_json event_id 1 2 sequence kind payload

sealed :
    has_valid_payload_hash sample_json
      (sample_event 7 1 EventKind.contract_updated (4, "Executing"))
    ≡ true
unfolding has_valid_payload_hash new payload_hash hex hex_digit digit
sealed = refl
