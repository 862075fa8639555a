-- ===== src/Domain/Ids.antt =====
-- crates/domain/src/ids.rs. An identifier is the 128-bit number that its UUID spells.
use Prim.Native.String.{String}
use agent_mission_control.Prelude.{ℕ, not, ◌||◌, ltb, Result, ok, err, if◌then◌else◌}
use agent_mission_control.Prelude.Text.{byte_len, has_char, ends_with}

abbrev pub MissionId : Type 0
MissionId = ℕ

abbrev pub RouteId : Type 0
RouteId = ℕ

abbrev pub EventId : Type 0
EventId = ℕ

-- `Timestamp`: the text, as it is serialized.
abbrev pub Timestamp : Type 0
Timestamp = String

-- `Timestamp::now` of the domain crate answers with a fixed text.
abbrev pub now : Timestamp
now = "1970-01-01T00:00:00Z"

-- `Timestamp::parse`.
unfoldable pub parse_timestamp : String → Result Timestamp String
parse_timestamp value =
    if ltb (byte_len value) 20
      || not (has_char 0x54 value)
      || not (ends_with 0x5a value || has_char 0x2b value)
    then err "timestamp must be an RFC3339 UTC value"
    else ok value
