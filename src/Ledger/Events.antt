-- ===== src/Ledger/Events.antt =====
-- crates/ledger/src/sqlcipher.rs: the table of events. A statement of SQL is a function of the rows; a
-- transaction that does not commit leaves them. `faults` says which statements the database fails.
pub mod Sequence
pub mod Retry
pub mod Batch
pub mod Replay
pub mod Samples
use Prim.Native.String.{◌++◌ as cat}
use agent_mission_control.Prelude.{
  ℕ, ◌+◌, ◌-◌, ◌^◌, max, Bool, true, false, not, ◌&&◌, ◌||◌, ◌==◌, leb, Option, none, some, List,
  [], ◌∷◌, ◌++◌, String, Result, ok, err, ◌>>=◌, ◌>>◌, ok_or, if◌then◌else◌,
}
use agent_mission_control.Prelude.Text.{str_eq, to_decimal}
use agent_mission_control.Domain.Ids.{EventId, MissionId, RouteId, Timestamp, parse_timestamp}
use agent_mission_control.Domain.Event.{
  Json, EventEnvelope, as_str, visit_str, new, payload_hash, has_valid_payload_hash,
}

pub data LedgerError : Type 0 where
  key_mismatch key_unavailable migration_failed_read_only : LedgerError
  redaction_limit_exceeded duplicate_conflict sequence_violation : LedgerError
  database io invalid_payload integrity_failed : String → LedgerError

-- A row of the table `events`; an identifier stands for its text.
pub record Row : Type 0 where
  pub mission_id : MissionId
  pub route_id : RouteId
  pub sequence : ℕ
  pub event_id : EventId
  pub schema_version : ℕ
  pub kind : String
  pub occurred_at : Timestamp
  pub payload : String
  pub raw_evidence : Option String
  pub payload_hash : String

-- The statements of a transaction; those about an event carry its identifier.
pub data Statement : Type 0 where
  begin commit : Statement
  select_last select_event insert : EventId → Statement

abbrev pub Faults : Type 0
Faults = Statement → Option String

abbrev pub no_faults : Faults
no_faults s = none

-- A statement, and the `?` behind it.
unfoldable pub execute : Faults → Statement → Result (Unit {0}) LedgerError
execute faults s = elim (faults s) [ none ↦ ok tt | some text ↦ err (database text) ]

abbrev pub i64_max : ℕ
i64_max = 2 ^ 63 - 1

-- `SELECT .. WHERE mission_id = ?1`.
unfoldable pub of_mission : MissionId → List Row → List Row
of_mission m [] = []
of_mission m (r ∷ rs) = let rest = of_mission m rs in if r.mission_id == m then r ∷ rest else rest

unfoldable pub largest : List Row → Option ℕ
largest [] = none
largest (r ∷ rs) = elim (largest rs) [ none ↦ some r.sequence | some n ↦ some (max r.sequence n) ]

-- `SELECT sequence FROM events WHERE mission_id = ?1 ORDER BY sequence DESC LIMIT 1`.
unfoldable pub last_sequence : MissionId → List Row → Option ℕ
unfolding of_mission largest
last_sequence m rows = largest (of_mission m rows)

-- `SELECT .. FROM events WHERE event_id = ?1`.
unfoldable pub find_event : EventId → List Row → Option Row
find_event id [] = none
find_event id (r ∷ rs) = if r.event_id == id then some r else find_event id rs

-- `==` on `Option<String>`.
abbrev pub same_text : Option String → Option String → Bool
same_text none none = true
same_text (some s) (some t) = str_eq s t
same_text _ _ = false

-- The comparison of a row that is there with the event that comes again.
unfoldable pub same_event : Row → Row → Bool
same_event existing r =
    existing.mission_id == r.mission_id
    && existing.sequence == r.sequence
    && str_eq existing.payload_hash r.payload_hash
    && same_text existing.raw_evidence r.raw_evidence
    && existing.schema_version == r.schema_version
    && existing.route_id == r.route_id
    && str_eq existing.kind r.kind
    && str_eq existing.occurred_at r.occurred_at

-- `!last.map_or(sequence != 1, |previous| sequence != previous + 1)`.
unfoldable pub follows : Option ℕ → ℕ → Bool
follows none sequence = sequence == 1
follows (some previous) sequence = sequence == previous + 1

pub data Placement : Type 0 where
  present absent : Placement

-- The queries of a transaction about one event, and the checks behind them.
unfoldable pub place : Faults → List Row → Row → Result Placement LedgerError
unfolding execute
place faults rows r = do
  execute faults (select_last r.event_id)
  execute faults (select_event r.event_id)
  elim (find_event r.event_id rows) [
    | some existing ↦ if same_event existing r then ok present else err duplicate_conflict
    | none ↦
        if not (follows (last_sequence r.mission_id rows) r.sequence)
        then err sequence_violation
        else ok absent
  ]

-- What a method answers: the rows as it leaves them, and the outcome.
abbrev pub Outcome : Type 0
Outcome = List Row × Result (Unit {0}) LedgerError

-- A transaction that fails is rolled back.
unfoldable pub finish : List Row → Result (List Row) LedgerError → Outcome
finish rows (ok new) = (new, ok tt)
finish rows (err e) = (rows, err e)

-- The body of the loop of `append_batch` for a prepared event.
unfoldable pub write_row : Faults → List Row → Row → Result (List Row) LedgerError
unfolding execute
write_row faults rows r = place faults rows r >>= λ placement. elim placement [
  | present ↦ ok rows
  | absent ↦ do execute faults (insert r.event_id); ok (rows ++ r ∷ [])
]

-- The loop of `append_batch` over the prepared events.
unfoldable pub write_each : Faults → List Row → List Row → Result (List Row) LedgerError
write_each faults rows [] = ok rows
write_each faults rows (r ∷ rs) = do next ← write_row faults rows r; write_each faults next rs

-- The transaction of `append_batch`.
unfoldable pub write_batch : Faults → List Row → List Row → Result (List Row) LedgerError
unfolding execute write_each
write_batch faults rows prepared = do
  execute faults begin
  new ← write_each faults rows prepared
  execute faults commit
  ok new

-- The transaction of `append`: an event that is there ends it without a commit.
unfoldable pub append_row : Faults → List Row → Row → Result (List Row) LedgerError
unfolding execute
append_row faults rows r = do
  execute faults begin
  place faults rows r >>= λ placement. elim placement [
    | present ↦ ok rows
    | absent ↦ do execute faults (insert r.event_id); execute faults commit; ok (rows ++ r ∷ [])
  ]

-- `ORDER BY sequence`.
unfoldable pub insert_row : Row → List Row → List Row
insert_row r [] = r ∷ []
insert_row r (x ∷ xs) = if leb r.sequence x.sequence then r ∷ x ∷ xs else x ∷ insert_row r xs

unfoldable pub order_by_sequence : List Row → List Row
unfolding insert_row
order_by_sequence [] = []
order_by_sequence (r ∷ rs) = insert_row r (order_by_sequence rs)

-- The redactor of redaction.rs, the texts of JSON values, and the print of an identifier.
pub record Codec (j : Json) : Type 0 where
  pub redact_event : j.Value → Option j.Value
  pub to_text : j.Value → Result String String
  pub from_text : String → Result j.Value String
  pub show_id : MissionId → String

abbrev pub map_err {ℓ κ μ} :
    {A : Type ℓ} {D : Type κ} {E : Type μ} → Result A D → (D → E) → Result A E
map_err (ok a) f = ok a
map_err (err e) f = err (f e)

module _ (j : Json) (codec : Codec j) where
  open codec use {redact_event, to_text, from_text, show_id}

  -- A value as it is stored: redacted, then written as a text.
  unfoldable pub stored : j.Value → Result (j.Value × String) LedgerError
  stored value = do
    redacted ← ok_or (redact_event value) redaction_limit_exceeded
    text ← map_err (to_text redacted) invalid_payload
    ok (redacted, text)

  unfoldable pub stored_evidence : Option j.Value → Result (Option String) LedgerError
  unfolding stored
  stored_evidence none = ok none
  stored_evidence (some value) = do kept ← stored value; ok (some kept.1)

  -- What `append` and `append_batch` do in front of their transaction.
  unfoldable pub prepare : EventEnvelope j → Result Row LedgerError
  unfolding stored stored_evidence
  prepare e =
      if not (has_valid_payload_hash j e)
      then err (invalid_payload "event payload hash does not match payload")
      else if not (leb e.sequence i64_max)
      then err sequence_violation
      else do
        kept ← stored e.payload
        evidence ← stored_evidence e.raw_evidence
        ok (record {
          mission_id = e.mission_id;
          route_id = e.route_id;
          sequence = e.sequence;
          event_id = e.event_id;
          schema_version = e.schema_version;
          kind = as_str e.kind;
          occurred_at = e.occurred_at;
          payload = kept.1;
          raw_evidence = evidence;
          payload_hash = payload_hash j kept.0;
        })

  unfoldable pub append : Faults → List Row → EventEnvelope j → Outcome
  unfolding prepare append_row finish
  append faults rows e = finish rows (prepare e >>= λ r. append_row faults rows r)

  unfoldable pub prepare_each : List (EventEnvelope j) → Result (List Row) LedgerError
  unfolding prepare
  prepare_each [] = ok []
  prepare_each (e ∷ es) = do r ← prepare e; rs ← prepare_each es; ok (r ∷ rs)

  unfoldable pub append_batch : Faults → List Row → List (EventEnvelope j) → Outcome
  unfolding prepare_each write_batch finish
  append_batch faults rows [] = (rows, ok tt)
  append_batch faults rows (e ∷ es) =
      finish rows (prepare_each (e ∷ es) >>= λ prepared. write_batch faults rows prepared)

  -- `payload_hash` and `raw_evidence` are read as they were written.
  unfoldable pub read_evidence : Option String → Result (Option j.Value) LedgerError
  read_evidence none = ok none
  read_evidence (some text) = do value ← map_err (from_text text) database; ok (some value)

  -- A row of `replay_events` as an event.
  unfoldable pub read_row : Row → Result (EventEnvelope j) LedgerError
  unfolding read_evidence
  read_row r = do
    payload ← map_err (from_text r.payload) database
    occurred_at ← map_err (parse_timestamp r.occurred_at) database
    evidence ← read_evidence r.raw_evidence
    ok (record (new j r.event_id r.mission_id r.route_id r.sequence (visit_str r.kind) payload) {
      schema_version = r.schema_version;
      occurred_at = occurred_at;
      hash_of_payload = r.payload_hash;
      raw_evidence = evidence;
    })

  unfoldable pub read_each : List Row → Result (List (EventEnvelope j)) LedgerError
  unfolding read_row
  read_each [] = ok []
  read_each (r ∷ rs) = do e ← read_row r; es ← read_each rs; ok (e ∷ es)

  -- The check of every event behind the query.
  unfoldable pub check_each : MissionId → List (EventEnvelope j) → Result (Unit {0}) LedgerError
  check_each m [] = ok tt
  check_each m (e ∷ es) =
      if not (has_valid_payload_hash j e)
      then err (
          integrity_failed (
            cat "payload hash mismatch for mission "
              (cat (show_id m) (cat " sequence " (to_decimal e.sequence)))))
      else check_each m es

  unfoldable pub replay_events : List Row → MissionId → Result (List (EventEnvelope j)) LedgerError
  unfolding read_each check_each order_by_sequence of_mission
  replay_events rows m = do
    events ← read_each (order_by_sequence (of_mission m rows))
    check_each m events
    ok events
