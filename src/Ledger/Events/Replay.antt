-- ===== src/Ledger/Events/Replay.antt =====
-- What replay gives back of the events that were appended.
use agent_mission_control.Prelude.{
  ℕ, suc, ◌==◌, leb, ◌≡◌, ◌≢◌, inl, inr, refl, sym, ap, ◌∙◌, true, false, Bool-cases, Result-cases,
  Option-cases, Option, none, some, List, [], ◌∷◌, ◌++◌, String, ok, ==_refl, arith,
}
use mathlib.Core.List.{append-nil}
use agent_mission_control.Prelude.Text.{str_eq_iff}
use agent_mission_control.Domain.Ids.{MissionId, parse_timestamp}
use agent_mission_control.Domain.Event.{
  Json, EventEnvelope, as_str, visit_str, new, payload_hash, has_valid_payload_hash,
}
use agent_mission_control.Ledger.Events.{
  Row, Faults, execute, of_mission, find_event, place, insert_row, order_by_sequence, finish,
  append_row, Codec, stored, stored_evidence, prepare, append, read_evidence, read_row, read_each,
  check_each, replay_events,
}
use agent_mission_control.Ledger.Events.Sequence.{
  IsNumbered, IsLog, of_mission-append, finish-ok, append_row-Grows, Grows-IsLog,
}

insert_row-IsNumbered :
    (n : ℕ) (r : Row) (rs : List Row)
    → r.sequence ≡ n
    → IsNumbered (suc n) rs
    → insert_row r rs ≡ r ∷ rs
unfolding insert_row
insert_row-IsNumbered n r [] e h = refl
insert_row-IsNumbered n r (x ∷ rs) e h =
    let first : leb r.sequence x.sequence ≡ true = ground arith in rw first refl

order_by_sequence-IsNumbered : (n : ℕ) (rs : List Row) → IsNumbered n rs → order_by_sequence rs ≡ rs
unfolding order_by_sequence
order_by_sequence-IsNumbered n [] h = refl
order_by_sequence-IsNumbered n (r ∷ rs) h =
    rw (order_by_sequence-IsNumbered (suc n) rs h.1) (insert_row-IsNumbered n r rs h.0 h.1)

-- A row that is written for an event that is not there stands at the end.
append_row-absent :
    (faults : Faults) (rows new : List Row) (r : Row)
    → find_event r.event_id rows ≡ none
    → append_row faults rows r ≡ ok new
    → new ≡ rows ++ r ∷ []
unfolding append_row place execute
append_row-absent faults rows new r fresh h = ground arith

own_rows :
    (m : MissionId) (rows new_rows : List Row) (r : Row)
    → r.mission_id ≡ m
    → new_rows ≡ rows ++ r ∷ []
    → of_mission m new_rows ≡ of_mission m rows ++ r ∷ []
own_rows m rows new_rows r own grown =
    ap (of_mission m) grown
    ∙ of_mission-append m rows (r ∷ [])
    ∙ (unfold of_mission in rw own (rw (==_refl m) refl))

other_rows :
    (m : MissionId) (rows new_rows : List Row) (r : Row)
    → r.mission_id ≢ m
    → new_rows ≡ rows ++ r ∷ []
    → of_mission m new_rows ≡ of_mission m rows
other_rows m rows new_rows r other grown =
    let apart : r.mission_id == m ≡ false = ground arith in
    ap (of_mission m) grown
    ∙ of_mission-append m rows (r ∷ [])
    ∙ (unfold of_mission in rw apart (append-nil (of_mission m rows)))

module _ (j : Json) (codec : Codec j) where
  read_each-append :
      (xs ys : List Row) (es fs : List (EventEnvelope j))
      → read_each j codec xs ≡ ok es
      → read_each j codec ys ≡ ok fs
      → read_each j codec (xs ++ ys) ≡ ok (es ++ fs)
  unfolding read_each
  read_each-append [] ys es fs h k = let nil : [] ≡ es = ground arith in rw⁻¹ nil k
  read_each-append (x ∷ xs) ys es fs h k = elim (Result-cases (read_row j codec x)) [
    | inl (e, one) ↦ elim (Result-cases (read_each j codec xs)) [
      | inl (rest, more) ↦
          let shape : e ∷ rest ≡ es = ground arith in
          rw⁻¹ shape (rw (one, read_each-append xs ys rest fs more k) refl)
      | inr (z, failed) ↦ absurd (ground arith)
    ]
    | inr (z, failed) ↦ absurd (ground arith)
  ]

  check_each-append :
      (m : MissionId) (es : List (EventEnvelope j)) (e : EventEnvelope j)
      → check_each j codec m es ≡ ok tt
      → has_valid_payload_hash j e ≡ true
      → check_each j codec m (es ++ e ∷ []) ≡ ok tt
  unfolding check_each
  check_each-append m [] e h valid = rw valid refl
  check_each-append m (x ∷ es) e h valid = elim (Bool-cases (has_valid_payload_hash j x)) [
    | inl fine ↦ rw fine (check_each-append m es e (rw fine at h) valid)
    | inr broken ↦ absurd (ground arith)
  ]

  -- A replay is the reading of the mission's rows and their check.
  replay_events-inversion :
      (rows : List Row) (m : MissionId) (es : List (EventEnvelope j))
      → IsLog rows
      → replay_events j codec rows m ≡ ok es
      → (read_each j codec (of_mission m rows) ≡ ok es) × (check_each j codec m es ≡ ok tt)
  unfolding replay_events
  replay_events-inversion rows m es v h =
      let sorted = order_by_sequence-IsNumbered 1 (of_mission m rows) (v.numbered m) in
      elim (Result-cases (read_each j codec (of_mission m rows))) [
        | inl (fs, read) ↦ ground (arith, sorted)
        | inr (z, failed) ↦ absurd (ground (arith, sorted))
      ]

  replay_events-ok :
      (rows : List Row) (m : MissionId) (es : List (EventEnvelope j))
      → IsNumbered 1 (of_mission m rows)
      → read_each j codec (of_mission m rows) ≡ ok es
      → check_each j codec m es ≡ ok tt
      → replay_events j codec rows m ≡ ok es
  unfolding replay_events
  replay_events-ok rows m es v read checked =
      rw (order_by_sequence-IsNumbered 1 (of_mission m rows) v, read, checked) refl

  -- The event of a stored payload and the evidence beside it, as replay builds it: what the table has no
  -- column for is as in a new event.
  abbrev pub restored : EventEnvelope j → j.Value → Option j.Value → EventEnvelope j
  restored e payload evidence =
      record (new j e.event_id e.mission_id e.route_id e.sequence (visit_str (as_str e.kind))
        payload) {
          schema_version = e.schema_version;
          occurred_at = e.occurred_at;
          hash_of_payload = payload_hash j payload;
          raw_evidence = evidence;
        }

  restored-valid :
      (e : EventEnvelope j) (payload : j.Value) (evidence : Option j.Value)
      → has_valid_payload_hash j (restored e payload evidence) ≡ true
  unfolding has_valid_payload_hash new
  restored-valid e payload evidence =
      (str_eq_iff (payload_hash j payload) (payload_hash j payload)).1 refl

  stored-inversion :
      (v : j.Value) (kept : j.Value × String)
      → stored j codec v ≡ ok kept
      → (codec.redact_event v ≡ some kept.0) × (codec.to_text kept.0 ≡ ok kept.1)
  unfolding stored
  stored-inversion v kept h = elim (Option-cases (codec.redact_event v)) [
    | inl over ↦ absurd (ground arith)
    | inr (w, redacted) ↦ elim (Result-cases (codec.to_text w)) [
      | inl (text, written) ↦
          let shape : (w, text) ≡ kept = ground arith in
          (redacted ∙ ap (λ k. some k.0) shape, rw⁻¹ shape written)
      | inr (z, failed) ↦ absurd (ground arith)
    ]
  ]

  abbrev pub wrap : Option j.Value → Option (Option j.Value)
  wrap none = none
  wrap (some w) = some (some w)

  -- The redaction of a value that may be missing.
  abbrev pub redact_option : Option j.Value → Option (Option j.Value)
  redact_option none = some none
  redact_option (some v) = wrap (codec.redact_event v)

  module _
      (reads_back : (v : j.Value) (text : String)
        → codec.to_text v ≡ ok text
        → codec.from_text text ≡ ok v) where
    read-stored_evidence :
        (v : Option j.Value) (text : Option String)
        → stored_evidence j codec v ≡ ok text
        → (w : Option j.Value) × (redact_option v ≡ some w) × (read_evidence j codec text ≡ ok w)
    unfolding stored_evidence read_evidence
    read-stored_evidence none text h =
        let shape : none ≡ text = ground arith in (none, refl, rw⁻¹ shape refl)
    read-stored_evidence (some v) text h = elim (Result-cases (stored j codec v)) [
      | inl (kept, s) ↦
          let (redacted, written) = stored-inversion v kept s in
          let shape : some kept.1 ≡ text = ground arith in
          let back = reads_back kept.0 kept.1 written in
          (some kept.0, ap wrap redacted, rw⁻¹ shape (rw back refl))
      | inr (z, failed) ↦ absurd (ground arith)
    ]

    read-prepare :
        (e : EventEnvelope j) (r : Row)
        → prepare j codec e ≡ ok r
        → parse_timestamp e.occurred_at ≡ ok e.occurred_at
        → (payload : j.Value) × (evidence : Option j.Value) × (codec.redact_event e.payload
            ≡ some payload)
          × (redact_option e.raw_evidence ≡ some evidence)
          × (read_row j codec r ≡ ok (restored e payload evidence))
          × (r.mission_id ≡ e.mission_id)
          × (r.event_id ≡ e.event_id)
    unfolding prepare read_row
    read-prepare e r h stamp = elim (Result-cases (stored j codec e.payload)) [
      | inl (kept, s) ↦ elim (Result-cases (stored_evidence j codec e.raw_evidence)) [
        | inl (text, t) ↦
            let (redacted, written) = stored-inversion e.payload kept s in
            let (evidence, cleaned, back) = read-stored_evidence e.raw_evidence text t in
            let payload_back = reads_back kept.0 kept.1 written in
            let shape : record {
              mission_id = e.mission_id;
              route_id = e.route_id;
              sequence = e.sequence;
              event_id = e.event_id;
              schema_version = e.schema_version;
              kind = as_str e.kind;
              occurred_at = e.occurred_at;
              payload = kept.1;
              raw_evidence = text;
              payload_hash = payload_hash j kept.0;
            }
                ≡ r =
              ground arith in
            (
              kept.0,
              evidence,
              redacted,
              cleaned,
              rw⁻¹ shape (rw (payload_back, stamp, back) refl),
              rw⁻¹ shape refl,
              rw⁻¹ shape refl,
            )
        | inr (z, failed) ↦ absurd (ground arith)
      ]
      | inr (z, failed) ↦ absurd (ground arith)
    ]

    read_one :
        (r : Row) (e : EventEnvelope j)
        → read_row j codec r ≡ ok e
        → read_each j codec (r ∷ []) ≡ ok (e ∷ [])
    unfolding read_each
    read_one r e h = rw h refl

    -- On a ledger whose events are numbered and listed once, an event that is new to it and is accepted is
    -- what the replay of its mission gives last, behind the events that it gave before, and no other
    -- mission's replay changes. The event comes back with its payload and its evidence redacted, its kind
    -- read from the kind's name, and its identifiers, number, version and time as they were; its source is
    -- the supervisor, its confidence is observed, and its run, correlation, causation and links are gone.
    -- This is for a JSON library that reads back what it writes, and a time that is a timestamp.
    pub replay-append :
        (faults : Faults) (rows new_rows : List Row) (e : EventEnvelope j)
        (es : List (EventEnvelope j))
        → IsLog rows
        → find_event e.event_id rows ≡ none
        → parse_timestamp e.occurred_at ≡ ok e.occurred_at
        → replay_events j codec rows e.mission_id ≡ ok es
        → append j codec faults rows e ≡ (new_rows, ok tt)
        → ((payload : j.Value) × (evidence : Option j.Value) × (codec.redact_event e.payload
              ≡ some payload)
            × (redact_option e.raw_evidence ≡ some evidence)
            × (replay_events j codec new_rows e.mission_id
                ≡ ok (es ++ restored e payload evidence ∷ [])))
          × ((m : MissionId)
              → m ≢ e.mission_id
              → replay_events j codec new_rows m ≡ replay_events j codec rows m)
    unfolding append
    replay-append faults rows new_rows e es v fresh stamp before h =
        elim (Result-cases (prepare j codec e)) [
          | inl (r, prepared) ↦
              let written = finish-ok rows new_rows (append_row faults rows r) (rw prepared at h) in
              let (payload, evidence, redacted, cleaned, read, mission, id) =
                read-prepare e r prepared stamp in
              let (earlier, checked) = replay_events-inversion rows e.mission_id es v before in
              let grown = append_row-absent faults rows new_rows r (rw id fresh) written in
              let log = Grows-IsLog (append_row-Grows faults rows new_rows r written) v in
              let own = own_rows e.mission_id rows new_rows r mission grown in
              (
                (
                  payload,
                  evidence,
                  redacted,
                  cleaned,
                  replay_events-ok new_rows e.mission_id (es ++ restored e payload evidence ∷ [])
                      (log.numbered e.mission_id)
                      (rw own (
                        read_each-append (of_mission e.mission_id rows) (r ∷ []) es
                          (restored e payload evidence ∷ []) earlier (read_one r _ read)))
                      (check_each-append e.mission_id es (restored e payload evidence) checked
                        (restored-valid e payload evidence)),
                ),
                λ m other.
                    unfold replay_events in
                    rw (other_rows m rows new_rows r (λ same. other (sym same ∙ mission)) grown)
                      refl,
              )
          | inr (z, refused) ↦ absurd (unfold finish in ground arith)
        ]
