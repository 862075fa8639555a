-- ===== src/Ledger/Events/Retry.antt =====
-- An event that is sent to the ledger again.
use agent_mission_control.Prelude.{
  ◌≡◌, inl, inr, refl, sym, ap, ◌∙◌, true, Result-cases, Option-cases, Option, none, some, List, [],
  ◌∷◌, ◌++◌, String, ok, ==_refl, arith,
}
use agent_mission_control.Prelude.Text.{str_eq, str_eq_iff}
use agent_mission_control.Domain.Event.{Json, EventEnvelope}
use agent_mission_control.Ledger.Events.{
  Row, Faults, no_faults, execute, find_event, same_event, same_text, place, present, absent,
  finish, append_row, Codec, prepare, append,
}
use agent_mission_control.Ledger.Events.Sequence.{find_event-append, place-absent, finish-ok}

str_eq_refl : (s : String) → str_eq s s ≡ true
str_eq_refl s = (str_eq_iff s s).1 refl

same_text_refl : (o : Option String) → same_text o o ≡ true
same_text_refl none = refl
same_text_refl (some s) = str_eq_refl s

same_event_refl : (r : Row) → same_event r r ≡ true
unfolding same_event
same_event_refl r = ground (
  arith,
  ==_refl r.mission_id,
  ==_refl r.sequence,
  ==_refl r.schema_version,
  ==_refl r.route_id,
  str_eq_refl r.payload_hash,
  same_text_refl r.raw_evidence,
  str_eq_refl r.kind,
  str_eq_refl r.occurred_at,
)

-- The table has the event of the row, as it was sent.
abbrev Holds : List Row → Row → Type 0
Holds rows r = (x : Row) × (find_event r.event_id rows ≡ some x) × (same_event x r ≡ true)

place-present :
    (faults : Faults) (rows : List Row) (r : Row) → place faults rows r ≡ ok present → Holds rows r
unfolding place execute
place-present faults rows r h = elim (Option-cases (find_event r.event_id rows)) [
  | inl none_there ↦ absurd (ground arith)
  | inr (x, there) ↦ (x, there, ground arith)
]

append_row-Holds :
    (faults : Faults) (rows new : List Row) (r : Row)
    → append_row faults rows r ≡ ok new
    → Holds new r
unfolding append_row execute
append_row-Holds faults rows new r h = elim (Result-cases (place faults rows r)) [
  | inl (present, e) ↦
      let (x, there, same) = place-present faults rows r e in
      let kept : rows ≡ new = ground arith in
      (x, ap (find_event r.event_id) (sym kept) ∙ there, same)
  | inl (absent, e) ↦
      let (fresh, next) = place-absent faults rows r e in
      let grown : rows ++ r ∷ [] ≡ new = ground arith in
      (
        r,
        ap (find_event r.event_id) (sym grown)
            ∙ find_event-append r.event_id rows (r ∷ []) fresh
            ∙ (unfold find_event in ground (arith, ==_refl r.event_id)),
        same_event_refl r,
      )
  | inr (x, e) ↦ absurd (ground arith)
]

-- A row that is there is not written again.
append_row-kept :
    (faults : Faults) (rows : List Row) (r : Row)
    → Holds rows r
    → (finish rows (append_row faults rows r)).0 ≡ rows
unfolding append_row place execute finish
append_row-kept faults rows r (x, there, same) = ground arith

append_row-ok : (rows : List Row) (r : Row) → Holds rows r → append_row no_faults rows r ≡ ok rows
unfolding append_row place execute
append_row-ok rows r (x, there, same) = rw (there, same) refl

module _ (j : Json) (codec : Codec j) where
  -- An event that the ledger has accepted may be sent again: the rows stay as they are, whatever the
  -- database fails, and where it fails nothing the answer is success again.
  pub append_retry :
      (faults later : Faults) (rows new : List Row) (e : EventEnvelope j)
      → append j codec faults rows e ≡ (new, ok tt)
      → ((append j codec later new e).0 ≡ new) × (append j codec no_faults new e ≡ (new, ok tt))
  unfolding append
  append_retry faults later rows new e h = elim (Result-cases (prepare j codec e)) [
    | inl (r, prepared) ↦
        let written = finish-ok rows new (append_row faults rows r) (rw prepared at h) in
        let there = append_row-Holds faults rows new r written in
        rw prepared (
          append_row-kept later new r there,
          ap (finish new) (append_row-ok new r there) ∙ (unfold finish in refl),
        )
    | inr (x, refused) ↦ absurd (unfold finish in ground arith)
  ]
