-- ===== src/Ledger/Events/Sequence.antt =====
-- The invariant of the table: each mission's events are numbered from 1 on without a gap, and no event
-- is listed twice.
use agent_mission_control.Prelude.{
  ℕ, zero, suc, ◌+◌, ◌==◌, ◌≡◌, inl, inr, refl, ap, true, Bool-cases, Result-cases, none, some,
  List, [], ◌∷◌, ◌++◌, Result, ok, err, ◌>>=◌, length, arith,
}
use mathlib.Core.Path.{subst}
use mathlib.Core.List.{append-nil}
use agent_mission_control.Domain.Ids.{EventId, MissionId}
use agent_mission_control.Domain.Event.{Json, EventEnvelope}
use agent_mission_control.Ledger.Events.{
  LedgerError, Row, Faults, execute, of_mission, largest, last_sequence, find_event, follows, place,
  present, absent, finish, write_row, write_each, append_row, Codec, prepare, append, prepare_each,
  write_batch, append_batch,
}

abbrev pub IsNumbered : ℕ → List Row → Type 0
IsNumbered n [] = Unit {0}
IsNumbered n (r ∷ rs) = (r.sequence ≡ n) × IsNumbered (suc n) rs

abbrev pub IsUnique : List Row → Type 0
IsUnique [] = Unit {0}
IsUnique (r ∷ rs) = (find_event r.event_id rs ≡ none) × IsUnique rs

pub record IsLog (rows : List Row) : Type 0 where
  pub numbered : (m : MissionId) → IsNumbered 1 (of_mission m rows)
  pub unique : IsUnique rows

pub of_mission-append :
    (m : MissionId) (xs ys : List Row)
    → of_mission m (xs ++ ys) ≡ of_mission m xs ++ of_mission m ys
unfolding of_mission
of_mission-append m [] ys = refl
of_mission-append m (x ∷ xs) ys = ground (arith, of_mission-append m xs ys)

-- The largest number of a numbered list is its last.
largest-IsNumbered :
    (n : ℕ) (rs : List Row)
    → IsNumbered n rs
    → largest rs ≡ elim (length rs) [ zero ↦ none | suc k ↦ some (n + k) ]
unfolding largest
largest-IsNumbered n [] h = refl
largest-IsNumbered n (r ∷ []) h = ground arith
largest-IsNumbered n (r ∷ x ∷ rs) h = rw (largest-IsNumbered (suc n) (x ∷ rs) h.1) (ground arith)

append-IsNumbered :
    (n : ℕ) (rs : List Row) (r : Row)
    → IsNumbered n rs
    → r.sequence ≡ n + length rs
    → IsNumbered n (rs ++ r ∷ [])
append-IsNumbered n [] r h e = (omega arith, tt)
append-IsNumbered n (x ∷ rs) r h e = (h.0, append-IsNumbered (suc n) rs r h.1 (omega arith))

-- The check on the number admits the next one alone.
follows-eq :
    (rs : List Row) (sequence : ℕ)
    → IsNumbered 1 rs
    → follows (largest rs) sequence ≡ true
    → sequence ≡ 1 + length rs
unfolding follows
follows-eq [] sequence v h = unfold largest in ground arith
follows-eq (x ∷ rs) sequence v h = let e = largest-IsNumbered 1 (x ∷ rs) v in ground arith

pub find_event-append :
    (id : EventId) (xs ys : List Row)
    → find_event id xs ≡ none
    → find_event id (xs ++ ys) ≡ find_event id ys
unfolding find_event
find_event-append id [] ys h = refl
find_event-append id (x ∷ xs) ys h = ground (arith, find_event-append id xs ys)

append-IsUnique :
    (rs : List Row) (r : Row)
    → IsUnique rs
    → find_event r.event_id rs ≡ none
    → IsUnique (rs ++ r ∷ [])
unfolding find_event
append-IsUnique [] r v h = (refl, tt)
append-IsUnique (x ∷ rs) r v h = (
  ground (arith, find_event-append x.event_id rs (r ∷ []) v.0),
  append-IsUnique rs r v.1 (ground arith),
)

-- How the transactions change the rows: each row that is added is new and follows its mission's last.
pub data Grows : List Row → List Row → Type 0 where
  stays : {rows : List Row} → Grows rows rows
  gains :
      {rows new : List Row} (r : Row)
      → find_event r.event_id rows ≡ none
      → follows (last_sequence r.mission_id rows) r.sequence ≡ true
      → Grows (rows ++ r ∷ []) new
      → Grows rows new

Grows-trans : {a b c : List Row} → Grows a b → Grows b c → Grows a c
Grows-trans stays h = h
Grows-trans (gains r fresh next g) h = gains r fresh next (Grows-trans g h)

row-IsLog :
    (rows : List Row) (r : Row)
    → find_event r.event_id rows ≡ none
    → follows (last_sequence r.mission_id rows) r.sequence ≡ true
    → IsLog rows
    → IsLog (rows ++ r ∷ [])
unfolding of_mission last_sequence
row-IsLog rows r fresh next v = record {
  numbered = λ m. rw (of_mission-append m rows (r ∷ [])) (numbered_on m);
  unique = append-IsUnique rows r v.unique fresh;
}
  where
    numbered_on : (m : MissionId) → IsNumbered 1 (of_mission m rows ++ of_mission m (r ∷ []))
    numbered_on m = elim (Bool-cases (r.mission_id == m)) [
      | inl own ↦
          let same : r.mission_id ≡ m = ground (arith) in
          rw own (
            append-IsNumbered 1 (of_mission m rows) r (v.numbered m) (
              follows-eq (of_mission m rows) r.sequence (v.numbered m)
                (subst (λ k. follows (last_sequence k rows) r.sequence ≡ true) same next)))
      | inr other ↦ rw (other, append-nil (of_mission m rows)) (v.numbered m)
    ]

pub Grows-IsLog : {rows new : List Row} → Grows rows new → IsLog rows → IsLog new
Grows-IsLog stays v = v
Grows-IsLog (gains {rows} r fresh next g) v = Grows-IsLog g (row-IsLog rows r fresh next v)

pub place-absent :
    (faults : Faults) (rows : List Row) (r : Row)
    → place faults rows r ≡ ok absent
    → (find_event r.event_id rows ≡ none)
      × (follows (last_sequence r.mission_id rows) r.sequence ≡ true)
unfolding place execute
place-absent faults rows r h = ground arith

write_row-Grows :
    (faults : Faults) (rows new : List Row) (r : Row)
    → write_row faults rows r ≡ ok new
    → Grows rows new
unfolding write_row execute
write_row-Grows faults rows new r h = elim (Result-cases (place faults rows r)) [
  | inl (present, e) ↦ (let e' : rows ≡ new = ground arith in subst (Grows rows) e' stays)
  | inl (absent, e) ↦
      let (fresh, next) = place-absent faults rows r e in
      let e' : rows ++ r ∷ [] ≡ new = ground arith in
      gains r fresh next (subst (Grows (rows ++ r ∷ [])) e' stays)
  | inr (x, e) ↦ absurd (ground arith)
]

pub write_each-Grows :
    (faults : Faults) (rows new rs : List Row) → write_each faults rows rs ≡ ok new → Grows rows new
unfolding write_each
write_each-Grows faults rows new [] h =
    let e : rows ≡ new = ground arith in subst (Grows rows) e stays
write_each-Grows faults rows new (r ∷ rs) h = elim (Result-cases (write_row faults rows r)) [
  | inl (next, one) ↦
      Grows-trans (write_row-Grows faults rows next r one)
        (write_each-Grows faults next new rs (rw one at h))
  | inr (x, failed) ↦ absurd (ground arith)
]

pub append_row-Grows :
    (faults : Faults) (rows new : List Row) (r : Row)
    → append_row faults rows r ≡ ok new
    → Grows rows new
unfolding append_row execute
append_row-Grows faults rows new r h = elim (Result-cases (place faults rows r)) [
  | inl (present, e) ↦ let e' : rows ≡ new = ground arith in subst (Grows rows) e' stays
  | inl (absent, e) ↦
      let (fresh, next) = place-absent faults rows r e in
      let e' : rows ++ r ∷ [] ≡ new = ground arith in
      gains r fresh next (subst (Grows (rows ++ r ∷ [])) e' stays)
  | inr (x, e) ↦ absurd (ground arith)
]

write_batch-Grows :
    (faults : Faults) (rows new rs : List Row)
    → write_batch faults rows rs ≡ ok new
    → Grows rows new
unfolding write_batch execute
write_batch-Grows faults rows new rs h = elim (Result-cases (write_each faults rows rs)) [
  | inl (next, written) ↦ write_each-Grows faults rows new rs (ground arith)
  | inr (x, refused) ↦ absurd (ground arith)
]

finish-Grows :
    (rows : List Row) (o : Result (List Row) LedgerError)
    → ((new : List Row) → o ≡ ok new → Grows rows new)
    → Grows rows (finish rows o).0
unfolding finish
finish-Grows rows (ok new) h = h new refl
finish-Grows rows (err e) h = stays

pub finish-ok :
    (rows new : List Row) (o : Result (List Row) LedgerError)
    → finish rows o ≡ (new, ok tt)
    → o ≡ ok new
unfolding finish
finish-ok rows new (ok x) h = ap (λ p. ok p.0) h
finish-ok rows new (err x) h = let stopped = ap (λ p. p.1) h in absurd (ground arith)

module _ (j : Json) (codec : Codec j) where
  append-Grows :
      (faults : Faults) (rows : List Row) (e : EventEnvelope j)
      → Grows rows (append j codec faults rows e).0
  unfolding append
  append-Grows faults rows e =
      finish-Grows rows (prepare j codec e >>= λ r. append_row faults rows r) (λ new h.
        elim (Result-cases (prepare j codec e)) [
          | inl (r, prepared) ↦ append_row-Grows faults rows new r (rw prepared at h)
          | inr (x, refused) ↦ absurd (ground arith)
        ])

  append_batch-Grows :
      (faults : Faults) (rows : List Row) (es : List (EventEnvelope j))
      → Grows rows (append_batch j codec faults rows es).0
  unfolding append_batch
  append_batch-Grows faults rows [] = stays
  append_batch-Grows faults rows (e ∷ es) =
      finish-Grows rows
        (prepare_each j codec (e ∷ es) >>= λ prepared. write_batch faults rows prepared)
        (λ new h. elim (Result-cases (prepare_each j codec (e ∷ es))) [
          | inl (rs, prepared) ↦ write_batch-Grows faults rows new rs (rw prepared at h)
          | inr (x, refused) ↦ absurd (ground arith)
        ])

  -- A call of the ledger with what the database fails in it.
  pub data Call : Type 0 where
    appends : Faults → EventEnvelope j → Call
    appends_batch : Faults → List (EventEnvelope j) → Call

  unfoldable pub perform : List Row → Call → List Row
  perform rows (appends faults e) = (append j codec faults rows e).0
  perform rows (appends_batch faults es) = (append_batch j codec faults rows es).0

  unfoldable pub run : List Row → List Call → List Row
  unfolding perform
  run rows [] = rows
  run rows (c ∷ cs) = run (perform rows c) cs

  perform-Grows : (rows : List Row) (c : Call) → Grows rows (perform rows c)
  unfolding perform
  perform-Grows rows (appends faults e) = append-Grows faults rows e
  perform-Grows rows (appends_batch faults es) = append_batch-Grows faults rows es

  pub run-Grows : (rows : List Row) (cs : List Call) → Grows rows (run rows cs)
  unfolding run
  run-Grows rows [] = stays
  run-Grows rows (c ∷ cs) = Grows-trans (perform-Grows rows c) (run-Grows (perform rows c) cs)

  -- Whatever is appended to an empty ledger, alone or in batches, and whatever the database fails, the
  -- events of each mission are numbered from 1 on without a gap and no event is listed twice.
  pub run-empty-IsLog : (cs : List Call) → IsLog (run [] cs)
  run-empty-IsLog cs =
      Grows-IsLog (run-Grows [] cs)
        (unfold of_mission in (record { numbered = λ m. tt; unique = tt }))
