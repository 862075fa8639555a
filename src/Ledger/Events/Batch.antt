-- ===== src/Ledger/Events/Batch.antt =====
-- A batch of events against the same events one by one.
use agent_mission_control.Prelude.{
  ◌≡◌, inl, inr, refl, sym, ap, ◌∙◌, Result-cases, List, [], ◌∷◌, Result, ok, err, ◌>>=◌, arith,
}
use agent_mission_control.Domain.Event.{Json, EventEnvelope}
use agent_mission_control.Ledger.Events.{
  LedgerError, Row, Faults, no_faults, execute, Placement, place, present, absent, Outcome, finish,
  write_row, write_each, write_batch, append_row, Codec, prepare, append, prepare_each,
  append_batch,
}
use agent_mission_control.Ledger.Events.Sequence.{finish-ok}

place-no_faults :
    (faults : Faults) (rows : List Row) (r : Row) {p : Placement}
    → place faults rows r ≡ ok p
    → place no_faults rows r ≡ ok p
unfolding place execute
place-no_faults faults rows r {p} h = ground arith

-- What a batch writes for a row, `append` writes too.
write_row-append_row :
    (faults : Faults) (rows new : List Row) (r : Row)
    → write_row faults rows r ≡ ok new
    → append_row no_faults rows r ≡ ok new
unfolding write_row append_row execute
write_row-append_row faults rows new r h = elim (Result-cases (place faults rows r)) [
  | inl (present, e) ↦ ground (arith, place-no_faults faults rows r e)
  | inl (absent, e) ↦ ground (arith, place-no_faults faults rows r e)
  | inr (x, e) ↦ absurd (ground arith)
]

append_row-write_row :
    (rows new : List Row) (r : Row)
    → append_row no_faults rows r ≡ ok new
    → write_row no_faults rows r ≡ ok new
unfolding write_row append_row execute
append_row-write_row rows new r h = elim (Result-cases (place no_faults rows r)) [
  | inl (present, e) ↦ ground arith
  | inl (absent, e) ↦ ground arith
  | inr (x, e) ↦ absurd (ground arith)
]

-- The next call, where the one before succeeded.
unfoldable pub after : Outcome → (List Row → Outcome) → Outcome
after (rows, ok _) next = next rows
after (rows, err x) next = (rows, err x)

finish-kept :
    (rows : List Row) (o : Result (List Row) LedgerError) (x : LedgerError)
    → (finish rows o).1 ≡ err x
    → (finish rows o).0 ≡ rows
unfolding finish
finish-kept rows (ok new) x h = absurd (ground arith)
finish-kept rows (err e) x h = refl

write_batch-each :
    (faults : Faults) (rows new rs : List Row)
    → write_batch faults rows rs ≡ ok new
    → write_each faults rows rs ≡ ok new
unfolding write_batch execute
write_batch-each faults rows new rs h = elim (Result-cases (write_each faults rows rs)) [
  | inl (next, written) ↦ ground arith
  | inr (x, refused) ↦ absurd (ground arith)
]

module _ (j : Json) (codec : Codec j) where
  -- `append` of each event, up to the first that fails.
  unfoldable pub append_each : List Row → List (EventEnvelope j) → Outcome
  unfolding after
  append_each rows [] = (rows, ok tt)
  append_each rows (e ∷ es) = after (append j codec no_faults rows e) (λ next. append_each next es)

  append-ok :
      (rows new : List Row) (e : EventEnvelope j) (r : Row)
      → prepare j codec e ≡ ok r
      → append_row no_faults rows r ≡ ok new
      → append j codec no_faults rows e ≡ (new, ok tt)
  unfolding append finish
  append-ok rows new e r prepared written = rw (prepared, written) refl

  append-inversion :
      (rows new : List Row) (e : EventEnvelope j)
      → append j codec no_faults rows e ≡ (new, ok tt)
      → (r : Row) × (prepare j codec e ≡ ok r) × (append_row no_faults rows r ≡ ok new)
  unfolding append finish
  append-inversion rows new e h = elim (Result-cases (prepare j codec e)) [
    | inl (r, prepared) ↦ (r, prepared, ground arith)
    | inr (x, refused) ↦ absurd (ground arith)
  ]

  prepare_each-inversion :
      (e : EventEnvelope j) (es : List (EventEnvelope j)) (rs : List Row)
      → prepare_each j codec (e ∷ es) ≡ ok rs
      → (r : Row) × (qs : List Row) × (prepare j codec e ≡ ok r)
        × (prepare_each j codec es ≡ ok qs)
        × (rs ≡ r ∷ qs)
  unfolding prepare_each
  prepare_each-inversion e es rs h = elim (Result-cases (prepare j codec e)) [
    | inl (r, one) ↦ elim (Result-cases (prepare_each j codec es)) [
      | inl (qs, rest) ↦ (r, qs, one, rest, ground arith)
      | inr (x, refused) ↦ absurd (ground arith)
    ]
    | inr (x, refused) ↦ absurd (ground arith)
  ]

  write_each-append_each :
      (faults : Faults) (rows new rs : List Row) (es : List (EventEnvelope j))
      → prepare_each j codec es ≡ ok rs
      → write_each faults rows rs ≡ ok new
      → append_each rows es ≡ (new, ok tt)
  unfolding append_each write_each
  write_each-append_each faults rows new rs [] prepared written =
      let none_left : [] ≡ rs = unfold prepare_each in ground arith in
      let same : rows ≡ new = ground arith in rw same refl
  write_each-append_each faults rows new rs (e ∷ es) prepared written =
      let (r, qs, one, rest, shape) = prepare_each-inversion e es rs prepared in
      let written' : write_each faults rows (r ∷ qs) ≡ ok new =
        ap (write_each faults rows) (sym shape) ∙ written in
      elim (Result-cases (write_row faults rows r)) [
        | inl (next, w) ↦
            ap (λ o. after o (λ n. append_each n es))
              (append-ok rows next e r one (write_row-append_row faults rows next r w))
            ∙ write_each-append_each faults next new qs es rest (rw w at written')
        | inr (x, w) ↦ absurd (ground arith)
      ]

  append_each-prepared :
      (rows new : List Row) (es : List (EventEnvelope j))
      → append_each rows es ≡ (new, ok tt)
      → (rs : List Row) × (prepare_each j codec es ≡ ok rs)
        × (write_each no_faults rows rs ≡ ok new)
  unfolding append_each write_each prepare_each after
  append_each-prepared rows new [] h = ([], refl, ground arith)
  append_each-prepared rows new (e ∷ es) h =
      elim (Result-cases (append j codec no_faults rows e).1) [
        | inl (u, accepted) ↦
            let next = (append j codec no_faults rows e).0 in
            let shape : append j codec no_faults rows e ≡ (next, ok tt) =
              ap (λ o. (next, o)) accepted in
            let (r, one, w) = append-inversion rows next e shape in
            let (rs, rest, written) = append_each-prepared next new es (rw shape at h) in
            (r ∷ rs, rw (one, rest) refl, rw (append_row-write_row rows next r w) written)
        | inr (x, failed) ↦ absurd (
            let shape : append j codec no_faults rows e
                ≡ ((append j codec no_faults rows e).0, err x) =
              ap (λ o. ((append j codec no_faults rows e).0, o)) failed in
            let stopped = ap (λ o. o.1) (rw shape at h) in ground arith)
      ]

  append_batch-each :
      (faults : Faults) (rows new : List Row) (es : List (EventEnvelope j))
      → append_batch j codec faults rows es ≡ (new, ok tt)
      → append_each rows es ≡ (new, ok tt)
  unfolding append_batch
  append_batch-each faults rows new [] h = unfold append_each in h
  append_batch-each faults rows new (e ∷ es) h =
      let whole =
        finish-ok rows new (prepare_each j codec (e ∷ es) >>= λ rs. write_batch faults rows rs) h in
      elim (Result-cases (prepare_each j codec (e ∷ es))) [
        | inl (rs, prepared) ↦
            write_each-append_each faults rows new rs (e ∷ es) prepared
              (write_batch-each faults rows new rs (rw prepared at whole))
        | inr (x, refused) ↦ absurd (ground arith)
      ]

  append_each-batch :
      (rows new : List Row) (es : List (EventEnvelope j))
      → append_each rows es ≡ (new, ok tt)
      → append_batch j codec no_faults rows es ≡ (new, ok tt)
  unfolding append_batch write_batch finish execute
  append_each-batch rows new [] h = unfold append_each in h
  append_each-batch rows new (e ∷ es) h =
      let (rs, prepared, written) = append_each-prepared rows new (e ∷ es) h in
      rw (prepared, written) refl

  append_batch-kept :
      (faults : Faults) (rows : List Row) (es : List (EventEnvelope j)) (x : LedgerError)
      → (append_batch j codec faults rows es).1 ≡ err x
      → (append_batch j codec faults rows es).0 ≡ rows
  unfolding append_batch
  append_batch-kept faults rows [] x h = refl
  append_batch-kept faults rows (e ∷ es) x h =
      finish-kept rows (prepare_each j codec (e ∷ es) >>= λ rs. write_batch faults rows rs) x h

  -- A batch is written as a whole or not at all. Where it succeeds, each of its events alone, in their
  -- order, would have been accepted too and would leave the same rows; where they would be, and the
  -- database fails nothing, the batch succeeds; and where it fails the rows are as they were.
  pub append_batch_lem :
      (faults : Faults) (rows : List Row) (es : List (EventEnvelope j))
      → ((new : List Row)
          → append_batch j codec faults rows es ≡ (new, ok tt)
          → append_each rows es ≡ (new, ok tt))
        × ((new : List Row)
            → append_each rows es ≡ (new, ok tt)
            → append_batch j codec no_faults rows es ≡ (new, ok tt))
        × ((x : LedgerError)
            → (append_batch j codec faults rows es).1 ≡ err x
            → (append_batch j codec faults rows es).0 ≡ rows)
  append_batch_lem faults rows es = (
    λ new h. append_batch-each faults rows new es h,
    λ new h. append_each-batch rows new es h,
    λ x h. append_batch-kept faults rows es x h,
  )
