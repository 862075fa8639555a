-- ===== src/Domain/ReadModel/Live.antt =====
-- The model that grows by one `reduce` for each event, against the model that `replay` gives.
use agent_mission_control.Prelude.{
  ℕ, some, ◌≤◌, ◌≡◌, refl, sym, ap, ◌∙◌, inl, inr, true, false, List, [], ◌∷◌, String, Result, ok,
  err, All, leb, Result-cases, ◌>>=◌, arith,
}
use agent_mission_control.Domain.Evidence.{EvidenceEntry}
use agent_mission_control.Domain.Event.{Json, EventKind, EventEnvelope}
use agent_mission_control.Domain.ReadModel.{
  ReadModel, ProjectionError, contains, reduce_kind, reduce, insert_sorted, sort_by_sequence,
  Progress, note_gap, replay_one, replay_each,
}
use agent_mission_control.Domain.ReadModel.Replay.{replay_one-cases}

-- A model without its report of gaps.
unfoldable pub forget_gaps : ReadModel → ReadModel
forget_gaps m = record m { incomplete = false; missing_sequences = [] }

abbrev map_ok : Result ReadModel ProjectionError → Result ReadModel ProjectionError
map_ok (ok m) = ok (forget_gaps m)
map_ok (err x) = err x

module _ (j : Json) (decode_entry : j.Value → Result EvidenceEntry String) where
  unfoldable pub reduce_each : ReadModel → List (EventEnvelope j) → Result ReadModel ProjectionError
  reduce_each m [] = ok m
  reduce_each m (e ∷ es) = do next ← reduce j decode_entry m e; reduce_each next es

  abbrev pub IsAscending : List (EventEnvelope j) → Type 0
  IsAscending [] = Unit {0}
  IsAscending (e ∷ es) = All (λ x. e.sequence ≤ x.sequence) es × IsAscending es

  insert_sorted-ascending :
      (e : EventEnvelope j) (es : List (EventEnvelope j))
      → All (λ x. e.sequence ≤ x.sequence) es
      → insert_sorted j decode_entry e es ≡ e ∷ es
  unfolding insert_sorted
  insert_sorted-ascending e [] h = refl
  insert_sorted-ascending e (x ∷ xs) h =
      let first : leb e.sequence x.sequence ≡ true = ground (arith, h.0) in rw first refl

  pub sort_by_sequence-ascending :
      (es : List (EventEnvelope j)) → IsAscending es → sort_by_sequence j decode_entry es ≡ es
  unfolding sort_by_sequence
  sort_by_sequence-ascending [] h = refl
  sort_by_sequence-ascending (e ∷ es) h =
      rw (sort_by_sequence-ascending es h.1) (insert_sorted-ascending e es h.0)

  reduce_kind-forget_gaps :
      (k : EventKind) (e : EventEnvelope j) (m : ReadModel)
      → reduce_kind j decode_entry k e (forget_gaps m) ≡ map_ok (reduce_kind j decode_entry k e m)
  unfolding reduce_kind forget_gaps
  reduce_kind-forget_gaps EventKind.contract_updated e m = ground arith
  reduce_kind-forget_gaps EventKind.route_state_changed e m = ground arith
  reduce_kind-forget_gaps EventKind.evidence_recorded e m = ground arith
  reduce_kind-forget_gaps _ e m = refl

  reduce-forget_gaps :
      (m : ReadModel) (e : EventEnvelope j)
      → reduce j decode_entry (forget_gaps m) e ≡ map_ok (reduce j decode_entry m e)
  unfolding reduce forget_gaps
  reduce-forget_gaps m e =
      let next = record m {
        mission_id = some e.mission_id;
        applied_event_ids = e.event_id ∷ m.applied_event_ids;
      } in
      ground (arith, reduce_kind-forget_gaps e.kind e next)

  note_gap-forget_gaps :
      (m : ReadModel) (a b : ℕ) → forget_gaps (note_gap j decode_entry m a b) ≡ forget_gaps m
  unfolding note_gap forget_gaps
  note_gap-forget_gaps m a b = ground arith

  -- Reducing alike models by one event gives alike models.
  reduce-alike :
      (m n p q : ReadModel) (e : EventEnvelope j)
      → forget_gaps m ≡ forget_gaps n
      → reduce j decode_entry m e ≡ ok p
      → reduce j decode_entry n e ≡ ok q
      → forget_gaps p ≡ forget_gaps q
  reduce-alike m n p q e same a b = ground (arith, reduce-forget_gaps m e, reduce-forget_gaps n e)

  reduce-applied :
      (m n : ReadModel) (e : EventEnvelope j)
      → reduce j decode_entry m e ≡ ok n
      → contains m.applied_event_ids e.event_id ≡ true
      → n ≡ m
  unfolding reduce
  reduce-applied m n e h old = ground arith

  replay_one-alike :
      (p q : Progress j decode_entry) (m n : ReadModel) (e : EventEnvelope j)
      → forget_gaps p.model ≡ forget_gaps m
      → replay_one j decode_entry p e ≡ ok q
      → reduce j decode_entry m e ≡ ok n
      → forget_gaps q.model ≡ forget_gaps n
  replay_one-alike p q m n e same h r = elim (replay_one-cases j decode_entry p q e h) [
    | inl (old, skipped) ↦
        let applied : p.model.applied_event_ids ≡ m.applied_event_ids =
          unfold forget_gaps in ap (λ x. x.applied_event_ids) same in
        ap (λ x. forget_gaps x.model) skipped
        ∙ same
        ∙ ap forget_gaps (sym (reduce-applied m n e r (rw (sym applied) old)))
    | inr (x, taken, next) ↦
        ap (λ x. forget_gaps x.model) next
        ∙ reduce-alike (note_gap j decode_entry p.model p.expected_sequence e.sequence) m x n e
            (note_gap-forget_gaps p.model p.expected_sequence e.sequence ∙ same) taken r
  ]

  -- Where the loop of replay and the reductions one by one both reach the end, they reach one model, the
  -- report of gaps aside.
  pub replay_each-alike :
      (p q : Progress j decode_entry) (m n : ReadModel) (es : List (EventEnvelope j))
      → forget_gaps p.model ≡ forget_gaps m
      → replay_each j decode_entry p es ≡ ok q
      → reduce_each m es ≡ ok n
      → forget_gaps q.model ≡ forget_gaps n
  unfolding replay_each reduce_each
  replay_each-alike p q m n [] same h r = ground arith
  replay_each-alike p q m n (e ∷ es) same h r =
      elim (Result-cases (replay_one j decode_entry p e)) [
        | inl (s, one) ↦ elim (Result-cases (reduce j decode_entry m e)) [
          | inl (x, red) ↦
              replay_each-alike s q x n es (replay_one-alike p s m x e same one red) (rw one at h)
                (rw red at r)
          | inr (x, red) ↦ absurd (ground arith)
        ]
        | inr (x, one) ↦ absurd (ground arith)
      ]
