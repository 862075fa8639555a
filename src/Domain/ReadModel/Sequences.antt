-- ===== src/Domain/ReadModel/Sequences.antt =====
-- The sequence numbers of the events that are sorted for a replay.
use agent_mission_control.Prelude.{
  ℕ, ◌==◌, ◌≡◌, inl, inr, refl, Bool, ◌||◌, List, [], ◌∷◌, String, Result, leb, any, Bool-cases,
  arith,
}
use agent_mission_control.Domain.Evidence.{EvidenceEntry}
use agent_mission_control.Domain.Event.{Json, EventEnvelope}
use agent_mission_control.Domain.ReadModel.{insert_sorted, sort_by_sequence}

module _ (j : Json) (decode_entry : j.Value → Result EvidenceEntry String) where
  -- Some event of the list has the sequence number.
  abbrev pub has_sequence : List (EventEnvelope j) → ℕ → Bool
  has_sequence es n = any (λ e. e.sequence == n) es

  has_sequence-insert_sorted :
      (e : EventEnvelope j) (es : List (EventEnvelope j)) (n : ℕ)
      → has_sequence (insert_sorted j decode_entry e es) n ≡ (e.sequence == n || has_sequence es n)
  unfolding insert_sorted
  has_sequence-insert_sorted e [] n = refl
  has_sequence-insert_sorted e (x ∷ xs) n = elim (Bool-cases (leb e.sequence x.sequence)) [
    | inl before ↦ rw before refl
    | inr after ↦ rw (after, has_sequence-insert_sorted e xs n) (ground arith)
  ]

  pub has_sequence-sort_by_sequence :
      (es : List (EventEnvelope j)) (n : ℕ)
      → has_sequence (sort_by_sequence j decode_entry es) n ≡ has_sequence es n
  unfolding sort_by_sequence
  has_sequence-sort_by_sequence [] n = refl
  has_sequence-sort_by_sequence (e ∷ es) n =
      rw
        (
          has_sequence-insert_sorted e (sort_by_sequence j decode_entry es) n,
          has_sequence-sort_by_sequence es n,
        )
        refl
