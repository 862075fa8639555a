-- ===== src/Domain/ReadModel/Replay.antt =====
-- How replay reports the events that are missing.
use agent_mission_control.Prelude.{
  ℕ, ◌-◌, ◌≤◌, ◌<◌, ◌≡◌, ◌⊎◌, inl, inr, refl, sym, ap, ◌∙◌, Bool, true, not, ◌&&◌, ◌||◌, List, [],
  ◌∷◌, ◌++◌, String, Result, ok, ltb, leb, any, All, All-append, is_empty, Bool-cases, Result-cases,
  arith,
}
use mathlib.Core.Path.{subst}
use agent_mission_control.Prelude.Word.{saturating_add}
use agent_mission_control.Domain.Evidence.{EvidenceEntry}
use agent_mission_control.Domain.Event.{Json, EventEnvelope}
use agent_mission_control.Domain.ReadModel.{
  SequenceRange, ReadModel, contains, reduce, sort_by_sequence, Progress, start, note_gap,
  replay_one, replay_each, replay,
}
use agent_mission_control.Domain.ReadModel.Reduce.{reduce-keeps}
use agent_mission_control.Domain.ReadModel.Sequences.{has_sequence, has_sequence-sort_by_sequence}

-- A sequence number is reported missing.
abbrev pub reported : ℕ → List SequenceRange → Bool
reported n ranges = any (λ r. leb r.start n && leb n r.end) ranges

pub reported-append :
    (n : ℕ) (xs ys : List SequenceRange) → reported n (xs ++ ys) ≡ (reported n xs || reported n ys)
reported-append n [] ys = refl
reported-append n (r ∷ xs) ys = ground (arith, reported-append n xs ys)

-- The flag says whether a gap is reported, and a reported gap is not empty.
pub record IsHonest (m : ReadModel) : Type 0 where
  pub flagged : m.incomplete ≡ not (is_empty m.missing_sequences)
  pub proper : All (λ r. (1 ≤ r.start) × (r.start ≤ r.end)) m.missing_sequences

not-is_empty-append :
    (xs : List SequenceRange) (r : SequenceRange) → true ≡ not (is_empty (xs ++ r ∷ []))
not-is_empty-append [] r = refl
not-is_empty-append (x ∷ xs) r = refl

module _ (j : Json) (decode_entry : j.Value → Result EvidenceEntry String) where
  note_gap-IsHonest :
      (m : ReadModel) (expected sequence : ℕ)
      → 1 ≤ expected
      → IsHonest m
      → IsHonest (note_gap j decode_entry m expected sequence)
  unfolding note_gap
  note_gap-IsHonest m expected sequence p v = elim (Bool-cases (ltb expected sequence)) [
    | inl gap ↦ rw gap (record {
      flagged = not-is_empty-append m.missing_sequences _;
      proper =
          All-append (λ r. (1 ≤ r.start) × (r.start ≤ r.end)) m.missing_sequences _ v.proper
            ((p, ground arith), tt);
    })
    | inr none_missing ↦ rw none_missing v
  ]

  -- The loop has accounted for every sequence number below the next one that it expects.
  abbrev Accounts : Progress j decode_entry → Type 0
  Accounts p =
      (n : ℕ)
      → 1 ≤ n
      → n < p.expected_sequence
      → (contains p.seen_sequences n || reported n p.model.missing_sequences) ≡ true

  pub record IsSound (p : Progress j decode_entry) : Type 0 where
    pub positive : 1 ≤ p.expected_sequence
    pub honest : IsHonest p.model
    pub accounts : Accounts p

  account :
      (m : ReadModel) (expected sequence n : ℕ) (seen : List ℕ)
      → (n < expected → (contains seen n || reported n m.missing_sequences) ≡ true)
      → n < saturating_add sequence 1
      → (contains (sequence ∷ seen) n
          || reported n (note_gap j decode_entry m expected sequence).missing_sequences)
        ≡ true
  unfolding note_gap contains saturating_add
  account m expected sequence n seen before h = elim (Bool-cases (ltb expected sequence)) [
    | inl gap ↦ rw gap (
        rw
          (reported-append n m.missing_sequences
            (record { start = expected; end = sequence - 1 } ∷ []))
          (ground arith))
    | inr none_missing ↦ rw none_missing (ground arith)
  ]

  -- An event is skipped, as one that was applied before, or is reduced behind its gap.
  pub replay_one-cases :
      (p q : Progress j decode_entry) (e : EventEnvelope j)
      → replay_one j decode_entry p e ≡ ok q
      → ((contains p.model.applied_event_ids e.event_id ≡ true)
          × (q ≡ record p { seen_sequences = e.sequence ∷ p.seen_sequences }))
        ⊎ ((m : ReadModel) × (reduce j decode_entry
                (note_gap j decode_entry p.model p.expected_sequence e.sequence)
                e
              ≡ ok m)
            × (q ≡ record {
              model = m;
              expected_sequence = saturating_add e.sequence 1;
              seen_sequences = e.sequence ∷ p.seen_sequences;
            }))
  unfolding replay_one
  replay_one-cases p q e h =
      elim (Result-cases (
        reduce j decode_entry (note_gap j decode_entry p.model p.expected_sequence e.sequence) e)) [
          | inl (m, r) ↦ elim (Bool-cases (contains p.model.applied_event_ids e.event_id)) [
            | inl old ↦ inl (ground arith)
            | inr fresh ↦ inr (m, r, ground arith)
          ]
          | inr (x, r) ↦ inl (ground arith)
        ]

  replay_one-IsSound :
      (p q : Progress j decode_entry) (e : EventEnvelope j)
      → replay_one j decode_entry p e ≡ ok q
      → IsSound p
      → IsSound q
  replay_one-IsSound p q e h v = elim (replay_one-cases p q e h) [
    | inl (old, skipped) ↦ subst IsSound (sym skipped) (record {
      positive = v.positive;
      honest = v.honest;
      accounts = λ n a b. unfold contains in ground (arith, v.accounts n a b);
    })
    | inr (m, r, taken) ↦
        let gapped = note_gap j decode_entry p.model p.expected_sequence e.sequence in
        let (hash, mission, applied, flag, gaps) = reduce-keeps j decode_entry gapped m e r in
        let honest = note_gap-IsHonest p.model p.expected_sequence e.sequence v.positive v.honest in
        subst IsSound (sym taken) (record {
          positive = unfold saturating_add in omega arith;
          honest = record {
            flagged = flag ∙ honest.flagged ∙ ap (λ l. not (is_empty l)) (sym gaps);
            proper = rw gaps honest.proper;
          };
          accounts = λ n a b. rw gaps (
              account p.model p.expected_sequence e.sequence n p.seen_sequences (v.accounts n a) b);
        })
  ]

  replay_each-IsSound :
      (p q : Progress j decode_entry) (es : List (EventEnvelope j))
      → replay_each j decode_entry p es ≡ ok q
      → IsSound p
      → IsSound q
  unfolding replay_each
  replay_each-IsSound p q [] h v = let e : p ≡ q = cc in subst IsSound e v
  replay_each-IsSound p q (e ∷ es) h v = elim (Result-cases (replay_one j decode_entry p e)) [
    | inl (r, one) ↦ replay_each-IsSound r q es (rw one at h) (replay_one-IsSound p r e one v)
    | inr (x, failed) ↦ absurd (ground arith)
  ]

  start-IsSound : IsSound (start j decode_entry)
  unfolding contains
  start-IsSound = record {
    positive = omega arith;
    honest = record { flagged = refl; proper = tt };
    accounts = λ n a b. absurd (omega arith);
  }

  replay_one-seen :
      (p q : Progress j decode_entry) (e : EventEnvelope j)
      → replay_one j decode_entry p e ≡ ok q
      → q.seen_sequences ≡ e.sequence ∷ p.seen_sequences
  replay_one-seen p q e h = elim (replay_one-cases p q e h) [
    | inl (old, skipped) ↦ rw skipped refl
    | inr (m, r, taken) ↦ rw taken refl
  ]

  pub replay_each-seen :
      (p q : Progress j decode_entry) (es : List (EventEnvelope j)) (n : ℕ)
      → replay_each j decode_entry p es ≡ ok q
      → contains q.seen_sequences n
        ≡ (has_sequence j decode_entry es n || contains p.seen_sequences n)
  unfolding replay_each contains
  replay_each-seen p q [] n h = let e : p ≡ q = cc in rw e refl
  replay_each-seen p q (e ∷ es) n h = elim (Result-cases (replay_one j decode_entry p e)) [
    | inl (r, one) ↦
        rw (replay_each-seen r q es n (rw one at h), replay_one-seen p r e one) (ground arith)
    | inr (x, failed) ↦ absurd (ground arith)
  ]

  -- Where replay gives a model, the loop has run to its end on the sorted events, and every sequence
  -- number from 1 on that lies below the next one it expects is the number of an event or is reported
  -- missing. The model says that it is incomplete exactly when it reports a gap, and a reported gap is
  -- not empty.
  pub replay_accounts :
      (es : List (EventEnvelope j)) (m : ReadModel)
      → replay j decode_entry es ≡ ok m
      → (p : Progress j decode_entry) × (replay_each j decode_entry
            (start j decode_entry)
            (sort_by_sequence j decode_entry es)
          ≡ ok p)
        × (p.model ≡ m)
        × IsHonest m
        × ((n : ℕ)
            → 1 ≤ n
            → n < p.expected_sequence
            → (has_sequence j decode_entry es n || reported n m.missing_sequences) ≡ true)
  unfolding replay
  replay_accounts es m h =
      let sorted = sort_by_sequence j decode_entry es in
      elim (Result-cases (replay_each j decode_entry (start j decode_entry) sorted)) [
        | inl (p, run) ↦
            let e : p.model ≡ m = ground arith in
            let sound = replay_each-IsSound _ p sorted run start-IsSound in
            (
              p,
              run,
              e,
              subst IsHonest e sound.honest,
              λ n a b.
                  rw (sym e, sym (has_sequence-sort_by_sequence j decode_entry es n))
                    (unfold contains in
                      ground (arith, replay_each-seen _ p sorted n run, sound.accounts n a b)),
            )
        | inr (x, failed) ↦ absurd (ground arith)
      ]
