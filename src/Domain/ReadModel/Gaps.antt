-- ===== src/Domain/ReadModel/Gaps.antt =====
-- The gaps that replay reports are exactly the numbers that no event has.
use agent_mission_control.Prelude.{
  ℕ, ◌-◌, ◌==◌, ◌≤◌, ◌<◌, ◌≡◌, inl, inr, refl, sym, ap, ◌∙◌, true, false, not, ◌&&◌, ◌||◌, List, [],
  ◌∷◌, String, Result, ok, ltb, leb, All, Bool-cases, Result-cases, arith,
}
use mathlib.Core.Path.{subst}
use agent_mission_control.Prelude.Word.{u64_max, saturating_add}
use agent_mission_control.Domain.Evidence.{EvidenceEntry}
use agent_mission_control.Domain.Event.{Json, EventEnvelope}
use agent_mission_control.Domain.ReadModel.{
  ReadModel, contains, reduce, insert_sorted, sort_by_sequence, Progress, start, note_gap,
  replay_one, replay_each, replay,
}
use agent_mission_control.Domain.ReadModel.Reduce.{reduce-keeps, reduce-applied}
use agent_mission_control.Domain.ReadModel.Sequences.{has_sequence, has_sequence-sort_by_sequence}
use agent_mission_control.Domain.ReadModel.Replay.{
  IsHonest, reported, reported-append, replay_one-cases, replay_each-seen, replay_accounts,
}

module _ (j : Json) (decode_entry : j.Value → Result EvidenceEntry String) (number : ℕ → ℕ) where
  -- An event whose identifier stands for its number, which is a `u64`.
  abbrev pub IsNumbered : EventEnvelope j → Type 0
  IsNumbered e = (e.sequence ≡ number e.event_id) × (e.sequence ≤ u64_max)

  -- The numbers rise, from a bound on.
  abbrev Rises : ℕ → List (EventEnvelope j) → Type 0
  Rises b [] = Unit {0}
  Rises b (e ∷ es) = (b ≤ e.sequence) × Rises e.sequence es

  Rises-down : (b c : ℕ) (es : List (EventEnvelope j)) → b ≤ c → Rises c es → Rises b es
  Rises-down b c [] h v = tt
  Rises-down b c (e ∷ es) h (first, rest) = (omega (arith, h, first), rest)

  Rises-insert_sorted :
      (b : ℕ) (e : EventEnvelope j) (es : List (EventEnvelope j))
      → b ≤ e.sequence
      → Rises b es
      → Rises b (insert_sorted j decode_entry e es)
  unfolding insert_sorted
  Rises-insert_sorted b e [] h v = (h, tt)
  Rises-insert_sorted b e (x ∷ xs) h (first, rest) = elim (Bool-cases (leb e.sequence x.sequence)) [
    | inl before ↦ rw before (h, (ground arith, rest))
    | inr after ↦ rw after (first, Rises-insert_sorted x.sequence e xs (ground arith) rest)
  ]

  Rises-sort_by_sequence :
      (es : List (EventEnvelope j)) → Rises 0 (sort_by_sequence j decode_entry es)
  unfolding sort_by_sequence
  Rises-sort_by_sequence [] = tt
  Rises-sort_by_sequence (e ∷ es) =
      Rises-insert_sorted 0 e (sort_by_sequence j decode_entry es) (omega arith)
        (Rises-sort_by_sequence es)

  All-insert_sorted :
      (e : EventEnvelope j) (es : List (EventEnvelope j))
      → IsNumbered e
      → All IsNumbered es
      → All IsNumbered (insert_sorted j decode_entry e es)
  unfolding insert_sorted
  All-insert_sorted e [] h v = (h, tt)
  All-insert_sorted e (x ∷ xs) h (first, rest) = elim (Bool-cases (leb e.sequence x.sequence)) [
    | inl before ↦ rw before (h, (first, rest))
    | inr after ↦ rw after (first, All-insert_sorted e xs h rest)
  ]

  All-sort_by_sequence :
      (es : List (EventEnvelope j))
      → All IsNumbered es
      → All IsNumbered (sort_by_sequence j decode_entry es)
  unfolding sort_by_sequence
  All-sort_by_sequence [] v = tt
  All-sort_by_sequence (e ∷ es) (first, rest) =
      All-insert_sorted e (sort_by_sequence j decode_entry es) first (All-sort_by_sequence es rest)

  -- The loop has reported exactly the numbers up to the last that it has not seen.
  record IsExact (p : Progress j decode_entry) (last : ℕ) : Type 0 where
    expects : p.expected_sequence ≡ saturating_add last 1
    seen_last : 1 ≤ last → contains p.seen_sequences last ≡ true
    exact :
        (n : ℕ)
        → 1 ≤ n
        → n ≤ last
        → reported n p.model.missing_sequences ≡ not (contains p.seen_sequences n)
    quiet_above : (n : ℕ) → last < n → reported n p.model.missing_sequences ≡ false
    unseen_above : (n : ℕ) → last < n → contains p.seen_sequences n ≡ false
    names :
        (id : ℕ)
        → contains p.model.applied_event_ids id ≡ true
        → contains p.seen_sequences (number id) ≡ true

  start-IsExact : IsExact (start j decode_entry) 0
  unfolding saturating_add contains
  start-IsExact = record {
    expects = omega arith;
    seen_last = λ a. absurd (omega arith);
    exact = λ n a b. absurd (omega arith);
    quiet_above = λ n a. refl;
    unseen_above = λ n a. refl;
    names = λ id a. absurd (ground arith);
  }

  replay_one-fresh :
      (p q : Progress j decode_entry) (e : EventEnvelope j)
      → replay_one j decode_entry p e ≡ ok q
      → contains p.model.applied_event_ids e.event_id ≡ false
      → contains p.seen_sequences e.sequence ≡ false
  unfolding replay_one
  replay_one-fresh p q e h fresh = ground arith

  -- What is reported behind an event that is not below the last one.
  reported-note_gap :
      (m : ReadModel) (last sequence n : ℕ)
      → last ≤ sequence
      → sequence ≤ u64_max
      → reported n (note_gap j decode_entry m (saturating_add last 1) sequence).missing_sequences
        ≡ (reported n m.missing_sequences || (ltb last n && ltb n sequence))
  unfolding note_gap saturating_add
  reported-note_gap m last sequence n above fits =
      elim (Bool-cases (ltb (saturating_add last 1) sequence)) [
        | inl gap ↦
            rw
              (
                gap,
                reported-append n m.missing_sequences
                    (record { start = saturating_add last 1; end = sequence - 1 } ∷ []),
              )
              (ground arith)
        | inr none_missing ↦ rw none_missing (ground arith)
      ]

  note_gap-applied :
      (m : ReadModel) (expected sequence : ℕ)
      → (note_gap j decode_entry m expected sequence).applied_event_ids ≡ m.applied_event_ids
  unfolding note_gap
  note_gap-applied m expected sequence = ground arith

  -- A round that takes its event in.
  taken-IsExact :
      (p : Progress j decode_entry) (m : ReadModel) (e : EventEnvelope j) (last : ℕ)
      → IsNumbered e
      → last ≤ e.sequence
      → contains p.seen_sequences e.sequence ≡ false
      → reduce j decode_entry (note_gap j decode_entry p.model p.expected_sequence e.sequence) e
        ≡ ok m
      → IsExact p last
      → IsExact
          (record {
            model = m;
            expected_sequence = saturating_add e.sequence 1;
            seen_sequences = e.sequence ∷ p.seen_sequences;
          })
          e.sequence
  unfolding contains
  taken-IsExact p m e last (named, fits) rises fresh reduced v =
      let gapped = note_gap j decode_entry p.model p.expected_sequence e.sequence in
      let (hash, mission, applied, flag, gaps) = reduce-keeps j decode_entry gapped m e reduced in
      let now : (n : ℕ)
          → reported n m.missing_sequences
            ≡ (reported n p.model.missing_sequences || (ltb last n && ltb n e.sequence)) =
        λ n.
          ap (reported n) gaps
          ∙ ap (λ x. reported n (note_gap j decode_entry p.model x e.sequence).missing_sequences)
              v.expects
          ∙ reported-note_gap p.model last e.sequence n rises fits in
      record {
        expects = refl;
        seen_last = λ a. ground arith;
        exact = λ n a b.
            ground (arith, now n, v.exact n a, v.unseen_above n, v.quiet_above n, v.seen_last);
        quiet_above = λ n a. ground (arith, now n, v.quiet_above n);
        unseen_above = λ n a. ground (arith, v.unseen_above n);
        names = λ id there.
            let before = note_gap-applied p.model p.expected_sequence e.sequence in
            let held = reduce-applied j decode_entry gapped m e id reduced there in
            elim (Bool-cases (e.event_id == id)) [
              | inl own ↦
                  let same : e.event_id ≡ id = ground arith in
                  let named' : number id ≡ e.sequence = ap number (sym same) ∙ sym named in
                  ground arith
              | inr other ↦
                  let old : contains p.model.applied_event_ids id ≡ true =
                    ap (λ ids. contains ids id) (sym before) ∙ ground arith in
                  ground (arith, v.names id old)
            ];
      }

  -- A round that skips its event, whose number has been seen.
  skipped-IsExact :
      (p : Progress j decode_entry) (e : EventEnvelope j) (last : ℕ)
      → contains p.seen_sequences e.sequence ≡ true
      → IsExact p last
      → IsExact (record p { seen_sequences = e.sequence ∷ p.seen_sequences }) last
  unfolding contains
  skipped-IsExact p e last seen v = record {
    expects = v.expects;
    seen_last = λ a. ground (arith, v.seen_last a);
    exact = λ n a b. ground (arith, v.exact n a b);
    quiet_above = v.quiet_above;
    unseen_above = λ n a. ground (arith, v.unseen_above n a);
    names = λ id there. ground (arith, v.names id there);
  }

  replay_one-IsExact :
      (p q : Progress j decode_entry) (e : EventEnvelope j) (last : ℕ)
      → IsNumbered e
      → last ≤ e.sequence
      → replay_one j decode_entry p e ≡ ok q
      → IsExact p last
      → (k : ℕ) × IsExact q k × (k ≤ e.sequence)
  unfolding contains
  replay_one-IsExact p q e last (named, fits) rises h v =
      elim (Bool-cases (contains p.model.applied_event_ids e.event_id)) [
        | inl old ↦
            let seen : contains p.seen_sequences e.sequence ≡ true =
              ap (contains p.seen_sequences) named ∙ v.names e.event_id old in
            let skipped : q ≡ record p { seen_sequences = e.sequence ∷ p.seen_sequences } =
              (unfold replay_one in ground arith) in
            (
              last,
              subst (λ r. IsExact r last) (sym skipped) (skipped-IsExact p e last seen v),
              rises,
            )
        | inr fresh ↦ elim (replay_one-cases j decode_entry p q e h) [
          | inl (old, skipped) ↦ absurd (ground arith)
          | inr (m, reduced, taken) ↦ (
            e.sequence,
            subst (λ r. IsExact r e.sequence) (sym taken)
                (taken-IsExact p m e last (named, fits) rises (replay_one-fresh p q e h fresh)
                  reduced v),
            omega arith,
          )
        ]
      ]

  replay_each-IsExact :
      (p q : Progress j decode_entry) (es : List (EventEnvelope j)) (last : ℕ)
      → All IsNumbered es
      → Rises last es
      → replay_each j decode_entry p es ≡ ok q
      → IsExact p last
      → (k : ℕ) × IsExact q k
  unfolding replay_each
  replay_each-IsExact p q [] last named rises h v =
      let same : p ≡ q = cc in (last, subst (λ r. IsExact r last) same v)
  replay_each-IsExact p q (e ∷ es) last (first, named) (low, rises) h v =
      elim (Result-cases (replay_one j decode_entry p e)) [
        | inr (x, failed) ↦ absurd (ground arith)
        | inl (r, one) ↦
            let (k, exact, below) = replay_one-IsExact p r e last first low one v in
            replay_each-IsExact r q es k named (Rises-down k e.sequence es below rises)
              (rw one at h) exact
      ]

  -- Where an identifier stands for one number, so that an event may come several times, numbers are `u64`,
  -- and replay gives a model: up to the largest number of an event, the model reports exactly the numbers from 1 on
  -- that no event has, and it reports none above. It says that it is incomplete exactly when it reports a
  -- gap, and a reported gap is not empty.
  pub replay_reports_missing :
      (es : List (EventEnvelope j)) (m : ReadModel)
      → All IsNumbered es
      → replay j decode_entry es ≡ ok m
      → (largest : ℕ) × (1 ≤ largest → has_sequence j decode_entry es largest ≡ true)
        × ((n : ℕ) → largest < n → has_sequence j decode_entry es n ≡ false)
        × ((n : ℕ)
            → 1 ≤ n
            → n ≤ largest
            → reported n m.missing_sequences ≡ not (has_sequence j decode_entry es n))
        × ((n : ℕ) → largest < n → reported n m.missing_sequences ≡ false)
        × IsHonest m
  replay_reports_missing es m named h =
      let (p, run, same, honest, counted) = replay_accounts j decode_entry es m h in
      let sorted = sort_by_sequence j decode_entry es in
      let (k, v) =
        replay_each-IsExact (start j decode_entry) p sorted 0 (All-sort_by_sequence es named)
          (Rises-sort_by_sequence es) run start-IsExact in
      let seen : (n : ℕ) → contains p.seen_sequences n ≡ has_sequence j decode_entry es n = λ n.
        unfold contains in
        ground (
          arith,
          replay_each-seen j decode_entry (start j decode_entry) p sorted n run,
          has_sequence-sort_by_sequence j decode_entry es n,
        ) in
      (
        k,
        λ a. sym (seen k) ∙ v.seen_last a,
        λ n a. sym (seen n) ∙ v.unseen_above n a,
        λ n a b.
            ap (λ (x : ReadModel). reported n x.missing_sequences) (sym same)
            ∙ v.exact n a b
            ∙ ap not (seen n),
        λ n a.
            ap (λ (x : ReadModel). reported n x.missing_sequences) (sym same) ∙ v.quiet_above n a,
        honest,
      )
