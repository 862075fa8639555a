-- ===== src/Memory/Audit.antt =====
-- What holds of a store of memory after any calls: what is confirmed, what is closed, and what the history
-- gives back.
use agent_mission_control.Prelude.{
  ℕ, ◌+◌, min, ◌≡◌, ◌≢◌, refl, sym, ap, ◌∙◌, inl, inr, true, false, Bool-cases, some, List, [], ◌∷◌,
  ◌++◌, length, length-append, String, ok, arith,
}
use mathlib.Core.Path.{subst}
use agent_mission_control.Prelude.Text.{str_eq, str_eq_iff}
use agent_mission_control.Prelude.Word.{u64_max, saturating_add}
use agent_mission_control.Prelude.Dict.{
  Dict, lookup, insert, lookup-insert-same, lookup-insert-other,
}
use agent_mission_control.Domain.Event.{new}
use agent_mission_control.Memory.Item.{MemoryStatus, MemoryAuthor, user, MemoryItem, validate}
use agent_mission_control.Memory.Store.{
  MemoryAction, created, is_candidate, is_confirmed, is_inference, is_closed, Changes,
  MemoryMutation, MemoryStore, empty_store, append_mutation, stored,
}
use agent_mission_control.Memory.History.{
  Moves, stays, adds, changes, Call, perform, run, perform-Moves,
}

differs : (key id : String) → str_eq key id ≡ false → key ≢ id
differs key id other clash = let same = (str_eq_iff key id).1 clash in absurd (ground arith)

candidate_lem : (status : MemoryStatus) → is_candidate status ≡ true → is_confirmed status ≢ true
unfolding is_candidate is_confirmed
candidate_lem status fresh done = ground arith

-- An item under its identifier: it is valid, and where it is confirmed it is no inference and the user's.
pub record Trusted (id : String) (item : MemoryItem) : Type 0 where
  pub keyed : item.id ≡ id
  pub valid : validate item ≡ ok tt
  pub sound :
      is_confirmed item.status ≡ true → (is_inference item.kind ≡ false) × (item.author ≡ user)

module _ (c : Changes) where
  -- The items as the history tells them: each mutation puts its item.
  abbrev pub rebuilt : Dict MemoryItem → List (MemoryMutation c) → Dict MemoryItem
  rebuilt d [] = d
  rebuilt d (m ∷ ms) = rebuilt (insert m.item.id m.item d) ms

  -- The numbers of the events, from `n` on, as far as a u64 goes.
  abbrev pub Numbered : ℕ → List (MemoryMutation c) → Type 0
  Numbered n [] = Unit {0}
  Numbered n (m ∷ ms) = (m.event.sequence ≡ min n u64_max) × Numbered (n + 1) ms

  pub record IsAudited (s : MemoryStore c) : Type 0 where
    pub trusted :
        (id : String) (item : MemoryItem) → lookup id s.items ≡ some item → Trusted id item
    pub told : s.items ≡ rebuilt [] s.history
    pub counted : s.next_sequence ≡ min (length s.history) u64_max
    pub numbered : Numbered 1 s.history

  rebuilt-append :
      (d : Dict MemoryItem) (ms : List (MemoryMutation c)) (m : MemoryMutation c)
      → rebuilt d (ms ++ m ∷ []) ≡ insert m.item.id m.item (rebuilt d ms)
  rebuilt-append d [] m = refl
  rebuilt-append d (x ∷ xs) m = rebuilt-append (insert x.item.id x.item d) xs m

  Numbered-append :
      (n : ℕ) (ms : List (MemoryMutation c)) (m : MemoryMutation c)
      → Numbered n ms
      → m.event.sequence ≡ min (n + length ms) u64_max
      → Numbered n (ms ++ m ∷ [])
  Numbered-append n [] m v h = (omega (arith, h), tt)
  Numbered-append n (x ∷ xs) m v h = (v.0, Numbered-append (n + 1) xs m v.1 (omega (arith, h)))

  stored-IsAudited :
      (s : MemoryStore c) (action : MemoryAction) (actor : MemoryAuthor) (id : String)
      (item : MemoryItem)
      → Trusted id item
      → IsAudited s
      → IsAudited (stored c s action actor id item)
  unfolding stored append_mutation new saturating_add
  stored-IsAudited s action actor id item w v = record {
    trusted = λ key found there. elim (Bool-cases (str_eq key id)) [
      | inl same ↦
          let here = (str_eq_iff key id).0 same in
          let new : some item ≡ some found =
            sym (lookup-insert-same id item s.items)
            ∙ ap (λ k. lookup k (insert id item s.items)) (sym here)
            ∙ there in
          let kept : item ≡ found = ground arith in
          subst (Trusted key) kept (subst (λ k. Trusted k item) (sym here) w)
      | inr other ↦ v.trusted key found (
          sym (lookup-insert-other id key item s.items (λ clash. differs key id other clash))
          ∙ there)
    ];
    told =
        ap (insert id item) v.told
        ∙ ap (λ k. insert k item (rebuilt [] s.history)) (sym w.keyed)
        ∙ sym (rebuilt-append [] s.history _);
    counted = omega (arith, v.counted, length-append s.history (_ ∷ []));
    numbered = Numbered-append 1 s.history _ v.numbered (omega (arith, v.counted));
  }

  move-IsAudited : (s t : MemoryStore c) → Moves c s t → IsAudited s → IsAudited t
  move-IsAudited s _ stays v = v
  move-IsAudited s _ (adds item valid fresh missing) v =
      stored-IsAudited s created item.author item.id item
        (record {
          keyed = refl;
          valid = valid;
          sound = λ h. absurd (candidate_lem item.status fresh h);
        })
        v
  move-IsAudited s _ (changes action id current next there w) v =
      stored-IsAudited s action user id next
        (record {
          keyed = w.same_id ∙ (v.trusted id current there).keyed;
          valid = w.is_valid;
          sound = λ h. (w.is_sound h, w.by_user);
        })
        v

  run-IsAudited : (s : MemoryStore c) (xs : List (Call c)) → IsAudited s → IsAudited (run c s xs)
  run-IsAudited s [] v = v
  run-IsAudited s (x ∷ xs) v =
      run-IsAudited (perform c s x) xs (move-IsAudited s (perform c s x) (perform-Moves c s x) v)

  -- After any calls on an empty store, successful or not, every item is valid and stands under its own
  -- identifier, and one that is confirmed is no inference and the user's; the history gives back the
  -- items, and its events are numbered from 1 on, as far as a u64 goes.
  pub run-empty-IsAudited : (xs : List (Call c)) → IsAudited (run c (empty_store c) xs)
  unfolding lookup
  run-empty-IsAudited xs = run-IsAudited (empty_store c) xs (record {
    trusted = λ id item h. absurd (ground arith);
    told = refl;
    counted = omega arith;
    numbered = tt;
  })

  closed_step :
      (s t : MemoryStore c) (id : String) (item : MemoryItem)
      → is_closed item.status ≡ true
      → Moves c s t
      → lookup id s.items ≡ some item
      → lookup id t.items ≡ some item
  unfolding stored append_mutation
  closed_step s _ id item closed stays there = there
  closed_step s _ id item closed (adds new valid fresh missing) there =
      lookup-insert-other new.id id new s.items (λ clash.
        let lost = sym there ∙ ap (λ k. lookup k s.items) clash ∙ missing in absurd (ground arith))
      ∙ there
  closed_step s _ id item closed (changes action key current next found w) there =
      lookup-insert-other key id next s.items (λ clash.
        let both = sym there ∙ ap (λ k. lookup k s.items) clash ∙ found in
        let same : item ≡ current = ground arith in
        let closed_too = ap (λ x. is_closed x.status) (sym same) ∙ closed in
        let was_open = w.was_open in absurd (ground arith))
      ∙ there

  -- An item that is invalidated or rejected is never changed again, whatever is called.
  pub closed_item_absorbs :
      (s : MemoryStore c) (xs : List (Call c)) (id : String) (item : MemoryItem)
      → lookup id s.items ≡ some item
      → is_closed item.status ≡ true
      → lookup id (run c s xs).items ≡ some item
  closed_item_absorbs s [] id item there closed = there
  closed_item_absorbs s (x ∷ xs) id item there closed =
      closed_item_absorbs (perform c s x) xs id item
        (closed_step s (perform c s x) id item closed (perform-Moves c s x) there) closed
