-- ===== src/Memory/History.antt =====
-- Calls on a store of memory one after the other: what each may do, and what the store and its history say
-- after them.
use agent_mission_control.Prelude.{
  ◌+◌, ◌≡◌, refl, sym, inl, inr, true, false, ◌==◌, Bool-cases, Option-cases, Result-cases, Option,
  none, some, List, [], ◌∷◌, String, Result, ok, arith,
}
use mathlib.Core.Path.{subst}
use agent_mission_control.Prelude.Text.{is_blank}
use agent_mission_control.Prelude.Word.{u64_max}
use agent_mission_control.Prelude.Dict.{lookup}
use agent_mission_control.Memory.Item.{
  MemoryStatus, candidate, confirmed, deferred, invalidated, rejected, MemoryAuthor, user,
  MemoryItem, MemoryError, validate,
}
use agent_mission_control.Memory.Store.{
  MemoryAction, created, is_candidate, is_confirmed, is_user, is_inference, is_open, is_deferrable,
  is_closed, Changes, MemoryStore, revised, insertable, stored, settle, insert_item, changed,
  mutate, confirmable, confirm, mutate_with_content, edit, narrow, defer, invalidate, reject,
}

-- What a change of the user keeps and makes of an item.
pub record Revises (current next : MemoryItem) : Type 0 where
  pub same_id : next.id ≡ current.id
  pub next_version : next.version ≡ current.version + 1
  pub by_user : next.author ≡ user
  pub was_open : is_closed current.status ≡ false
  pub is_valid : validate next ≡ ok tt
  pub is_sound : is_confirmed next.status ≡ true → is_inference next.kind ≡ false

changed-ok :
    (actor : MemoryAuthor) (status : MemoryStatus) (content : Option String) (item : MemoryItem)
    → item.version == u64_max ≡ false
    → validate (revised actor status content item) ≡ ok tt
    → changed actor status content item ≡ ok (revised actor status content item)
unfolding changed
changed-ok actor status content item spare valid = rw (spare, valid) refl

user_lem : (actor : MemoryAuthor) → is_user actor ≡ true → actor ≡ user
unfolding is_user
user_lem actor h = ground arith

changed-Revises :
    (actor : MemoryAuthor) (status : MemoryStatus) (content : Option String)
    (current next : MemoryItem)
    → is_user actor ≡ true
    → is_closed current.status ≡ false
    → (is_confirmed status ≡ true → is_inference current.kind ≡ false)
    → changed actor status content current ≡ ok next
    → Revises current next
unfolding changed is_user
changed-Revises actor status content current next by_user was_open sound made =
    elim (Bool-cases (current.version == u64_max)) [
      | inl full ↦ absurd (ground arith)
      | inr spare ↦ elim (Result-cases (validate (revised actor status content current))) [
        | inl (u, valid) ↦
            let built = changed-ok actor status content current spare valid in
            let same : revised actor status content current ≡ next = ground arith in
            subst (Revises current) same (record {
              same_id = refl;
              next_version = refl;
              by_user = user_lem actor by_user;
              was_open = was_open;
              is_valid = valid;
              is_sound = sound;
            })
        | inr (x, invalid) ↦ absurd (ground arith)
      ]
    ]

module _ (c : Changes) where
  -- What a call does to a store: nothing, or it adds an item, or the user changes one.
  pub data Moves (s : MemoryStore c) : MemoryStore c → Type 0 where
    stays : Moves s s
    adds :
        (item : MemoryItem)
        → validate item ≡ ok tt
        → is_candidate item.status ≡ true
        → lookup item.id s.items ≡ none
        → Moves s (stored c s created item.author item.id item)
    changes :
        (action : MemoryAction) (id : String) (current next : MemoryItem)
        → lookup id s.items ≡ some current
        → Revises current next
        → Moves s (stored c s action user id next)

  insertable-lem :
      (s : MemoryStore c) (item : MemoryItem)
      → insertable c s item ≡ ok tt
      → (validate item ≡ ok tt)
        × (is_candidate item.status ≡ true)
        × (lookup item.id s.items ≡ none)
  unfolding insertable
  insertable-lem s item fits = elim (Result-cases (validate item)) [
    | inr (x, invalid) ↦ absurd (ground arith)
    | inl (u, valid) ↦ elim (Bool-cases (is_candidate item.status)) [
      | inr other ↦ absurd (ground arith)
      | inl new ↦ elim (Option-cases (lookup item.id s.items)) [
        | inl missing ↦ (valid, new, missing)
        | inr (there, found) ↦ absurd (ground arith)
      ]
    ]
  ]

  insert_item-Moves : (s : MemoryStore c) (item : MemoryItem) → Moves s (insert_item c s item).0
  unfolding insert_item settle insertable
  insert_item-Moves s item = elim (Result-cases (insertable c s item)) [
    | inl (u, fits) ↦ rw fits (
        adds item (insertable-lem s item fits).0 (insertable-lem s item fits).1
          (insertable-lem s item fits).2)
    | inr (x, misfit) ↦ rw misfit stays
  ]

  mutate-Moves :
      (s : MemoryStore c) (id : String) (actor : MemoryAuthor) (action : MemoryAction)
      (status : MemoryStatus) (content : Option String)
      (check : MemoryItem → Result (Unit {0}) MemoryError)
      → ((item : MemoryItem)
          → check item ≡ ok tt
          → (is_closed item.status ≡ false)
            × (is_confirmed status ≡ true → is_inference item.kind ≡ false))
      → Moves s (mutate c s id actor action status content check).0
  unfolding mutate settle
  mutate-Moves s id actor action status content check allows = elim (Bool-cases (is_user actor)) [
    | inr other ↦ rw other stays
    | inl by_user ↦ elim (Option-cases (lookup id s.items)) [
      | inl missing ↦ rw (by_user, missing) stays
      | inr (current, there) ↦ elim (Result-cases (check current)) [
        | inr (x, refusal) ↦ rw (by_user, there, refusal) stays
        | inl (u, passed) ↦ elim (Result-cases (changed actor status content current)) [
          | inr (x, refusal) ↦ rw (by_user, there, passed, refusal) stays
          | inl (next, made) ↦
              rw (by_user, there, passed, made)
                (subst (λ x. Moves s (stored c s action x id next)) (sym (user_lem actor by_user))
                  (changes action id current next there (
                    changed-Revises actor status content current next by_user
                      (allows current passed).0 (allows current passed).1 made)))
        ]
      ]
    ]
  ]

  pub data Call : Type 0 where
    inserts : MemoryItem → Call
    confirms defers invalidates rejects : String → MemoryAuthor → Call
    edits narrows : String → MemoryAuthor → String → Call

  -- The store behind a call, whatever the call returns.
  abbrev pub perform : MemoryStore c → Call → MemoryStore c
  perform s (inserts item) = (insert_item c s item).0
  perform s (confirms id actor) = (confirm c s id actor).0
  perform s (defers id actor) = (defer c s id actor).0
  perform s (invalidates id actor) = (invalidate c s id actor).0
  perform s (rejects id actor) = (reject c s id actor).0
  perform s (edits id actor content) = (edit c s id actor content).0
  perform s (narrows id actor content) = (narrow c s id actor content).0

  abbrev pub run : MemoryStore c → List Call → MemoryStore c
  run s [] = s
  run s (x ∷ xs) = run (perform s x) xs

  mutate_with_content-Moves :
      (s : MemoryStore c) (id : String) (actor : MemoryAuthor) (action : MemoryAction)
      (content : String)
      → Moves s (mutate_with_content c s id actor action content).0
  unfolding mutate_with_content is_closed is_confirmed
  mutate_with_content-Moves s id actor action content = elim (Bool-cases (is_blank content)) [
    | inl blank ↦ rw blank stays
    | inr text ↦
        rw text
          (mutate-Moves s id actor action candidate (some content) _ (λ item passed. ground arith))
  ]

  pub perform-Moves : (s : MemoryStore c) (x : Call) → Moves s (perform s x)
  unfolding confirm defer invalidate reject edit narrow confirmable is_closed is_confirmed is_open
      is_deferrable
  perform-Moves s (inserts item) = insert_item-Moves s item
  perform-Moves s (confirms id actor) =
      mutate-Moves s id actor MemoryAction.confirmed_item confirmed none confirmable
        (λ item passed. ground arith)
  perform-Moves s (defers id actor) =
      mutate-Moves s id actor MemoryAction.deferred_item deferred none _
        (λ item passed. ground arith)
  perform-Moves s (invalidates id actor) =
      mutate-Moves s id actor MemoryAction.invalidated_item invalidated none _
        (λ item passed. ground arith)
  perform-Moves s (rejects id actor) =
      mutate-Moves s id actor MemoryAction.rejected_item rejected none _
        (λ item passed. ground arith)
  perform-Moves s (edits id actor content) =
      mutate_with_content-Moves s id actor MemoryAction.edited content
  perform-Moves s (narrows id actor content) =
      mutate_with_content-Moves s id actor MemoryAction.narrowed content
