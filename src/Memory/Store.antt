-- ===== src/Memory/Store.antt =====
-- crates/memory/src/lifecycle.rs: the store of the items, and its history. A method returns the store as it
-- leaves it beside its outcome; where it fails it changes nothing.
use agent_mission_control.Prelude.{
  ℕ, ◌+◌, Bool, true, false, not, ◌==◌, Option, none, some, List, [], ◌∷◌, ◌++◌, String, Result, ok,
  err, ◌>>=◌, ◌>>◌, ok_or, refuse_if, if◌then◌else◌,
}
use agent_mission_control.Prelude.Text.{is_blank}
use agent_mission_control.Prelude.Word.{u64_max, saturating_add}
use agent_mission_control.Prelude.Dict.{Dict, lookup, insert}
use agent_mission_control.Domain.Ids.{EventId}
use agent_mission_control.Domain.Event.{
  Json, EventKind, EventSource, EventConfidence, EventEnvelope, new,
}
use agent_mission_control.Memory.Item.{
  MemoryKind, MemoryStatus, candidate, confirmed, deferred, invalidated, rejected, MemoryAuthor,
  user, MemoryItem, MemoryError, invalid_item, inference_cannot_be_confirmed, forbidden_actor,
  not_found, duplicate_id, invalid_transition, validate,
}

pub data MemoryAction : Type 0 where
  created confirmed_item edited narrowed deferred_item invalidated_item rejected_item : MemoryAction

-- The derived `==` of a status, an author and a kind with one constructor.
unfoldable pub is_candidate : MemoryStatus → Bool
is_candidate candidate = true
is_candidate _ = false

unfoldable pub is_confirmed : MemoryStatus → Bool
is_confirmed confirmed = true
is_confirmed _ = false

unfoldable pub is_user : MemoryAuthor → Bool
is_user user = true
is_user _ = false

unfoldable pub is_inference : MemoryKind → Bool
is_inference MemoryKind.inference = true
is_inference _ = false

-- What the closures of the methods ask of an item's status.
unfoldable pub is_open : MemoryStatus → Bool
is_open candidate = true
is_open deferred = true
is_open _ = false

unfoldable pub is_deferrable : MemoryStatus → Bool
is_deferrable candidate = true
is_deferrable confirmed = true
is_deferrable _ = false

unfoldable pub is_closed : MemoryStatus → Bool
is_closed invalidated = true
is_closed rejected = true
is_closed _ = false

-- The item that `mutate` makes of the current one: its content where one is given, status, version, author.
abbrev pub revised : MemoryAuthor → MemoryStatus → Option String → MemoryItem → MemoryItem
revised actor status content item = record item {
  content = elim content [ none ↦ item.content | some text ↦ text ];
  status = status;
  version = item.version + 1;
  author = actor;
}

unfoldable pub changed :
    MemoryAuthor → MemoryStatus → Option String → MemoryItem → Result MemoryItem MemoryError
changed actor status content item =
    if item.version == u64_max
    then err invalid_item
    else validate (revised actor status content item) >> ok (revised actor status content item)

unfoldable pub confirmable : MemoryItem → Result (Unit {0}) MemoryError
unfolding is_inference is_open
confirmable item =
    if is_inference item.kind
    then err inference_cannot_be_confirmed
    else refuse_if (not (is_open item.status)) invalid_transition

-- The payload of a change, and the generator of identifiers by the number of the event.
pub record Changes : Type 1 where
  pub json : Json
  pub change_payload : MemoryAction → MemoryItem → json.Value
  pub fresh_id : ℕ → EventId

module _ (c : Changes) where
  open c use {json, change_payload, fresh_id}

  pub record MemoryMutation : Type 0 where
    pub action : MemoryAction
    pub actor : MemoryAuthor
    pub item : MemoryItem
    pub event : EventEnvelope json

  pub record MemoryStore : Type 0 where
    pub items : Dict MemoryItem
    pub history : List MemoryMutation
    pub next_sequence : ℕ

  -- `MemoryStore::default`.
  abbrev pub empty_store : MemoryStore
  empty_store = record { items = []; history = []; next_sequence = 0 }

  unfoldable pub append_mutation :
      MemoryStore → MemoryAction → MemoryAuthor → MemoryItem → MemoryStore
  unfolding is_user is_confirmed
  append_mutation s action actor item =
      let next = saturating_add s.next_sequence 1 in
      let event =
        record (new json (fresh_id next) item.mission_id item.route_id next
          EventKind.memory_item_changed (change_payload action item)) {
            source = if is_user actor then EventSource.user else EventSource.supervisor;
            confidence =
                if is_confirmed item.status
                then EventConfidence.confirmed
                else EventConfidence.observed;
            links = record { parent_event_id = none; source_event_ids = item.source_event_ids };
          } in
      record s {
        history =
            s.history ++ record { action = action; actor = actor; item = item; event = event } ∷ [];
        next_sequence = next;
      }

  abbrev pub Outcome : Type 0
  Outcome = MemoryStore × Result MemoryItem MemoryError

  -- What `insert` checks of an item.
  unfoldable pub insertable : MemoryStore → MemoryItem → Result (Unit {0}) MemoryError
  unfolding is_candidate
  insertable s item = do
    validate item
    refuse_if (not (is_candidate item.status)) invalid_transition
    elim (lookup item.id s.items) [ none ↦ ok tt | some there ↦ err duplicate_id ]

  -- A changed item: the map, then the history.
  unfoldable pub stored :
      MemoryStore → MemoryAction → MemoryAuthor → String → MemoryItem → MemoryStore
  unfolding append_mutation
  stored s action actor id item =
      append_mutation (record s { items = insert id item s.items }) action actor item

  -- What follows the checks of a method.
  unfoldable pub settle :
      MemoryStore → MemoryAction → MemoryAuthor → String → Result MemoryItem MemoryError → Outcome
  unfolding stored
  settle s action actor id (ok item) = (stored s action actor id item, ok item)
  settle s action actor id (err e) = (s, err e)

  -- `MemoryStore::insert`, with the item as its answer.
  unfoldable pub insert_item : MemoryStore → MemoryItem → Outcome
  unfolding insertable settle
  insert_item s item = settle s created item.author item.id (insertable s item >> ok item)

  unfoldable pub mutate :
      MemoryStore
      → String
      → MemoryAuthor
      → MemoryAction
      → MemoryStatus
      → Option String
      → (MemoryItem → Result (Unit {0}) MemoryError)
      → Outcome
  unfolding settle changed is_user
  mutate s id actor action status content check = settle s action actor id (
      refuse_if (not (is_user actor)) forbidden_actor
      >> ok_or (lookup id s.items) not_found
      >>= λ current. check current >> changed actor status content current)

  unfoldable pub confirm : MemoryStore → String → MemoryAuthor → Outcome
  unfolding mutate confirmable
  confirm s id actor = mutate s id actor confirmed_item confirmed none confirmable

  unfoldable pub mutate_with_content :
      MemoryStore → String → MemoryAuthor → MemoryAction → String → Outcome
  unfolding mutate is_closed
  mutate_with_content s id actor action content =
      if is_blank content
      then (s, err invalid_item)
      else mutate s id actor action candidate (some content)
          (λ item. refuse_if (is_closed item.status) invalid_transition)

  unfoldable pub edit : MemoryStore → String → MemoryAuthor → String → Outcome
  unfolding mutate_with_content
  edit s id actor content = mutate_with_content s id actor edited content

  unfoldable pub narrow : MemoryStore → String → MemoryAuthor → String → Outcome
  unfolding mutate_with_content
  narrow s id actor content = mutate_with_content s id actor narrowed content

  unfoldable pub defer : MemoryStore → String → MemoryAuthor → Outcome
  unfolding mutate is_deferrable
  defer s id actor =
      mutate s id actor deferred_item deferred none
        (λ item. refuse_if (not (is_deferrable item.status)) invalid_transition)

  unfoldable pub invalidate : MemoryStore → String → MemoryAuthor → Outcome
  unfolding mutate is_closed
  invalidate s id actor =
      mutate s id actor invalidated_item invalidated none
        (λ item. refuse_if (is_closed item.status) invalid_transition)

  unfoldable pub reject : MemoryStore → String → MemoryAuthor → Outcome
  unfolding mutate is_open
  reject s id actor =
      mutate s id actor rejected_item rejected none
        (λ item. refuse_if (not (is_open item.status)) invalid_transition)
