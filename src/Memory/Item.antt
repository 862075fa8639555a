-- ===== src/Memory/Item.antt =====
-- crates/memory/src/item.rs and extract.rs: an item of memory, and the events that it is made of.
use Prim.Native.String.{◌++◌ as cat}
use agent_mission_control.Prelude.{
  ℕ, is_empty, Bool, true, false, not, ◌||◌, ◌==◌, ltb, Option, none, some, List, [], ◌∷◌, String,
  Result, ok, err, ◌>>=◌, ◌>>◌, ok_or, if◌then◌else◌,
}
use agent_mission_control.Prelude.Text.{is_blank, byte_len}
use agent_mission_control.Domain.Ids.{EventId, MissionId, RouteId}
use agent_mission_control.Domain.Event.{
  Json, EventKind, EventSource, EventConfidence, EventEnvelope,
}

pub data MemoryKind : Type 0 where
  confirmed_decision constraint fact preference risk inference : MemoryKind

pub data MemoryScope : Type 0 where
  mission route : MemoryScope

pub data MemoryFreshness : Type 0 where
  fresh stale unknown : MemoryFreshness

pub data MemoryStatus : Type 0 where
  candidate confirmed deferred invalidated rejected : MemoryStatus

pub data MemoryAuthor : Type 0 where
  user supervisor agent system : MemoryAuthor

pub record MemoryItem : Type 0 where
  pub id : String
  pub mission_id : MissionId
  pub route_id : RouteId
  pub kind : MemoryKind
  pub content : String
  pub source_event_ids : List EventId
  pub scope : MemoryScope
  pub freshness : MemoryFreshness
  pub version : ℕ
  pub status : MemoryStatus
  pub author : MemoryAuthor

pub data MemoryError : Type 0 where
  source_required invalid_item unsupported_source inference_cannot_be_confirmed : MemoryError
  forbidden_actor not_found duplicate_id invalid_transition : MemoryError

unfoldable pub validate : MemoryItem → Result (Unit {0}) MemoryError
validate item =
    if is_blank item.id || ltb 512 (byte_len item.id) || is_blank item.content
    then err invalid_item
    else if is_empty item.source_event_ids
    then err source_required
    else if item.version == 0
    then err invalid_item
    else ok tt

unfoldable pub author_for : EventSource → MemoryAuthor
author_for EventSource.user = user
author_for EventSource.supervisor = supervisor
author_for EventSource.agent = agent
author_for EventSource.system = system

-- The kind of an item, where its event is not inferred.
unfoldable pub kind_of : EventKind → EventSource → Result MemoryKind MemoryError
kind_of EventKind.contract_updated source = ok constraint
kind_of EventKind.approval_resolved source = ok confirmed_decision
kind_of EventKind.evidence_recorded source = ok fact
kind_of (EventKind.unknown text) EventSource.user = ok preference
kind_of _ _ = err unsupported_source

-- The kind of an item, by the confidence of its event.
unfoldable pub item_kind : EventConfidence → EventKind → EventSource → Result MemoryKind MemoryError
unfolding kind_of
item_kind EventConfidence.inferred kind source = ok inference
item_kind _ kind source = kind_of kind source

unfoldable pub scope_of : EventKind → MemoryScope
scope_of EventKind.contract_updated = mission
scope_of _ = route

-- The events that `extract_candidates` looks at, by their kind and their source.
unfoldable pub eligible : EventKind → EventSource → Bool
eligible EventKind.contract_updated source = true
eligible EventKind.approval_resolved source = true
eligible EventKind.evidence_recorded source = true
eligible _ EventSource.user = true
eligible _ source = false

-- The JSON library, its text of a value, and the print of an identifier.
pub record Texts : Type 1 where
  pub json : Json
  pub to_text : json.Value → Option String
  pub show_id : EventId → String

module _ (t : Texts) where
  open t use {json, to_text, show_id}

  -- The loop over the fields of `content_from_payload`.
  unfoldable pub first_text : json.Value → List String → Option String
  first_text payload [] = none
  first_text payload (field ∷ fields) =
      let rest = first_text payload fields in
      elim (json.get_str payload field) [
        | none ↦ rest
        | some value ↦ if not (is_blank value) then some value else rest
      ]

  unfoldable pub content_from_payload : json.Value → Result String MemoryError
  unfolding first_text
  content_from_payload payload =
      elim (first_text payload ("summary" ∷ "goal" ∷ "decision" ∷ "preference" ∷ "reason" ∷ [])) [
        | some text ↦ ok text
        | none ↦ ok_or (to_text payload) invalid_item
      ]

  unfoldable pub from_event : EventEnvelope json → Result MemoryItem MemoryError
  unfolding content_from_payload item_kind scope_of author_for validate
  from_event e = content_from_payload e.payload >>= λ content.
      item_kind e.confidence e.kind e.source >>= λ kind.
      let item : MemoryItem = record {
        id = cat "memory:" (show_id e.event_id);
        mission_id = e.mission_id;
        route_id = e.route_id;
        kind = kind;
        content = content;
        source_event_ids = e.event_id ∷ [];
        scope = scope_of e.kind;
        freshness = fresh;
        version = 1;
        status = candidate;
        author = author_for e.source;
      } in
      validate item >> ok item

  -- Whether an event was taken before.
  unfoldable pub contains : EventId → List EventId → Bool
  contains id [] = false
  contains id (x ∷ xs) = x == id || contains id xs

  -- The chain of `extract_candidates` with the events that it has seen; it stops at the first error.
  unfoldable pub extract_each :
      List EventId → List (EventEnvelope json) → Result (List MemoryItem) MemoryError
  unfolding eligible contains from_event
  extract_each seen [] = ok []
  extract_each seen (e ∷ es) =
      let rest = extract_each seen es in
      let rest_seen = extract_each (e.event_id ∷ seen) es in
      if not (eligible e.kind e.source) || contains e.event_id seen
      then rest
      else from_event e >>= λ item. rest_seen >>= λ items. ok (item ∷ items)

  unfoldable pub extract_candidates :
      List (EventEnvelope json) → Result (List MemoryItem) MemoryError
  unfolding extract_each
  extract_candidates events = extract_each [] events
