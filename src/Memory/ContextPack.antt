-- ===== src/Memory/ContextPack.antt =====
-- crates/memory/src/context_pack.rs: the context of an agent, packed under a budget of tokens.

use Prim.Native.Nat.{lt, eq, gt}
use Prim.Native.String.{compare}
use agent_mission_control.Prelude.{
  is_empty, ℕ, suc, ◌+◌, ◌/◌, ◌%◌, ◌^◌, ◌-◌, min, max, Bool, true, false, not, ◌||◌, ◌==◌, ltb, leb,
  Option, List, [], ◌∷◌, String, Result, ok, ◌>>=◌, ◌>>◌, ok_or, refuse_if, if◌then◌else◌,
}
use agent_mission_control.Prelude.Text.{is_blank, byte_len}
use agent_mission_control.Domain.Ids.{EventId, MissionId, RouteId}
use agent_mission_control.Domain.Event.{hex}
use agent_mission_control.Memory.Item.{MemoryItem}
use agent_mission_control.Memory.Store.{is_confirmed}

pub data ContextKind : Type 0 where
  contract route_checkpoint approval blocker risk evidence confirmed_memory : ContextKind

unfoldable pub priority : ContextKind → ℕ
priority contract = 0
priority route_checkpoint = 1
priority approval = 2
priority blocker = 2
priority risk = 2
priority evidence = 3
priority confirmed_memory = 4

pub record ContextCandidate : Type 0 where
  pub id : String
  pub kind : ContextKind
  pub content : String
  pub source_event_ids : List EventId
  pub version : ℕ

pub data ContextPackError : Type 0 where
  budget_invalid invalid_candidate unconfirmed_memory : ContextPackError

unfoldable pub validate_candidate : ContextCandidate → Result (Unit {0}) ContextPackError
validate_candidate c =
    refuse_if
      (is_blank c.id
        || ltb 512 (byte_len c.id)
        || is_blank c.content
        || is_empty c.source_event_ids
        || c.version == 0)
      invalid_candidate

-- `kind == ContextKind::ConfirmedMemory`.
unfoldable pub is_memory : ContextKind → Bool
is_memory confirmed_memory = true
is_memory _ = false

unfoldable pub new_candidate :
    String → ContextKind → String → List EventId → ℕ → Result ContextCandidate ContextPackError
unfolding validate_candidate is_memory
new_candidate id kind content source_event_ids version =
    let candidate : ContextCandidate = record {
      id = id;
      kind = kind;
      content = content;
      source_event_ids = source_event_ids;
      version = version;
    } in
    refuse_if (is_memory kind) unconfirmed_memory >> validate_candidate candidate >> ok candidate

unfoldable pub from_memory : MemoryItem → Result ContextCandidate ContextPackError
unfolding validate_candidate is_confirmed
from_memory item =
    let candidate : ContextCandidate = record {
      id = item.id;
      kind = confirmed_memory;
      content = item.content;
      source_event_ids = item.source_event_ids;
      version = item.version;
    } in
    refuse_if (not (is_confirmed item.status)) unconfirmed_memory
    >> validate_candidate candidate
    >> ok candidate

pub record ContextItem : Type 0 where
  pub id : String
  pub kind : ContextKind
  pub content : String
  pub source_event_ids : List EventId
  pub version : ℕ
  pub token_estimate : ℕ

pub data ExclusionReason : Type 0 where
  budget : ExclusionReason

pub record ExcludedContext : Type 0 where
  pub id : String
  pub reason : ExclusionReason

pub record ContextPack : Type 0 where
  pub mission_id : MissionId
  pub route_id : RouteId
  pub max_tokens : ℕ
  pub items : List ContextItem
  pub excluded : List ExcludedContext
  pub hash : String

abbrev pub u32_max : ℕ
u32_max = 2 ^ 32 - 1

-- `chars().count()`.
unfoldable pub char_count : String → ℕ
char_count String.[] = 0
char_count (String.◌∷◌ c s) = suc (char_count s)

-- `div_ceil(4).max(1) as u32`.
unfoldable pub estimate_tokens : String → ℕ
unfolding char_count
estimate_tokens content = max ((char_count content + 3) / 4) 1 % 2 ^ 32

-- The order of `sort_by`: priority, then identifier, then version.
unfoldable pub comes_first : ContextCandidate → ContextCandidate → Bool
unfolding priority
comes_first a b =
    if ltb (priority a.kind) (priority b.kind)
    then true
    else if ltb (priority b.kind) (priority a.kind)
    then false
    else elim (compare a.id b.id) [ lt ↦ true | eq ↦ leb a.version b.version | gt ↦ false ]

-- `sort_by`, which is stable.
unfoldable pub insert_candidate : ContextCandidate → List ContextCandidate → List ContextCandidate
unfolding comes_first
insert_candidate c [] = c ∷ []
insert_candidate c (x ∷ xs) =
    let rest = insert_candidate c xs in if comes_first c x then c ∷ x ∷ xs else x ∷ rest

unfoldable pub sort_candidates : List ContextCandidate → List ContextCandidate
unfolding insert_candidate
sort_candidates [] = []
sort_candidates (c ∷ cs) = insert_candidate c (sort_candidates cs)

unfoldable pub item_of : ContextCandidate → ContextItem
unfolding estimate_tokens
item_of c = record {
  id = c.id;
  kind = c.kind;
  content = c.content;
  source_event_ids = c.source_event_ids;
  version = c.version;
  token_estimate = estimate_tokens c.content;
}

unfoldable pub excluded_of : ContextCandidate → ExcludedContext
excluded_of c = record { id = c.id; reason = budget }

-- `u32::saturating_add`.
unfoldable pub saturating_add_u32 : ℕ → ℕ → ℕ
saturating_add_u32 a b = min (a + b) u32_max

-- The loop over the candidates in their order, with the tokens that are used.
unfoldable pub pack_each : ℕ → ℕ → List ContextCandidate → List ContextItem × List ExcludedContext
unfolding saturating_add_u32 item_of excluded_of
pack_each max_tokens used [] = ([], [])
pack_each max_tokens used (c ∷ cs) =
    let next = saturating_add_u32 used (estimate_tokens c.content) in
    let taken = pack_each max_tokens next cs in
    let left = pack_each max_tokens used cs in
    if leb next max_tokens then (item_of c ∷ taken.0, taken.1) else (left.0, excluded_of c ∷ left.1)

unfoldable pub validate_each : List ContextCandidate → Result (Unit {0}) ContextPackError
unfolding validate_candidate
validate_each [] = ok tt
validate_each (c ∷ cs) = validate_candidate c >> validate_each cs

-- The serialization of a pack without its hash, and the hash.
pub record Digest : Type 0 where
  pub to_vec : MissionId → RouteId → ℕ → List ContextItem → List ExcludedContext → Option (List ℕ)
  pub sha256 : List ℕ → List ℕ

module _ (d : Digest) where
  unfoldable pub digest :
      MissionId
      → RouteId
      → ℕ
      → List ContextItem
      → List ExcludedContext
      → Result String ContextPackError
  digest mission_id route_id max_tokens items excluded =
      ok_or (d.to_vec mission_id route_id max_tokens items excluded) invalid_candidate >>= λ bytes.
      ok (hex (d.sha256 bytes))

  unfoldable pub build_context_pack :
      MissionId → RouteId → ℕ → List ContextCandidate → Result ContextPack ContextPackError
  unfolding validate_each sort_candidates pack_each digest
  build_context_pack mission_id route_id max_tokens candidates =
      let packed = pack_each max_tokens 0 (sort_candidates candidates) in
      refuse_if (max_tokens == 0) budget_invalid
      >> validate_each candidates
      >> digest mission_id route_id max_tokens packed.0 packed.1
      >>= λ hash. ok (record {
        mission_id = mission_id;
        route_id = route_id;
        max_tokens = max_tokens;
        items = packed.0;
        excluded = packed.1;
        hash = hash;
      })
