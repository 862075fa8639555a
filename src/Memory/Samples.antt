-- ===== src/Memory/Samples.antt =====
-- A store of memory, and a pack of context.
use mathlib.Core.List.{Perm}
use agent_mission_control.Prelude.{
  inl, inr, ℕ, ◌↔◌, ◌≤◌, ◌≡◌, refl, none, some, List, [], ◌∷◌, String, ok, arith,
}
use agent_mission_control.Prelude.Text.{is_blank, byte_len}
use agent_mission_control.Domain.Event.{Json, EventKind, EventEnvelope, new, hex, hex_digit}
use agent_mission_control.Memory.Item.{
  MemoryKind, MemoryScope, MemoryStatus, MemoryAuthor, MemoryItem, Texts, fresh, validate, kind_of,
  item_kind, scope_of, author_for, eligible, first_text, content_from_payload, from_event, contains,
  extract_each, extract_candidates,
}
use agent_mission_control.Memory.Store.{Changes, MemoryStore, empty_store}
use agent_mission_control.Memory.History.{Call, inserts, confirms, edits, rejects, run}
use agent_mission_control.Memory.Audit.{IsAudited, run-empty-IsAudited}
use agent_mission_control.Memory.ContextPack.{
  ContextKind, ContextCandidate, ContextPack, Digest, priority, char_count, estimate_tokens,
  comes_first, insert_candidate, sort_candidates, item_of, excluded_of, saturating_add_u32,
  pack_each, validate_candidate, validate_each, digest, build_context_pack,
}
use agent_mission_control.Memory.Recovery.{
  recovery_media_type, RecoveryInput, RecoveryConstraints, Packing, RecoveryPackage, validate_input,
  is_subset, unsigned_manifest, digest_manifest, seal, packaged, build_recovery_package, verify,
}
use agent_mission_control.Memory.Packages.{
  IsBound, IsSealed, verify_iff, build_recovery_package-verify,
}
use agent_mission_control.Memory.Packing.{total, Ascending, Packs, build_context_pack_lem}

abbrev texts_json : Json
texts_json = record {
  Value = String;
  to_vec = λ v. [];
  sha256 = λ bytes. bytes;
  get_u64 = λ v field. none;
  get_str = λ v field. none;
}

abbrev changes_of_texts : Changes
changes_of_texts = record {
  json = texts_json;
  change_payload = λ action item. item.content;
  fresh_id = λ n. n;
}

abbrev decision : MemoryStatus → ℕ → MemoryItem
decision status version = record {
  id = "memory:e1";
  mission_id = 1;
  route_id = 2;
  kind = MemoryKind.confirmed_decision;
  content = "keep it small";
  source_event_ids = 7 ∷ [];
  scope = MemoryScope.route;
  freshness = fresh;
  version = version;
  status = status;
  author = MemoryAuthor.user;
}

abbrev calls : List (Call changes_of_texts)
calls =
    inserts (decision MemoryStatus.candidate 1)
    ∷ confirms "memory:e1" MemoryAuthor.agent
    ∷ confirms "memory:e1" MemoryAuthor.user
    ∷ edits "memory:e1" MemoryAuthor.user "keep it tiny"
    ∷ rejects "memory:e1" MemoryAuthor.user
    ∷ []

run-empty-IsAudited_example :
    IsAudited changes_of_texts (run changes_of_texts (empty_store changes_of_texts) calls)
run-empty-IsAudited_example = run-empty-IsAudited changes_of_texts calls

abbrev rejected_store : MemoryStore changes_of_texts
rejected_store = record {
  items = ("memory:e1", decision MemoryStatus.rejected 2) ∷ [];
  history = [];
  next_sequence = 0;
}

-- An event is taken once, and its content is the text of its payload.
abbrev texts : Texts
texts = record { json = texts_json; to_text = λ v. some v; show_id = λ id. "e1" }

abbrev evidence : EventEnvelope texts_json
evidence = new texts_json 7 1 2 1 EventKind.evidence_recorded "tests pass"

extracted_once :
    extract_candidates texts (evidence ∷ evidence ∷ [])
    ≡ ok (
        record (decision MemoryStatus.candidate 1) {
          kind = MemoryKind.fact;
          content = "tests pass";
          author = MemoryAuthor.supervisor;
        }
        ∷ [])
unfolding extract_candidates extract_each contains eligible from_event content_from_payload
    first_text item_kind kind_of scope_of author_for validate is_blank byte_len new
extracted_once = refl

abbrev sum_digest : Digest
sum_digest = record { to_vec = λ m r max items excluded. some (171 ∷ []); sha256 = λ bytes. bytes }

abbrev piece : String → ContextKind → String → ContextCandidate
piece id kind content = record {
  id = id;
  kind = kind;
  content = content;
  source_event_ids = 7 ∷ [];
  version = 1;
}

abbrev pieces : List ContextCandidate
pieces =
    piece "e" ContextKind.evidence "12345678"
    ∷ piece "m" ContextKind.confirmed_memory "1234"
    ∷ piece "c" ContextKind.contract "12345"
    ∷ []

abbrev packed : ContextPack
packed = record {
  mission_id = 1;
  route_id = 2;
  max_tokens = 3;
  items =
      item_of (piece "c" ContextKind.contract "12345")
      ∷ item_of (piece "m" ContextKind.confirmed_memory "1234")
      ∷ [];
  excluded = excluded_of (piece "e" ContextKind.evidence "12345678") ∷ [];
  hash = "ab";
}

packed_lem : build_context_pack sum_digest 1 2 3 pieces ≡ ok packed
unfolding build_context_pack pack_each saturating_add_u32 estimate_tokens char_count sort_candidates
    insert_candidate comes_first priority validate_each validate_candidate is_blank byte_len digest
    hex hex_digit
packed_lem = refl

build_context_pack_lem_example :
    ((ordered : List ContextCandidate) × Perm pieces ordered
      × Ascending ordered
      × Packs 3 0 ordered packed.items packed.excluded)
    × (total packed.items ≤ 3)
build_context_pack_lem_example =
    build_context_pack_lem sum_digest 1 2 3 pieces packed (omega arith) packed_lem

-- A store that holds one payload.
abbrev one_blob : Packing
one_blob = record {
  Store = List ℕ;
  BlobRef = String;
  media_type = λ blob. blob;
  put = λ s payload media. (payload, ok media);
  read = λ s blob. ok s;
  to_vec = λ m blob. some (171 ∷ []);
  sha256 = λ bytes. bytes;
}

abbrev recovery_input : RecoveryInput
recovery_input = record {
  mission_id = 1;
  route_id = 2;
  contract_version = 3;
  checkpoint_id = "c1";
  ledger_sequence = 4;
  loadout_fingerprint = "f1";
  context_pack_hash = "ab";
  pending_approval_hash = none;
  permissions = "read" ∷ [];
  payload = 7 ∷ [];
}

abbrev recovery_constraints : RecoveryConstraints
recovery_constraints = record {
  mission_id = 1;
  route_id = 2;
  contract_version = 3;
  ledger_sequence = 9;
  loadout_fingerprint = "f1";
  context_pack_hash = "ab";
  pending_approval_hash = none;
  permissions = "write" ∷ "read" ∷ [];
}

abbrev wrapped : RecoveryPackage one_blob
wrapped = record {
  manifest = record (unsigned_manifest recovery_input) { entry_hash = "ab" };
  blob = recovery_media_type;
}

built_package : build_recovery_package one_blob [] recovery_input ≡ (7 ∷ [], ok wrapped)
unfolding build_recovery_package packaged seal digest_manifest validate_input unsigned_manifest
    is_blank byte_len hex hex_digit
built_package = refl

input-IsBound : IsBound (unsigned_manifest recovery_input) recovery_constraints
unfolding unsigned_manifest is_subset
input-IsBound = record {
  mission = refl;
  route = refl;
  contract = refl;
  loadout = refl;
  pack = refl;
  approval = refl;
  not_later = omega arith;
  no_expansion = (inr (inl refl), tt);
}

build_recovery_package-verify_example :
    verify one_blob wrapped (7 ∷ []) recovery_constraints ≡ ok (7 ∷ [])
build_recovery_package-verify_example =
    build_recovery_package-verify one_blob [] (7 ∷ []) recovery_input wrapped recovery_constraints
      (λ u payload media v blob stored. ground arith) built_package input-IsBound

verify_iff_example : (verify one_blob wrapped (7 ∷ []) recovery_constraints ≡ ok (7 ∷ [])) ↔ (
    IsSealed one_blob wrapped
    × IsBound wrapped.manifest recovery_constraints
    × (one_blob.read (7 ∷ []) wrapped.blob ≡ ok (7 ∷ [])))
verify_iff_example = verify_iff one_blob wrapped (7 ∷ []) recovery_constraints (7 ∷ [])
