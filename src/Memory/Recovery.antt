-- ===== src/Memory/Recovery.antt =====
-- crates/memory/src/recovery.rs: the package that a mission is recovered from. A set of permissions is the
-- list of its members; the store of blobs and the serialization are the record `Packing`.
use agent_mission_control.Prelude.{
  ℕ, Bool, true, false, not, ◌||◌, ◌==◌, ltb, Option, none, some, List, all, any, is_empty, String,
  Result, ok, err, ◌>>=◌, ◌>>◌, ok_or, refuse_if, if◌then◌else◌,
}
use agent_mission_control.Prelude.Text.{str_eq, is_blank, byte_len}
use agent_mission_control.Domain.Ids.{MissionId, RouteId}
use agent_mission_control.Domain.Event.{hex}

abbrev pub schema_version : ℕ
schema_version = 1

abbrev pub recovery_media_type : String
recovery_media_type = "application/vnd.mission-control.recovery+json"

pub record RecoveryInput : Type 0 where
  pub mission_id : MissionId
  pub route_id : RouteId
  pub contract_version : ℕ
  pub checkpoint_id : String
  pub ledger_sequence : ℕ
  pub loadout_fingerprint : String
  pub context_pack_hash : String
  pub pending_approval_hash : Option String
  pub permissions : List String
  pub payload : List ℕ

pub record RecoveryConstraints : Type 0 where
  pub mission_id : MissionId
  pub route_id : RouteId
  pub contract_version : ℕ
  pub ledger_sequence : ℕ
  pub loadout_fingerprint : String
  pub context_pack_hash : String
  pub pending_approval_hash : Option String
  pub permissions : List String

pub record RecoveryManifest : Type 0 where
  pub version : ℕ
  pub mission_id : MissionId
  pub route_id : RouteId
  pub contract_version : ℕ
  pub checkpoint_id : String
  pub ledger_sequence : ℕ
  pub loadout_fingerprint : String
  pub context_pack_hash : String
  pub pending_approval_hash : Option String
  pub permissions : List String
  pub entry_hash : String

pub data RecoveryError : Type 0 where
  invalid_input blob_integrity manifest_tampered sequence_invalid permission_expansion :
      RecoveryError
  binding_mismatch pending_approval_mismatch : RecoveryError
  blob_store : String → RecoveryError

-- `BlobStoreError`, as `From` reads it: the failed integrity check, or the text of another error.
pub data BlobStoreError : Type 0 where
  integrity_failed : BlobStoreError
  other : String → BlobStoreError

unfoldable pub from_blob_store : BlobStoreError → RecoveryError
from_blob_store integrity_failed = blob_integrity
from_blob_store (other text) = blob_store text

-- The encrypted store of blobs, a blob's media type, and the bytes that are hashed of a manifest.
pub record Packing : Type 1 where
  pub Store : Type 0
  pub BlobRef : Type 0
  pub media_type : BlobRef → String
  pub put : Store → List ℕ → String → Store × Result BlobRef BlobStoreError
  pub read : Store → BlobRef → Result (List ℕ) BlobStoreError
  pub to_vec : RecoveryManifest → BlobRef → Option (List ℕ)
  pub sha256 : List ℕ → List ℕ

unfoldable pub validate_input : RecoveryInput → Result (Unit {0}) RecoveryError
validate_input input =
    if is_blank input.checkpoint_id
      || ltb 512 (byte_len input.checkpoint_id)
      || is_blank input.loadout_fingerprint
      || is_blank input.context_pack_hash
      || is_empty input.payload
    then err invalid_input
    else refuse_if (any (λ p. is_blank p || ltb 128 (byte_len p)) input.permissions) invalid_input

-- `==` on `Option<String>`.
unfoldable pub same_hash : Option String → Option String → Bool
same_hash none none = true
same_hash (some s) (some t) = str_eq s t
same_hash _ _ = false

-- `BTreeSet::is_subset`.
unfoldable pub is_subset : List String → List String → Bool
is_subset small large = all (λ p. any (λ q. str_eq q p) large) small

-- The manifest of an input, whose hash is still empty.
unfoldable pub unsigned_manifest : RecoveryInput → RecoveryManifest
unsigned_manifest input = record {
  version = schema_version;
  mission_id = input.mission_id;
  route_id = input.route_id;
  contract_version = input.contract_version;
  checkpoint_id = input.checkpoint_id;
  ledger_sequence = input.ledger_sequence;
  loadout_fingerprint = input.loadout_fingerprint;
  context_pack_hash = input.context_pack_hash;
  pending_approval_hash = input.pending_approval_hash;
  permissions = input.permissions;
  entry_hash = "";
}

module _ (k : Packing) where
  open k use {Store, BlobRef, media_type, put, read, to_vec, sha256}

  pub record RecoveryPackage : Type 0 where
    pub manifest : RecoveryManifest
    pub blob : BlobRef

  unfoldable pub digest_manifest : RecoveryManifest → BlobRef → Result String RecoveryError
  digest_manifest manifest blob =
      ok_or (to_vec (record manifest { entry_hash = "" }) blob) invalid_input >>= λ bytes.
      ok (hex (sha256 bytes))

  unfoldable pub seal : RecoveryManifest → BlobRef → Result RecoveryPackage RecoveryError
  unfolding digest_manifest
  seal manifest blob = digest_manifest manifest blob >>= λ hash.
      ok (record { manifest = record manifest { entry_hash = hash }; blob = blob })

  -- What follows the `put` of the payload.
  unfoldable pub packaged :
      RecoveryInput
      → Store × Result BlobRef BlobStoreError
      → Store × Result RecoveryPackage RecoveryError
  unfolding seal unsigned_manifest from_blob_store
  packaged input (s, ok blob) = (s, seal (unsigned_manifest input) blob)
  packaged input (s, err e) = (s, err (from_blob_store e))

  unfoldable pub build_recovery_package :
      Store → RecoveryInput → Store × Result RecoveryPackage RecoveryError
  unfolding validate_input packaged
  build_recovery_package s input = elim (validate_input input) [
    | err e ↦ (s, err e)
    | ok u ↦ packaged input (put s input.payload recovery_media_type)
  ]

  unfoldable pub map_store : Result (List ℕ) BlobStoreError → Result (List ℕ) RecoveryError
  unfolding from_blob_store
  map_store (ok bytes) = ok bytes
  map_store (err e) = err (from_blob_store e)

  -- The first test of `verify`, whose digest is only made where the version and the media type fit.
  unfoldable pub is_sealed : RecoveryPackage → Result Bool RecoveryError
  unfolding digest_manifest
  is_sealed p =
      let digest = digest_manifest p.manifest p.blob in
      if not (p.manifest.version == schema_version)
        || not (str_eq (media_type p.blob) recovery_media_type)
      then ok false
      else digest >>= λ hash. ok (str_eq p.manifest.entry_hash hash)

  unfoldable pub verify :
      RecoveryPackage → Store → RecoveryConstraints → Result (List ℕ) RecoveryError
  unfolding is_sealed same_hash is_subset map_store
  verify p s c =
      let m = p.manifest in
      is_sealed p >>= λ intact.
      refuse_if (not intact) manifest_tampered
      >> refuse_if (ltb c.ledger_sequence m.ledger_sequence) sequence_invalid
      >> refuse_if
          (not (m.mission_id == c.mission_id)
            || not (m.route_id == c.route_id)
            || not (m.contract_version == c.contract_version)
            || not (str_eq m.loadout_fingerprint c.loadout_fingerprint)
            || not (str_eq m.context_pack_hash c.context_pack_hash))
          binding_mismatch
      >> refuse_if (not (same_hash m.pending_approval_hash c.pending_approval_hash))
          pending_approval_mismatch
      >> refuse_if (not (is_subset m.permissions c.permissions)) permission_expansion
      >> map_store (read s p.blob)
