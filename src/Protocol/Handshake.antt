-- ===== src/Protocol/Handshake.antt =====
-- crates/protocol/src/handshake.rs: how a client proves that it has the secret of the installation. A time is
-- a number of nanoseconds; the keyed hash is the record `Mac`, and the secret that the provider gives, or
-- its failure, is an argument of a call.
use agent_mission_control.Prelude.{
  ℕ, ◌*◌, ◌-◌, ◌%◌, ◌^◌, Bool, not, ◌==◌, leb, Option, none, some, List, [], ◌∷◌, ◌++◌, length, any,
  String, Result, ok, err, ◌>>=◌, ◌>>◌, ok_or, refuse_if, if◌then◌else◌,
}
use agent_mission_control.Prelude.Text.{str_eq}
use agent_mission_control.Protocol.Bytes.{Bytes, to_le_bytes, same_bytes}

abbrev pub protocol_version : ℕ
protocol_version = 1

abbrev pub nonce_bytes : ℕ
nonce_bytes = 32

-- Ten minutes.
abbrev pub nonce_ttl : ℕ
nonce_ttl = 10 * 60 * 1000000000

abbrev pub max_cached_nonces : ℕ
max_cached_nonces = 4096

pub record Handshake : Type 0 where
  pub install_id : String
  pub protocol_versions : List ℕ
  pub nonce : Bytes
  pub proof : Bytes

pub record HandshakeAccepted : Type 0 where
  pub accepted_version : ℕ

pub data ProtocolErrorCode : Type 0 where
  auth_failed replayed_nonce frame_too_large incompatible_protocol invalid_frame : ProtocolErrorCode

-- HMAC with SHA-256: the keys that it takes, its tag, and its test of a tag.
pub record Mac : Type 0 where
  pub takes_key : Bytes → Bool
  pub tag : Bytes → Bytes → Bytes
  pub verify_slice : Bytes → Bytes → Bytes → Bool
  pub as_bytes : String → Bytes

abbrev pub each_version : List ℕ → Bytes
each_version [] = []
each_version (v ∷ vs) = to_le_bytes v ++ each_version vs

-- The label of `update_proof`, `b"mission-control-handshake-v1\0"`.
abbrev pub label : Bytes
label =
    0x6d ∷ 0x69 ∷ 0x73 ∷ 0x73 ∷ 0x69 ∷ 0x6f ∷ 0x6e ∷ 0x2d ∷ 0x63 ∷ 0x6f ∷ 0x6e ∷ 0x74 ∷ 0x72 ∷ 0x6f
    ∷ 0x6c ∷ 0x2d ∷ 0x68 ∷ 0x61 ∷ 0x6e ∷ 0x64 ∷ 0x73 ∷ 0x68 ∷ 0x61 ∷ 0x6b ∷ 0x65 ∷ 0x2d ∷ 0x76
    ∷ 0x31 ∷ 0x0 ∷ []

-- The bytes that `update_proof` feeds to the hash; `as u32` wraps.
unfoldable pub update_proof : Bytes → Bytes → List ℕ → Bytes
update_proof install_id nonce protocol_versions =
    label
    ++ to_le_bytes (length install_id % 2 ^ 32)
    ++ install_id
    ++ to_le_bytes (length nonce % 2 ^ 32)
    ++ nonce
    ++ to_le_bytes (length protocol_versions % 2 ^ 32)
    ++ each_version protocol_versions

pub record HandshakeVerifier : Type 0 where
  pub expected_install_id : String
  pub nonces : List (Bytes × ℕ)

-- `HandshakeVerifier::new`.
abbrev pub new_verifier : String → HandshakeVerifier
new_verifier expected_install_id = record { expected_install_id = expected_install_id; nonces = [] }

-- The loop of `remove_expired`; the difference of two times stops at 0.
unfoldable pub drop_expired : ℕ → List (Bytes × ℕ) → List (Bytes × ℕ)
drop_expired now [] = []
drop_expired now ((nonce, inserted) ∷ rest) =
    let later = drop_expired now rest in
    if leb nonce_ttl (now - inserted) then later else (nonce, inserted) ∷ rest

unfoldable pub remove_expired : HandshakeVerifier → ℕ → HandshakeVerifier
unfolding drop_expired
remove_expired v now = record v { nonces = drop_expired now v.nonces }

unfoldable pub has_nonce : Bytes → List (Bytes × ℕ) → Bool
unfolding same_bytes
has_nonce nonce entries = any (λ e. same_bytes e.0 nonce) entries

module _ (mac : Mac) where
  unfoldable pub handshake_proof : Bytes → String → Bytes → List ℕ → Option Bytes
  unfolding update_proof
  handshake_proof secret install_id nonce protocol_versions =
      if mac.takes_key secret
      then some (mac.tag secret (update_proof (mac.as_bytes install_id) nonce protocol_versions))
      else none

  -- What `verify_at` checks behind the expired nonces.
  unfoldable pub checked :
      HandshakeVerifier → Option Bytes → Handshake → Result (Unit {0}) ProtocolErrorCode
  unfolding has_nonce update_proof
  checked v install_secret h = do
    refuse_if (not (any (λ n. n == protocol_version) h.protocol_versions)) incompatible_protocol
    refuse_if (not (str_eq h.install_id v.expected_install_id)) auth_failed
    refuse_if (not (length h.nonce == nonce_bytes)) auth_failed
    refuse_if (has_nonce h.nonce v.nonces) replayed_nonce
    refuse_if (length v.nonces == max_cached_nonces) auth_failed
    secret ← ok_or install_secret auth_failed
    refuse_if (not (mac.takes_key secret)) auth_failed
    refuse_if
        (not (
          mac.verify_slice secret
            (update_proof (mac.as_bytes h.install_id) h.nonce h.protocol_versions) h.proof))
        auth_failed

  -- An accepted handshake leaves its nonce.
  unfoldable pub conclude :
      HandshakeVerifier
      → Handshake
      → ℕ
      → Result (Unit {0}) ProtocolErrorCode
      → HandshakeVerifier × Result HandshakeAccepted ProtocolErrorCode
  conclude v h now (ok _) = (
    record v { nonces = v.nonces ++ (h.nonce, now) ∷ [] },
    ok (record { accepted_version = protocol_version }),
  )
  conclude v h now (err e) = (v, err e)

  unfoldable pub verify_at :
      HandshakeVerifier
      → Option Bytes
      → Handshake
      → ℕ
      → HandshakeVerifier × Result HandshakeAccepted ProtocolErrorCode
  unfolding remove_expired checked conclude
  verify_at v install_secret h now =
      conclude (remove_expired v now) h now (checked (remove_expired v now) install_secret h)
