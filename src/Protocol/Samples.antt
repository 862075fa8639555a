-- ===== src/Protocol/Samples.antt =====
-- A hash that is the message itself, and messages of one byte.
use agent_mission_control.Prelude.{
  ℕ, ◌≡◌, ◌++◌, refl, true, false, Option, none, some, [], ◌∷◌, ok, is_ok, replicate, arith,
}
use agent_mission_control.Protocol.Bytes.{Bytes, to_le_bytes, same_bytes, same_bytes_refl}
use agent_mission_control.Protocol.Handshake.{
  Handshake, Mac, new_verifier, update_proof, has_nonce, drop_expired, remove_expired,
  handshake_proof, checked, conclude, verify_at, nonce_bytes,
}
use agent_mission_control.Protocol.Nonces.{Attempt, attempt, run, replay_refused, honest_accepted}
use agent_mission_control.Protocol.Frame.{Wire, write_frame, write_each, read_each, write_each-read}

abbrev plain_mac : Mac
plain_mac = record {
  takes_key = λ key. true;
  tag = λ key message. message;
  verify_slice = λ key message proof. same_bytes proof message;
  as_bytes = λ s. [];
}

abbrev nonce : Bytes
nonce = replicate nonce_bytes 5

abbrev hello : Handshake
hello = record {
  install_id = "i";
  protocol_versions = 1 ∷ [];
  nonce = nonce;
  proof = update_proof [] nonce (1 ∷ []);
}

abbrev first : Attempt
first = record { install_secret = some (3 ∷ []); handshake = hello; now = 10 }

abbrev again : Attempt
again = record { install_secret = some (3 ∷ []); handshake = hello; now = 20 }

first_accepted : is_ok (attempt plain_mac (new_verifier "i") first).1 ≡ true
unfolding verify_at conclude checked remove_expired drop_expired has_nonce update_proof to_le_bytes
    same_bytes
first_accepted = refl

replay_refused_example :
    is_ok
      (attempt plain_mac
        (run plain_mac (attempt plain_mac (new_verifier "i") first).0 (again ∷ []))
        again).1
    ≡ false
replay_refused_example =
    replay_refused plain_mac (new_verifier "i") first again (again ∷ []) first_accepted refl
      (omega arith, tt) (omega arith)

honest_accepted_example :
    (verify_at plain_mac (new_verifier "i") (some (3 ∷ [])) hello 10).1
    ≡ ok (record { accepted_version = 1 })
honest_accepted_example =
    honest_accepted plain_mac (new_verifier "i") (3 ∷ []) hello 10
      (λ key message. same_bytes_refl message) (unfold handshake_proof in refl) refl refl refl
      (unfold has_nonce in unfold remove_expired in unfold drop_expired in refl)
      (unfold remove_expired in unfold drop_expired in omega arith)

abbrev one_byte : Bytes → Option ℕ
one_byte (n ∷ []) = some n
one_byte _ = none

abbrev byte_wire : Wire
byte_wire = record {
  Value = ℕ;
  to_vec = λ n. some (n ∷ []);
  is_utf8 = λ bytes. true;
  from_str = one_byte;
}

two_frames : write_each byte_wire [] (7 ∷ 9 ∷ []) ≡ ok (1 ∷ 0 ∷ 0 ∷ 0 ∷ 7 ∷ 1 ∷ 0 ∷ 0 ∷ 0 ∷ 9 ∷ [])
unfolding write_frame to_le_bytes
two_frames = refl

byte_reads_back :
    (value : ℕ) (payload : Bytes)
    → some (value ∷ []) ≡ some payload
    → (true ≡ true) × (one_byte payload ≡ some value)
byte_reads_back value payload texts =
    let same : value ∷ [] ≡ payload = ground arith in rw⁻¹ same (refl, refl)

write_each-read_example :
    (frames : Bytes) × ((1 ∷ 0 ∷ 0 ∷ 0 ∷ 7 ∷ 1 ∷ 0 ∷ 0 ∷ 0 ∷ 9 ∷ []) ≡ [] ++ frames)
    × ((rest : Bytes) → read_each byte_wire 2 (frames ++ rest) ≡ ok (7 ∷ 9 ∷ [], rest))
write_each-read_example =
    write_each-read byte_wire byte_reads_back (7 ∷ 9 ∷ []) []
      (1 ∷ 0 ∷ 0 ∷ 0 ∷ 7 ∷ 1 ∷ 0 ∷ 0 ∷ 0 ∷ 9 ∷ []) two_frames
