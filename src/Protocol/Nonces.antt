-- ===== src/Protocol/Nonces.antt =====
-- The nonces that a verifier has seen: none is taken twice while it counts, there are never too many, and an
-- honest client is let in.
use agent_mission_control.Prelude.{
  ℕ, ◌+◌, ◌-◌, ◌≤◌, ◌<◌, ◌≡◌, refl, sym, ap, ◌∙◌, ◌⊎◌, inl, inr, true, false, ◌==◌, leb, any,
  Bool-cases, Result-cases, Option, some, List, [], ◌∷◌, ◌++◌, length, length-append, All, String,
  Result, ok, err, is_ok, arith,
}
use mathlib.Core.Path.{subst}
use agent_mission_control.Prelude.Text.{str_eq_iff}
use agent_mission_control.Protocol.Bytes.{Bytes, same_bytes, same_bytes_refl}
use agent_mission_control.Protocol.Handshake.{
  protocol_version, nonce_bytes, nonce_ttl, max_cached_nonces, Handshake, HandshakeAccepted,
  ProtocolErrorCode, Mac, update_proof, HandshakeVerifier, new_verifier, drop_expired,
  remove_expired, has_nonce, handshake_proof, checked, conclude, verify_at,
}

-- The nonce stands among the entries, from that time on.
abbrev Remembers : Bytes → ℕ → List (Bytes × ℕ) → Type 0
Remembers nonce t [] = ⊥
Remembers nonce t ((n, s) ∷ rest) = ((n ≡ nonce) × (s ≡ t)) ⊎ Remembers nonce t rest

drop_expired-Remembers :
    (now : ℕ) (nonce : Bytes) (t : ℕ) (entries : List (Bytes × ℕ))
    → now < t + nonce_ttl
    → Remembers nonce t entries
    → Remembers nonce t (drop_expired now entries)
unfolding drop_expired
drop_expired-Remembers now nonce t [] fresh r = r
drop_expired-Remembers now nonce t ((n, s) ∷ rest) fresh r =
    elim (Bool-cases (leb nonce_ttl (now - s))) [
      | inl expired ↦ rw expired (elim r [
        | inl (same, here) ↦ absurd (ground arith)
        | inr later ↦ drop_expired-Remembers now nonce t rest fresh later
      ])
      | inr kept ↦ rw kept r
    ]

Remembers-append :
    (nonce : Bytes) (t : ℕ) (xs ys : List (Bytes × ℕ))
    → Remembers nonce t xs
    → Remembers nonce t (xs ++ ys)
Remembers-append nonce t [] ys r = absurd r
Remembers-append nonce t (x ∷ xs) ys (inl here) = inl here
Remembers-append nonce t (x ∷ xs) ys (inr later) = inr (Remembers-append nonce t xs ys later)

Remembers-last :
    (nonce : Bytes) (t : ℕ) (xs : List (Bytes × ℕ)) → Remembers nonce t (xs ++ (nonce, t) ∷ [])
Remembers-last nonce t [] = inl (refl, refl)
Remembers-last nonce t (x ∷ xs) = inr (Remembers-last nonce t xs)

Remembers-has_nonce :
    (nonce : Bytes) (t : ℕ) (entries : List (Bytes × ℕ))
    → Remembers nonce t entries
    → has_nonce nonce entries ≡ true
unfolding has_nonce
Remembers-has_nonce nonce t [] r = absurd r
Remembers-has_nonce nonce t (x ∷ xs) (inl (same, here)) =
    let found = ap (λ n. same_bytes n nonce) same ∙ same_bytes_refl nonce in ground arith
Remembers-has_nonce nonce t (x ∷ xs) (inr later) =
    let rest = Remembers-has_nonce nonce t xs later in ground arith

drop_expired-length :
    (now : ℕ) (entries : List (Bytes × ℕ)) → length (drop_expired now entries) ≤ length entries
unfolding drop_expired
drop_expired-length now [] = omega arith
drop_expired-length now ((n, s) ∷ rest) = elim (Bool-cases (leb nonce_ttl (now - s))) [
  | inl expired ↦ rw expired (omega (arith, drop_expired-length now rest))
  | inr kept ↦ rw kept (omega arith)
]

-- An attempt to shake hands: the secret that the provider gives, the handshake, and the time.
pub record Attempt : Type 0 where
  pub install_secret : Option Bytes
  pub handshake : Handshake
  pub now : ℕ

module _ (mac : Mac) where
  abbrev pub attempt :
      HandshakeVerifier → Attempt → HandshakeVerifier × Result HandshakeAccepted ProtocolErrorCode
  attempt v x = verify_at mac v x.install_secret x.handshake x.now

  abbrev pub run : HandshakeVerifier → List Attempt → HandshakeVerifier
  run v [] = v
  run v (x ∷ xs) = run (attempt v x).0 xs

  -- What an accepted handshake has passed.
  checked-ok :
      (v : HandshakeVerifier) (secret : Option Bytes) (h : Handshake)
      → checked mac v secret h ≡ ok tt
      → (has_nonce h.nonce v.nonces ≡ false) × (length v.nonces == max_cached_nonces ≡ false)
  unfolding checked
  checked-ok v secret h passed = ground arith

  conclude-Remembers :
      (v : HandshakeVerifier) (h : Handshake) (now : ℕ) (o : Result (Unit {0}) ProtocolErrorCode)
      (nonce : Bytes) (t : ℕ)
      → Remembers nonce t v.nonces
      → Remembers nonce t (conclude mac v h now o).0.nonces
  unfolding conclude
  conclude-Remembers v h now (ok u) nonce t r = Remembers-append nonce t v.nonces _ r
  conclude-Remembers v h now (err e) nonce t r = r

  run-Remembers :
      (v : HandshakeVerifier) (xs : List Attempt) (nonce : Bytes) (t : ℕ)
      → All (λ x. x.now < t + nonce_ttl) xs
      → Remembers nonce t v.nonces
      → Remembers nonce t (run v xs).nonces
  unfolding verify_at remove_expired
  run-Remembers v [] nonce t soon r = r
  run-Remembers v (x ∷ xs) nonce t soon r = run-Remembers (attempt v x).0 xs nonce t soon.1 (
      conclude-Remembers (remove_expired v x.now) x.handshake x.now
        (checked mac (remove_expired v x.now) x.install_secret x.handshake) nonce t
        (drop_expired-Remembers x.now nonce t v.nonces soon.0 r))

  conclude-ok :
      (v : HandshakeVerifier) (h : Handshake) (now : ℕ) (o : Result (Unit {0}) ProtocolErrorCode)
      → is_ok (conclude mac v h now o).1 ≡ is_ok o
  unfolding conclude
  conclude-ok v h now (ok u) = refl
  conclude-ok v h now (err e) = refl

  accepted-Remembers :
      (v : HandshakeVerifier) (x : Attempt)
      → is_ok (attempt v x).1 ≡ true
      → Remembers x.handshake.nonce x.now (attempt v x).0.nonces
  unfolding verify_at
  accepted-Remembers v x accepted =
      elim (Result-cases (checked mac (remove_expired v x.now) x.install_secret x.handshake)) [
        | inl (u, passed) ↦ rw passed (
            unfold conclude in
            Remembers-last x.handshake.nonce x.now (remove_expired v x.now).nonces)
        | inr (e, refusal) ↦
            let refused =
              conclude-ok (remove_expired v x.now) x.handshake x.now
                (checked mac (remove_expired v x.now) x.install_secret x.handshake) in
            absurd (ground arith)
      ]

  remembered-refused :
      (v : HandshakeVerifier) (x : Attempt) (t : ℕ)
      → x.now < t + nonce_ttl
      → Remembers x.handshake.nonce t v.nonces
      → is_ok (attempt v x).1 ≡ false
  unfolding verify_at remove_expired
  remembered-refused v x t soon r =
      let kept = drop_expired-Remembers x.now x.handshake.nonce t v.nonces soon r in
      let there = Remembers-has_nonce x.handshake.nonce t (drop_expired x.now v.nonces) kept in
      elim (Result-cases (checked mac (remove_expired v x.now) x.install_secret x.handshake)) [
        | inl (u, passed) ↦
            let absent =
              (checked-ok (remove_expired v x.now) x.install_secret x.handshake passed).0 in
            absurd (ground arith)
        | inr (e, refusal) ↦
            conclude-ok (remove_expired v x.now) x.handshake x.now
              (checked mac (remove_expired v x.now) x.install_secret x.handshake)
            ∙ ap is_ok refusal
      ]

  -- A nonce that a verifier has accepted is refused again for the ten minutes after, whatever handshakes,
  -- accepted or not, and whatever secrets come in between.
  pub replay_refused :
      (v : HandshakeVerifier) (first again : Attempt) (between : List Attempt)
      → is_ok (attempt v first).1 ≡ true
      → again.handshake.nonce ≡ first.handshake.nonce
      → All (λ x. x.now < first.now + nonce_ttl) between
      → again.now < first.now + nonce_ttl
      → is_ok (attempt (run (attempt v first).0 between) again).1 ≡ false
  replay_refused v first again between accepted same soon again_soon =
      let held =
        run-Remembers (attempt v first).0 between first.handshake.nonce first.now soon
          (accepted-Remembers v first accepted) in
      remembered-refused (run (attempt v first).0 between) again first.now again_soon (
        subst (λ n. Remembers n first.now (run (attempt v first).0 between).nonces) (sym same) held)

  attempt-length :
      (v : HandshakeVerifier) (x : Attempt)
      → length v.nonces ≤ max_cached_nonces
      → length (attempt v x).0.nonces ≤ max_cached_nonces
  unfolding verify_at remove_expired
  attempt-length v x bounded =
      let dropped = drop_expired-length x.now v.nonces in
      elim (Result-cases (checked mac (remove_expired v x.now) x.install_secret x.handshake)) [
        | inl (u, passed) ↦
            let room =
              (checked-ok (remove_expired v x.now) x.install_secret x.handshake passed).1 in
            let longer =
              length-append (drop_expired x.now v.nonces) ((x.handshake.nonce, x.now) ∷ []) in
            rw passed (unfold conclude in ground (arith, longer, dropped))
        | inr (e, refusal) ↦ rw refusal (unfold conclude in omega (arith, dropped, bounded))
      ]

  run-length :
      (v : HandshakeVerifier) (xs : List Attempt)
      → length v.nonces ≤ max_cached_nonces
      → length (run v xs).nonces ≤ max_cached_nonces
  run-length v [] bounded = bounded
  run-length v (x ∷ xs) bounded = run-length (attempt v x).0 xs (attempt-length v x bounded)

  -- A new verifier never holds more than 4096 nonces, whatever is attempted.
  pub run-new_bounded :
      (install_id : String) (xs : List Attempt)
      → length (run (new_verifier install_id) xs).nonces ≤ max_cached_nonces
  run-new_bounded install_id xs = run-length (new_verifier install_id) xs (omega arith)

  honest-checked :
      (v : HandshakeVerifier) (secret : Bytes) (h : Handshake)
      → ((key message : Bytes) → mac.verify_slice key message (mac.tag key message) ≡ true)
      → handshake_proof mac secret h.install_id h.nonce h.protocol_versions ≡ some h.proof
      → h.install_id ≡ v.expected_install_id
      → any (λ n. n == protocol_version) h.protocol_versions ≡ true
      → length h.nonce ≡ nonce_bytes
      → has_nonce h.nonce v.nonces ≡ false
      → length v.nonces < max_cached_nonces
      → checked mac v (some secret) h ≡ ok tt
  unfolding checked handshake_proof
  honest-checked v secret h tags proved named offered long unseen room =
      let message = update_proof (mac.as_bytes h.install_id) h.nonce h.protocol_versions in
      let same = (str_eq_iff h.install_id v.expected_install_id).1 named in
      let own = tags secret message in
      elim (Bool-cases (mac.takes_key secret)) [
        | inr bad ↦ absurd (ground arith)
        | inl good ↦
            let proof : mac.tag secret message ≡ h.proof = ground arith in
            let verified : mac.verify_slice secret message h.proof ≡ true =
              ap (mac.verify_slice secret message) (sym proof) ∙ own in
            ground arith
      ]

  -- For a hash that accepts its own tags: a handshake with the proof that `handshake_proof` makes with the
  -- secret of the installation is accepted, where it names the installation, offers the version of the
  -- protocol, brings 32 bytes that are not remembered, and there is room for them.
  pub honest_accepted :
      (v : HandshakeVerifier) (secret : Bytes) (h : Handshake) (now : ℕ)
      → ((key message : Bytes) → mac.verify_slice key message (mac.tag key message) ≡ true)
      → handshake_proof mac secret h.install_id h.nonce h.protocol_versions ≡ some h.proof
      → h.install_id ≡ v.expected_install_id
      → any (λ n. n == protocol_version) h.protocol_versions ≡ true
      → length h.nonce ≡ nonce_bytes
      → has_nonce h.nonce (remove_expired v now).nonces ≡ false
      → length (remove_expired v now).nonces < max_cached_nonces
      → (verify_at mac v (some secret) h now).1
        ≡ ok (record { accepted_version = protocol_version })
  unfolding verify_at
  honest_accepted v secret h now tags proved named offered long unseen room =
      ap (λ o. (conclude mac (remove_expired v now) h now o).1)
        (honest-checked (remove_expired v now) secret h tags proved named offered long unseen room)
      ∙ (unfold conclude in refl)
