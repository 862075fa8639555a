-- ===== src/Memory/Packages.antt =====
-- What a recovery package proves before a mission is recovered from it, and that a package that was built is
-- taken where nothing has changed.
use agent_mission_control.Prelude.{
  ℕ, ◌≤◌, ◌≡◌, ◌↔◌, refl, sym, ap, ◌∙◌, inl, inr, true, ◌⊎◌, All, any, Bool-cases, Option-cases,
  Result-cases, Option, [], ◌∷◌, none, some, List, String, Result, ok, err, arith,
}
use mathlib.Core.Path.{subst}
use agent_mission_control.Domain.Event.{hex}
use agent_mission_control.Prelude.Text.{str_eq, str_eq_iff}
use agent_mission_control.Memory.Recovery.{
  schema_version, recovery_media_type, RecoveryInput, RecoveryConstraints, RecoveryManifest,
  BlobStoreError, validate_input, same_hash, is_subset, unsigned_manifest, Packing, RecoveryPackage,
  digest_manifest, seal, packaged, build_recovery_package, map_store, is_sealed, verify,
}

same_hash_iff : (a b : Option String) → (same_hash a b ≡ true) ↔ (a ≡ b)
unfolding same_hash
same_hash_iff none none = (λ h. refl, λ h. refl)
same_hash_iff (some s) (some t) =
    (λ h. ap some ((str_eq_iff s t).0 h), λ h. (str_eq_iff s t).1 (ground arith))
same_hash_iff none (some t) = (λ h. absurd (ground arith), λ h. absurd (ground arith))
same_hash_iff (some s) none = (λ h. absurd (ground arith), λ h. absurd (ground arith))

abbrev pub IsAmong : String → List String → Type 0
IsAmong q [] = ⊥
IsAmong q (x ∷ xs) = (x ≡ q) ⊎ IsAmong q xs

IsAmong-iff : (q : String) (xs : List String) → (any (λ x. str_eq x q) xs ≡ true) ↔ IsAmong q xs
IsAmong-iff q [] = (λ h. absurd (ground arith), λ h. absurd h)
IsAmong-iff q (x ∷ xs) = (
  λ h. elim (Bool-cases (str_eq x q)) [
    | inl same ↦ inl ((str_eq_iff x q).0 same)
    | inr other ↦ inr ((IsAmong-iff q xs).0 (ground arith))
  ],
  λ h. elim h [
    | inl same ↦ rw ((str_eq_iff x q).1 same) refl
    | inr rest ↦ ground (arith, (IsAmong-iff q xs).1 rest)
  ],
)

is_subset-All :
    (small large : List String) → is_subset small large ≡ true → All (λ q. IsAmong q large) small
unfolding is_subset
is_subset-All [] large h = tt
is_subset-All (q ∷ small) large h =
    ((IsAmong-iff q large).0 (ground arith), is_subset-All small large (ground arith))

All-is_subset :
    (small large : List String) → All (λ q. IsAmong q large) small → is_subset small large ≡ true
unfolding is_subset
All-is_subset [] large h = refl
All-is_subset (q ∷ small) large (here, rest) =
    ground (arith, (IsAmong-iff q large).1 here, All-is_subset small large rest)

-- A manifest that names the mission as it stands, from no later event, and asks for no new permission.
pub record IsBound (m : RecoveryManifest) (c : RecoveryConstraints) : Type 0 where
  pub mission : m.mission_id ≡ c.mission_id
  pub route : m.route_id ≡ c.route_id
  pub contract : m.contract_version ≡ c.contract_version
  pub loadout : m.loadout_fingerprint ≡ c.loadout_fingerprint
  pub pack : m.context_pack_hash ≡ c.context_pack_hash
  pub approval : m.pending_approval_hash ≡ c.pending_approval_hash
  pub not_later : m.ledger_sequence ≤ c.ledger_sequence
  pub no_expansion : All (λ q. IsAmong q c.permissions) m.permissions

module _ (k : Packing) where
  verify-IsBound :
      (p : RecoveryPackage k) (s : k.Store) (c : RecoveryConstraints) (payload : List ℕ)
      → verify k p s c ≡ ok payload
      → (is_sealed k p ≡ ok true) × IsBound p.manifest c × (k.read s p.blob ≡ ok payload)
  unfolding verify map_store
  verify-IsBound p s c payload verified =
      let m = p.manifest in
      let (loadout, _) = str_eq_iff m.loadout_fingerprint c.loadout_fingerprint in
      let (pack, _) = str_eq_iff m.context_pack_hash c.context_pack_hash in
      let (approval, _) = same_hash_iff m.pending_approval_hash c.pending_approval_hash in
      (
        ground arith,
        record {
          mission = ground arith;
          route = ground arith;
          contract = ground arith;
          loadout = loadout (ground arith);
          pack = pack (ground arith);
          approval = approval (ground arith);
          not_later = ground arith;
          no_expansion = is_subset-All m.permissions c.permissions (ground arith);
        },
        ground arith,
      )

  verify-ok :
      (p : RecoveryPackage k) (s : k.Store) (c : RecoveryConstraints) (payload : List ℕ)
      → is_sealed k p ≡ ok true
      → IsBound p.manifest c
      → k.read s p.blob ≡ ok payload
      → verify k p s c ≡ ok payload
  unfolding verify map_store
  verify-ok p s c payload intact bound there =
      let m = p.manifest in
      let loadout = (str_eq_iff m.loadout_fingerprint c.loadout_fingerprint).1 bound.loadout in
      let pack = (str_eq_iff m.context_pack_hash c.context_pack_hash).1 bound.pack in
      let approval =
        (same_hash_iff m.pending_approval_hash c.pending_approval_hash).1 bound.approval in
      let mission = bound.mission in
      let route = bound.route in
      let contract = bound.contract in
      let not_later = bound.not_later in
      let no_expansion = All-is_subset m.permissions c.permissions bound.no_expansion in
      ground arith

  -- A package of the program's version and media type, whose manifest carries the hash of the bytes that
  -- its manifest, without a hash, and its blob are serialized to.
  pub record IsSealed (p : RecoveryPackage k) : Type 0 where
    pub version : p.manifest.version ≡ schema_version
    pub media : k.media_type p.blob ≡ recovery_media_type
    pub bytes : List ℕ
    pub serialized : k.to_vec (record p.manifest { entry_hash = "" }) p.blob ≡ some bytes
    pub hashed : p.manifest.entry_hash ≡ hex (k.sha256 bytes)

  is_sealed-IsSealed : (p : RecoveryPackage k) → is_sealed k p ≡ ok true → IsSealed p
  unfolding is_sealed digest_manifest
  is_sealed-IsSealed p h =
      let unsigned = k.to_vec (record p.manifest { entry_hash = "" }) p.blob in
      elim (Option-cases unsigned) [
        | inl missing ↦ absurd (ground arith)
        | inr (bytes, serialized) ↦ record {
          version = ground arith;
          media = (str_eq_iff (k.media_type p.blob) recovery_media_type).0 (ground arith);
          bytes = bytes;
          serialized = serialized;
          hashed = (str_eq_iff p.manifest.entry_hash (hex (k.sha256 bytes))).0 (ground arith);
        }
      ]

  IsSealed-is_sealed : (p : RecoveryPackage k) → IsSealed p → is_sealed k p ≡ ok true
  unfolding is_sealed digest_manifest
  IsSealed-is_sealed p v =
      let media = (str_eq_iff (k.media_type p.blob) recovery_media_type).1 v.media in
      let hashed = (str_eq_iff p.manifest.entry_hash (hex (k.sha256 v.bytes))).1 v.hashed in
      let version = v.version in let serialized = v.serialized in ground arith

  -- A package gives its payload exactly where its manifest carries the hash of itself and its blob, in the
  -- version and the media type of the program, it is bound to the mission, route, contract, loadout,
  -- context and pending approval as they stand, is from no later event, asks for no new permission, and
  -- the store gives the payload for its blob.
  pub verify_iff :
      (p : RecoveryPackage k) (s : k.Store) (c : RecoveryConstraints) (payload : List ℕ)
      → (verify k p s c ≡ ok payload)
        ↔ (IsSealed p × IsBound p.manifest c × (k.read s p.blob ≡ ok payload))
  verify_iff p s c payload = (
    λ verified.
        let (intact, bound, there) = verify-IsBound p s c payload verified in
        (is_sealed-IsSealed p intact, bound, there),
    λ (intact, bound, there). verify-ok p s c payload (IsSealed-is_sealed p intact) bound there,
  )

  abbrev hashed_package : RecoveryInput → k.BlobRef → String → RecoveryPackage k
  hashed_package input blob hash = record {
    manifest = record (unsigned_manifest input) { entry_hash = hash };
    blob = blob;
  }

  seal-ok :
      (input : RecoveryInput) (blob : k.BlobRef) (hash : String)
      → digest_manifest k (unsigned_manifest input) blob ≡ ok hash
      → seal k (unsigned_manifest input) blob ≡ ok (hashed_package input blob hash)
  unfolding seal
  seal-ok input blob hash hashed = rw hashed refl

  hashed-is_sealed :
      (input : RecoveryInput) (blob : k.BlobRef) (hash : String)
      → k.media_type blob ≡ recovery_media_type
      → digest_manifest k (unsigned_manifest input) blob ≡ ok hash
      → is_sealed k (hashed_package input blob hash) ≡ ok true
  unfolding is_sealed unsigned_manifest digest_manifest
  hashed-is_sealed input blob hash media hashed =
      let typed = (str_eq_iff (k.media_type blob) recovery_media_type).1 media in
      rw (typed, hashed, (str_eq_iff hash hash).1 refl) refl

  seal-is_sealed :
      (input : RecoveryInput) (blob : k.BlobRef) (p : RecoveryPackage k)
      → k.media_type blob ≡ recovery_media_type
      → seal k (unsigned_manifest input) blob ≡ ok p
      → (is_sealed k p ≡ ok true)
        × (p.blob ≡ blob)
        × (record p.manifest { entry_hash = "" } ≡ unsigned_manifest input)
  unfolding seal is_sealed unsigned_manifest digest_manifest
  seal-is_sealed input blob p media sealed =
      elim (Result-cases (digest_manifest k (unsigned_manifest input) blob)) [
        | inr (e, failed) ↦ absurd (ground arith)
        | inl (hash, hashed) ↦
            let same : hashed_package input blob hash ≡ p =
              (let made = seal-ok input blob hash hashed in ground arith) in
            subst
              (λ q.
                (is_sealed k q ≡ ok true)
                × (q.blob ≡ blob)
                × (record q.manifest { entry_hash = "" } ≡ unsigned_manifest input))
              same (hashed-is_sealed input blob hash media hashed, refl, refl)
      ]

  -- The hash of a manifest binds it to nothing.
  unhashed-IsBound :
      (m : RecoveryManifest) (c : RecoveryConstraints)
      → IsBound (record m { entry_hash = "" }) c
      → IsBound m c
  unhashed-IsBound m c v = record {
    mission = v.mission;
    route = v.route;
    contract = v.contract;
    loadout = v.loadout;
    pack = v.pack;
    approval = v.approval;
    not_later = v.not_later;
    no_expansion = v.no_expansion;
  }

  packaged-verify :
      (input : RecoveryInput) (p : RecoveryPackage k) (c : RecoveryConstraints) (t : k.Store)
      (o : k.Store × Result k.BlobRef BlobStoreError)
      → ((v : k.Store) (blob : k.BlobRef)
          → o ≡ (v, ok blob)
          → (k.media_type blob ≡ recovery_media_type) × (k.read v blob ≡ ok input.payload))
      → packaged k input o ≡ (t, ok p)
      → IsBound (unsigned_manifest input) c
      → verify k p t c ≡ ok input.payload
  unfolding packaged
  packaged-verify input p c t (v, err e) keeps built bound =
      let failed = ap (λ x. x.1) built in absurd (ground arith)
  packaged-verify input p c t (v, ok blob) keeps built bound =
      let (media, there) = keeps v blob refl in
      let (intact, same_blob, same_manifest) =
        seal-is_sealed input blob p media (ap (λ x. x.1) built) in
      verify-ok p t c input.payload intact
        (unhashed-IsBound p.manifest c (subst (λ m. IsBound m c) (sym same_manifest) bound))
        (ap (k.read t) same_blob ∙ ap (λ x. k.read x blob) (sym (ap (λ x. x.0) built)) ∙ there)

  -- For a store that gives back what it was given, under the media type it was given with: a package that
  -- was built of an input gives the input's payload, under constraints that the input's manifest is bound
  -- to.
  pub build_recovery_package-verify :
      (s t : k.Store) (input : RecoveryInput) (p : RecoveryPackage k) (c : RecoveryConstraints)
      → ((u : k.Store) (payload : List ℕ) (media : String) (v : k.Store) (blob : k.BlobRef)
          → k.put u payload media ≡ (v, ok blob)
          → (k.media_type blob ≡ media) × (k.read v blob ≡ ok payload))
      → build_recovery_package k s input ≡ (t, ok p)
      → IsBound (unsigned_manifest input) c
      → verify k p t c ≡ ok input.payload
  unfolding build_recovery_package
  build_recovery_package-verify s t input p c keeps built bound =
      elim (Result-cases (validate_input input)) [
        | inr (e, invalid) ↦ absurd (ground arith)
        | inl (u, valid) ↦
            packaged-verify input p c t (k.put s input.payload recovery_media_type)
              (λ v blob stored. keeps s input.payload recovery_media_type v blob stored)
              (rw (valid, build_recovery_package) at built) bound
      ]
