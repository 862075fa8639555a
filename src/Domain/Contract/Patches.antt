-- ===== src/Domain/Contract/Patches.antt =====
-- What a patch of the contract changes, and what its diff says.
use agent_mission_control.Prelude.{
  ℕ, true, false, ◌≡◌, ◌≢◌, ◌↔◌, refl, sym, ap, ◌∙◌, List, [], All, Result, ok, is_ok, arith,
  ==_refl,
}
use mathlib.Core.Path.{subst}
use agent_mission_control.Prelude.Word.{increment, increment-ne}
use agent_mission_control.Domain.Contract.{
  Serializer, MissionContract, ContractPatch, PatchActor, VersionConflict, is_agent, ContractDiff,
  ContractFieldDiff, patched, changed_fields, apply_patch,
}
use agent_mission_control.Domain.Contract.Fields.{
  Differs, patched_idem, changed_fields-patched, changed_fields-Differs, patched_nothing,
}

module _ (s : Serializer) where
  -- The contract and the diff of a patch that was accepted.
  abbrev accepted : MissionContract → ContractPatch → MissionContract × ContractDiff s
  accepted c patch = (
    record (patched s c patch) { version = increment c.version },
    record {
      from_version = c.version;
      to_version = increment c.version;
      fields = changed_fields s c patch;
    },
  )

  apply_patch-accepted :
      (c : MissionContract) (patch : ContractPatch) (actor : PatchActor)
      → is_agent actor ≡ false
      → apply_patch s c c.version patch actor ≡ ok (accepted c patch)
  unfolding apply_patch
  apply_patch-accepted c patch actor h = rw (h, ==_refl c.version) refl

  accepted-inversion :
      (c : MissionContract) (v : ℕ) (patch : ContractPatch) (actor : PatchActor)
      (r : MissionContract × ContractDiff s)
      → apply_patch s c v patch actor ≡ ok r
      → (is_agent actor ≡ false) × (v ≡ c.version) × (r ≡ accepted c patch)
  unfolding apply_patch
  accepted-inversion c v patch actor r h = ground arith

  -- A patch is accepted exactly from an actor that is no agent and against the version of the contract.
  -- Once it was, the version has moved on, and whatever was prepared against the old version is refused,
  -- so that no change is lost under another.
  pub apply_patch_lem :
      (c : MissionContract) (v : ℕ) (patch : ContractPatch) (actor : PatchActor)
      → ((is_ok (apply_patch s c v patch actor) ≡ true)
          ↔ ((is_agent actor ≡ false) × (v ≡ c.version)))
        × ((d : MissionContract) (diff : ContractDiff s)
            → apply_patch s c v patch actor ≡ ok (d, diff)
            → (d.version ≢ v)
              × (diff.from_version ≡ v)
              × (diff.to_version ≡ d.version)
              × ((late : ContractPatch) (other : PatchActor)
                  → is_ok (apply_patch s d v late other) ≡ false))
  unfolding apply_patch
  apply_patch_lem c v patch actor = (
    ground arith,
    λ d diff h.
        let (allowed, current, shape) = accepted-inversion c v patch actor (d, diff) h in
        let moved = ap (λ r. r.0.version) shape in
        let from = ap (λ r. r.1.from_version) shape in
        let to = ap (λ r. r.1.to_version) shape in
        (
          ground (arith, increment-ne c.version),
          from ∙ sym current,
          to ∙ sym moved,
          λ late other. ground (arith, increment-ne c.version),
        ),
  )

  -- A diff names only fields whose serialized value has changed, with a value before that is not equal
  -- to the one after, and where it names none the patch has changed the version alone.
  apply_patch-diff :
      (c d : MissionContract) (v : ℕ) (patch : ContractPatch) (actor : PatchActor)
      (diff : ContractDiff s)
      → apply_patch s c v patch actor ≡ ok (d, diff)
      → All (λ f. s.equal f.before f.after ≡ false) diff.fields
        × (diff.fields ≡ [] → d ≡ record c { version = increment c.version })
  apply_patch-diff c d v patch actor diff h =
      let (allowed, current, shape) = accepted-inversion c v patch actor (d, diff) h in
      let listed : diff.fields ≡ changed_fields s c patch = ap (λ r. r.1.fields) shape in
      (
        subst (All (Differs s)) (sym listed) (changed_fields-Differs s c patch),
        λ none_named.
            let numbered : MissionContract → MissionContract =
              λ x. record x { version = increment c.version } in
            ap (λ r. r.0) shape ∙ ap numbered (patched_nothing s c patch (sym listed ∙ none_named)),
      )

module _ (s : Serializer) (equal_refl : (v : s.Value) → s.equal v v ≡ true) where
  accepted_again :
      (c : MissionContract) (patch : ContractPatch)
      → accepted s (accepted s c patch).0 patch ≡ (
        record (accepted s c patch).0 { version = increment (increment c.version) },
        record {
          from_version = increment c.version;
          to_version = increment (increment c.version);
          fields = [];
        },
      )
  unfolding patched changed_fields
  accepted_again c patch =
      let next = increment c.version in
      let after : MissionContract → MissionContract = λ m. record m { version = increment next } in
      let diff : List (ContractFieldDiff s) → ContractDiff s =
        λ fields. record { from_version = next; to_version = increment next; fields = fields } in
      ap (λ m. (after m, diff (changed_fields s (patched s c patch) patch)))
        (patched_idem s equal_refl c patch)
      ∙ ap (λ fields. (after (patched s c patch), diff fields))
          (changed_fields-patched s equal_refl c patch)

  -- Where a JSON value equals itself, a patch that was accepted and is sent again against the new version
  -- moves the version alone, and its diff names no field.
  apply_patch_twice :
      (c d : MissionContract) (v : ℕ) (patch : ContractPatch) (actor : PatchActor)
      (diff : ContractDiff s)
      → apply_patch s c v patch actor ≡ ok (d, diff)
      → apply_patch s d d.version patch actor
        ≡ ok (
          record d { version = increment d.version },
          record { from_version = d.version; to_version = increment d.version; fields = [] },
        )
  apply_patch_twice c d v patch actor diff h =
      let (allowed, current, shape) = accepted-inversion s c v patch actor (d, diff) h in
      let moved = ap (λ r. r.0) shape in
      let again = apply_patch-accepted s d patch actor allowed in
      again
      ∙ subst
          (λ x.
            ◌≡◌ {A = Result (MissionContract × ContractDiff s) VersionConflict}
              (ok (accepted s x patch))
              (ok (
                record x { version = increment x.version },
                record { from_version = x.version; to_version = increment x.version; fields = [] },
              )))
          (sym moved) (ap ok (accepted_again c patch))
