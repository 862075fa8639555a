-- ===== src/Domain/Contract/Fields.antt =====
-- The fields of the contract under a patch, one by one.
use agent_mission_control.Prelude.{
  true, false, ◌≡◌, refl, inl, inr, Bool-cases, Option, none, some, List, [], ◌∷◌, ◌++◌, All,
  All-append, String, arith,
}
use agent_mission_control.Domain.Contract.{
  Serializer, MissionContract, ContractPatch, ContractFieldDiff, updated, pushed, patched,
  changed_fields,
}

module _ (s : Serializer) (equal_refl : (v : s.Value) → s.equal v v ≡ true) where
  updated_idem {ℓ} :
      {A : Type ℓ} (to_value : A → s.Value) (old : A) (new : Option A)
      → updated s to_value (updated s to_value old new) new ≡ updated s to_value old new
  unfolding updated
  updated_idem to_value old none = refl
  updated_idem to_value old (some v) = elim (Bool-cases (s.equal (to_value old) (to_value v))) [
    | inl same ↦ rw (same, same) refl
    | inr other ↦ rw (other, equal_refl (to_value v)) refl
  ]

  pushed-updated {ℓ} :
      {A : Type ℓ} (field : String) (to_value : A → s.Value) (old : A) (new : Option A)
      → pushed s field to_value (updated s to_value old new) new ≡ []
  unfolding updated pushed
  pushed-updated field to_value old none = refl
  pushed-updated field to_value old (some v) =
      elim (Bool-cases (s.equal (to_value old) (to_value v))) [
        | inl same ↦ rw (same, same) refl
        | inr other ↦ rw (other, equal_refl (to_value v)) refl
      ]

  pub patched_idem :
      (c : MissionContract) (patch : ContractPatch)
      → patched s (patched s c patch) patch ≡ patched s c patch
  unfolding patched
  patched_idem c patch = simp (updated_idem)

  pub changed_fields-patched :
      (c : MissionContract) (patch : ContractPatch)
      → changed_fields s (patched s c patch) patch ≡ []
  unfolding patched changed_fields
  changed_fields-patched c patch = simp (pushed-updated)

append_empty {ℓ} : {A : Type ℓ} (xs ys : List A) → xs ++ ys ≡ [] → (xs ≡ []) × (ys ≡ [])
append_empty [] ys h = (refl, h)
append_empty (x ∷ xs) ys h = cc

module _ (s : Serializer) where
  abbrev pub Differs : ContractFieldDiff s → Type 0
  Differs f = s.equal f.before f.after ≡ false

  pushed-Differs {ℓ} :
      {A : Type ℓ} (field : String) (to_value : A → s.Value) (old : A) (new : Option A)
      → All Differs (pushed s field to_value old new)
  unfolding pushed
  pushed-Differs field to_value old none = tt
  pushed-Differs field to_value old (some v) =
      elim (Bool-cases (s.equal (to_value old) (to_value v))) [
        | inl same ↦ rw same tt
        | inr other ↦ rw other (other, tt)
      ]

  pushed_nothing {ℓ} :
      {A : Type ℓ} (field : String) (to_value : A → s.Value) (old : A) (new : Option A)
      → pushed s field to_value old new ≡ []
      → updated s to_value old new ≡ old
  unfolding pushed updated
  pushed_nothing field to_value old none h = refl
  pushed_nothing field to_value old (some v) h =
      elim (Bool-cases (s.equal (to_value old) (to_value v))) [
        | inl same ↦ rw same refl
        | inr other ↦ absurd (ground arith)
      ]

  join :
      (xs ys : List (ContractFieldDiff s))
      → All Differs xs
      → All Differs ys
      → All Differs (xs ++ ys)
  join xs ys p q = All-append Differs xs ys p q

  pub changed_fields-Differs :
      (c : MissionContract) (patch : ContractPatch) → All Differs (changed_fields s c patch)
  unfolding changed_fields
  changed_fields-Differs c patch =
      (join _ _
        (join _ _
          (join _ _
            (join _ _
              (join _ _
                (join _ _
                  (join _ _
                    (join _ _
                      (join _ _
                        (join _ _ (pushed-Differs "goal" s.text c.goal patch.goal)
                          (pushed-Differs "non_goals" s.texts c.non_goals patch.non_goals))
                        (pushed-Differs "acceptance_criteria" s.texts c.acceptance_criteria
                          patch.acceptance_criteria))
                      (pushed-Differs "allowed_paths" s.texts c.allowed_paths patch.allowed_paths))
                    (pushed-Differs "forbidden_scopes" s.texts c.forbidden_scopes
                      patch.forbidden_scopes))
                  (pushed-Differs "driving_mode" s.mode c.driving_mode patch.driving_mode))
                (pushed-Differs "approval_policy" s.policy c.approval_policy patch.approval_policy))
              (pushed-Differs "budget" s.limits c.budget patch.budget))
            (pushed-Differs "loadout" s.equipment c.loadout patch.loadout))
          (pushed-Differs "confirmed_assumptions" s.texts c.confirmed_assumptions
            patch.confirmed_assumptions))
        (pushed-Differs "risks" s.texts c.risks patch.risks))

  pub patched_nothing :
      (c : MissionContract) (patch : ContractPatch)
      → changed_fields s c patch ≡ []
      → patched s c patch ≡ c
  unfolding changed_fields patched
  patched_nothing c patch e =
      let (e9, h10) = append_empty _ _ e in
      let (e8, h9) = append_empty _ _ e9 in
      let (e7, h8) = append_empty _ _ e8 in
      let (e6, h7) = append_empty _ _ e7 in
      let (e5, h6) = append_empty _ _ e6 in
      let (e4, h5) = append_empty _ _ e5 in
      let (e3, h4) = append_empty _ _ e4 in
      let (e2, h3) = append_empty _ _ e3 in
      let (e1, h2) = append_empty _ _ e2 in
      let (e0, h1) = append_empty _ _ e1 in
      rw
        (
          pushed_nothing "goal" s.text c.goal patch.goal e0,
          pushed_nothing "non_goals" s.texts c.non_goals patch.non_goals h1,
          pushed_nothing "acceptance_criteria" s.texts c.acceptance_criteria
              patch.acceptance_criteria h2,
          pushed_nothing "allowed_paths" s.texts c.allowed_paths patch.allowed_paths h3,
          pushed_nothing "forbidden_scopes" s.texts c.forbidden_scopes patch.forbidden_scopes h4,
          pushed_nothing "driving_mode" s.mode c.driving_mode patch.driving_mode h5,
          pushed_nothing "approval_policy" s.policy c.approval_policy patch.approval_policy h6,
          pushed_nothing "budget" s.limits c.budget patch.budget h7,
          pushed_nothing "loadout" s.equipment c.loadout patch.loadout h8,
          pushed_nothing "confirmed_assumptions" s.texts c.confirmed_assumptions
              patch.confirmed_assumptions h9,
          pushed_nothing "risks" s.texts c.risks patch.risks h10,
        )
        refl
