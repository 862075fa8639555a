-- ===== src/Policy/Engine/Decisions.antt =====
-- Which intents pass, which are refused outright, and what a driving mode can change.
use agent_mission_control.Prelude.{
  true, false, ◌≡◌, ◌≢◌, ◌↔◌, ◌⊎◌, refl, sym, ◌∙◌, List, arith, String,
}
use agent_mission_control.Domain.Contract.{DrivingMode, manual, assisted, autopilot}
use agent_mission_control.Policy.Action.{
  ActionClass, ActionIntent, no_deviation, confirmed, same_class, is_assisted_low_risk,
  always_requires_user, contains_class, is_trusted, is_complete,
}
use agent_mission_control.Policy.Engine.{
  PolicyContext, ReasonCode, PolicyDecision, allow, require_approval, require_user_judgment,
  deny_and_pause, user_boundary_required, evaluate, by_mode,
}

-- What a driving mode lets through without asking.
abbrev pub ModeAllows : DrivingMode → List ActionClass → ActionIntent → Type 0
ModeAllows manual allowed i = i.class ≡ ActionClass.read
ModeAllows assisted allowed i =
    (i.planned ≡ true)
    × ((i.class ≡ ActionClass.read)
        ⊎ (i.class ≡ ActionClass.write)
        ⊎ (i.class ≡ ActionClass.test)
        ⊎ (i.class ≡ ActionClass.build))
ModeAllows autopilot allowed i = (i.planned ≡ true) × (contains_class allowed i.class ≡ true)

-- The classes that no mode lets through.
pub data IsUserBoundary : ActionClass → Type 0 where
  credentials : IsUserBoundary ActionClass.credential_access
  contract : IsUserBoundary ActionClass.contract_change
  provider : IsUserBoundary ActionClass.provider_change
  push : IsUserBoundary ActionClass.git_push
  merge : IsUserBoundary ActionClass.git_merge
  deployment : IsUserBoundary ActionClass.deploy
  deletion : IsUserBoundary ActionClass.permanent_delete

-- What an intent must bring in every mode.
pub record IsSound (i : ActionIntent) : Type 0 where
  pub complete : is_complete i.evidence ≡ true
  pub trusted : is_trusted i.origin ≡ true
  pub known : i.class ≢ ActionClass.unknown
  pub inside : i.within_allowed_paths ≡ true
  pub faithful : i.deviation ≡ no_deviation
  pub routine : always_requires_user i.class ≡ false

allow-IsSound : (c : PolicyContext) (i : ActionIntent) → evaluate c i ≡ allow → IsSound i
unfolding evaluate same_class
allow-IsSound c i h = ground arith

by_mode-allow :
    (m : DrivingMode) (l : List ActionClass) (i : ActionIntent)
    → by_mode m l i ≡ allow
    → ModeAllows m l i
unfolding by_mode same_class is_assisted_low_risk
by_mode-allow manual l i h = ground arith
by_mode-allow assisted l i h = ground arith
by_mode-allow autopilot l i h = ground arith

allow-by_mode :
    (m : DrivingMode) (l : List ActionClass) (i : ActionIntent)
    → ModeAllows m l i
    → by_mode m l i ≡ allow
unfolding by_mode same_class is_assisted_low_risk
allow-by_mode manual l i h = ground arith
allow-by_mode assisted l i h = ground arith
allow-by_mode autopilot l i h = ground arith

boundary_always : {k : ActionClass} → IsUserBoundary k → always_requires_user k ≡ true
unfolding always_requires_user
boundary_always credentials = refl
boundary_always contract = refl
boundary_always provider = refl
boundary_always push = refl
boundary_always merge = refl
boundary_always deployment = refl
boundary_always deletion = refl

module _ (c : PolicyContext) (i : ActionIntent) where
  boundary_asks :
      always_requires_user i.class ≡ true
      → is_complete i.evidence ≡ true
      → is_trusted i.origin ≡ true
      → i.within_allowed_paths ≡ true
      → i.deviation ≡ no_deviation
      → evaluate c i ≡ require_approval user_boundary_required i.evidence
  unfolding evaluate same_class always_requires_user
  boundary_asks a complete trusted inside faithful = ground arith

  -- A sound intent is left to the mode, and no other passes.
  sound-by_mode : IsSound i → evaluate c i ≡ by_mode c.driving_mode c.autopilot_allowed_actions i
  unfolding evaluate same_class
  sound-by_mode s = ground arith

  -- An intent is let through without asking exactly when it is sound (complete evidence, a trusted
  -- origin, a known class, allowed paths, no deviation, no user boundary) and the mode lets it
  -- through: `manual` reads only, `assisted` planned reads, writes, tests and builds, `autopilot`
  -- planned classes of its list.
  pub allow_iff :
      (evaluate c i ≡ allow) ↔ (IsSound i × ModeAllows c.driving_mode c.autopilot_allowed_actions i)
  allow_iff = (
    λ h. let s = allow-IsSound c i h in (s, by_mode-allow _ _ i (sym (sound-by_mode s) ∙ h)),
    λ (s, m). sound-by_mode s ∙ allow-by_mode _ _ i m,
  )

  -- Where the evidence is missing, the origin is untrusted, the class is unknown, the path is outside
  -- or the deviation is confirmed, the intent is denied and the mission paused, in every context; the
  -- denial carries the intent's evidence.
  unsound_denied :
      (is_complete i.evidence ≡ false)
        ⊎ (is_trusted i.origin ≡ false)
        ⊎ (i.class ≡ ActionClass.unknown)
        ⊎ (i.within_allowed_paths ≡ false)
        ⊎ (i.deviation ≡ confirmed)
      → (clause : String) × (reason : ReasonCode) × (evaluate c i
          ≡ deny_and_pause clause reason i.evidence)
  unfolding evaluate same_class
  unsound_denied h = denied (evaluate c i) refl
    where
      denied :
          (d : PolicyDecision)
          → evaluate c i ≡ d
          → (clause : String) × (reason : ReasonCode) × (evaluate c i
              ≡ deny_and_pause clause reason i.evidence)
      denied allow e = absurd (ground arith)
      denied (require_approval r a) e = absurd (ground arith)
      denied (require_user_judgment r a) e = absurd (ground arith)
      denied (deny_and_pause k r a) e = (k, r, ground arith)

  -- An action across a user boundary is never let through: no driving mode and no autopilot list
  -- changes that. Where nothing else is wrong with it, the answer is to ask the user.
  boundary_needs_user :
      IsUserBoundary i.class
      → (evaluate c i ≢ allow)
        × (is_complete i.evidence ≡ true
            → is_trusted i.origin ≡ true
            → i.within_allowed_paths ≡ true
            → i.deviation ≡ no_deviation
            → evaluate c i ≡ require_approval user_boundary_required i.evidence)
  boundary_needs_user b = (
    λ h. cc (boundary_always b, (allow-IsSound c i h).routine),
    boundary_asks (boundary_always b),
  )
