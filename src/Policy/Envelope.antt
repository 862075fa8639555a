-- ===== src/Policy/Envelope.antt =====
-- crates/policy/src/envelope.rs: what an autopilot flight is bound to at launch.
pub mod Samples
use agent_mission_control.Prelude.{
  ℕ, Bool, true, false, not, ◌&&◌, ◌||◌, ◌≡◌, ◌≢◌, ◌↔◌, refl, List, [], ◌∷◌, String, Result, ok,
  err, arith, if◌then◌else◌, is_empty, any, is_ok, Bool-cases,
}
use agent_mission_control.Prelude.Text.{is_blank, str_eq, str_eq_iff}
use agent_mission_control.Policy.Action.{ActionClass, contains_class}
use agent_mission_control.Policy.Budget.{BudgetLimits}

pub record FlightIdentity : Type 0 where
  pub provider : String
  pub model : String
  pub loadout_fingerprint : String

pub data EnvelopeDecision : Type 0 where
  allow pause_identity_changed : EnvelopeDecision

pub record FlightEnvelope : Type 0 where
  pub allowed_action_classes : List ActionClass
  pub path_roots : List String
  pub network_allowlist : List String
  pub dependency_sources : List String
  pub identity : FlightIdentity
  pub budget : BudgetLimits

pub data EnvelopeError : Type 0 where
  incomplete : EnvelopeError

unfoldable pub new :
    List ActionClass
    → List String
    → List String
    → List String
    → FlightIdentity
    → BudgetLimits
    → Result FlightEnvelope EnvelopeError
new classes roots network sources identity budget =
    if is_empty classes
      || any is_blank roots
      || is_empty roots
      || is_blank identity.provider
      || is_blank identity.model
      || is_blank identity.loadout_fingerprint
    then err incomplete
    else ok (record {
      allowed_action_classes = classes;
      path_roots = roots;
      network_allowlist = network;
      dependency_sources = sources;
      identity = identity;
      budget = budget;
    })

unfoldable pub allows_action : FlightEnvelope → ActionClass → Bool
allows_action e class = contains_class e.allowed_action_classes class

-- The derived `==` of an identity.
unfoldable pub same_identity : FlightIdentity → FlightIdentity → Bool
same_identity a b =
    str_eq a.provider b.provider
    && str_eq a.model b.model
    && str_eq a.loadout_fingerprint b.loadout_fingerprint

unfoldable pub check_before_model_request : FlightEnvelope → FlightIdentity → EnvelopeDecision
unfolding same_identity
check_before_model_request e current =
    if same_identity e.identity current then allow else pause_identity_changed

-- A flight goes on exactly under the provider, model and loadout that it was launched with.
check-allow_iff :
    (e : FlightEnvelope) (current : FlightIdentity)
    → (check_before_model_request e current ≡ allow) ↔ (e.identity ≡ current)
unfolding check_before_model_request
check-allow_iff e current = (
  λ h. ground (
    arith,
    str_eq_iff e.identity.provider current.provider,
    str_eq_iff e.identity.model current.model,
    str_eq_iff e.identity.loadout_fingerprint current.loadout_fingerprint,
  ),
  λ h. ground (
    arith,
    str_eq_iff e.identity.provider current.provider,
    str_eq_iff e.identity.model current.model,
    str_eq_iff e.identity.loadout_fingerprint current.loadout_fingerprint,
  ),
)
