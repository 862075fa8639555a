-- ===== src/Policy/Action.antt =====
-- crates/policy/src/action.rs: what an agent asks to do.
use agent_mission_control.Prelude.{
  ℕ, Bool, true, false, not, ◌&&◌, ◌==◌, ◌||◌, List, [], ◌∷◌, String,
}
use agent_mission_control.Prelude.Text.{is_blank}

pub data ActionClass : Type 0 where
  read write test build dependency_install network_access credential_access : ActionClass
  contract_change provider_change git_push git_merge deploy permanent_delete unknown : ActionClass

-- The derived `==` of the classes, by their place in the enum.
unfoldable pub discriminant : ActionClass → ℕ
discriminant read = 0
discriminant write = 1
discriminant test = 2
discriminant build = 3
discriminant dependency_install = 4
discriminant network_access = 5
discriminant credential_access = 6
discriminant contract_change = 7
discriminant provider_change = 8
discriminant git_push = 9
discriminant git_merge = 10
discriminant deploy = 11
discriminant permanent_delete = 12
discriminant unknown = 13

unfoldable pub same_class : ActionClass → ActionClass → Bool
unfolding discriminant
same_class c d = discriminant c == discriminant d

unfoldable pub is_assisted_low_risk : ActionClass → Bool
is_assisted_low_risk read = true
is_assisted_low_risk write = true
is_assisted_low_risk test = true
is_assisted_low_risk build = true
is_assisted_low_risk _ = false

unfoldable pub always_requires_user : ActionClass → Bool
always_requires_user credential_access = true
always_requires_user contract_change = true
always_requires_user provider_change = true
always_requires_user git_push = true
always_requires_user git_merge = true
always_requires_user deploy = true
always_requires_user permanent_delete = true
always_requires_user _ = false

-- `Vec::contains`.
unfoldable pub contains_class : List ActionClass → ActionClass → Bool
unfolding same_class
contains_class [] c = false
contains_class (x ∷ xs) c = same_class x c || contains_class xs c

pub data IntentOrigin : Type 0 where
  supervisor adapter_structured terminal_text repository_content : IntentOrigin
  web_content mcp_content memory tool_output : IntentOrigin

unfoldable pub is_trusted : IntentOrigin → Bool
is_trusted supervisor = true
is_trusted adapter_structured = true
is_trusted _ = false

pub data Deviation : Type 0 where
  no_deviation suspected confirmed : Deviation

pub record ActionEvidence : Type 0 where
  pub event_id : String
  pub action_digest : String

unfoldable pub is_complete : ActionEvidence → Bool
is_complete e = not (is_blank e.event_id) && not (is_blank e.action_digest)

pub record ActionIntent : Type 0 where
  pub class : ActionClass
  pub origin : IntentOrigin
  pub planned : Bool
  pub within_allowed_paths : Bool
  pub deviation : Deviation
  pub evidence : ActionEvidence
