-- ===== src/Supervisor/Loadouts.antt =====
-- crates/adapter-core/src/capability.rs and adapter.rs: the providers of agents, what an adapter reports
-- of itself, and a loadout; crates/supervisor/src/loadout_monitor.rs: the loadout frozen for a mission.
-- A map keyed by the text of a mission's identifier is keyed by the identifier.
pub mod Frozen
use Prim.Native.String.{◌++◌ as cat}
use agent_mission_control.Prelude.{
  ℕ, Bool, true, false, ◌&&◌, ◌||◌, ◌==◌, ltb, Option, none, some, List, [], ◌∷◌, String, Result,
  ok, err, ◌>>=◌, if◌then◌else◌,
}
use agent_mission_control.Prelude.Text.{str_eq, is_blank, byte_len}
use agent_mission_control.Domain.Ids.{MissionId}

pub data ProviderId : Type 0 where
  codex claude open_code z_code : ProviderId

abbrev pub default_provider : ProviderId
default_provider = codex

abbrev pub all_providers : List ProviderId
all_providers = codex ∷ claude ∷ open_code ∷ z_code ∷ []

unfoldable pub as_str : ProviderId → String
as_str codex = "codex"
as_str claude = "claude"
as_str open_code = "opencode"
as_str z_code = "zcode"

-- `FromStr for ProviderId`.
unfoldable pub parse_provider : String → Result ProviderId String
parse_provider value =
    if str_eq value "codex"
    then ok codex
    else if str_eq value "claude"
    then ok claude
    else if str_eq value "opencode"
    then ok open_code
    else if str_eq value "zcode"
    then ok z_code
    else err "unknown provider"

-- The derived `==` of the providers, which have different texts.
unfoldable pub same_provider : ProviderId → ProviderId → Bool
unfolding as_str
same_provider p q = str_eq (as_str p) (as_str q)

pub data InstallState : Type 0 where
  installed missing detected_not_runnable unknown : InstallState

pub record Capability : Type 0 where
  pub structured_events : Bool
  pub resume : Bool
  pub approval : Bool
  pub safe_pause : Bool
  pub terminal_fallback : Bool

pub record AgentCapabilityReport : Type 0 where
  pub provider : ProviderId
  pub agent : String
  pub version : Option String
  pub install_state : InstallState
  pub capability : Capability
  pub unavailable_reason : Option String
  pub executable_hash : Option String
  pub configuration_source : Option String

unfoldable pub is_installed : InstallState → Bool
is_installed installed = true
is_installed _ = false

abbrev pub is_none {ℓ} : {A : Type ℓ} → Option A → Bool
is_none none = true
is_none (some a) = false

unfoldable pub is_available : AgentCapabilityReport → Bool
unfolding is_installed
is_available r =
    is_installed r.install_state && is_none r.unavailable_reason && r.capability.structured_events

pub record LoadoutSnapshot : Type 0 where
  pub provider : ProviderId
  pub model : Option String
  pub config_fingerprint : String
  pub hooks_fingerprint : String
  pub skills_fingerprint : String
  pub plugins_fingerprint : String
  pub mcp_fingerprint : String

abbrev pub text_or_empty : Option String → String
text_or_empty none = ""
text_or_empty (some s) = s

unfoldable pub fingerprint_material : LoadoutSnapshot → List String
fingerprint_material l =
    as_str l.provider
    ∷ text_or_empty l.model
    ∷ l.config_fingerprint
    ∷ l.hooks_fingerprint
    ∷ l.skills_fingerprint
    ∷ l.plugins_fingerprint
    ∷ l.mcp_fingerprint
    ∷ []

-- `join` of a list of texts.
unfoldable pub join : String → List String → String
join separator [] = ""
join separator (s ∷ []) = s
join separator (s ∷ rest) = cat s (cat separator (join separator rest))

-- `any(|value| value.len() > limit)`.
unfoldable pub any_longer : ℕ → List String → Bool
any_longer limit [] = false
any_longer limit (s ∷ rest) = ltb limit (byte_len s) || any_longer limit rest

-- `fingerprint`; the separator is the parameter that stands for U+001F.
unfoldable pub fingerprint : String → LoadoutSnapshot → Result String String
unfolding fingerprint_material join any_longer
fingerprint unit_separator l =
    if str_eq (as_str l.provider) "" || any_longer 4096 (fingerprint_material l)
    then err "LOADOUT_INVALID"
    else ok (join unit_separator (fingerprint_material l))

pub record LoadoutChange : Type 0 where
  pub previous_fingerprint : String
  pub next_fingerprint : String

-- `LoadoutMonitor`: the fingerprints that are frozen.
abbrev pub LoadoutMonitor : Type 0
LoadoutMonitor = List (MissionId × String)

unfoldable pub frozen_for : MissionId → LoadoutMonitor → Option String
frozen_for m [] = none
frozen_for m ((k, text) ∷ rest) = if k == m then some text else frozen_for m rest

unfoldable pub put_frozen : MissionId → String → LoadoutMonitor → LoadoutMonitor
put_frozen m text [] = (m, text) ∷ []
put_frozen m text ((k, old) ∷ rest) =
    if k == m then (k, text) ∷ rest else (k, old) ∷ put_frozen m text rest

-- `value.trim().is_empty() || value.len() > 32_768`.
unfoldable pub is_invalid : String → Bool
is_invalid text = is_blank text || ltb 32768 (byte_len text)

unfoldable pub freeze_fingerprint :
    LoadoutMonitor → MissionId → String → LoadoutMonitor × Result (Unit {0}) String
unfolding put_frozen is_invalid
freeze_fingerprint monitor m text =
    if is_invalid text then (monitor, err "LOADOUT_INVALID") else (put_frozen m text monitor, ok tt)

-- The end of both checks: the frozen text against the next.
unfoldable pub compare_frozen : Option String → String → Result (Option LoadoutChange) String
compare_frozen none next = err "LOADOUT_NOT_FROZEN"
compare_frozen (some previous) next =
    if str_eq previous next
    then ok none
    else ok (some (record { previous_fingerprint = previous; next_fingerprint = next }))

unfoldable pub check_fingerprint :
    LoadoutMonitor → MissionId → String → Result (Option LoadoutChange) String
unfolding frozen_for compare_frozen is_invalid
check_fingerprint monitor m next =
    if is_invalid next then err "LOADOUT_INVALID" else compare_frozen (frozen_for m monitor) next

abbrev without_text : Result String String → Result (Unit {0}) String
without_text (ok text) = ok tt
without_text (err e) = err e

module _ (unit_separator : String) where
  -- What `freeze` leaves, behind their `?`.
  unfoldable pub put_fingerprint :
      Result String String → LoadoutMonitor → MissionId → LoadoutMonitor × Result String String
  put_fingerprint (err e) monitor m = (monitor, err e)
  put_fingerprint (ok text) monitor m = (put_frozen m text monitor, ok text)

  unfoldable pub freeze :
      LoadoutMonitor → MissionId → LoadoutSnapshot → LoadoutMonitor × Result String String
  unfolding put_fingerprint
  freeze monitor m snapshot = put_fingerprint (fingerprint unit_separator snapshot) monitor m

  unfoldable pub check_before_model_request :
      LoadoutMonitor → MissionId → LoadoutSnapshot → Result (Option LoadoutChange) String
  unfolding fingerprint
  check_before_model_request monitor m snapshot =
      fingerprint unit_separator snapshot >>= λ next. compare_frozen (frozen_for m monitor) next

  unfoldable pub update_after_change :
      LoadoutMonitor → MissionId → LoadoutSnapshot → LoadoutMonitor × Result (Unit {0}) String
  unfolding freeze
  update_after_change monitor m snapshot =
      let (next, outcome) = freeze monitor m snapshot in (next, without_text outcome)
