-- ===== src/Domain/Route.antt =====
-- crates/domain/src/route.rs: one route of a mission. An operation proposes an event, and the route
-- changes only where the event is applied. `version` is a `u64`.
pub mod Graph
pub mod Lifecycle
pub mod Samples
use agent_mission_control.Prelude.{
  ℕ, Bool, true, false, not, ◌&&◌, ◌||◌, ◌==◌, Option, none, some, List, [], ◌∷◌, String, Result,
  ok, err, if◌then◌else◌, is_empty, is_some,
}
use agent_mission_control.Prelude.Text.{is_blank}
use agent_mission_control.Prelude.Word.{increment}
use agent_mission_control.Domain.Ids.{RouteId, Timestamp, now}
use agent_mission_control.Domain.Evidence.{
  Approval, EvidenceMatrix, default_matrix, is_acceptance, is_complete,
}

pub data RouteState : Type 0 where
  draft read_only_exploration awaiting_plan_approval executing verifying awaiting_acceptance :
      RouteState
  completed paused blocked abandoned : RouteState

unfoldable pub is_terminal : RouteState → Bool
is_terminal completed = true
is_terminal abandoned = true
is_terminal _ = false

-- The derived `==` of the states, by their place in the enum.
unfoldable pub discriminant : RouteState → ℕ
discriminant draft = 0
discriminant read_only_exploration = 1
discriminant awaiting_plan_approval = 2
discriminant executing = 3
discriminant verifying = 4
discriminant awaiting_acceptance = 5
discriminant completed = 6
discriminant paused = 7
discriminant blocked = 8
discriminant abandoned = 9

unfoldable pub same_state : RouteState → RouteState → Bool
unfolding discriminant
same_state s t = discriminant s == discriminant t

pub record RouteAbandonment : Type 0 where
  pub last_checkpoint_id : String
  pub reason : String
  pub failure_evidence_ids : List String
  pub reusable_artifacts : List String

pub record RouteAbandoned : Type 0 where
  pub route_id : RouteId
  pub from : RouteState
  pub expected_version : ℕ
  pub metadata : RouteAbandonment

pub record RouteAcceptance : Type 0 where
  pub approval : Approval
  pub evidence_matrix : EvidenceMatrix

pub record RouteTransitioned : Type 0 where
  pub route_id : RouteId
  pub from : RouteState
  pub to : RouteState
  pub expected_version : ℕ
  pub acceptance : Option RouteAcceptance

pub record InvalidTransition : Type 0 where
  pub from : RouteState
  pub to : RouteState

pub data InvalidAbandonment : Type 0 where
  invalid_abandonment : InvalidAbandonment

pub data InvalidDerivation : Type 0 where
  invalid_derivation : InvalidDerivation

pub record Route : Type 0 where
  pub route_id : RouteId
  pub state : RouteState
  pub version : ℕ
  pub derived_from : Option RouteId
  pub abandonment : Option RouteAbandonment
  pub final_approval : Option Approval
  pub evidence_matrix : EvidenceMatrix
  pub updated_at : Timestamp

unfoldable pub new : RouteId → Route
new route_id = record {
  route_id = route_id;
  state = draft;
  version = 0;
  derived_from = none;
  abandonment = none;
  final_approval = none;
  evidence_matrix = default_matrix;
  updated_at = now;
}

unfoldable pub derived : RouteId → Route → Result Route InvalidDerivation
unfolding new same_state
derived route_id source =
    if not (same_state source.state abandoned) || not (is_some source.abandonment)
    then err invalid_derivation
    else ok (record (new route_id) { derived_from = some source.route_id })

unfoldable pub allowed_transition : RouteState → RouteState → Bool
allowed_transition draft read_only_exploration = true
allowed_transition read_only_exploration awaiting_plan_approval = true
allowed_transition awaiting_plan_approval executing = true
allowed_transition executing verifying = true
allowed_transition verifying awaiting_acceptance = true
allowed_transition awaiting_acceptance completed = true
allowed_transition draft paused = true
allowed_transition read_only_exploration paused = true
allowed_transition awaiting_plan_approval paused = true
allowed_transition executing paused = true
allowed_transition verifying paused = true
allowed_transition awaiting_acceptance paused = true
allowed_transition paused executing = true
allowed_transition executing blocked = true
allowed_transition verifying blocked = true
allowed_transition blocked executing = true
allowed_transition _ _ = false

unfoldable pub transition : Route → RouteState → Result RouteTransitioned InvalidTransition
unfolding allowed_transition same_state
transition r target =
    if same_state target completed || not (allowed_transition r.state target)
    then err (record { from = r.state; to = target })
    else ok (record {
      route_id = r.route_id;
      from = r.state;
      to = target;
      expected_version = r.version;
      acceptance = none;
    })

unfoldable pub complete_with_evidence :
    Route → Approval → EvidenceMatrix → Result RouteTransitioned InvalidTransition
unfolding same_state
complete_with_evidence r approval evidence_matrix =
    if not (same_state r.state awaiting_acceptance)
      || not (is_acceptance approval)
      || not (is_complete evidence_matrix)
    then err (record { from = r.state; to = completed })
    else ok (record {
      route_id = r.route_id;
      from = r.state;
      to = completed;
      expected_version = r.version;
      acceptance = some (record { approval = approval; evidence_matrix = evidence_matrix });
    })

unfoldable pub abandon : Route → RouteAbandonment → Result RouteAbandoned InvalidAbandonment
unfolding is_terminal
abandon r metadata =
    if is_terminal r.state
      || is_blank metadata.last_checkpoint_id
      || is_blank metadata.reason
      || is_empty metadata.failure_evidence_ids
    then err invalid_abandonment
    else ok (record {
      route_id = r.route_id;
      from = r.state;
      expected_version = r.version;
      metadata = metadata;
    })

unfoldable pub apply_abandonment : Route → RouteAbandoned → Result Route InvalidAbandonment
unfolding is_terminal same_state
apply_abandonment r event =
    if not (event.route_id == r.route_id)
      || not (same_state event.from r.state)
      || not (event.expected_version == r.version)
      || is_terminal r.state
    then err invalid_abandonment
    else ok (record r {
      state = abandoned;
      abandonment = some event.metadata;
      version = increment r.version;
      updated_at = now;
    })

-- `==` on `bool`.
abbrev same_bool : Bool → Bool → Bool
same_bool true b = b
same_bool false b = not b

-- The end of `apply_transition`, behind the checks.
advance : Route → RouteState → Route
advance r to = record r { state = to; version = increment r.version; updated_at = now }

-- The `if let Some(acceptance)` of `apply_transition` and what follows it.
accept : Route → RouteTransitioned → Option RouteAcceptance → Result Route InvalidTransition
unfolding advance
accept r event none = ok (advance r event.to)
accept r event (some a) =
    if not (is_acceptance a.approval) || not (is_complete a.evidence_matrix)
    then err (record { from = r.state; to = event.to })
    else ok (
        advance (record r { final_approval = some a.approval; evidence_matrix = a.evidence_matrix })
          event.to)

unfoldable pub apply_transition : Route → RouteTransitioned → Result Route InvalidTransition
unfolding same_state accept
apply_transition r event =
    if not (event.route_id == r.route_id)
      || not (same_state event.from r.state)
      || not (event.expected_version == r.version)
      || not (same_bool (same_state event.to completed) (is_some event.acceptance))
    then err (record { from = r.state; to = event.to })
    else accept r event event.acceptance
