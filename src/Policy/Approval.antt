-- ===== src/Policy/Approval.antt =====
-- crates/policy/src/approval.rs: one approval request. A method returns the new request beside its
-- outcome; `revision` and the times are `u64`.
pub mod Authority
pub mod History
pub mod Samples
use agent_mission_control.Prelude.{
  ℕ, Bool, true, false, not, ◌&&◌, ◌||◌, ◌==◌, leb, Option, none, some, String, Result, ok, err,
  if◌then◌else◌,
}
use agent_mission_control.Prelude.Text.{str_eq, is_blank}
use agent_mission_control.Prelude.Word.{increment}
use agent_mission_control.Domain.Ids.{MissionId, RouteId}
use agent_mission_control.Policy.Action.{ActionClass, same_class}

pub data ApprovalState : Type 0 where
  pending approved denied expired revoked consumed : ApprovalState

pub data ApprovalActor : Type 0 where
  user supervisor agent : ApprovalActor

pub data ApprovalAction : Type 0 where
  approve deny : ApprovalAction

pub data ApprovalScope : Type 0 where
  once : ApprovalScope
  route_action_class : ActionClass → ApprovalScope

pub data ApprovalError : Type 0 where
  forbidden_actor invalid_request approval_mismatch : ApprovalError
  revision_conflict : ℕ → ℕ → ApprovalError
  not_pending has_expired context_mismatch not_approved not_revocable : ApprovalError

pub record ApprovalSubject : Type 0 where
  pub mission_id : MissionId
  pub route_id : RouteId
  pub action_digest : String
  pub action_class : ActionClass
  pub contract_version : ℕ
  pub loadout_fingerprint : String

pub record ApprovalResolution : Type 0 where
  pub approval_id : String
  pub expected_revision : ℕ
  pub actor : ApprovalActor
  pub decision : ApprovalAction
  pub subject : ApprovalSubject
  pub now_ms : ℕ

pub record ApprovalRequest : Type 0 where
  pub id : String
  pub subject : ApprovalSubject
  pub scope : ApprovalScope
  pub requested_by : ApprovalActor
  pub resolved_by : Option ApprovalActor
  pub expires_at_ms : ℕ
  pub state : ApprovalState
  pub revision : ℕ

-- What a method answers: the request as it leaves it, and the outcome.
abbrev pub Outcome : Type 0
Outcome = ApprovalRequest × Result (Unit {0}) ApprovalError

unfoldable pub is_user : ApprovalActor → Bool
is_user user = true
is_user _ = false

unfoldable pub is_supervisor : ApprovalActor → Bool
is_supervisor supervisor = true
is_supervisor _ = false

unfoldable pub is_pending : ApprovalState → Bool
is_pending pending = true
is_pending _ = false

unfoldable pub is_approved : ApprovalState → Bool
is_approved approved = true
is_approved _ = false

-- `matches!(state, Pending | Approved)`.
unfoldable pub is_open : ApprovalState → Bool
is_open pending = true
is_open approved = true
is_open _ = false

unfoldable pub new :
    String
    → ApprovalSubject
    → ApprovalScope
    → ApprovalActor
    → ℕ
    → Result ApprovalRequest ApprovalError
unfolding is_supervisor
new id subject scope requested_by expires_at_ms =
    if not (is_supervisor requested_by)
    then err forbidden_actor
    else if is_blank id || is_blank subject.action_digest || is_blank subject.loadout_fingerprint
    then err invalid_request
    else ok (record {
      id = id;
      subject = subject;
      scope = scope;
      requested_by = requested_by;
      resolved_by = none;
      expires_at_ms = expires_at_ms;
      state = pending;
      revision = 0;
    })

unfoldable pub set_scope : ApprovalRequest → ApprovalScope → Outcome
unfolding is_pending
set_scope r scope =
    if not (is_pending r.state) then (r, err not_pending) else (record r { scope = scope }, ok tt)

unfoldable pub matches_authority_context : ApprovalRequest → ApprovalSubject → Bool
unfolding same_class
matches_authority_context r subject =
    r.subject.mission_id == subject.mission_id
    && r.subject.route_id == subject.route_id
    && r.subject.contract_version == subject.contract_version
    && str_eq r.subject.loadout_fingerprint subject.loadout_fingerprint
    && same_class r.subject.action_class subject.action_class

unfoldable pub transition : ApprovalRequest → ApprovalState → Option ApprovalActor → ApprovalRequest
transition r state actor = record r {
  state = state;
  resolved_by = actor;
  revision = increment r.revision;
}

unfoldable pub decided : ApprovalAction → ApprovalState
decided approve = approved
decided deny = denied

unfoldable pub resolve : ApprovalRequest → ApprovalResolution → Outcome
unfolding is_user is_pending transition decided
resolve r resolution =
    if not (str_eq resolution.approval_id r.id)
    then (r, err approval_mismatch)
    else if not (resolution.expected_revision == r.revision)
    then (r, err (revision_conflict resolution.expected_revision r.revision))
    else if not (is_user resolution.actor)
    then (r, err forbidden_actor)
    else if not (is_pending r.state)
    then (r, err not_pending)
    else if leb r.expires_at_ms resolution.now_ms
    then (transition r expired none, err has_expired)
    else if not (matches_authority_context r resolution.subject)
        || not (str_eq resolution.subject.action_digest r.subject.action_digest)
    then (r, err context_mismatch)
    else (transition r (decided resolution.decision) (some resolution.actor), ok tt)

-- The `match` on the scope that ends `authorize`.
unfoldable pub use_scope : ApprovalScope → ApprovalRequest → ApprovalSubject → Outcome
unfolding transition same_class
use_scope once r subject =
    if not (str_eq subject.action_digest r.subject.action_digest)
    then (r, err context_mismatch)
    else (transition r consumed r.resolved_by, ok tt)
use_scope (route_action_class class) r subject =
    if same_class subject.action_class class then (r, ok tt) else (r, err context_mismatch)

unfoldable pub authorize : ApprovalRequest → ApprovalSubject → ℕ → Outcome
unfolding is_approved transition use_scope
authorize r subject now_ms =
    if not (is_approved r.state)
    then (r, err not_approved)
    else if leb r.expires_at_ms now_ms
    then (transition r expired r.resolved_by, err has_expired)
    else if not (matches_authority_context r subject)
    then (r, err context_mismatch)
    else use_scope r.scope r subject

unfoldable pub revoke : ApprovalRequest → ApprovalActor → Outcome
unfolding is_user is_open transition
revoke r actor =
    if not (is_user actor)
    then (r, err forbidden_actor)
    else if not (is_open r.state)
    then (r, err not_revocable)
    else (transition r revoked (some actor), ok tt)

unfoldable pub revoke_for_loadout_change : ApprovalRequest → Outcome
unfolding is_open transition
revoke_for_loadout_change r =
    if not (is_open r.state)
    then (r, err not_revocable)
    else (transition r revoked (some supervisor), ok tt)

unfoldable pub expire : ApprovalRequest → ℕ → ApprovalRequest × Bool
unfolding is_open transition
expire r now_ms =
    if is_open r.state && leb r.expires_at_ms now_ms
    then (transition r expired r.resolved_by, true)
    else (r, false)
