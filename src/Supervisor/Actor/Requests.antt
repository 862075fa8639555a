-- ===== src/Supervisor/Actor/Requests.antt =====
-- What the methods of a request and of an agent's event keep: the identifier, and the kind of the event.
use agent_mission_control.Prelude.{
  ℕ, ◌≡◌, refl, sym, ap, ◌∙◌, inl, inr, true, ◌==◌, Bool-cases, Result-cases, some, Result, ok, err,
  arith,
}
use agent_mission_control.Domain.Ids.{MissionId, RouteId}
use agent_mission_control.Domain.Event.{EventKind}
use agent_mission_control.Policy.Approval.{
  ApprovalRequest, ApprovalError, ApprovalAction, ApprovalActor, ApprovalScope, ApprovalSubject,
  ApprovalResolution, set_scope, resolve, authorize, use_scope, revoke, revoke_for_loadout_change,
  transition, is_approved,
}
use agent_mission_control.Supervisor.Actor.{Host, is_approval_kind}
use agent_mission_control.Supervisor.Actor.Decisions.{
  ResolveApproval, ApprovalDecision, approve, deny, revoke_decision, discriminant, outcome_of,
  resolved_with, decide, granted_scope,
}
use agent_mission_control.Supervisor.Actor.AgentEvents.{AgentEvent, is_request_kind, requested_by}

pub outcome_of-eq :
    (o : ApprovalRequest × Result (Unit {0}) ApprovalError) (n : ApprovalRequest)
    → outcome_of o ≡ ok n
    → o.0 ≡ n
unfolding outcome_of
outcome_of-eq (r, ok u) n e = ground arith
outcome_of-eq (r, err x) n e = absurd (ground arith)

-- No method of a request changes its identifier.
pub set_scope-id : (r : ApprovalRequest) (s : ApprovalScope) → (set_scope r s).0.id ≡ r.id
unfolding set_scope
set_scope-id r s = ground arith

pub resolve-id : (r : ApprovalRequest) (c : ApprovalResolution) → (resolve r c).0.id ≡ r.id
unfolding resolve transition
resolve-id r c = ground arith

pub revoke-id : (r : ApprovalRequest) (a : ApprovalActor) → (revoke r a).0.id ≡ r.id
unfolding revoke transition
revoke-id r a = ground arith

pub loadout-id : (r : ApprovalRequest) → (revoke_for_loadout_change r).0.id ≡ r.id
unfolding revoke_for_loadout_change transition
loadout-id r = ground arith

pub authorize-id :
    (r : ApprovalRequest) (s : ApprovalSubject) (now : ℕ) → (authorize r s now).0.id ≡ r.id
unfolding authorize use_scope transition
authorize-id r s now = ground arith

-- An authorization that leaves the state leaves the request.
pub authorize-same :
    (r n : ApprovalRequest) (s : ApprovalSubject) (now : ℕ)
    → outcome_of (authorize r s now) ≡ ok n
    → discriminant r.state == discriminant n.state ≡ true
    → n ≡ r
unfolding authorize use_scope transition outcome_of is_approved discriminant
authorize-same r n s now e same = ground arith

pub resolved_with-id :
    (d : ApprovalAction) (actor : ApprovalActor) (c : ResolveApproval) (subject : ApprovalSubject)
    (r n : ApprovalRequest)
    → resolved_with d actor c subject r ≡ ok n
    → n.id ≡ r.id
unfolding resolved_with
resolved_with-id d actor c subject r n e =
    ap (λ x. x.id) (sym (outcome_of-eq _ n e)) ∙ resolve-id r _

pub decide-id :
    (d : ApprovalDecision) (actor : ApprovalActor) (c : ResolveApproval) (subject : ApprovalSubject)
    (r n : ApprovalRequest) (kind : EventKind)
    → decide d actor c subject r ≡ ok (n, kind)
    → (n.id ≡ r.id) × (is_approval_kind kind ≡ true)
unfolding decide is_approval_kind
decide-id approve actor c subject r n kind e =
    let scope = granted_scope c.scope r.subject.action_class in
    elim (Result-cases (outcome_of (set_scope r scope))) [
      | inl (s, scoped) ↦
          elim (Result-cases (resolved_with ApprovalAction.approve actor c subject s)) [
            | inl (x, resolved) ↦
                let id = resolved_with-id ApprovalAction.approve actor c subject s x resolved in
                let kept =
                  ap (λ y. y.id) (sym (outcome_of-eq (set_scope r scope) s scoped))
                  ∙ set_scope-id r scope in
                ground arith
            | inr (x, refused) ↦ absurd (ground arith)
          ]
      | inr (x, refused) ↦ absurd (ground arith)
    ]
decide-id deny actor c subject r n kind e =
    elim (Result-cases (resolved_with ApprovalAction.deny actor c subject r)) [
      | inl (x, resolved) ↦
          let id = resolved_with-id ApprovalAction.deny actor c subject r x resolved in ground arith
      | inr (x, refused) ↦ absurd (ground arith)
    ]
decide-id revoke_decision actor c subject r n kind e =
    elim (Result-cases (outcome_of (revoke r actor))) [
      | inl (x, revoked) ↦
          let id =
            ap (λ y. y.id) (sym (outcome_of-eq (revoke r actor) x revoked)) ∙ revoke-id r actor in
          ground arith
      | inr (x, refused) ↦ absurd (ground arith)
    ]

pub request_kind-approval : (k : EventKind) → is_request_kind k ≡ true → is_approval_kind k ≡ true
unfolding is_request_kind is_approval_kind
request_kind-approval EventKind.approval_requested asks = refl
request_kind-approval _ asks = ground arith

pub requested_by-kind :
    (h : Host) (e : AgentEvent h) (m : MissionId) (route : RouteId) (r : ApprovalRequest)
    → requested_by h e m route ≡ some r
    → is_approval_kind e.event_kind ≡ true
unfolding requested_by
requested_by-kind h e m route r found = elim (Bool-cases (is_request_kind e.event_kind)) [
  | inl asks ↦ request_kind-approval e.event_kind asks
  | inr other ↦ let missing = rw other at found in absurd (ground arith)
]
