-- ===== src/Policy/Approval/Authority.antt =====
-- What an authorization guarantees, and how often it can be had.
use agent_mission_control.Prelude.{ℕ, ◌<◌, true, ◌≡◌, ◌≢◌, refl, ok, arith}
use agent_mission_control.Prelude.Text.{str_eq_iff}
use agent_mission_control.Policy.Action.{ActionClass, same_class}
use agent_mission_control.Policy.Approval.{
  approved, consumed, ApprovalScope, once, route_action_class, ApprovalSubject, ApprovalRequest,
  authorize, matches_authority_context,
}

-- The subject of an action is the one that was approved, up to the digest of the action.
pub record SameAuthority (s t : ApprovalSubject) : Type 0 where
  pub mission : s.mission_id ≡ t.mission_id
  pub route : s.route_id ≡ t.route_id
  pub contract : s.contract_version ≡ t.contract_version
  pub loadout : s.loadout_fingerprint ≡ t.loadout_fingerprint
  pub class : s.action_class ≡ t.action_class

same_class-eq : (c d : ActionClass) → same_class c d ≡ true → c ≡ d
unfolding same_class
same_class-eq c d h = ground arith

matches-SameAuthority :
    (r : ApprovalRequest) (s : ApprovalSubject)
    → matches_authority_context r s ≡ true
    → SameAuthority r.subject s
unfolding matches_authority_context
matches-SameAuthority r s h = ground (
  arith,
  str_eq_iff r.subject.loadout_fingerprint s.loadout_fingerprint,
  same_class-eq r.subject.action_class s.action_class,
)

-- What holds where `authorize` answers `ok` and leaves the request `q`.
pub record Authorized (r : ApprovalRequest) (s : ApprovalSubject) (now : ℕ) (q : ApprovalRequest)
    : Type 0 where
  pub was_approved : r.state ≡ approved
  pub in_time : now < r.expires_at_ms
  pub same : SameAuthority r.subject s
  pub spent : r.scope ≡ once → (s.action_digest ≡ r.subject.action_digest) × (q.state ≡ consumed)
  pub kept : r.scope ≢ once → (r.scope ≡ route_action_class s.action_class) × (q ≡ r)

authorize-cases :
    (r : ApprovalRequest) (sc : ApprovalScope) (s : ApprovalSubject) (now : ℕ)
    → let p = record r { scope = sc } in
      (authorize p s now).1 ≡ ok tt
      → (r.state ≡ approved)
        × (now < r.expires_at_ms)
        × (matches_authority_context p s ≡ true)
        × (sc ≡ once
            → (s.action_digest ≡ r.subject.action_digest)
              × ((authorize p s now).0.state ≡ consumed))
        × (sc ≢ once → (sc ≡ route_action_class s.action_class) × ((authorize p s now).0 ≡ p))
unfolding authorize
authorize-cases r once s now h = (
  ground arith,
  ground arith,
  ground arith,
  λ e. ground (arith, str_eq_iff s.action_digest r.subject.action_digest),
  λ ne. absurd (ne refl),
)
authorize-cases r (route_action_class k) s now h = (
  ground arith,
  ground arith,
  ground arith,
  λ e. cc,
  λ ne. ground (arith, same_class-eq s.action_class k),
)

-- An authorization was approved, has not expired, and is for the mission, route, contract version,
-- loadout and action class that were approved. A `once` approval fits the approved digest alone and
-- is consumed; a class approval is for its class and stays as it was.
pub authorize-Authorized :
    (r : ApprovalRequest) (s : ApprovalSubject) (now : ℕ)
    → (authorize r s now).1 ≡ ok tt
    → Authorized r s now (authorize r s now).0
authorize-Authorized r s now h =
    let (a, t, m, o, c) = authorize-cases r r.scope s now h in
    record {
      was_approved = a;
      in_time = t;
      same = matches-SameAuthority r s m;
      spent = o;
      kept = c;
    }
