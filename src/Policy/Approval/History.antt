-- ===== src/Policy/Approval/History.antt =====
-- What holds of an approval request over every sequence of calls.
use agent_mission_control.Prelude.{
  ℕ, ◌+◌, ◌≤◌, Bool, true, false, ◌≡◌, ◌≢◌, ◌⊎◌, inl, inr, refl, Option, none, some, List, [], ◌∷◌,
  String, ok, err, arith, any,
}
use agent_mission_control.Prelude.Word.{increment-ne}
use agent_mission_control.Policy.Approval.{
  ApprovalState, pending, approved, denied, expired, revoked, consumed, ApprovalActor, user,
  supervisor, agent, approve, deny, ApprovalScope, once, route_action_class, revision_conflict,
  ApprovalSubject, ApprovalResolution, ApprovalRequest, new, set_scope, resolve, authorize, revoke,
  revoke_for_loadout_change, expire, is_open,
}

pub data Call : Type 0 where
  scopes : ApprovalScope → Call
  resolves : ApprovalResolution → Call
  authorizes : ApprovalSubject → ℕ → Call
  revokes : ApprovalActor → Call
  changes_loadout : Call
  expires : ℕ → Call

unfoldable pub step : ApprovalRequest → Call → ApprovalRequest
step r (scopes s) = (set_scope r s).0
step r (resolves q) = (resolve r q).0
step r (authorizes s now) = (authorize r s now).0
step r (revokes a) = (revoke r a).0
step r changes_loadout = (revoke_for_loadout_change r).0
step r (expires now) = (expire r now).0

unfoldable pub run : ApprovalRequest → List Call → ApprovalRequest
run r [] = r
run r (c ∷ cs) = run (step r c) cs

-- Who may have put a request in its state.
abbrev pub ResolvedBy : ApprovalState → Option ApprovalActor → Type 0
ResolvedBy pending a = a ≡ none
ResolvedBy approved a = a ≡ some user
ResolvedBy denied a = a ≡ some user
ResolvedBy expired a = (a ≡ none) ⊎ (a ≡ some user)
ResolvedBy revoked a = (a ≡ some user) ⊎ (a ≡ some supervisor)
ResolvedBy consumed a = a ≡ some user

pub record IsAuthentic (r : ApprovalRequest) : Type 0 where
  pub requested : r.requested_by ≡ supervisor
  pub resolved : ResolvedBy r.state r.resolved_by

new-IsAuthentic :
    (id : String) (s : ApprovalSubject) (sc : ApprovalScope) (a : ApprovalActor) (t : ℕ)
    (r : ApprovalRequest)
    → new id s sc a t ≡ ok r
    → IsAuthentic r
unfolding new
new-IsAuthentic id s sc a t r h = ground arith

step-IsAuthentic : (r : ApprovalRequest) (c : Call) → IsAuthentic r → IsAuthentic (step r c)
unfolding step set_scope resolve authorize revoke revoke_for_loadout_change expire
step-IsAuthentic r (scopes s) v = ground arith
step-IsAuthentic r (resolves q) v = ground arith
step-IsAuthentic r (authorizes s now) v = ground arith
step-IsAuthentic r (revokes a) v = ground arith
step-IsAuthentic r changes_loadout v = ground arith
step-IsAuthentic r (expires now) v = ground arith

run-IsAuthentic : (r : ApprovalRequest) (cs : List Call) → IsAuthentic r → IsAuthentic (run r cs)
unfolding run
run-IsAuthentic r [] v = v
run-IsAuthentic r (c ∷ cs) v = run-IsAuthentic (step r c) cs (step-IsAuthentic r c v)

-- Whatever is called on a new request: it is approved, denied or consumed by the user's word alone,
-- revoked by the user or the supervisor, and only the supervisor asked for it.
pub run-new-IsAuthentic :
    (id : String) (s : ApprovalSubject) (sc : ApprovalScope) (a : ApprovalActor) (t : ℕ)
    (r : ApprovalRequest) (cs : List Call)
    → new id s sc a t ≡ ok r
    → IsAuthentic (run r cs)
run-new-IsAuthentic id s sc a t r cs h = run-IsAuthentic r cs (new-IsAuthentic id s sc a t r h)

step_closed : (r : ApprovalRequest) (c : Call) → is_open r.state ≡ false → step r c ≡ r
unfolding step set_scope resolve authorize revoke revoke_for_loadout_change expire is_open
step_closed r (scopes s) h = ground arith
step_closed r (resolves q) h = ground arith
step_closed r (authorizes s now) h = ground arith
step_closed r (revokes a) h = ground arith
step_closed r changes_loadout h = ground arith
step_closed r (expires now) h = ground arith

-- A denied, expired, revoked or consumed request never changes again.
closed_absorbs : (r : ApprovalRequest) (cs : List Call) → is_open r.state ≡ false → run r cs ≡ r
unfolding run
closed_absorbs r [] h = refl
closed_absorbs r (c ∷ cs) h = rw (step_closed r c h) (closed_absorbs r cs h)

-- 1 for an authorization that is granted.
unfoldable pub granted : ApprovalRequest → Call → ℕ
granted r (authorizes s now) = elim (authorize r s now).1 [ ok _ ↦ 1 | err _ ↦ 0 ]
granted r _ = 0

-- How many authorizations a sequence of calls is granted.
unfoldable pub grants : ApprovalRequest → List Call → ℕ
unfolding granted
grants r [] = 0
grants r (c ∷ cs) = granted r c + grants (step r c) cs

granted_closed : (r : ApprovalRequest) (c : Call) → is_open r.state ≡ false → granted r c ≡ 0
unfolding granted authorize is_open
granted_closed r (authorizes s now) h = ground arith
granted_closed r _ h = refl

grants_closed : (r : ApprovalRequest) (cs : List Call) → is_open r.state ≡ false → grants r cs ≡ 0
unfolding grants
grants_closed r [] h = refl
grants_closed r (c ∷ cs) h =
    rw (step_closed r c h) (omega (arith, granted_closed r c h, grants_closed r cs h))

-- A call on an approved `once` request either grants nothing and leaves it approved for one use, or
-- closes it.
once_step :
    (r : ApprovalRequest) (sc : ApprovalScope) (c : Call)
    → r.state ≡ approved
    → sc ≡ once
    → let p = record r { scope = sc } in
      ((granted p c ≡ 0) × ((step p c).state ≡ approved) × ((step p c).scope ≡ once))
      ⊎ ((granted p c ≤ 1) × (is_open (step p c).state ≡ false))
unfolding granted step set_scope resolve authorize revoke revoke_for_loadout_change expire is_open
once_step r (route_action_class k) c a o = absurd (cc)
once_step r once (scopes s) a o = ground arith
once_step r once (resolves q) a o = ground arith
once_step r once (authorizes s now) a o = ground arith
once_step r once (revokes b) a o = ground arith
once_step r once changes_loadout a o = ground arith
once_step r once (expires now) a o = ground arith

-- An approval of scope `once` grants at most one authorization, over every sequence of calls.
pub once_grants_once :
    (r : ApprovalRequest) (cs : List Call) → r.state ≡ approved → r.scope ≡ once → grants r cs ≤ 1
unfolding grants
once_grants_once r [] a o = omega arith
once_grants_once r (c ∷ cs) a o = elim (once_step r r.scope c a o) [
  | inl (g, a', o') ↦ omega (arith, once_grants_once (step r c) cs a' o')
  | inr (g, closed) ↦ omega (arith, grants_closed (step r c) cs closed)
]

-- The user's `approve`.
unfoldable pub approves : Call → Bool
approves (resolves q) = elim q.actor [
  | user ↦ elim q.decision [ approve ↦ true | deny ↦ false ]
  | supervisor ↦ false
  | agent ↦ false
]
approves _ = false

step_unapproved :
    (r : ApprovalRequest) (c : Call)
    → r.state ≢ approved
    → approves c ≡ false
    → (granted r c ≡ 0) × ((step r c).state ≢ approved)
unfolding approves granted step set_scope resolve authorize revoke revoke_for_loadout_change expire
step_unapproved r (scopes s) p h = ground arith
step_unapproved r (resolves q) p h = ground arith
step_unapproved r (authorizes s now) p h = ground arith
step_unapproved r (revokes a) p h = ground arith
step_unapproved r changes_loadout p h = ground arith
step_unapproved r (expires now) p h = ground arith

-- A request that is not approved grants nothing until the user resolves it with `approve`.
pub grants_need_approval :
    (r : ApprovalRequest) (cs : List Call)
    → r.state ≢ approved
    → any approves cs ≡ false
    → grants r cs ≡ 0
unfolding grants
grants_need_approval r [] n h = refl
grants_need_approval r (c ∷ cs) n h =
    let (g, n') = step_unapproved r c n (ground arith) in
    omega (arith, g, grants_need_approval (step r c) cs n' (ground arith))

-- A resolution that was accepted is stale: sent again, it is refused by its revision, and changes
-- nothing.
resolve_once :
    (r : ApprovalRequest) (q : ApprovalResolution)
    → (resolve r q).1 ≡ ok tt
    → let s = (resolve r q).0 in
      resolve s q ≡ (s, err (revision_conflict q.expected_revision s.revision))
unfolding resolve
resolve_once r q h = ground (arith, increment-ne r.revision)
