-- ===== src/Supervisor/Service/Guards.antt =====
-- What has to hold before the service terminates a run, starts one, or answers an agent's request.

use agent_mission_control.Prelude.{
  ◌≡◌, refl, sym, ap, ◌∙◌, inl, inr, ◌⊎◌, true, Bool-cases, Result-cases, Option-cases, Option,
  none, some, List, [], ◌∷◌, ◌++◌, String, Result, ok, err, arith,
}
use agent_mission_control.Prelude.Dict.{lookup, remove, lookup-remove-same}
use agent_mission_control.Supervisor.Pause.{
  PauseState, PauseController, force_termination_available, available_for, can_force_terminate,
}
use agent_mission_control.Prelude.Text.{str_eq, str_eq_iff}
use agent_mission_control.Supervisor.Actor.{Host, ActorError, MissionActor, Step}
use agent_mission_control.Supervisor.Actor.Approvals
use agent_mission_control.Supervisor.Actor.Decisions.{
  Actor, ResolveApproval, ApprovalDecision, approve, deny, revoke_decision, ApprovalGrantScope,
  route_action_class,
}
use agent_mission_control.Policy.Approval.{ApprovalState}
use agent_mission_control.Supervisor.Service.{
  MissionCommandRequest, MissionCommandResult, MissionService, PendingServerRequest, ControlCall,
  respond, Platform,
}
use agent_mission_control.Supervisor.Service.Action.{
  bound, on_actor, on_found, kept, shown, call, adapter, result,
}
use agent_mission_control.Supervisor.Service.Control.{
  token_checked, terminate_with, take_pending, answer_pending, response_text, resolve_with,
  answer_agent, read_resolution, resolve_approval, decision_and_scope,
}

-- What a method of an actor leaves alone of the service.
abbrev SameOutside : {h : Host} → MissionService h → MissionService h → Type 0
SameOutside t s =
    (t.pending_server_requests ≡ s.pending_server_requests)
    × (t.calls ≡ s.calls)
    × (t.runs ≡ s.runs)
    × (t.loadouts ≡ s.loadouts)

module _ {h : Host} {A : Type 0} (show : ActorError → String) where
  kept-keeps :
      (key : String) (s : MissionService h) (o : MissionActor h × Result A ActorError)
      → SameOutside (kept key show s o).0 s
  unfolding kept
  kept-keeps key s (a, ok x) = (refl, refl, refl, refl)
  kept-keeps key s (a, err e) = (refl, refl, refl, refl)

  found-keeps :
      (o : Option (MissionActor h)) (key : String) (step : Step h A) (s : MissionService h)
      → SameOutside (on_found o key show step s).0 s
  unfolding on_found
  found-keeps none key step s = (refl, refl, refl, refl)
  found-keeps (some a) key step s = kept-keeps key s (step _)

  pub on_actor-keeps :
      (key : String) (step : Step h A) (s : MissionService h)
      → SameOutside (on_actor key show step s).0 s
  unfolding on_actor
  on_actor-keeps key step s = found-keeps (lookup key s.missions) key step s

offered_state :
    (state : PauseState) (token : String)
    → available_for state token ≡ true
    → state ≡ force_termination_available token
unfolding available_for
offered_state (force_termination_available expected) token e =
    ap force_termination_available ((str_eq_iff expected token).0 e)
offered_state state token e = absurd (ground arith)

offered_lem :
    (c : PauseController) (token : String)
    → can_force_terminate c token ≡ true
    → c.state ≡ force_termination_available token
unfolding can_force_terminate
offered_lem c token e = offered_state c.state token e

-- What an agent may be told, by what its actor was told of the user's decision.
abbrev pub IsAnswer : ApprovalDecision → Option ApprovalGrantScope → String → Type 0
IsAnswer approve scope text =
    (text ≡ "accept") ⊎ ((text ≡ "acceptForSession") × (scope ≡ some route_action_class))
IsAnswer deny scope text = text ≡ "decline"
IsAnswer revoke_decision scope text = text ≡ "decline"

abbrev scope_in :
    Result (ApprovalDecision × Option ApprovalGrantScope) String → Option ApprovalGrantScope
scope_in (ok (d, scope)) = scope
scope_in (err e) = none

answer_lem :
    (decision scope : Option String) (d : ApprovalDecision) (granted : Option ApprovalGrantScope)
    → decision_and_scope decision scope ≡ ok (d, granted)
    → IsAnswer d granted (response_text decision)
unfolding decision_and_scope response_text
answer_lem none scope d granted read = absurd (ground arith)
answer_lem (some text) scope approve granted read = elim (Bool-cases (str_eq text "approve-once")) [
  | inl b ↦ let same = (str_eq_iff text "approve-once").0 b in rw same (inl refl)
  | inr not_once ↦ elim (Bool-cases (str_eq text "approve-route")) [
    | inl a ↦ rw a (inr (refl, sym (ap scope_in (rw (not_once, a) at read))))
    | inr not_route ↦ elim (Bool-cases (str_eq text "approve")) [
      | inl c ↦ rw (not_route, not_once, c) (inl refl)
      | inr other ↦ absurd (ground arith)
    ]
  ]
]
answer_lem (some text) scope deny granted read = ground arith
answer_lem (some text) scope revoke_decision granted read = ground arith

module _ {h : Host} (p : Platform h) where
  -- The mission's actor is in the state that offers forced termination, for exactly this token.
  pub record IsConfirmed (key token : String) (s : MissionService h) : Type 0 where
    pub actor : MissionActor h
    pub found : lookup key s.missions ≡ some actor
    pub offered : actor.pause.state ≡ force_termination_available token

  -- A forced termination changes nothing, calls no adapter, writes no event and fails, unless the
  -- mission's actor is in the state that offers forced termination, for the very token of the request.
  pub terminate_with-guarded :
      (key token : String) (s : MissionService h)
      → IsConfirmed key token s ⊎ ((text : String) × (terminate_with p key token s ≡ (s, err text)))
  unfolding terminate_with bound token_checked
  terminate_with-guarded key token s = elim (Option-cases (lookup key s.missions)) [
    | inl missing ↦ inr ("MISSION_NOT_FOUND", rw (missing, bound) refl)
    | inr (a, found) ↦ elim (Bool-cases (can_force_terminate a.pause token)) [
      | inl offered ↦
          inl (record { actor = a; found = found; offered = offered_lem a.pause token offered })
      | inr refused ↦
          inr ("FORCE_TERMINATE_FAILED:invalid confirmation token", rw (found, refused, bound) refl)
    ]
  ]

  read_resolution-ok :
      (r : MissionCommandRequest h) (s t : MissionService h) (c : ResolveApproval)
      → read_resolution p r s ≡ (t, ok c)
      → (t ≡ s)
        × (decision_and_scope r.approval_decision r.approval_scope ≡ ok (c.decision, c.scope))
  unfolding read_resolution bound
  read_resolution-ok r s t c read = (ground arith, ground arith)

  -- The calls with the answer to the request that waited for the approval, if one did.
  abbrev pub answered :
      String → Option (PendingServerRequest h) → List (ControlCall h) → List (ControlCall h)
  answered text none calls = calls
  answered text (some waiting) calls =
      calls ++ respond waiting.provider waiting.run_id waiting.request_id text ∷ []

  answer_pending-ok :
      (decision : Option String) (waiting : Option (PendingServerRequest h))
      (s t : MissionService h) (u : Unit {0})
      → answer_pending p decision waiting s ≡ (t, ok u)
      → (t.pending_server_requests ≡ s.pending_server_requests)
        × (t.calls ≡ answered (response_text decision) waiting s.calls)
  unfolding answer_pending bound adapter call
  answer_pending-ok decision none s t u done = (ground arith, ground arith)
  answer_pending-ok decision (some waiting) s t u done = (ground arith, ground arith)

  answer_agent-ok :
      (r : MissionCommandRequest h) (c : ResolveApproval) (s t : MissionService h)
      (answer : MissionCommandResult h)
      → answer_agent p r c s ≡ (t, ok answer)
      → (lookup c.approval_id t.pending_server_requests ≡ none)
        × (t.calls
            ≡ answered
                (response_text r.approval_decision)
                (lookup c.approval_id s.pending_server_requests)
                s.calls)
  unfolding answer_agent bound result take_pending
  answer_agent-ok r c s t answer done =
      let id : String = c.approval_id in
      let waiting : Option (PendingServerRequest h) = lookup id s.pending_server_requests in
      let taken : MissionService h = record s {
        pending_server_requests = remove id s.pending_server_requests;
      } in
      elim (Result-cases (answer_pending p r.approval_decision waiting taken).1) [
        | inl (u, sent) ↦
            let (gone, calls) =
              answer_pending-ok r.approval_decision waiting taken
                (answer_pending p r.approval_decision waiting taken).0 u (ground arith) in
            let same : (answer_pending p r.approval_decision waiting taken).0 ≡ t = ground arith in
            (
              ap (λ (v : MissionService h). lookup id v.pending_server_requests) (sym same)
                  ∙ ap (lookup id) gone
                  ∙ lookup-remove-same id s.pending_server_requests,
              ap (λ (v : MissionService h). v.calls) (sym same) ∙ calls,
            )
        | inr (e, unsent) ↦ absurd (ground arith)
      ]

  -- What the actor does with the decision of a user.
  abbrev pub decided :
      ResolveApproval → MissionService h → MissionService h × Result ApprovalState String
  decided c s =
      on_actor c.mission_id (shown p "APPROVAL_RESOLUTION_FAILED:")
        (Approvals.resolve_approval h Actor.user c) s

  resolve_with-answer :
      (r : MissionCommandRequest h) (c : ResolveApproval) (s t : MissionService h)
      (answer : MissionCommandResult h)
      → resolve_with p r c s ≡ (t, ok answer)
      → ((state : ApprovalState) × ((decided c s).1 ≡ ok state))
        × (lookup c.approval_id t.pending_server_requests ≡ none)
        × (t.calls
            ≡ answered
                (response_text r.approval_decision)
                (lookup c.approval_id s.pending_server_requests)
                s.calls)
  unfolding resolve_with bound
  resolve_with-answer r c s t answer done = elim (Result-cases (decided c s).1) [
    | inl (u, accepted) ↦
        let (pending, calls, runs, loadouts) =
          on_actor-keeps (shown p "APPROVAL_RESOLUTION_FAILED:") c.mission_id
            (Approvals.resolve_approval h Actor.user c) s in
        let (gone, sent) = answer_agent-ok r c (decided c s).0 t answer (ground arith) in
        let text : String = response_text r.approval_decision in
        (
          (u, accepted),
          gone,
          sent
              ∙ ap (λ d. answered text (lookup c.approval_id d) (decided c s).0.calls) pending
              ∙ ap (answered text (lookup c.approval_id s.pending_server_requests)) calls,
        )
    | inr (e, refused) ↦ absurd (ground arith)
  ]

  -- A decision on an approval succeeds only where the actor takes the user's decision as it is read of the
  -- request. It then answers the agent's request that waited for the approval, and the request does not
  -- wait any more, so that it is answered once. The agent is told to go on exactly where the actor was
  -- told that the user approves, and for its whole session only where the user approves for the route.
  pub resolve_approval-ok :
      (r : MissionCommandRequest h) (s t : MissionService h) (answer : MissionCommandResult h)
      → resolve_approval p r s ≡ (t, ok answer)
      → (c : ResolveApproval) × (read_resolution p r s ≡ (s, ok c))
        × ((state : ApprovalState) × ((decided c s).1 ≡ ok state))
        × ((text : String) × IsAnswer c.decision c.scope text
            × (t.calls ≡ answered text (lookup c.approval_id s.pending_server_requests) s.calls))
        × (lookup c.approval_id t.pending_server_requests ≡ none)
  unfolding resolve_approval bound
  resolve_approval-ok r s t answer done = elim (Result-cases (read_resolution p r s).1) [
    | inl (c, read) ↦
        let (same, asked) = read_resolution-ok r s (read_resolution p r s).0 c (ground arith) in
        let (accepted, gone, sent) = resolve_with-answer r c s t answer (ground arith) in
        (
          c,
          ground arith,
          accepted,
          (
            response_text r.approval_decision,
            answer_lem r.approval_decision r.approval_scope c.decision c.scope asked,
            sent,
          ),
          gone,
        )
    | inr (e, unread) ↦ absurd (ground arith)
  ]

  -- A decision that the actor refuses answers no agent, and the agent's request goes on waiting.
  pub resolve_with-refused :
      (r : MissionCommandRequest h) (c : ResolveApproval) (s : MissionService h) (text : String)
      → (decided c s).1 ≡ err text
      → ((resolve_with p r c s).1 ≡ err text)
        × ((resolve_with p r c s).0.pending_server_requests ≡ s.pending_server_requests)
        × ((resolve_with p r c s).0.calls ≡ s.calls)
  unfolding resolve_with bound
  resolve_with-refused r c s text refused =
      let (pending, calls, runs, loadouts) =
        on_actor-keeps (shown p "APPROVAL_RESOLUTION_FAILED:") c.mission_id
          (Approvals.resolve_approval h Actor.user c) s in
      (rw (refused, bound) refl, rw (refused, bound) pending, rw (refused, bound) calls)
