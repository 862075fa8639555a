-- ===== src/Supervisor/Actor/Filed.antt =====
-- The methods about approvals keep the actor in agreement with its ledger: a change of an approval is an
-- event that carries it.
use agent_mission_control.Prelude.{
  ℕ, ◌≡◌, refl, sym, ap, ◌∙◌, ◌⊎◌, inl, inr, true, false, ◌||◌, ◌==◌, Bool-cases, Option, none,
  some, List, [], ◌∷◌, String, Result, ok, err, arith,
}
use mathlib.Core.Path.{subst}
use agent_mission_control.Prelude.Text.{str_eq, is_blank}
use agent_mission_control.Prelude.Word.{increment}
use agent_mission_control.Domain.Ids.{MissionId, RouteId}
use agent_mission_control.Domain.Event.{EventKind, EventEnvelope, new, payload_hash}
use agent_mission_control.Policy.Action.{ActionIntent}
use agent_mission_control.Policy.Engine.{
  PolicyContext, PolicyDecision, require_user_judgment, deny_and_pause, evaluate,
}
use agent_mission_control.Policy.Approval.{
  ApprovalRequest, ApprovalError, ApprovalSubject, authorize, revoke_for_loadout_change,
}
use agent_mission_control.Prelude.Dict.{lookup, insert}
use agent_mission_control.Supervisor.Actor.{
  Host, is_approval_kind, MissionActor, continue, ◌>>=◌, pure, append_envelope, append,
}
use agent_mission_control.Supervisor.Actor.Pausing.{request_safe_pause}
use agent_mission_control.Supervisor.Actor.Approvals.{
  DispatchGate, waiting_for_approval, put_approval, binds, ask, ask_bound, stop_dispatch, gated,
  subject_of, keep, resolve_as, resolve_found, resolve_approval, gate_action, use_approval,
  authorize_found, authorize_approved_action, open_ids, revoke_found, revoked_for_loadout,
  revoke_one, revoke_each, change_loadout, check_loadout_change,
}
use agent_mission_control.Supervisor.Actor.Decisions.{
  ResolveApproval, Actor, protocol_actor, discriminant, outcome_of, decide,
}
use agent_mission_control.Supervisor.Actor.AgentEvents.{
  AgentEvent, is_request_kind, into_envelope, with_request, put_request, requested_by,
  record_agent_event,
}
use agent_mission_control.Supervisor.Actor.Keeps.{Keeps, pure-Keeps, bind-Keeps}
use agent_mission_control.Supervisor.Actor.Rehydration.{
  IsNext, numbered_lem, IsFaithful, lookup-IsKeyed, insert-lookup,
}
use agent_mission_control.Supervisor.Actor.Appended.{
  Agrees, quiet_then, filed_then, append_then-Keeps,
}
use agent_mission_control.Supervisor.Actor.Recorded.{request_safe_pause-Keeps}
use agent_mission_control.Supervisor.Actor.Requests.{
  authorize-id, authorize-same, decide-id, loadout-id, outcome_of-eq, request_kind-approval,
  requested_by-kind,
}

module _ (h : Host) (m : MissionId) (route : RouteId) (faithful : IsFaithful h m) where
  -- The event of an approval, which is then put into the map, and what follows.
  file_then :
      {B : Type 0} (a : MissionActor h) (kind : EventKind) (payload : h.json.Value)
      (r : ApprovalRequest) (x : B)
      → is_approval_kind kind ≡ true
      → h.read_approval payload ≡ some (ok r)
      → Agrees h m route faithful a
      → Agrees h m route faithful
          ((append h kind payload >>= λ _. put_approval h r.id r >>= λ _. pure x) a).0
  unfolding append put_approval continue
  file_then a kind payload r x approval read v =
      filed_then h m route faithful a _ r (λ _. put_approval h r.id r >>= λ _. pure x)
        (numbered_lem h m route faithful a kind payload v) (unfold new in approval)
        (unfold new in read) v (λ b w. w)

  file_last :
      (a : MissionActor h) (kind : EventKind) (payload : h.json.Value) (r : ApprovalRequest)
      → is_approval_kind kind ≡ true
      → h.read_approval payload ≡ some (ok r)
      → Agrees h m route faithful a
      → Agrees h m route faithful ((append h kind payload >>= λ _. put_approval h r.id r) a).0
  unfolding append put_approval
  file_last a kind payload r approval read v =
      filed_then h m route faithful a _ r (λ _. put_approval h r.id r)
        (numbered_lem h m route faithful a kind payload v) (unfold new in approval)
        (unfold new in read) v (λ b w. w)

  ask_bound-Keeps :
      (o : Option ApprovalRequest) (intent : ActionIntent)
      → Keeps (Agrees h m route faithful) (ask_bound h o intent)
  unfolding ask_bound ask is_approval_kind
  ask_bound-Keeps none intent = record { run = λ a v. v }
  ask_bound-Keeps (some r) intent = record {
    run = λ a v. elim (Bool-cases (binds h a intent r)) [
      | inl bound ↦ rw bound (
          file_then a EventKind.approval_requested (h.requested_payload r) r
            (waiting_for_approval r.id) refl (faithful.requested r) v)
      | inr loose ↦ rw loose v
    ];
  }

  stop_dispatch-Keeps : Keeps (Agrees h m route faithful) (stop_dispatch h)
  unfolding stop_dispatch
  stop_dispatch-Keeps =
      bind-Keeps (Agrees h m route faithful) (request_safe_pause h "policy denied action dispatch")
        _ (request_safe_pause-Keeps h m route faithful "policy denied action dispatch")
        (λ u. pure-Keeps (Agrees h m route faithful) DispatchGate.paused)

  gated-Keeps :
      (d : PolicyDecision) (intent : ActionIntent) (o : Option ApprovalRequest)
      → Keeps (Agrees h m route faithful) (gated h d intent o)
  unfolding gated
  gated-Keeps PolicyDecision.allow intent o =
      pure-Keeps (Agrees h m route faithful) DispatchGate.ready
  gated-Keeps (PolicyDecision.require_approval reason evidence) intent o = ask_bound-Keeps o intent
  gated-Keeps (require_user_judgment reason evidence) intent o = stop_dispatch-Keeps
  gated-Keeps (deny_and_pause clause reason evidence) intent o = stop_dispatch-Keeps

  pub gate_action-Keeps :
      (context : PolicyContext) (intent : ActionIntent) (o : Option ApprovalRequest)
      → Keeps (Agrees h m route faithful) (gate_action h context intent o)
  unfolding gate_action
  gate_action-Keeps context intent o = gated-Keeps (evaluate context intent) intent o

  keep-Agrees :
      (a : MissionActor h) (id : String) (o : Result (ApprovalRequest × EventKind) ApprovalError)
      → ((n : ApprovalRequest) (kind : EventKind)
          → o ≡ ok (n, kind)
          → (n.id ≡ id) × (is_approval_kind kind ≡ true))
      → Agrees h m route faithful a
      → Agrees h m route faithful (keep h id o a).0
  unfolding keep
  keep-Agrees a id (err e) w v = v
  keep-Agrees a id (ok (n, kind)) w v =
      let (own, approval) = w n kind refl in
      subst
        (λ i.
          Agrees h m route faithful
            ((append h kind (h.approval_payload n) >>= λ _.
                put_approval h i n >>= λ _. pure n.state)
              a).0)
        own (file_then a kind (h.approval_payload n) n n.state approval (faithful.resolved n) v)

  resolve_found-Agrees :
      (a : MissionActor h) (o : Option ApprovalRequest) (actor : Actor) (c : ResolveApproval)
      → lookup c.approval_id a.approvals ≡ o
      → Agrees h m route faithful a
      → Agrees h m route faithful (resolve_found h o actor c a).0
  unfolding resolve_found resolve_as
  resolve_found-Agrees a none actor c there v = v
  resolve_found-Agrees a (some r) actor c there v = as_subject (subject_of h c r)
    where
      as_subject :
          (o : Option ApprovalSubject) → Agrees h m route faithful (resolve_as h o r actor c a).0
      as_subject none = v
      as_subject (some subject) =
          keep-Agrees a c.approval_id (decide c.decision (protocol_actor actor) c subject r)
            (λ n kind e.
              let (own, approval) =
                decide-id c.decision (protocol_actor actor) c subject r n kind e in
              (own ∙ lookup-IsKeyed c.approval_id a.approvals r v.keyed there, approval))
            v

  pub resolve_approval-Keeps :
      (actor : Actor) (c : ResolveApproval)
      → Keeps (Agrees h m route faithful) (resolve_approval h actor c)
  unfolding resolve_approval
  resolve_approval-Keeps actor c = record {
    run = λ a v. resolve_found-Agrees a (lookup c.approval_id a.approvals) actor c refl v;
  }

  use_approval-Agrees :
      (a : MissionActor h) (id : String) (r : ApprovalRequest)
      (o : Result ApprovalRequest ApprovalError)
      → lookup id a.approvals ≡ some r
      → ((n : ApprovalRequest)
          → o ≡ ok n
          → (n.id ≡ id) × (discriminant r.state == discriminant n.state ≡ true → n ≡ r))
      → Agrees h m route faithful a
      → Agrees h m route faithful (use_approval h id r o a).0
  unfolding use_approval
  use_approval-Agrees a id r (err e) there w v = v
  use_approval-Agrees a id r (ok n) there w v =
      let (own, unmoved) = w n refl in
      elim (Bool-cases (discriminant r.state == discriminant n.state)) [
        | inl same ↦
            let kept : insert id n a.approvals ≡ a.approvals =
              ap (λ x. insert id x a.approvals) (unmoved same)
              ∙ insert-lookup id a.approvals r there in
            rw same (
              unfold put_approval in
              subst (λ x. Agrees h m route faithful (record a { approvals = x })) (sym kept) v)
        | inr moved ↦ rw moved (
            subst
              (λ i.
                Agrees h m route faithful
                  ((append h EventKind.approval_consumed (h.approval_payload n) >>= λ _.
                      put_approval h i n)
                    a).0)
              own
              (file_last a EventKind.approval_consumed (h.approval_payload n) n
                (unfold is_approval_kind in refl) (faithful.resolved n) v))
      ]

  authorize_found-Agrees :
      (a : MissionActor h) (o : Option ApprovalRequest) (id : String) (subject : ApprovalSubject)
      (now : ℕ)
      → lookup id a.approvals ≡ o
      → Agrees h m route faithful a
      → Agrees h m route faithful (authorize_found h o id subject now a).0
  unfolding authorize_found
  authorize_found-Agrees a none id subject now there v = v
  authorize_found-Agrees a (some r) id subject now there v =
      use_approval-Agrees a id r (outcome_of (authorize r subject now)) there
        (λ n e. (
          ap (λ x. x.id) (sym (outcome_of-eq (authorize r subject now) n e))
              ∙ authorize-id r subject now
              ∙ lookup-IsKeyed id a.approvals r v.keyed there,
          authorize-same r n subject now e,
        ))
        v

  pub authorize_approved_action-Keeps :
      (id : String) (subject : ApprovalSubject) (now : ℕ)
      → Keeps (Agrees h m route faithful) (authorize_approved_action h id subject now)
  unfolding authorize_approved_action
  authorize_approved_action-Keeps id subject now = record {
    run = λ a v. authorize_found-Agrees a (lookup id a.approvals) id subject now refl v;
  }

  revoked-Agrees :
      (a : MissionActor h) (id : String) (o : Result ApprovalRequest ApprovalError)
      → ((n : ApprovalRequest) → o ≡ ok n → n.id ≡ id)
      → Agrees h m route faithful a
      → Agrees h m route faithful (revoked_for_loadout h id o a).0
  unfolding revoked_for_loadout
  revoked-Agrees a id (err e) w v = v
  revoked-Agrees a id (ok n) w v =
      subst
        (λ i.
          Agrees h m route faithful
            ((append h EventKind.approval_revoked (h.loadout_revoked_payload n) >>= λ _.
                put_approval h i n)
              a).0)
        (w n refl)
        (file_last a EventKind.approval_revoked (h.loadout_revoked_payload n) n
          (unfold is_approval_kind in refl) (faithful.revoked n) v)

  revoke_found-Agrees :
      (a : MissionActor h) (o : Option ApprovalRequest) (id : String)
      → lookup id a.approvals ≡ o
      → Agrees h m route faithful a
      → Agrees h m route faithful (revoke_found h o id a).0
  unfolding revoke_found
  revoke_found-Agrees a none id there v = v
  revoke_found-Agrees a (some r) id there v =
      revoked-Agrees a id (outcome_of (revoke_for_loadout_change r))
        (λ n e.
          ap (λ x. x.id) (sym (outcome_of-eq (revoke_for_loadout_change r) n e))
          ∙ loadout-id r
          ∙ lookup-IsKeyed id a.approvals r v.keyed there)
        v

  revoke_each-Keeps : (ids : List String) → Keeps (Agrees h m route faithful) (revoke_each h ids)
  unfolding revoke_each revoke_one
  revoke_each-Keeps [] = pure-Keeps (Agrees h m route faithful) tt
  revoke_each-Keeps (id ∷ ids) =
      bind-Keeps (Agrees h m route faithful) (revoke_one h id) _
        (record { run = λ a v. revoke_found-Agrees a (lookup id a.approvals) id refl v })
        (λ u. revoke_each-Keeps ids)

  change_loadout-Keeps :
      (previous next : String) (ids : List String)
      → Keeps (Agrees h m route faithful) (change_loadout h previous next ids)
  unfolding change_loadout is_approval_kind
  change_loadout-Keeps previous next ids =
      bind-Keeps (Agrees h m route faithful) (revoke_each h ids) _ (revoke_each-Keeps ids) (λ u.
        append_then-Keeps h m route faithful EventKind.loadout_changed
          (h.loadout_payload previous next) _ refl
          (bind-Keeps (Agrees h m route faithful) (request_safe_pause h "provider loadout changed")
            _ (request_safe_pause-Keeps h m route faithful "provider loadout changed")
            (λ w. pure-Keeps (Agrees h m route faithful) true)))

  pub check_loadout_change-Keeps :
      (previous next : String)
      → Keeps (Agrees h m route faithful) (check_loadout_change h previous next)
  unfolding check_loadout_change
  check_loadout_change-Keeps previous next = record {
    run = λ a v. elim (Bool-cases (is_blank previous || is_blank next || str_eq previous next)) [
      | inl same ↦ rw same v
      | inr changed ↦
          rw changed ((change_loadout-Keeps previous next (open_ids h a.approvals)).run a v)
    ];
  }

  -- An event of the agent that replay_approvals does not read, or that the actor has put an approval into.
  abbrev pub IsReadable : AgentEvent h → Type 0
  IsReadable e =
      (is_approval_kind e.event_kind ≡ false)
      ⊎ ((r : ApprovalRequest) × (requested_by h e m route ≡ some r))

  request-IsNext :
      (o : Option ApprovalRequest) (e : AgentEvent h) (a : MissionActor h)
      → Agrees h m route faithful a
      → faithful.IsSound a.ledger
      → IsNext h m a.ledger
          (with_request h o (into_envelope h e a.mission_id a.route_id (increment a.sequence)))
  unfolding with_request into_envelope new
  request-IsNext none e a v sound = (v.mission, ap increment (v.number sound))
  request-IsNext (some r) e a v sound = (v.mission, ap increment (v.number sound))

  request_event-Agrees :
      (o : Option ApprovalRequest) (e : EventEnvelope h.json) (a : MissionActor h)
      → (faithful.IsSound a.ledger → IsNext h m a.ledger (with_request h o e))
      → (o ≡ none → is_approval_kind e.kind ≡ false)
      → ((r : ApprovalRequest)
          → o ≡ some r
          → (is_approval_kind e.kind ≡ true)
            × (h.read_approval (h.with_approval e.payload r) ≡ some (ok r)))
      → Agrees h m route faithful a
      → Agrees h m route faithful
          ((append_envelope h (with_request h o e) >>= λ _. put_request h o) a).0
  unfolding with_request put_request put_approval
  request_event-Agrees none e a next quiet approval v =
      quiet_then h m route faithful a e _ next (quiet refl) v
        (pure-Keeps (Agrees h m route faithful) tt)
  request_event-Agrees (some r) e a next quiet approval v =
      let payload = h.with_approval e.payload r in
      filed_then h m route faithful a
        (record e { payload = payload; hash_of_payload = payload_hash h.json payload }) r
        (λ _. put_approval h r.id r) next (approval r refl).0 (approval r refl).1 v (λ b w. w)

  requested_by-quiet :
      (e : AgentEvent h) (i : MissionId) (j : RouteId)
      → is_approval_kind e.event_kind ≡ false
      → requested_by h e i j ≡ none
  unfolding requested_by
  requested_by-quiet e i j quiet = elim (Bool-cases (is_request_kind e.event_kind)) [
    | inl asks ↦ let approval = request_kind-approval e.event_kind asks in absurd (ground arith)
    | inr other ↦ rw other refl
  ]

  pub record_agent_event-Agrees :
      (e : AgentEvent h) (a : MissionActor h)
      → IsReadable e
      → Agrees h m route faithful a
      → Agrees h m route faithful (record_agent_event h e a).0
  unfolding record_agent_event into_envelope new
  record_agent_event-Agrees e a readable v =
      request_event-Agrees (requested_by h e a.mission_id a.route_id)
        (into_envelope h e a.mission_id a.route_id (increment a.sequence)) a
        (request-IsNext (requested_by h e a.mission_id a.route_id) e a v)
        (λ missing. elim readable [
          | inl quiet ↦ quiet
          | inr (r, found) ↦
              let here =
                ap (λ i. requested_by h e i a.route_id) v.mission
                ∙ ap (requested_by h e m) v.on_route in
              absurd (ground arith)
        ])
        (λ r found. (
          requested_by-kind h e a.mission_id a.route_id r found,
          faithful.attached e a.route_id r
              (ap (λ i. requested_by h e i a.route_id) (sym v.mission) ∙ found),
        ))
        v
