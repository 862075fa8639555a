-- ===== src/Supervisor/Actor/Unreadable.antt =====
-- An approval event of an agent that names no approval, and the ledger that holds it.
use agent_mission_control.Prelude.{
  ◌≡◌, refl, sym, ap, ◌∙◌, true, Option, none, [], String, Result, ok, err,
}
use agent_mission_control.Prelude.Word.{increment}
use agent_mission_control.Domain.Ids.{MissionId, RouteId}
use agent_mission_control.Domain.Event.{EventEnvelope, new}
use agent_mission_control.Policy.Approval.{ApprovalRequest}
use agent_mission_control.Supervisor.Actor.{
  Host, ActorError, ApprovalMap, is_approval_kind, MissionActor, continue, ◌>>=◌, append_envelope,
  located, read_into, file, replay_approvals, try_new,
}
use agent_mission_control.Supervisor.Actor.AgentEvents.{
  AgentEvent, requested_by, into_envelope, with_request, put_request, record_agent_event,
}
use agent_mission_control.Supervisor.Actor.Rehydration.{
  IsFaithful, next_lem, file-ReadsAs, replay_loop-append, accepted_lem,
}
use agent_mission_control.Supervisor.Actor.History.{try_new-Agrees, try_new-err}

module _ (h : Host) (m : MissionId) (route : RouteId) (faithful : IsFaithful h m) where
  -- The envelope of an agent's event that names no approval.
  abbrev envelope_of : AgentEvent h → MissionActor h → EventEnvelope h.json
  envelope_of e a = into_envelope h e m route (increment a.sequence)

  file-missing :
      (n : ApprovalMap) (e : EventEnvelope h.json)
      → is_approval_kind e.kind ≡ true
      → h.read_approval e.payload ≡ none
      → file h n e ≡ err (located h e " is missing approval payload")
  unfolding file read_into
  file-missing n e kind missing = rw (kind, missing) refl

  -- What `record_agent_event` does with the request it has found.
  abbrev sent :
      Option ApprovalRequest
      → EventEnvelope h.json
      → MissionActor h
      → MissionActor h × Result (Unit {0}) ActorError
  sent o envelope a = (append_envelope h (with_request h o envelope) >>= λ _. put_request h o) a

  sent-none :
      (envelope : EventEnvelope h.json) (a : MissionActor h)
      → (h.append_event a.ledger envelope).1 ≡ ok tt
      → ((sent none envelope a).1 ≡ ok tt)
        × ((sent none envelope a).0.ledger ≡ (h.append_event a.ledger envelope).0)
  unfolding with_request put_request continue
  sent-none envelope a accepted =
      let taken =
        ap (λ o. continue o (λ _. put_request h none))
          (accepted_lem h m route faithful a envelope accepted) in
      (ap (λ o. o.1) taken, ap (λ o. o.0.ledger) taken)

  record_agent_event-sent :
      (e : AgentEvent h) (a : MissionActor h)
      → a.mission_id ≡ m
      → a.route_id ≡ route
      → requested_by h e m route ≡ none
      → record_agent_event h e a ≡ sent none (envelope_of e a) a
  unfolding record_agent_event
  record_agent_event-sent e a on_mission on_route unnamed =
      ap
        (λ i.
          sent (requested_by h e i a.route_id)
            (into_envelope h e i a.route_id (increment a.sequence)) a)
        on_mission
      ∙ ap (λ j. sent (requested_by h e m j) (into_envelope h e m j (increment a.sequence)) a)
          on_route
      ∙ ap (λ o. sent o (envelope_of e a) a) unnamed

  -- Where a sound ledger gives its events back, an agent's approval event that names no approval, which the
  -- ledger accepts, is recorded without an error, and no actor can be made of the ledger afterwards.
  pub unnamed_approval_lem :
      (l : h.Ledger) (a : MissionActor h) (e : AgentEvent h)
      → faithful.IsSound a.ledger
      → try_new h m route l ≡ ok a
      → is_approval_kind e.event_kind ≡ true
      → requested_by h e m route ≡ none
      → h.read_approval e.payload ≡ none
      → (h.append_event a.ledger (envelope_of e a)).1 ≡ ok tt
      → ((record_agent_event h e a).1 ≡ ok tt)
        × ((text : String) × (try_new h m route (record_agent_event h e a).0.ledger ≡ err text))
  unfolding replay_approvals into_envelope new
  unnamed_approval_lem l a e sound start kind unnamed missing accepted =
      let v = try_new-Agrees h m route faithful l a start in
      let same = record_agent_event-sent e a v.mission v.on_route unnamed in
      let envelope = envelope_of e a in
      let taken = sent-none envelope a accepted in
      let next = next_lem h m route faithful a envelope v (sym v.mission) refl sound in
      let (f, grown, reads) = faithful.extends a.ledger envelope sound next accepted in
      let text = located h envelope " is missing approval payload" in
      (
        ap (λ o. o.1) same ∙ taken.0,
        (
          text,
          ap (λ o. try_new h m route o.0.ledger) same
              ∙ ap (try_new h m route) taken.1
              ∙ try_new-err h m route (h.append_event a.ledger envelope).0 text (
                  ap (replay_approvals h) grown
                  ∙ replay_loop-append h [] a.approvals (h.replay_after a.ledger m 0) f
                      (v.filed sound)
                  ∙ file-ReadsAs h a.approvals envelope f reads
                  ∙ file-missing a.approvals envelope kind missing),
        ),
      )
