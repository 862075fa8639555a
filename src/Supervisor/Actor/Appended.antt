-- ===== src/Supervisor/Actor/Appended.antt =====
-- An append of the actor, and the steps behind it, keep the actor in agreement with its ledger.
use agent_mission_control.Prelude.{
  ◌≡◌, refl, sym, inl, inr, true, false, Result-cases, some, Result, ok, err,
}
use mathlib.Core.Path.{subst}
use agent_mission_control.Domain.Ids.{MissionId, RouteId}
use agent_mission_control.Domain.Event.{EventKind, EventEnvelope, new}
use agent_mission_control.Policy.Approval.{ApprovalRequest}
use agent_mission_control.Prelude.Dict.{insert}
use agent_mission_control.Supervisor.Actor.{
  Host, ActorError, recovery_after, status_of, is_approval_kind, MissionActor, Step, continue,
  ◌>>=◌, pure, append_envelope, append,
}
use agent_mission_control.Supervisor.Actor.Keeps.{Keeps, pure-Keeps}
use agent_mission_control.Supervisor.Actor.Rehydration.{
  IsFaithful, IsNext, numbered_lem, insert-IsKeyed, file-quiet, file-read, Matches, refused_lem,
  accepted_lem, refused-Matches, accepted-Matches,
}

continue-pure :
    {h : Host} {A : Type 0} (o : MissionActor h × Result A ActorError)
    → (continue o (λ x. pure x)).0 ≡ o.0
unfolding continue
continue-pure (a, ok x) = refl
continue-pure (a, err e) = refl

module _ (h : Host) (m : MissionId) (route : RouteId) (faithful : IsFaithful h m) where
  abbrev pub Agrees : MissionActor h → Type 0
  Agrees = Matches h m route faithful

  -- The actor behind an event that the ledger has accepted.
  abbrev noted : MissionActor h → EventEnvelope h.json → MissionActor h
  noted a e = record a {
    ledger = (h.append_event a.ledger e).0;
    requires_recovery = recovery_after e.kind (status_of h e) a.requires_recovery;
    sequence = e.sequence;
  }

  envelope_then :
      {B : Type 0} (a : MissionActor h) (e : EventEnvelope h.json) (k : Unit {0} → Step h B)
      → (faithful.IsSound a.ledger → IsNext h m a.ledger e)
      → Agrees a
      → ((h.append_event a.ledger e).1 ≡ ok tt → Agrees (k tt (noted a e)).0)
      → Agrees ((append_envelope h e >>= k) a).0
  envelope_then a e k next v rest = elim (Result-cases (h.append_event a.ledger e).1) [
    | inl (u, accepted) ↦
        subst (λ o. Agrees (continue o k).0) (sym (accepted_lem h m route faithful a e accepted))
          (unfold continue in rest accepted)
    | inr (text, refusal) ↦
        subst (λ o. Agrees (continue o k).0) (sym (refused_lem h m route faithful a e text refusal))
          (unfold continue in refused-Matches h m route faithful a e text next refusal v)
  ]

  -- An event that is no approval event, and the steps behind it.
  pub quiet_then :
      {B : Type 0} (a : MissionActor h) (e : EventEnvelope h.json) (k : Unit {0} → Step h B)
      → (faithful.IsSound a.ledger → IsNext h m a.ledger e)
      → is_approval_kind e.kind ≡ false
      → Agrees a
      → Keeps Agrees (k tt)
      → Agrees ((append_envelope h e >>= k) a).0
  quiet_then a e k next quiet v rest = envelope_then a e k next v (λ accepted.
      rest.run (noted a e) (
        accepted-Matches h m route faithful a e a.approvals next accepted
          (file-quiet h a.approvals e quiet) v.keyed v))

  -- An approval event, and the steps behind it, the first of which files its approval.
  pub filed_then :
      {B : Type 0} (a : MissionActor h) (e : EventEnvelope h.json) (r : ApprovalRequest)
      (k : Unit {0} → Step h B)
      → (faithful.IsSound a.ledger → IsNext h m a.ledger e)
      → is_approval_kind e.kind ≡ true
      → h.read_approval e.payload ≡ some (ok r)
      → Agrees a
      → ((b : MissionActor h)
          → Agrees (record b { approvals = insert r.id r b.approvals })
          → Agrees (k tt b).0)
      → Agrees ((append_envelope h e >>= k) a).0
  filed_then a e r k next kind read v rest = envelope_then a e k next v (λ accepted.
      rest (noted a e) (
        accepted-Matches h m route faithful a e (insert r.id r a.approvals) next accepted
          (file-read h a.approvals e r kind read) (insert-IsKeyed r a.approvals v.keyed) v))

  pub append_then-Keeps :
      {B : Type 0} (kind : EventKind) (payload : h.json.Value) (k : Unit {0} → Step h B)
      → is_approval_kind kind ≡ false
      → Keeps Agrees (k tt)
      → Keeps Agrees (append h kind payload >>= k)
  unfolding append
  append_then-Keeps kind payload k quiet rest = record {
    run = λ a v.
        quiet_then a _ k (numbered_lem h m route faithful a kind payload v) (unfold new in quiet) v
          rest;
  }

  pub append-Keeps :
      (kind : EventKind) (payload : h.json.Value)
      → is_approval_kind kind ≡ false
      → Keeps Agrees (append h kind payload)
  append-Keeps kind payload quiet =
      let piped = append_then-Keeps kind payload (λ x. pure x) quiet (pure-Keeps Agrees tt) in
      record { run = λ a v. subst Agrees (continue-pure (append h kind payload a)) (piped.run a v) }
