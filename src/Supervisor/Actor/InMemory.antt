-- ===== src/Supervisor/Actor/InMemory.antt =====
-- crates/supervisor/src/mission_actor.rs: a list of events as the ledger of an actor.
use agent_mission_control.Prelude.{
  ℕ, suc, ltb, ◌<◌, ◌≤◌, ◌≡◌, refl, inl, inr, true, Bool-cases, List, [], ◌∷◌, ◌++◌, some, String,
  Result, ok, err, arith,
}
use agent_mission_control.Prelude.Word.{u64_max, increment-eq}
use agent_mission_control.Domain.Ids.{MissionId, RouteId}
use agent_mission_control.Domain.Event.{EventEnvelope}
use agent_mission_control.Policy.Approval.{ApprovalRequest}
use agent_mission_control.Supervisor.Actor.{Host, largest}
use agent_mission_control.Supervisor.Actor.AgentEvents.{AgentEvent, requested_by}
use agent_mission_control.Supervisor.Actor.Rehydration.{IsFaithful, IsNext, ReadsAs}
use agent_mission_control.Supervisor.Actor.Encrypted.{after}

module _ (h : Host) where
  -- `push`, which cannot fail.
  unfoldable pub append_event :
      List (EventEnvelope h.json)
      → EventEnvelope h.json
      → List (EventEnvelope h.json) × Result (Unit {0}) String
  append_event l e = (l ++ e ∷ [], ok tt)

  -- The events above a number, of whatever mission.
  unfoldable pub replay_after :
      List (EventEnvelope h.json) → MissionId → ℕ → List (EventEnvelope h.json)
  unfolding after
  replay_after l m sequence = after h sequence l

  abbrev pub in_memory : Host
  in_memory = record h {
    Ledger = List (EventEnvelope h.json);
    append_event = append_event;
    replay_after = replay_after;
  }

  after-append :
      (l : List (EventEnvelope h.json)) (e : EventEnvelope h.json)
      → ltb 0 e.sequence ≡ true
      → after h 0 (l ++ e ∷ []) ≡ after h 0 l ++ e ∷ []
  unfolding after
  after-append [] e p = rw p refl
  after-append (x ∷ l) e p = elim (Bool-cases (ltb 0 x.sequence)) [
    | inl up ↦ rw (up, after-append l e p) refl
    | inr low ↦ rw (low, after-append l e p) refl
  ]

  grows :
      (l : List (EventEnvelope h.json)) (e : EventEnvelope h.json)
      → largest in_memory (after h 0 l) ≤ largest in_memory (after h 0 (l ++ e ∷ []))
  unfolding after largest
  grows [] e = omega arith
  grows (x ∷ l) e = elim (Bool-cases (ltb 0 x.sequence)) [
    | inl up ↦ rw up (omega (arith, grows l e))
    | inr low ↦ rw low (grows l e)
  ]

  pub next_number :
      (l : List (EventEnvelope h.json)) (m : MissionId) (e : EventEnvelope h.json)
      → largest in_memory (replay_after l m 0) < u64_max
      → IsNext in_memory m l e
      → e.sequence ≡ suc (largest in_memory (replay_after l m 0))
  unfolding replay_after
  next_number l m e sound (here, number) =
      let next = increment-eq (largest in_memory (after h 0 l)) sound in omega (arith, number, next)

  -- Payloads give back the approval put into them.
  pub record HoldsApprovals (m : MissionId) : Type 0 where
    pub requested : (r : ApprovalRequest) → h.read_approval (h.requested_payload r) ≡ some (ok r)
    pub resolved : (r : ApprovalRequest) → h.read_approval (h.approval_payload r) ≡ some (ok r)
    pub revoked :
        (r : ApprovalRequest) → h.read_approval (h.loadout_revoked_payload r) ≡ some (ok r)
    pub attached :
        (e : AgentEvent in_memory) (route : RouteId) (r : ApprovalRequest)
        → requested_by in_memory e m route ≡ some r
        → h.read_approval (h.with_approval e.payload r) ≡ some (ok r)

  -- A list is sound while its largest number lies below the largest of a `u64`.
  abbrev pub IsBelow : MissionId → List (EventEnvelope h.json) → Type 0
  IsBelow m l = largest in_memory (replay_after l m 0) < u64_max

  pub was-IsBelow :
      (m : MissionId) (l : List (EventEnvelope h.json)) (e : EventEnvelope h.json)
      → IsBelow m (append_event l e).0
      → IsBelow m l
  unfolding append_event replay_after
  was-IsBelow m l e sound = omega (arith, grows l e, sound)

  pub extended :
      (m : MissionId) (l : List (EventEnvelope h.json)) (e : EventEnvelope h.json)
      → IsBelow m l
      → IsNext in_memory m l e
      → (f : EventEnvelope h.json) × (replay_after (append_event l e).0 m 0
          ≡ replay_after l m 0 ++ f ∷ [])
        × ReadsAs in_memory e f
  unfolding append_event replay_after
  extended m l e sound next =
      let number = next_number l m e sound next in
      (
        e,
        after-append l e (ground arith),
        record { number = refl; kind = refl; status = refl; approval = refl },
      )

  pub never_refused :
      (m : MissionId) (l : List (EventEnvelope h.json)) (e : EventEnvelope h.json) (text : String)
      → (append_event l e).1 ≡ err text
      → replay_after (append_event l e).0 m 0 ≡ replay_after l m 0
  unfolding append_event
  never_refused m l e text refusal = absurd (ground arith)

  abbrev pub faithful : (m : MissionId) → HoldsApprovals m → IsFaithful in_memory m
  faithful m holds = record {
    IsSound = IsBelow m;
    was_sound = was-IsBelow m;
    next_only = λ l e sound next accepted. next_number l m e sound next;
    extends = λ l e sound next accepted. extended m l e sound next;
    keeps = λ l e text sound next refusal. never_refused m l e text refusal;
    requested = holds.requested;
    resolved = holds.resolved;
    revoked = holds.revoked;
    attached = holds.attached;
  }
