-- ===== src/Supervisor/Service/Atomic.antt =====
-- A creation over a ledger that writes a batch as a whole and gives it back.
pub mod Samples
use agent_mission_control.Prelude.{
  ℕ, ◌≡◌, refl, sym, ap, ◌∙◌, inl, inr, ◌⊎◌, false, Result-cases, Option, none, some, List, [], ◌∷◌,
  String, Result, ok, err, arith,
}
use agent_mission_control.Prelude.Dict.{lookup, insert, lookup-insert-same}
use agent_mission_control.Domain.Ids.{MissionId, RouteId}
use agent_mission_control.Domain.Event.{EventEnvelope}
use agent_mission_control.Policy.Budget.{BudgetLimits}
use agent_mission_control.Supervisor.Actor.{Host, MissionActor, try_new}
use agent_mission_control.Supervisor.Service.{
  MissionCommandRequest, MissionCommandResult, MissionService, Platform,
}
use agent_mission_control.Supervisor.Service.Action.{result, result_of, event_values}
use agent_mission_control.Supervisor.Service.Missions.{
  has_mission, creation_events, creatable, enter, create_as,
}
use agent_mission_control.Supervisor.Service.Creation.{
  SameHeads, IsNew, asked, wrote, entered, allowed_creation, refused_creation, allowed-IsNew,
  created_actor_lem,
}

-- What the service relies on: a batch that fails leaves the ledger, the replay of a mission that the
-- ledger did not list gives, behind the batch of its creation, three events with the numbers and the kinds of
-- the batch, whose payloads may be redacted, and an event can be serialized.
pub record IsReliable {h : Host} (p : Platform h) : Type 0 where
  pub atomic :
      (l : h.Ledger) (es : List (EventEnvelope h.json)) (text : String)
      → (p.append_batch l es).1 ≡ err text
      → (p.append_batch l es).0 ≡ l
  pub replays :
      (r : MissionCommandRequest h) (m : MissionId) (route : RouteId) (b : BudgetLimits)
      (l : h.Ledger) (ids : List MissionId)
      → p.mission_ids l ≡ ok ids
      → has_mission m ids ≡ false
      → (p.append_batch l (creation_events p r m route b)).1 ≡ ok tt
      → SameHeads h.json
          (h.replay_after (p.append_batch l (creation_events p r m route b)).0 m 0)
          (creation_events p r m route b)
  pub serializes : (e : EventEnvelope h.json) → (v : h.json.Value) × (p.event_value e ≡ some v)

module _ {h : Host} (p : Platform h) (reliable : IsReliable p) where
  values-ok :
      (es : List (EventEnvelope h.json)) → (vs : List h.json.Value) × (event_values p es ≡ ok vs)
  unfolding event_values
  values-ok [] = ([], refl)
  values-ok (e ∷ es) =
      let (v, one) = reliable.serializes e in
      let (vs, rest) = values-ok es in (v ∷ vs, rw (one, event_values) (rw rest refl))

  result_of-ok :
      (key : Option String) (o : Option (MissionActor h)) (disk : h.Ledger) (text : String)
      → result_of p key o disk ≡ err text
      → ⊥
  unfolding result_of
  result_of-ok key none disk text failed = absurd (ground arith)
  result_of-ok key (some a) disk text failed =
      let (vs, values) = values-ok (h.replay_after disk a.mission_id 0) in ground arith

  -- A creation is all or nothing: where it fails, the service is as it was, memory and
  -- database. The ledger keeps its events where a batch fails, replays the batch of a mission that it did
  -- not list with its numbers and kinds, whatever it redacts, and events can be serialized.
  pub create_as-atomic :
      (r : MissionCommandRequest h) (m : MissionId) (route : RouteId) (s t : MissionService h)
      (text : String)
      → create_as p r m route s ≡ (t, err text)
      → t ≡ s
  unfolding result
  create_as-atomic r m route s t text failed = elim (Result-cases (creatable p m s)) [
    | inr (e, refused) ↦ ground (arith, refused_creation p r m route s e refused)
    | inl (u, allowed) ↦ elim (allowed_creation p r m route s allowed) [
      | inl (e, unwritten, fails) ↦
          let left : wrote p r m route s ≡ t = ground arith in
          sym left
          ∙ ap (λ (l : h.Ledger). record s { disk = l })
              (reliable.atomic s.disk (creation_events p r m route (asked p r m route)) e unwritten)
      | inr (written, later) ↦
          let new : IsNew p r m route s = allowed-IsNew p r m route s allowed in
          let (a, made, number, runs, connected, none_asked, calm) =
            created_actor_lem p r m route (wrote p r m route s).disk _ refl (
              reliable.replays r m route (asked p r m route) s.disk new.ids new.listed new.unlisted
                written) in
          elim later [
            | inl (e, broken, fails) ↦ absurd (ground arith)
            | inr (b, built, gives) ↦
                let bad : (result p (p.id_text m) (entered p r m route s b)).1 ≡ err text =
                  ground arith in
                absurd (result_of-ok (some (p.id_text m)) _ (entered p r m route s b).disk text bad)
          ]
    ]
  ]
