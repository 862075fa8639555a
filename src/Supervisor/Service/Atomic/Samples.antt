-- ===== src/Supervisor/Service/Atomic/Samples.antt =====
-- A ledger in memory that redacts and is reliable, and a creation for which it has no room.
use agent_mission_control.Prelude.{
  inl, inr, ◌==◌, ltb, length, Bool-cases, ap, ◌∙◌, ◌≡◌, refl, sym, true, false, List, [], ◌∷◌,
  ◌++◌, String, ok, err, arith,
}
use mathlib.Core.Path.{subst}
use agent_mission_control.Prelude.Dict.{lookup}
use agent_mission_control.Domain.Event.{EventKind, EventEnvelope, new}
use agent_mission_control.Domain.Ids.{MissionId, RouteId}
use agent_mission_control.Policy.Budget.{BudgetLimits}
use agent_mission_control.Supervisor.Service.{MissionCommandRequest, MissionService}
use agent_mission_control.Supervisor.Service.Action.{bound}
use agent_mission_control.Supervisor.Service.Missions.{
  has_mission, create_as, creation_events, creatable, write_creation,
}
use agent_mission_control.Supervisor.Service.Creation.{SameHeads}
use agent_mission_control.Supervisor.Service.Atomic.{IsReliable, create_as-atomic}
use agent_mission_control.Supervisor.Service.Fixture.{
  ids_of, redacted, events_of_mission, blank, note_json, host, platform, empty, request,
}

-- What the replay of a mission gives of the events before a batch: nothing, where it is not listed.
replay-append :
    (m : MissionId) (l es : List (EventEnvelope note_json))
    → has_mission m (ids_of l) ≡ false
    → events_of_mission m (l ++ es) ≡ events_of_mission m es
replay-append m [] es absent = refl
replay-append m (e ∷ l) es absent = ground (arith, replay-append m l es)

replay-creation_events :
    (r : MissionCommandRequest host) (m : MissionId) (route : RouteId) (b : BudgetLimits)
    → SameHeads note_json
        (events_of_mission m (redacted (creation_events platform r m route b)))
        (creation_events platform r m route b)
unfolding creation_events new
replay-creation_events r m route b =
    let same : (m == m) ≡ true = ground arith in
    rw same (refl, refl, (refl, refl, (refl, refl, tt)))

written_replay :
    (l es : List (EventEnvelope note_json)) (m : MissionId)
    → has_mission m (ids_of l) ≡ false
    → (platform.append_batch l es).1 ≡ ok tt
    → events_of_mission m (platform.append_batch l es).0 ≡ events_of_mission m (redacted es)
written_replay l es m absent written = elim (Bool-cases (ltb 3 (length l))) [
  | inl full ↦ absurd (ground arith)
  | inr room ↦ rw room (replay-append m l (redacted es) absent)
]

refused_batch :
    (l es : List (EventEnvelope note_json)) (text : String)
    → (platform.append_batch l es).1 ≡ err text
    → (platform.append_batch l es).0 ≡ l
refused_batch l es text refused = elim (Bool-cases (ltb 3 (length l))) [
  | inl full ↦ rw full refl
  | inr room ↦ absurd (ground arith)
]

reliable : IsReliable platform
reliable = record {
  atomic = refused_batch;
  replays = λ r m route b l ids listed unlisted written.
      let same : ids_of l ≡ ids = ground arith in
      let absent : has_mission m (ids_of l) ≡ false = ap (has_mission m) same ∙ unlisted in
      subst (λ fs. SameHeads note_json fs (creation_events platform r m route b))
        (sym (written_replay l (creation_events platform r m route b) m absent written))
        (replay-creation_events r m route b);
  serializes = λ e. (e.payload, refl);
}

stored : EventEnvelope note_json
stored = new note_json 9 1 2 4 EventKind.agent_message blank

-- A database without room for the batch.
abbrev full : MissionService host
full = record empty { disk = stored ∷ stored ∷ stored ∷ stored ∷ [] }

create_as-atomic_example : full ≡ full
unfolding create_as bound creatable lookup write_creation stored new
create_as-atomic_example =
    create_as-atomic platform reliable request 7 2 full full "MISSION_CREATE_FAILED:disk full" refl
