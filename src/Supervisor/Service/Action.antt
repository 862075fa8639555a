-- ===== src/Supervisor/Service/Action.antt =====
-- crates/supervisor/src/mission_service.rs: what the commands are made of. An action takes the service as
-- it finds it, and answers the service as it leaves it, also where it fails, beside its outcome.
use Prim.Native.String.{◌++◌ as cat}
use agent_mission_control.Prelude.{
  ℕ, Bool, true, false, not, Option, none, some, List, [], ◌∷◌, ◌++◌, String, Result, ok, err,
}
use agent_mission_control.Prelude.Text.{is_blank}
use agent_mission_control.Prelude.Dict.{lookup, insert}
use agent_mission_control.Domain.Ids.{MissionId, RouteId}
use agent_mission_control.Domain.Event.{EventEnvelope}
use agent_mission_control.Supervisor.Actor.{Host, ActorError, MissionActor, Step, and_then}
use agent_mission_control.Supervisor.Loadouts.{ProviderId, default_provider, as_str}
use agent_mission_control.Supervisor.Service.{
  MissionCommandRequest, MissionCommandResult, MissionService, ControlCall, Platform,
}

abbrev pub Action : Host → Type 0 → Type 0
Action h A = MissionService h → MissionService h × Result A String

-- `map_err(|error| format!("PREFIX{error}"))`.
abbrev pub prefixed : {A : Type 0} → String → Result A String → Result A String
prefixed text (ok x) = ok x
prefixed text (err e) = err (cat text e)

-- `unwrap_or_default` of a provider.
abbrev pub provider_or_default : Option ProviderId → ProviderId
provider_or_default none = default_provider
provider_or_default (some provider) = provider

module _ {h : Host} where
  -- What follows an action, and what a `?` returns.
  unfoldable pub bound :
      {A B : Type 0}
      → MissionService h × Result A String
      → (A → Action h B)
      → MissionService h × Result B String
  bound (s, ok x) k = k x s
  bound (s, err e) k = (s, err e)

  infixl 5 ◌>>=◌ ◌>>◌
  abbrev pub ◌>>=◌ : {A B : Type 0} → Action h A → (A → Action h B) → Action h B
  (m >>= k) s = bound (m s) k

  abbrev pub ◌>>◌ : {A B : Type 0} → Action h A → Action h B → Action h B
  m >> n = m >>= λ _. n

  abbrev pub pure : {A : Type 0} → A → Action h A
  pure x s = (s, ok x)

  -- `result?`.
  abbrev pub lift : {A : Type 0} → Result A String → Action h A
  lift r s = (s, r)

  abbrev pub refuse : Bool → String → Action h (Unit {0})
  refuse true e s = (s, err e)
  refuse false e s = (s, ok tt)

  abbrev pub asks : {A : Type 0} → (MissionService h → A) → Action h A
  asks f s = (s, ok (f s))

  abbrev pub modify : (MissionService h → MissionService h) → Action h (Unit {0})
  modify f s = (f s, ok tt)

  -- `let _ = action`.
  abbrev pub ignore : {A : Type 0} → Action h A → Action h (Unit {0})
  ignore m s = ((m s).0, ok tt)

  -- The actor as the service finds it: its ledger is a connection to the database.
  abbrev pub on_disk : h.Ledger → MissionActor h → MissionActor h
  on_disk disk a = record a { ledger = disk }

  -- The actor and the database as a method of the actor leaves them.
  unfoldable pub kept :
      {A : Type 0}
      → String
      → (ActorError → String)
      → MissionService h
      → MissionActor h × Result A ActorError
      → MissionService h × Result A String
  kept key show s (a, ok x) =
      (record s { missions = insert key a s.missions; disk = a.ledger }, ok x)
  kept key show s (a, err e) =
      (record s { missions = insert key a s.missions; disk = a.ledger }, err (show e))

  -- `get_mut(..).ok_or("MISSION_NOT_FOUND")?`, a method, and its `map_err`.
  unfoldable pub on_found :
      {A : Type 0}
      → Option (MissionActor h)
      → String
      → (ActorError → String)
      → Step h A
      → Action h A
  unfolding kept
  on_found none key show step s = (s, err "MISSION_NOT_FOUND")
  on_found (some a) key show step s = kept key show s (step (on_disk s.disk a))

  unfoldable pub on_actor : {A : Type 0} → String → (ActorError → String) → Step h A → Action h A
  unfolding on_found
  on_actor key show step s = on_found (lookup key s.missions) key show step s

  -- `active_run_id`, and `run_provider(..).unwrap_or_default()`.
  abbrev pub active_run_id : String → Action h (Option String)
  active_run_id key = asks (λ s. lookup key s.runs)

  abbrev pub run_provider : String → Action h ProviderId
  run_provider key = asks (λ s. provider_or_default (lookup key s.run_providers))

module _ {h : Host} (p : Platform h) where
  -- An error of an actor under a prefix.
  abbrev pub shown : String → ActorError → String
  shown prefix e = cat prefix (p.debug e)

  -- A call of an adapter.
  unfoldable pub call : String → ControlCall h → Action h (Unit {0})
  call prefix c s = (record s { calls = s.calls ++ c ∷ [] }, prefixed prefix (p.control c))

  -- `MissionService::adapter`.
  unfoldable pub adapter : ProviderId → Action h (Unit {0})
  adapter provider =
      refuse (not (p.has_adapter provider)) (cat "PROVIDER_UNAVAILABLE:" (as_str provider))

  -- An identifier of a request: missing, unreadable, or a number.
  unfoldable pub parsed : String → Option String → Result (Option ℕ) String
  parsed invalid none = ok none
  parsed invalid (some text) = elim (h.parse_id text) [ none ↦ err invalid | some n ↦ ok (some n) ]

  abbrev pub required {ℓ} : {A : Type ℓ} → String → Option A → Result A String
  required missing none = err missing
  required missing (some a) = ok a

  unfoldable pub required_id : String → String → Option String → Result ℕ String
  unfolding parsed
  required_id invalid missing text = and_then (parsed invalid text) (λ o. required missing o)

  unfoldable pub request_mission_id : MissionCommandRequest h → Result MissionId String
  unfolding required_id
  request_mission_id r = required_id "MISSION_ID_INVALID" "MISSION_ID_REQUIRED" r.mission_id

  unfoldable pub request_route_id : MissionCommandRequest h → Result RouteId String
  unfolding required_id
  request_route_id r = required_id "ROUTE_ID_INVALID" "ROUTE_ID_REQUIRED" r.route_id

  -- `filter(|value| !value.trim().is_empty()).ok_or(missing)`.
  unfoldable pub required_text : String → Option String → Result String String
  required_text missing none = err missing
  required_text missing (some text) = elim (is_blank text) [ true ↦ err missing | false ↦ ok text ]

  unfoldable pub event_values : List (EventEnvelope h.json) → Result (List h.json.Value) String
  event_values [] = ok []
  event_values (e ∷ es) =
      let rest = event_values es in
      elim (p.event_value e) [
        | none ↦ err "EVENT_SERIALIZE_FAILED"
        | some v ↦ and_then rest (λ vs. ok (v ∷ vs))
      ]

  abbrev pub first_route : List (EventEnvelope h.json) → Option String
  first_route [] = none
  first_route (e ∷ es) = some (p.id_text e.route_id)

  -- `MissionService::result` of the actor that the map has under the key.
  unfoldable pub result_of :
      Option String → Option (MissionActor h) → h.Ledger → Result (MissionCommandResult h) String
  unfolding event_values
  result_of m none disk = ok (record {
    accepted = true;
    mission_id = m;
    route_id = none;
    sequence = none;
    error_code = none;
    confirmation_token = none;
    provider = none;
    capability = none;
    events = [];
    data_value = none;
    recovery_required = false;
  })
  result_of m (some a) disk =
      let replayed = h.replay_after disk a.mission_id 0 in
      and_then (event_values replayed) (λ values. ok (record {
        accepted = true;
        mission_id = m;
        route_id = first_route replayed;
        sequence = some a.sequence;
        error_code = none;
        confirmation_token = none;
        provider = none;
        capability = none;
        events = values;
        data_value = none;
        recovery_required = a.requires_recovery;
      }))

  unfoldable pub result : String → Action h (MissionCommandResult h)
  unfolding result_of
  result key s = (s, result_of (some key) (lookup key s.missions) s.disk)

  -- `if let Some(run_id) = active_run { .. }`: a call of the adapter of the mission's run.
  unfoldable pub control_run :
      (ProviderId → String → ControlCall h) → String → String → Option String → Action h (Unit {0})
  unfolding adapter call
  control_run kind prefix key none = pure tt
  control_run kind prefix key (some run_id) = do
    provider ← run_provider key
    adapter provider
    call prefix (kind provider run_id)
