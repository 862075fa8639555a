-- ===== src/Supervisor/Service/Presence.antt =====
-- crates/supervisor/src/mission_service.rs: what the desktop's presence does to the missions: `touch_ui`,
-- the watchdog's `pause_for_ui_disconnect`, and `restore_existing` at the start of the service. A loop over
-- the map goes by the order of its entries here.
pub mod Quiet
use agent_mission_control.Prelude.{
  ℕ, Bool, true, false, not, ◌&&◌, ltb, Option, none, some, List, [], ◌∷◌, ◌++◌, String, Result, ok,
  err, if◌then◌else◌,
}
use agent_mission_control.Prelude.Dict.{Dict, lookup, insert}
use agent_mission_control.Domain.Ids.{MissionId, RouteId}
use agent_mission_control.Domain.Event.{EventEnvelope}
use agent_mission_control.Policy.Budget.{BudgetTracker}
use agent_mission_control.Supervisor.Actor.{Host, ActorError, MissionActor, try_new}
use agent_mission_control.Supervisor.Actor.Pausing.{set_ui_connected}
use agent_mission_control.Supervisor.Budgets.{budget_tracker_from_events}
use agent_mission_control.Supervisor.Service.{
  MissionService, ControlCall, safe_pause, Platform, is_some,
}
use agent_mission_control.Supervisor.Service.Action.{
  Action, ◌>>=◌, ◌>>◌, pure, lift, prefixed, modify, on_disk, call, provider_or_default, required,
}

-- The database, and what is left of a loop over the actors.
pub record Swept (h : Host) : Type 0 where
  pub missions : Dict (MissionActor h)
  pub disk : h.Ledger
  pub keys : List String

module _ {h : Host} where
  -- `let _ = actor.set_ui_connected(connected);`, and the keys of those that were connected before.
  unfoldable pub sweep : Bool → Dict (MissionActor h) → h.Ledger → Swept h
  unfolding set_ui_connected
  sweep connected [] disk = record { missions = []; disk = disk; keys = [] }
  sweep connected ((key, a) ∷ rest) disk =
      let b = (set_ui_connected h connected (on_disk disk a)).0 in
      let swept = sweep connected rest b.ledger in
      record {
        missions = (key, b) ∷ swept.missions;
        disk = swept.disk;
        keys = if a.ui_connected then key ∷ swept.keys else swept.keys;
      }

  unfoldable pub set_all : Bool → MissionService h → MissionService h
  unfolding sweep
  set_all connected s =
      let swept = sweep connected s.missions s.disk in
      record s { missions = swept.missions; disk = swept.disk }

  -- `touch_ui`, but for the clock.
  unfoldable pub touch_ui : MissionService h → MissionService h
  unfolding set_all
  touch_ui s = set_all true s

module _ {h : Host} (p : Platform h) where
  -- The run of one mission that was connected: its adapter, where there is one, is asked to pause.
  unfoldable pub pause_run : String → Option String → MissionService h → MissionService h
  unfolding call
  pause_run key none s = s
  pause_run key (some run_id) s =
      let provider = provider_or_default (lookup key s.run_providers) in
      if p.has_adapter provider then (call p "" (safe_pause provider run_id) s).0 else s

  unfoldable pub pause_runs : List String → MissionService h → MissionService h
  unfolding pause_run
  pause_runs [] s = s
  pause_runs (key ∷ rest) s = pause_runs rest (pause_run key (lookup key s.runs) s)

  unfoldable pub pause_for_ui_disconnect : MissionService h → MissionService h
  unfolding sweep set_all pause_runs
  pause_for_ui_disconnect s = pause_runs (sweep false s.missions s.disk).keys (set_all false s)

  abbrev pub first_event_route : List (EventEnvelope h.json) → Option RouteId
  first_event_route [] = none
  first_event_route (e ∷ es) = some e.route_id

  -- A map's entry that is vacant is filled; one that is there stays.
  unfoldable pub restored :
      String → MissionId → RouteId → Option (MissionActor h) → Action h (Unit {0})
  restored key m route (some a) = pure tt
  restored key m route none = do
    a ← (λ s. lift (prefixed "MISSION_RESTORE_FAILED:" (try_new h m route s.disk)) s)
    modify (λ s. record s { missions = insert key a s.missions })

  -- One round of the loop of `restore_existing`, with the events that the ledger replays.
  unfoldable pub restore_with : MissionId → List (EventEnvelope h.json) → Action h (Unit {0})
  unfolding restored
  restore_with m events = do
    route ← lift (required p "MISSION_RESTORE_ROUTE_MISSING" (first_event_route events))
    let key = p.id_text m
    modify (λ s. record s {
      budgets = insert key (budget_tracker_from_events h.json p.fields events) s.budgets;
    })
    (λ s. restored key m route (lookup key s.missions) s)

  -- `replay_events` of the ledger, which reports a row that it cannot read, is a parameter.
  module _
      (replay_events : h.Ledger → MissionId → Result (List (EventEnvelope h.json)) String) where
    unfoldable pub restore_each : List MissionId → Action h (Unit {0})
    unfolding restore_with
    restore_each [] = pure tt
    restore_each (m ∷ ms) = do
      (λ s. (s, prefixed "LEDGER_OPEN_FAILED:" (p.open_ledger s.disk)))
      events ← (λ s. lift (prefixed "MISSION_RESTORE_FAILED:" (replay_events s.disk m)) s)
      restore_with m events
      restore_each ms

    -- `restore_existing`, given what `integrity_report` answers.
    unfoldable pub restore_existing : Result (Unit {0}) String → Action h (Unit {0})
    unfolding restore_each
    restore_existing integrity = do
      (λ s. (s, prefixed "LEDGER_OPEN_FAILED:" (p.open_ledger s.disk)))
      lift (prefixed "LEDGER_RECOVERY_REQUIRED:" integrity)
      ids ← (λ s. lift (prefixed "MISSION_RESTORE_FAILED:" (p.mission_ids s.disk)) s)
      restore_each ids
