-- ===== src/Supervisor/Service/Ended/Samples.antt =====
-- A run with one event, which its mission records, while an approval waits.
use agent_mission_control.Prelude.{◌≡◌, ◌≢◌, false, none, some, [], ◌∷◌, ok}
use agent_mission_control.Prelude.Dict.{lookup}
use agent_mission_control.Domain.Event.{EventKind}
use agent_mission_control.Supervisor.Actor.AgentEvents.{AgentEvent}
use agent_mission_control.Supervisor.Loadouts.{ProviderId}
use agent_mission_control.Supervisor.Service.Runs.{Run, consume}
use agent_mission_control.Supervisor.Service.Ended.{any_of_run, consume_ends}
use agent_mission_control.Supervisor.Service.Fixture.{blank, host, platform, busy}

abbrev finished : AgentEvent host
finished = record {
  event_id = 9;
  agent_run_id = none;
  event_kind = EventKind.agent_run_completed;
  payload = blank;
  requires_safe_pause = false;
  raw_evidence = none;
}

abbrev run : Run
run = record { key = "m"; run_id = "run-1"; provider = ProviderId.codex }

consume_ends_example :
    let task = consume platform run (finished ∷ []) (record { secs = 1; nanos = 0 }) busy in
    (task.1 ≡ ok tt)
    × (lookup "m" task.0.runs ≢ some "run-1")
    × (any_of_run "run-1" task.0.pending_server_requests ≡ false)
consume_ends_example =
    consume_ends platform run (finished ∷ []) (record { secs = 1; nanos = 0 }) busy
