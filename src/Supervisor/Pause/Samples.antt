-- ===== src/Supervisor/Pause/Samples.antt =====
-- Concrete pauses.
use agent_mission_control.Prelude.{◌≡◌, refl, some, List, [], ◌∷◌}
use agent_mission_control.Prelude.Text.{to_decimal}
use agent_mission_control.Prelude.Word.{increment}
use agent_mission_control.Supervisor.Pause.{
  pause_requested, force_termination_available, terminated, PauseTransition, default_controller,
  request, acknowledge, timeout, force_terminate,
}
use agent_mission_control.Supervisor.Pause.Safety.{
  Call, requests, acknowledges, times_out, terminates, step, run,
}

abbrev calls : List Call
calls =
    requests "lunch"
    ∷ acknowledges
    ∷ times_out
    ∷ terminates "wrong"
    ∷ terminates "pause-force-1"
    ∷ []

calls_terminate : (run default_controller calls).state ≡ terminated
unfolding run step default_controller request acknowledge timeout force_terminate increment
    to_decimal
calls_terminate = refl

abbrev first_token : PauseTransition
first_token = record {
  from = pause_requested "lunch";
  to = force_termination_available "pause-force-1";
  confirmation_token = some "pause-force-1";
}
