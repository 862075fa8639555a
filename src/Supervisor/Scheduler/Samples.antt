-- ===== src/Supervisor/Scheduler/Samples.antt =====
-- A concrete scheduler.
use agent_mission_control.Prelude.{ℕ, ◌≤◌, ◌≡◌, refl, true, false, List, [], ◌∷◌}
use agent_mission_control.Supervisor.Scheduler.Missions.{ScheduledAction, get, modify, count_active}
use agent_mission_control.Supervisor.Scheduler.{
  SchedulerConfig, MissionScheduler, policy_allowed, new, register, enqueue, activate_ready, pause,
  build_schedule, gives, next,
}
use agent_mission_control.Supervisor.Scheduler.Capacity.{IsValid}
use agent_mission_control.Supervisor.Scheduler.Turns.{Answer, next_lem}
use agent_mission_control.Supervisor.Scheduler.History.{
  Call, registers, enqueues, activates, pauses, step, run, run-new-IsValid, stage_of, run_advances,
}

abbrev action : ℕ → ScheduledAction
action id = record {
  mission_id = id;
  action_id = "a";
  cwd = "/w";
  env = [];
  stdout_channel = "out";
}

abbrev config : SchedulerConfig
config = record { max_active = 1 }

abbrev empty : MissionScheduler
empty = record {
  config = config;
  missions = [];
  registration_order = [];
  schedule = [];
  cursor = 0;
}

abbrev calls : List Call
calls =
    registers 1 true
    ∷ registers 2 false
    ∷ enqueues (action 1) policy_allowed
    ∷ enqueues (action 2) policy_allowed
    ∷ activates
    ∷ pauses 1
    ∷ []

-- Mission 2 takes the place of mission 1.
calls_plan : (run empty calls).schedule ≡ 2 ∷ []
unfolding run step register enqueue activate_ready pause build_schedule get modify count_active
calls_plan = refl

calls_give : (next (run empty calls)).1 ≡ gives (action 2)
unfolding run step register enqueue activate_ready pause build_schedule get modify count_active next
calls_give = refl

run-new-IsValid_example : IsValid (run empty calls)
unfolding new
run-new-IsValid_example = run-new-IsValid config empty calls refl

next_lem_example : Answer (run empty calls) (next (run empty calls))
unfolding new
next_lem_example = next_lem (run empty calls) (run-new-IsValid config empty calls refl)

empty-IsValid : IsValid empty
unfolding new run
empty-IsValid = run-new-IsValid config empty [] refl

run_advances_example : stage_of (get 1 empty.missions) ≤ stage_of (get 1 (run empty calls).missions)
run_advances_example = run_advances empty calls 1 empty-IsValid
