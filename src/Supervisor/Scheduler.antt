-- ===== src/Supervisor/Scheduler.antt =====
-- crates/supervisor/src/scheduler.rs: which mission acts next. A method returns the new scheduler
-- beside its outcome.
pub mod Missions
pub mod Capacity
pub mod Operations
pub mod Turns
pub mod History
pub mod Samples
use agent_mission_control.Prelude.{
  ℕ, zero, suc, ◌+◌, ◌-◌, ◌%◌, Bool, true, false, not, ◌&&◌, ◌||◌, ◌==◌, ltb, leb, Option, none,
  some, List, [], ◌∷◌, ◌++◌, String, Result, ok, err, if◌then◌else◌, is_empty, is_some, length,
  get_elem?, replicate,
}
use agent_mission_control.Domain.Ids.{MissionId}
use agent_mission_control.Supervisor.Resource.{
  ResourceDecision, proceed, throttle, pause_at_safe_boundary,
}
use Missions.{
  MissionScheduleState, queued, active, paused, completed, is_queued, is_active, is_completed,
  ScheduledAction, MissionQueue, MissionMap, get, modify, insert, count_active,
}

abbrev pub foreground_weight : ℕ
foreground_weight = 3

abbrev pub background_weight : ℕ
background_weight = 1

pub data SchedulerError : Type 0 where
  invalid_concurrency mission_already_registered mission_not_registered : SchedulerError
  action_not_approved mission_completed : SchedulerError

pub record SchedulerConfig : Type 0 where
  pub max_active : ℕ

-- `SchedulerConfig::new`.
unfoldable pub new_config : ℕ → Result SchedulerConfig SchedulerError
new_config max_active =
    if not (leb 1 max_active && leb max_active 5)
    then err invalid_concurrency
    else ok (record { max_active = max_active })

pub data ActionAuthorization : Type 0 where
  policy_allowed approval_consumed denied : ActionAuthorization

unfoldable pub is_denied : ActionAuthorization → Bool
is_denied denied = true
is_denied _ = false

pub record MissionScheduler : Type 0 where
  pub config : SchedulerConfig
  pub missions : MissionMap
  pub registration_order : List MissionId
  pub schedule : List MissionId
  pub cursor : ℕ

abbrev pub Outcome : Type 0
Outcome = MissionScheduler × Result (Unit {0}) SchedulerError

unfoldable pub new : SchedulerConfig → Result MissionScheduler SchedulerError
unfolding new_config
new config = elim (new_config config.max_active) [
  | err e ↦ err e
  | ok c ↦ ok (record {
    config = config;
    missions = [];
    registration_order = [];
    schedule = [];
    cursor = 0;
  })
]

unfoldable pub register : MissionScheduler → MissionId → Bool → Outcome
unfolding insert
register s id foreground =
    if is_some (get id s.missions) then (s, err mission_already_registered) else (
      record s {
        missions =
            insert id
              (record {
                state = queued;
                foreground = foreground;
                actions = [];
                resource_reason = none;
              })
              s.missions;
        registration_order = s.registration_order ++ id ∷ [];
      },
      ok tt,
    )

unfoldable pub push_back : ScheduledAction → MissionQueue → MissionQueue
push_back a q = record q { actions = q.actions ++ a ∷ [] }

unfoldable pub enqueue : MissionScheduler → ScheduledAction → ActionAuthorization → Outcome
unfolding is_denied is_completed push_back
enqueue s a authorization =
    if is_denied authorization
    then (s, err action_not_approved)
    else elim (get a.mission_id s.missions) [
      | none ↦ (s, err mission_not_registered)
      | some q ↦
          if is_completed q.state
          then (s, err mission_completed)
          else (record s { missions = modify a.mission_id (push_back a) s.missions }, ok tt)
    ]

-- The turns that a mission gets in one round.
unfoldable pub turns_of : Option MissionQueue → MissionId → List MissionId
unfolding is_active
turns_of none id = []
turns_of (some q) id =
    if not (is_active q.state)
    then []
    else replicate (if q.foreground then foreground_weight else background_weight) id

unfoldable pub build_schedule : List MissionId → MissionMap → List MissionId
unfolding turns_of
build_schedule [] m = []
build_schedule (id ∷ ids) m = turns_of (get id m) id ++ build_schedule ids m

unfoldable pub rebuild_schedule : MissionScheduler → MissionScheduler
rebuild_schedule s = record s {
  schedule = build_schedule s.registration_order s.missions;
  cursor = 0;
}

unfoldable pub set_state : MissionScheduleState → MissionQueue → MissionQueue
set_state state q = record q { state = state }

-- One round of the loop of `activate_ready`: what is still available, and the missions.
unfoldable pub activate_one : MissionId → ℕ → MissionMap → ℕ × MissionMap
unfolding is_queued set_state
activate_one id available m = elim (get id m) [
  | none ↦ (available, m)
  | some q ↦
      if ltb 0 available && is_queued q.state && not (is_empty q.actions)
      then (available - 1, modify id (set_state active) m)
      else (available, m)
]

unfoldable pub activate_each : List MissionId → ℕ → MissionMap → MissionMap
unfolding activate_one
activate_each [] available m = m
activate_each (id ∷ ids) available m =
    let (left, n) = activate_one id available m in activate_each ids left n

unfoldable pub activate_ready : MissionScheduler → MissionScheduler
unfolding activate_each rebuild_schedule
activate_ready s =
    let available = s.config.max_active - count_active s.missions in
    if available == 0
    then s
    else rebuild_schedule
        (record s { missions = activate_each s.registration_order available s.missions })

-- What `pause` and `complete` do behind their checks.
unfoldable pub settle : MissionScheduler → MissionId → MissionScheduleState → MissionScheduler
unfolding set_state rebuild_schedule activate_ready
settle s id state =
    activate_ready
      (rebuild_schedule (record s { missions = modify id (set_state state) s.missions }))

unfoldable pub pause : MissionScheduler → MissionId → Outcome
unfolding settle is_completed
pause s id = elim (get id s.missions) [
  | none ↦ (s, err mission_not_registered)
  | some q ↦
      if is_completed q.state then (s, err mission_completed) else (settle s id paused, ok tt)
]

unfoldable pub complete : MissionScheduler → MissionId → Outcome
unfolding settle
complete s id = elim (get id s.missions) [
  | none ↦ (s, err mission_not_registered)
  | some q ↦ (settle s id completed, ok tt)
]

unfoldable pub set_reason : Option String → MissionQueue → MissionQueue
set_reason reason q = record q { resource_reason = reason }

-- A write to `resource_reason` through `mission_mut`.
unfoldable pub note_reason : MissionScheduler → MissionId → Option String → Outcome
unfolding set_reason
note_reason s id reason = elim (get id s.missions) [
  | none ↦ (s, err mission_not_registered)
  | some q ↦ (record s { missions = modify id (set_reason reason) s.missions }, ok tt)
]

-- `self.mission_mut(id)?.. ; self.pause(id, reason)?`.
unfoldable pub pause_noted : Outcome → MissionId → Outcome
unfolding pause
pause_noted (s, ok _) id = pause s id
pause_noted (s, err e) id = (s, err e)

unfoldable pub apply_resource_decision : MissionScheduler → MissionId → ResourceDecision → Outcome
unfolding note_reason pause_noted
apply_resource_decision s id proceed = note_reason s id none
apply_resource_decision s id (throttle reason) = note_reason s id (some reason)
apply_resource_decision s id (pause_at_safe_boundary reason) =
    pause_noted (note_reason s id (some reason)) id

-- What `next` gives; `out_of_bounds` is the panic of an index past the schedule.
pub data Pull : Type 0 where
  gives : ScheduledAction → Pull
  nothing out_of_bounds : Pull

abbrev pub tail : List ScheduledAction → List ScheduledAction
tail [] = []
tail (a ∷ rest) = rest

abbrev pub head? : List ScheduledAction → Option ScheduledAction
head? [] = none
head? (a ∷ rest) = some a

-- `VecDeque::pop_front`: what it leaves.
unfoldable pub pop_front : MissionQueue → MissionQueue
pop_front q = record q { actions = tail q.actions }

-- The action that a turn of the mission gives.
unfoldable pub ready : MissionQueue → Option ScheduledAction
unfolding is_active
ready q = if is_active q.state then head? q.actions else none

-- The `for` loop of `next`, by the rounds left.
unfoldable pub next_within : ℕ → MissionScheduler → MissionScheduler × Pull
unfolding pop_front ready
next_within zero s = (s, nothing)
next_within (suc rounds) s = elim (get_elem? s.schedule s.cursor) [
  | none ↦ (s, out_of_bounds)
  | some id ↦
      let t = record s { cursor = (s.cursor + 1) % length s.schedule } in
      elim (get id s.missions) [
        | none ↦ (t, nothing)
        | some q ↦ elim (ready q) [
          | some a ↦ (record t { missions = modify id pop_front s.missions }, gives a)
          | none ↦ next_within rounds t
        ]
      ]
]

unfoldable pub next : MissionScheduler → MissionScheduler × Pull
unfolding next_within
next s = next_within (length s.schedule) s
