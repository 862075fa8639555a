-- ===== src/Supervisor/Scheduler/History.antt =====
-- Every sequence of calls on a scheduler: its invariant, and the one way in which a mission's state moves.
use agent_mission_control.Prelude.{
  ℕ, ◌-◌, ◌≤◌, ◌≡◌, inl, inr, sym, ap, ◌∙◌, Bool, false, ◌==◌, Option, none, some, List, [], ◌∷◌,
  String, arith, ==_iff, Option-cases, Bool-cases, ok, err,
}
use agent_mission_control.Domain.Ids.{MissionId}
use agent_mission_control.Supervisor.Resource.{
  ResourceDecision, proceed, throttle, pause_at_safe_boundary,
}
use agent_mission_control.Supervisor.Scheduler.Missions.{
  MissionScheduleState, queued, active, paused, completed, is_queued, is_completed, ScheduledAction,
  MissionQueue, MissionMap, get, modify, count_active, get-modify, get-insert,
}
use agent_mission_control.Supervisor.Scheduler.{
  SchedulerConfig, MissionScheduler, Outcome, ActionAuthorization, new, register, push_back,
  enqueue, rebuild_schedule, set_state, activate_one, activate_each, activate_ready, settle, pause,
  complete, set_reason, note_reason, pause_noted, apply_resource_decision, Pull, gives, nothing,
  out_of_bounds, pop_front, next,
}
use native.Mathlib.Nat.{le_trans}
use agent_mission_control.Supervisor.Scheduler.Capacity.{
  IsValid, new-IsValid, activate_ready-IsValid,
}
use agent_mission_control.Supervisor.Scheduler.Operations.{
  register-IsValid, enqueue-IsValid, pause-IsValid, complete-IsValid,
  apply_resource_decision-IsValid,
}
use agent_mission_control.Supervisor.Scheduler.Turns.{Answer, next_lem}

pub data Call : Type 0 where
  registers : MissionId → Bool → Call
  enqueues : ScheduledAction → ActionAuthorization → Call
  activates : Call
  pauses completes : MissionId → Call
  decides : MissionId → ResourceDecision → Call
  pulls : Call

unfoldable pub step : MissionScheduler → Call → MissionScheduler
step s (registers id foreground) = (register s id foreground).0
step s (enqueues a authorization) = (enqueue s a authorization).0
step s activates = activate_ready s
step s (pauses id) = (pause s id).0
step s (completes id) = (complete s id).0
step s (decides id decision) = (apply_resource_decision s id decision).0
step s pulls = (next s).0

unfoldable pub run : MissionScheduler → List Call → MissionScheduler
run s [] = s
run s (c ∷ cs) = run (step s c) cs

Answer-IsValid : (s : MissionScheduler) (r : MissionScheduler × Pull) → Answer s r → IsValid r.0
Answer-IsValid s (t, gives a) h = h.5
Answer-IsValid s (t, nothing) h = h.1
Answer-IsValid s (t, out_of_bounds) h = absurd h

step-IsValid : (s : MissionScheduler) (c : Call) → IsValid s → IsValid (step s c)
unfolding step
step-IsValid s (registers id foreground) v = register-IsValid s id foreground v
step-IsValid s (enqueues a authorization) v = enqueue-IsValid s a authorization v
step-IsValid s activates v = activate_ready-IsValid s v
step-IsValid s (pauses id) v = pause-IsValid s id v
step-IsValid s (completes id) v = complete-IsValid s id v
step-IsValid s (decides id decision) v = apply_resource_decision-IsValid s id decision v
step-IsValid s pulls v = Answer-IsValid s (next s) (next_lem s v)

run-IsValid : (s : MissionScheduler) (cs : List Call) → IsValid s → IsValid (run s cs)
unfolding run
run-IsValid s [] v = v
run-IsValid s (c ∷ cs) v = run-IsValid (step s c) cs (step-IsValid s c v)

-- Whatever is called on a new scheduler: its limit lies between 1 and 5, no more missions are active than
-- the limit, the schedule is the plan of the registered missions (three turns for an active foreground
-- mission, one for another active mission, none for the rest), and the cursor lies in it.
pub run-new-IsValid :
    (c : SchedulerConfig) (s : MissionScheduler) (cs : List Call)
    → new c ≡ ok s
    → IsValid (run s cs)
run-new-IsValid c s cs h = run-IsValid s cs (new-IsValid c s h)

-- How far a mission has come.
abbrev pub stage : MissionScheduleState → ℕ
stage queued = 1
stage active = 2
stage paused = 3
stage completed = 4

abbrev pub stage_of : Option MissionQueue → ℕ
stage_of none = 0
stage_of (some q) = stage q.state

-- No mission falls back.
abbrev Advances : MissionMap → MissionMap → Type 0
Advances m n = (j : MissionId) → stage_of (get j m) ≤ stage_of (get j n)

modify-Advances :
    (id : MissionId) (f : MissionQueue → MissionQueue) (m : MissionMap) (q : MissionQueue)
    → get id m ≡ some q
    → stage q.state ≤ stage (f q).state
    → Advances m (modify id f m)
modify-Advances id f m q e h j = elim (Bool-cases (id == j)) [
  | inl same ↦
      let there : get j m ≡ some q = ap (λ k. get k m) (sym ((==_iff id j).0 same)) ∙ e in
      rw (get-modify id j f m q e, same) (rw there h)
  | inr other ↦ rw (get-modify id j f m q e, other) (omega arith)
]

activate_one-Advances :
    (id : MissionId) (a : ℕ) (m : MissionMap) → Advances m (activate_one id a m).1
unfolding activate_one
activate_one-Advances id a m j = elim (Option-cases (get id m)) [
  | inl e ↦ rw (e, activate_one) (omega arith)
  | inr (q, e) ↦
      rw (e, activate_one)
        (ground (
          arith,
          is_queued,
          λ (p : stage q.state ≤ 2). modify-Advances id (set_state active) m q e p j,
        ))
]

activate_each-Advances :
    (ids : List MissionId) (a : ℕ) (m : MissionMap) → Advances m (activate_each ids a m)
unfolding activate_each
activate_each-Advances [] a m j = omega arith
activate_each-Advances (id ∷ ids) a m j =
    le_trans (activate_one-Advances id a m j)
      (activate_each-Advances ids (activate_one id a m).0 (activate_one id a m).1 j)

activate_ready-Advances : (s : MissionScheduler) → Advances s.missions (activate_ready s).missions
unfolding activate_ready rebuild_schedule
activate_ready-Advances s j =
    let available = s.config.max_active - count_active s.missions in
    elim (Bool-cases (available == 0)) [
      | inl full ↦ rw full (omega arith)
      | inr room ↦ rw room (activate_each-Advances s.registration_order available s.missions j)
    ]

settle-Advances :
    (s : MissionScheduler) (id : MissionId) (state : MissionScheduleState) (q : MissionQueue)
    → get id s.missions ≡ some q
    → stage q.state ≤ stage state
    → Advances s.missions (settle s id state).missions
unfolding settle
settle-Advances s id state q e h j =
    le_trans (modify-Advances id (set_state state) s.missions q e h j) (
      activate_ready-Advances
        (rebuild_schedule (record s { missions = modify id (set_state state) s.missions })) j)

register-Advances :
    (s : MissionScheduler) (id : MissionId) (b : Bool)
    → Advances s.missions (register s id b).0.missions
unfolding register
register-Advances s id b j = elim (Option-cases (get id s.missions)) [
  | inr (q, e) ↦ rw (e, register) (omega arith)
  | inl e ↦
      rw (e, register)
        (elim (Bool-cases (id == j)) [
          | inl same ↦
              let none_there : get j s.missions ≡ none =
                ap (λ k. get k s.missions) (sym ((==_iff id j).0 same)) ∙ e in
              rw none_there (omega arith)
          | inr other ↦
              rw
                (
                  get-insert id j
                      (record {
                        state = queued;
                        foreground = b;
                        actions = [];
                        resource_reason = none;
                      })
                      s.missions,
                  other,
                )
                (omega arith)
        ])
]

enqueue-Advances :
    (s : MissionScheduler) (a : ScheduledAction) (auth : ActionAuthorization)
    → Advances s.missions (enqueue s a auth).0.missions
unfolding enqueue
enqueue-Advances s a auth j = elim (Option-cases (get a.mission_id s.missions)) [
  | inl e ↦ rw (e, enqueue) (ground arith)
  | inr (q, e) ↦
      rw (e, enqueue)
        (ground (arith, modify-Advances a.mission_id (push_back a) s.missions q e (omega arith) j))
]

pause-Advances :
    (s : MissionScheduler) (id : MissionId) → Advances s.missions (pause s id).0.missions
unfolding pause
pause-Advances s id j = elim (Option-cases (get id s.missions)) [
  | inl e ↦ rw (e, pause) (omega arith)
  | inr (q, e) ↦ elim (Bool-cases (is_completed q.state)) [
    | inl done ↦ rw (e, pause) (rw done (omega arith))
    | inr undone ↦
        rw (e, pause)
          (rw undone (settle-Advances s id paused q e (before_completed q.state undone) j))
  ]
]
  where
    before_completed : (state : MissionScheduleState) → is_completed state ≡ false → stage state ≤ 3
    before_completed queued h = omega arith
    before_completed active h = omega arith
    before_completed paused h = omega arith
    before_completed completed h = absurd (cc)

complete-Advances :
    (s : MissionScheduler) (id : MissionId) → Advances s.missions (complete s id).0.missions
unfolding complete
complete-Advances s id j = elim (Option-cases (get id s.missions)) [
  | inl e ↦ rw (e, complete) (omega arith)
  | inr (q, e) ↦ rw (e, complete) (settle-Advances s id completed q e (stage_bound q.state) j)
]
  where
    stage_bound : (state : MissionScheduleState) → stage state ≤ 4
    stage_bound queued = omega arith
    stage_bound _ = omega arith

note_reason-Advances :
    (s : MissionScheduler) (id : MissionId) (r : Option String)
    → Advances s.missions (note_reason s id r).0.missions
unfolding note_reason
note_reason-Advances s id r j = elim (Option-cases (get id s.missions)) [
  | inl e ↦ rw (e, note_reason) (omega arith)
  | inr (q, e) ↦
      rw (e, note_reason) (modify-Advances id (set_reason r) s.missions q e (omega arith) j)
]

pause_noted-Advances :
    (o : Outcome) (id : MissionId) → Advances o.0.missions (pause_noted o id).0.missions
unfolding pause_noted
pause_noted-Advances (s, ok u) id j = pause-Advances s id j
pause_noted-Advances (s, err e) id j = omega arith

decide-Advances :
    (s : MissionScheduler) (id : MissionId) (d : ResourceDecision)
    → Advances s.missions (apply_resource_decision s id d).0.missions
unfolding apply_resource_decision
decide-Advances s id proceed j = note_reason-Advances s id none j
decide-Advances s id (throttle r) j = note_reason-Advances s id (some r) j
decide-Advances s id (pause_at_safe_boundary r) j =
    le_trans (note_reason-Advances s id (some r) j)
      (pause_noted-Advances (note_reason s id (some r)) id j)

Answer-Advances :
    (s : MissionScheduler) (r : MissionScheduler × Pull)
    → Answer s r
    → Advances s.missions r.0.missions
unfolding pop_front
Answer-Advances s (t, gives a) (id, q, e, f, m, v) j =
    rw m (modify-Advances id pop_front s.missions q e (omega arith) j)
Answer-Advances s (t, nothing) (m, v, idle) j = rw m (omega arith)
Answer-Advances s (t, out_of_bounds) h j = absurd h

step-Advances :
    (s : MissionScheduler) (c : Call) → IsValid s → Advances s.missions (step s c).missions
unfolding step
step-Advances s (registers id foreground) v = register-Advances s id foreground
step-Advances s (enqueues a authorization) v = enqueue-Advances s a authorization
step-Advances s activates v = activate_ready-Advances s
step-Advances s (pauses id) v = pause-Advances s id
step-Advances s (completes id) v = complete-Advances s id
step-Advances s (decides id decision) v = decide-Advances s id decision
step-Advances s pulls v = Answer-Advances s (next s) (next_lem s v)

-- Over every sequence of calls on a valid scheduler a mission only moves on: queued, active, paused,
-- completed. In particular none that was paused is ever active again: no call resumes it.
pub run_advances :
    (s : MissionScheduler) (cs : List Call) (id : MissionId)
    → IsValid s
    → stage_of (get id s.missions) ≤ stage_of (get id (run s cs).missions)
unfolding run
run_advances s [] id v = omega arith
run_advances s (c ∷ cs) id v =
    le_trans (step-Advances s c v id) (run_advances (step s c) cs id (step-IsValid s c v))
