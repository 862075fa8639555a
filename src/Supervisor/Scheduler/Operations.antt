-- ===== src/Supervisor/Scheduler/Operations.antt =====
-- Every call on a scheduler keeps its invariant.
use agent_mission_control.Prelude.{
  ℕ, ◌<◌, ◌≡◌, inl, inr, refl, sym, ◌∙◌, Bool, Option, none, some, [], String, arith, Option-cases,
  Bool-cases, length, ok, err,
}
use agent_mission_control.Domain.Ids.{MissionId}
use agent_mission_control.Supervisor.Resource.{
  ResourceDecision, proceed, throttle, pause_at_safe_boundary,
}
use agent_mission_control.Supervisor.Scheduler.Missions.{
  queued, paused, completed, is_active, is_completed, ScheduledAction, MissionQueue, get, modify,
  count_active, count-modify,
}
use agent_mission_control.Supervisor.Scheduler.{
  MissionScheduler, Outcome, ActionAuthorization, register, push_back, enqueue, pause, complete,
  set_reason, note_reason, pause_noted, apply_resource_decision, pop_front,
}
use agent_mission_control.Supervisor.Scheduler.Capacity.{
  IsValid, build-modify, build-insert, settle-IsValid,
}

pub register-IsValid :
    (s : MissionScheduler) (id : MissionId) (foreground : Bool)
    → IsValid s
    → IsValid (register s id foreground).0
unfolding register is_active
register-IsValid s id foreground v = elim (Option-cases (get id s.missions)) [
  | inl e ↦
      rw (e, register)
        (let q : MissionQueue = record {
          state = queued;
          foreground = foreground;
          actions = [];
          resource_reason = none;
        } in
          record {
            bounded = v.bounded;
            within = unfold count_active in v.within;
            planned = v.planned ∙ sym (build-insert s.registration_order id q s.missions e refl);
            placed = v.placed;
          })
  | inr (q, e) ↦ rw (e, register) v
]

-- A write that keeps a mission's state and place keeps the invariant.
pub modify-IsValid :
    (s : MissionScheduler) (id : MissionId) (f : MissionQueue → MissionQueue) (q : MissionQueue)
    → get id s.missions ≡ some q
    → (f q).state ≡ q.state
    → (f q).foreground ≡ q.foreground
    → IsValid s
    → IsValid (record s { missions = modify id f s.missions })
modify-IsValid s id f q h st fg v = record {
  bounded = v.bounded;
  within = ground (arith, count-modify id f s.missions q h, v.within);
  planned = v.planned ∙ sym (build-modify s.registration_order id f s.missions q h st fg);
  placed = v.placed;
}

pub enqueue-IsValid :
    (s : MissionScheduler) (a : ScheduledAction) (auth : ActionAuthorization)
    → IsValid s
    → IsValid (enqueue s a auth).0
unfolding enqueue
enqueue-IsValid s a auth v = elim (Option-cases (get a.mission_id s.missions)) [
  | inl e ↦ rw (e, enqueue) (ground arith)
  | inr (q, e) ↦
      rw (e, enqueue) (ground (arith, modify-IsValid s a.mission_id (push_back a) q e refl refl v))
]

pub pause-IsValid : (s : MissionScheduler) (id : MissionId) → IsValid s → IsValid (pause s id).0
unfolding pause is_active
pause-IsValid s id v = elim (Option-cases (get id s.missions)) [
  | inl e ↦ rw (e, pause) v
  | inr (q, e) ↦ elim (Bool-cases (is_completed q.state)) [
    | inl done ↦ rw (e, pause) (rw done v)
    | inr open_still ↦ rw (e, pause) (rw open_still (settle-IsValid s id paused q e refl v))
  ]
]

pub complete-IsValid :
    (s : MissionScheduler) (id : MissionId) → IsValid s → IsValid (complete s id).0
unfolding complete is_active
complete-IsValid s id v = elim (Option-cases (get id s.missions)) [
  | inl e ↦ rw (e, complete) v
  | inr (q, e) ↦ rw (e, complete) (settle-IsValid s id completed q e refl v)
]

pub note_reason-IsValid :
    (s : MissionScheduler) (id : MissionId) (r : Option String)
    → IsValid s
    → IsValid (note_reason s id r).0
unfolding note_reason
note_reason-IsValid s id r v = elim (Option-cases (get id s.missions)) [
  | inl e ↦ rw (e, note_reason) v
  | inr (q, e) ↦ rw (e, note_reason) (modify-IsValid s id (set_reason r) q e refl refl v)
]

pub pause_noted-IsValid :
    (o : Outcome) (id : MissionId) → IsValid o.0 → IsValid (pause_noted o id).0
unfolding pause_noted
pause_noted-IsValid (s, ok u) id v = pause-IsValid s id v
pause_noted-IsValid (s, err e) id v = v

pub apply_resource_decision-IsValid :
    (s : MissionScheduler) (id : MissionId) (d : ResourceDecision)
    → IsValid s
    → IsValid (apply_resource_decision s id d).0
unfolding apply_resource_decision
apply_resource_decision-IsValid s id proceed v = note_reason-IsValid s id none v
apply_resource_decision-IsValid s id (throttle r) v = note_reason-IsValid s id (some r) v
apply_resource_decision-IsValid s id (pause_at_safe_boundary r) v =
    pause_noted-IsValid (note_reason s id (some r)) id (note_reason-IsValid s id (some r) v)

pub pop-IsValid :
    (s : MissionScheduler) (id : MissionId) (q : MissionQueue)
    → get id s.missions ≡ some q
    → IsValid s
    → IsValid (record s { missions = modify id pop_front s.missions })
unfolding pop_front
pop-IsValid s id q e v = modify-IsValid s id pop_front q e refl refl v

pub cursor-IsValid :
    (s : MissionScheduler) (c : ℕ)
    → c < length s.schedule
    → IsValid s
    → IsValid (record s { cursor = c })
cursor-IsValid s c h v = record {
  bounded = v.bounded;
  within = v.within;
  planned = v.planned;
  placed = inr h;
}
