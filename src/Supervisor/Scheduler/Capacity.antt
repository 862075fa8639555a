-- ===== src/Supervisor/Scheduler/Capacity.antt =====
-- How many missions are active at once, and what the schedule holds.
use agent_mission_control.Prelude.{
  ℕ, ◌+◌, ◌-◌, ◌≤◌, ◌<◌, ◌≡◌, ◌⊎◌, inl, inr, refl, sym, ap, ◌∙◌, false, ◌==◌, none, some, List, [],
  ◌∷◌, ◌++◌, arith, ==_iff, Option-cases, Bool-cases, length, ok,
}
use agent_mission_control.Domain.Ids.{MissionId}
use agent_mission_control.Supervisor.Scheduler.Missions.{
  MissionScheduleState, active, is_active, MissionQueue, MissionMap, get, modify, insert,
  count_active, get-modify, get-insert, count-modify,
}
use agent_mission_control.Supervisor.Scheduler.{
  SchedulerConfig, MissionScheduler, new, turns_of, build_schedule, rebuild_schedule, set_state,
  activate_one, activate_each, activate_ready, settle,
}

activate_one-count :
    (id : MissionId) (a : ℕ) (m : MissionMap)
    → (activate_one id a m).0 + count_active (activate_one id a m).1 ≡ a + count_active m
unfolding activate_one is_active
activate_one-count id a m = elim (Option-cases (get id m)) [
  | inl e ↦ rw (e, activate_one)
  | inr (q, e) ↦ rw (e, activate_one) (ground (arith, count-modify id (set_state active) m q))
]

activate_each-count :
    (ids : List MissionId) (a : ℕ) (m : MissionMap)
    → count_active (activate_each ids a m) ≤ a + count_active m
unfolding activate_each
activate_each-count [] a m = omega arith
activate_each-count (id ∷ ids) a m = omega (
  arith,
  activate_one-count id a m,
  activate_each-count ids (activate_one id a m).0 (activate_one id a m).1,
)

abbrev pub WithinCapacity : MissionScheduler → Type 0
WithinCapacity s = count_active s.missions ≤ s.config.max_active

activate_ready-capacity :
    (s : MissionScheduler) → WithinCapacity s → WithinCapacity (activate_ready s)
unfolding activate_ready
activate_ready-capacity s h = ground (
  arith,
  activate_each-count s.registration_order (s.config.max_active - count_active s.missions)
      s.missions,
)

-- A mission that is not active has no turns, and one that keeps its state and its place keeps them.
turns-modify :
    (id j : MissionId) (f : MissionQueue → MissionQueue) (m : MissionMap) (q : MissionQueue)
    → get id m ≡ some q
    → (f q).state ≡ q.state
    → (f q).foreground ≡ q.foreground
    → turns_of (get j (modify id f m)) j ≡ turns_of (get j m) j
unfolding turns_of
turns-modify id j f m q h s g = elim (Bool-cases (id == j)) [
  | inl same ↦
      rw (get-modify id j f m q h, same)
        (let e : get j m ≡ some q = ap (λ k. get k m) (sym ((==_iff id j).0 same)) ∙ h in
          rw (e, turns_of) (rw (s, g)))
  | inr other ↦ rw (get-modify id j f m q h, other)
]

pub build-modify :
    (ids : List MissionId) (id : MissionId) (f : MissionQueue → MissionQueue) (m : MissionMap)
    (q : MissionQueue)
    → get id m ≡ some q
    → (f q).state ≡ q.state
    → (f q).foreground ≡ q.foreground
    → build_schedule ids (modify id f m) ≡ build_schedule ids m
unfolding build_schedule
build-modify [] id f m q h s g = refl
build-modify (j ∷ ids) id f m q h s g =
    rw (turns-modify id j f m q h s g, build-modify ids id f m q h s g)

turns-insert :
    (id j : MissionId) (q : MissionQueue) (m : MissionMap)
    → get id m ≡ none
    → is_active q.state ≡ false
    → turns_of (get j (insert id q m)) j ≡ turns_of (get j m) j
unfolding turns_of
turns-insert id j q m h s = elim (Bool-cases (id == j)) [
  | inl same ↦
      rw (get-insert id j q m, same)
        (let e : get j m ≡ none = ap (λ k. get k m) (sym ((==_iff id j).0 same)) ∙ h in
          rw (e, turns_of) (rw s))
  | inr other ↦ rw (get-insert id j q m, other)
]

pub build-insert :
    (ids : List MissionId) (id : MissionId) (q : MissionQueue) (m : MissionMap)
    → get id m ≡ none
    → is_active q.state ≡ false
    → build_schedule (ids ++ id ∷ []) (insert id q m) ≡ build_schedule ids m
unfolding build_schedule
build-insert [] id q m h s = rw (turns-insert id id q m h s, h)
build-insert (j ∷ ids) id q m h s = rw (turns-insert id j q m h s, build-insert ids id q m h s)

pub record IsValid (s : MissionScheduler) : Type 0 where
  pub bounded : (1 ≤ s.config.max_active) × (s.config.max_active ≤ 5)
  pub within : WithinCapacity s
  pub planned : s.schedule ≡ build_schedule s.registration_order s.missions
  pub placed : (s.cursor ≡ 0) ⊎ (s.cursor < length s.schedule)

pub new-IsValid : (c : SchedulerConfig) (s : MissionScheduler) → new c ≡ ok s → IsValid s
unfolding new count_active build_schedule
new-IsValid c s h = ground arith

rebuild-IsValid :
    (s : MissionScheduler)
    → (1 ≤ s.config.max_active) × (s.config.max_active ≤ 5)
    → WithinCapacity s
    → IsValid (rebuild_schedule s)
unfolding rebuild_schedule
rebuild-IsValid s b w = record { bounded = b; within = w; planned = refl; placed = inl refl }

pub activate_ready-IsValid : (s : MissionScheduler) → IsValid s → IsValid (activate_ready s)
unfolding activate_ready
activate_ready-IsValid s v =
    let available = s.config.max_active - count_active s.missions in
    elim (Bool-cases (available == 0)) [
      | inl full ↦ rw full v
      | inr room ↦ rw room (
          rebuild-IsValid
            (record s { missions = activate_each s.registration_order available s.missions })
            v.bounded
            (ground
              (arith, activate_each-count s.registration_order available s.missions, v.within)))
    ]

pub settle-IsValid :
    (s : MissionScheduler) (id : MissionId) (state : MissionScheduleState) (q : MissionQueue)
    → get id s.missions ≡ some q
    → is_active state ≡ false
    → IsValid s
    → IsValid (settle s id state)
unfolding settle
settle-IsValid s id state q h i v =
    let t = record s { missions = modify id (set_state state) s.missions } in
    activate_ready-IsValid (rebuild_schedule t) (
      rebuild-IsValid t v.bounded
        (ground (arith, count-modify id (set_state state) s.missions q h, v.within)))
