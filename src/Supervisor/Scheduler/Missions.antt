-- ===== src/Supervisor/Scheduler/Missions.antt =====
-- The missions of a scheduler: `BTreeMap<MissionId, MissionQueue>` as a list of pairs, whose order no
-- operation shows.
use agent_mission_control.Prelude.{
  ℕ, suc, ◌+◌, ◌≡◌, refl, Bool, true, false, ◌==◌, Option, none, some, List, [], ◌∷◌, String,
  if◌then◌else◌, arith,
}
use agent_mission_control.Domain.Ids.{MissionId}

pub data MissionScheduleState : Type 0 where
  queued active paused completed : MissionScheduleState

unfoldable pub is_queued : MissionScheduleState → Bool
is_queued queued = true
is_queued _ = false

unfoldable pub is_active : MissionScheduleState → Bool
is_active active = true
is_active _ = false

unfoldable pub is_completed : MissionScheduleState → Bool
is_completed completed = true
is_completed _ = false

pub record ScheduledAction : Type 0 where
  pub mission_id : MissionId
  pub action_id : String
  pub cwd : String
  pub env : List (String × String)
  pub stdout_channel : String

-- The front of `actions` is the head of the list.
pub record MissionQueue : Type 0 where
  pub state : MissionScheduleState
  pub foreground : Bool
  pub actions : List ScheduledAction
  pub resource_reason : Option String

abbrev pub MissionMap : Type 0
MissionMap = List (MissionId × MissionQueue)

-- `BTreeMap::get`.
unfoldable pub get : MissionId → MissionMap → Option MissionQueue
get id [] = none
get id ((j, q) ∷ m) = if j == id then some q else get id m

-- A write through `BTreeMap::get_mut`; a missing key is left to the caller.
unfoldable pub modify : MissionId → (MissionQueue → MissionQueue) → MissionMap → MissionMap
modify id f [] = []
modify id f ((j, q) ∷ m) = if j == id then (j, f q) ∷ m else (j, q) ∷ modify id f m

-- `BTreeMap::insert` of a key that is not there.
unfoldable pub insert : MissionId → MissionQueue → MissionMap → MissionMap
insert id q m = (id, q) ∷ m

-- `values().filter(..Active..).count()`.
unfoldable pub count_active : MissionMap → ℕ
unfolding is_active
count_active [] = 0
count_active ((j, q) ∷ m) = if is_active q.state then suc (count_active m) else count_active m

pub get-modify :
    (id j : MissionId) (f : MissionQueue → MissionQueue) (m : MissionMap) (q : MissionQueue)
    → get id m ≡ some q
    → get j (modify id f m) ≡ (if id == j then some (f q) else get j m)
unfolding get modify
get-modify id j f [] q h = cc
get-modify id j f ((k, p) ∷ m) q h = ground (arith, get-modify id j f m q)

pub get-insert :
    (id j : MissionId) (q : MissionQueue) (m : MissionMap)
    → get j (insert id q m) ≡ (if id == j then some q else get j m)
unfolding get insert
get-insert id j q m = refl

-- A write to one mission moves the count by that mission alone.
pub count-modify :
    (id : MissionId) (f : MissionQueue → MissionQueue) (m : MissionMap) (q : MissionQueue)
    → get id m ≡ some q
    → count_active (modify id f m) + (if is_active q.state then 1 else 0)
      ≡ count_active m + (if is_active (f q).state then 1 else 0)
unfolding get modify count_active
count-modify id f [] q h = cc
count-modify id f ((k, p) ∷ m) q h = ground (arith, count-modify id f m q)
