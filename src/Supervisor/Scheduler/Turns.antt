-- ===== src/Supervisor/Scheduler/Turns.antt =====
-- The round of turns: what `next` gives, and what it means when it gives nothing.
use agent_mission_control.Prelude.{
  ℕ, zero, suc, ◌+◌, ◌-◌, ◌≤◌, ◌<◌, ◌≡◌, inl, inr, refl, sym, ap, ◌∙◌, Bool, true, false, Option,
  none, some, List, [], ◌∷◌, ◌++◌, if◌then◌else◌, arith, Option-cases, Bool-cases, length, ltb, ◌%◌,
  get_elem?, All, All-append, replicate,
}
use agent_mission_control.Domain.Ids.{MissionId}
use agent_mission_control.Supervisor.Scheduler.Missions.{
  is_active, ScheduledAction, MissionQueue, MissionMap, get, modify,
}
use agent_mission_control.Supervisor.Scheduler.{
  MissionScheduler, turns_of, build_schedule, Pull, gives, nothing, out_of_bounds, pop_front, ready,
  next_within, next,
}
use mathlib.Core.Path.{subst}
use native.Mathlib.Nat.{mod-lt, mod-add-mod, mod-eq_of_lt, mod-eq-sub-mod}
use agent_mission_control.Supervisor.Scheduler.Operations.{pop-IsValid, cursor-IsValid}
use agent_mission_control.Supervisor.Scheduler.Capacity.{IsValid}

module _ {ℓ} {A : Type ℓ} where
  get_elem?-lt : (xs : List A) (i : ℕ) (a : A) → get_elem? xs i ≡ some a → i < length xs
  get_elem?-lt [] i a h = cc
  get_elem?-lt (x ∷ xs) zero a h = omega arith
  get_elem?-lt (x ∷ xs) (suc i) a h = omega (arith, get_elem?-lt xs i a h)

  get_elem?-some : (xs : List A) (i : ℕ) → i < length xs → (a : A) × (get_elem? xs i ≡ some a)
  get_elem?-some [] i h = elim h [ ]
  get_elem?-some (x ∷ xs) zero h = (x, refl)
  get_elem?-some (x ∷ xs) (suc i) h = get_elem?-some xs i (omega arith)

  get_elem?-All {κ} :
      (P : A → Type κ) (xs : List A) (i : ℕ) (a : A) → All P xs → get_elem? xs i ≡ some a → P a
  get_elem?-All P [] i a p h = cc
  get_elem?-All P (x ∷ xs) zero a p h = let e : x ≡ a = cc in subst P e p.0
  get_elem?-All P (x ∷ xs) (suc i) a p h = get_elem?-All P xs i a p.1 h

  All-get_elem? {κ} :
      (P : A → Type κ) (xs : List A) → ((i : ℕ) (a : A) → get_elem? xs i ≡ some a → P a) → All P xs
  All-get_elem? P [] h = tt
  All-get_elem? P (x ∷ xs) h = (h 0 x refl, All-get_elem? P xs (λ i a e. h (suc i) a e))

  All-replicate {κ} : (P : A → Type κ) (n : ℕ) (a : A) → P a → All P (replicate n a)
  All-replicate P zero a p = tt
  All-replicate P (suc n) a p = (p, All-replicate P n a p)

module _ {ℓ κ} {A : Type ℓ} (P : A → Type κ) where
  All-split : (xs ys : List A) → All P (xs ++ ys) → All P xs × All P ys
  All-split [] ys h = (tt, h)
  All-split (x ∷ xs) ys h = let (a, b) = All-split xs ys h.1 in ((h.0, a), b)

-- A mission that has turns.
abbrev has_turns : Option MissionQueue → Bool
has_turns none = false
has_turns (some q) = is_active q.state

-- What the next turn of a mission would give.
abbrev pub waiting : Option MissionQueue → Option ScheduledAction
waiting none = none
waiting (some q) = ready q

turns-All :
    (m : MissionMap) (o : Option MissionQueue) (id : MissionId)
    → get id m ≡ o
    → All (λ j. has_turns (get j m) ≡ true) (turns_of o id)
unfolding turns_of
turns-All m none id e = tt
turns-All m (some q) id e = elim (Bool-cases (is_active q.state)) [
  | inl on ↦
      rw on (
        All-replicate (λ j. has_turns (get j m) ≡ true) (if q.foreground then 3 else 1) id
          (rw e on))
  | inr off ↦ rw off tt
]

build-All :
    (ids : List MissionId) (m : MissionMap)
    → All (λ j. has_turns (get j m) ≡ true) (build_schedule ids m)
unfolding build_schedule
build-All [] m = tt
build-All (id ∷ ids) m =
    All-append (λ j. has_turns (get j m) ≡ true) (turns_of (get id m) id) (build_schedule ids m)
      (turns-All m (get id m) id refl) (build-All ids m)

-- The mission at one place of the round gives nothing.
abbrev IdleAt : MissionScheduler → ℕ → Type 0
IdleAt s i =
    (id : MissionId) → get_elem? s.schedule i ≡ some id → waiting (get id s.missions) ≡ none

-- What a scan of the round answers, from a valid scheduler: an action that heads the queue of an active
-- mission, which loses it; or nothing, and then the places scanned are idle. It does not panic.
abbrev Scanned : ℕ → MissionScheduler → MissionScheduler × Pull → Type 0
Scanned n s (t, gives a) =
    (id : MissionId) × (q : MissionQueue) × (get id s.missions ≡ some q)
    × (ready q ≡ some a)
    × (t.missions ≡ modify id pop_front s.missions)
    × IsValid t
Scanned n s (t, nothing) =
    (t.missions ≡ s.missions)
    × IsValid t
    × ((k : ℕ) → k < n → IdleAt s ((s.cursor + k) % length s.schedule))
Scanned n s (t, out_of_bounds) = ⊥

idle_place :
    (s : MissionScheduler) (id : MissionId) (q : MissionQueue)
    → get_elem? s.schedule s.cursor ≡ some id
    → get id s.missions ≡ some q
    → ready q ≡ none
    → IdleAt s s.cursor
idle_place s id q here found e j there = let same : id ≡ j = cc in rw (← same) (rw found e)

-- The scan of the places after the first, from there.
extend_idle :
    (n k : ℕ) (s : MissionScheduler)
    → s.cursor < length s.schedule
    → IdleAt s s.cursor
    → ((j : ℕ) → j < n → IdleAt s (((s.cursor + 1) % length s.schedule + j) % length s.schedule))
    → k < suc n
    → IdleAt s ((s.cursor + k) % length s.schedule)
extend_idle n zero s c here later h =
    let e : (s.cursor + 0) % length s.schedule ≡ s.cursor = grind (arith, mod-eq_of_lt) in
    subst (IdleAt s) (sym e) here
extend_idle n (suc j) s c here later h =
    let e : ((s.cursor + 1) % length s.schedule + j) % length s.schedule
        ≡ (s.cursor + suc j) % length s.schedule =
      mod-add-mod (s.cursor + 1) (length s.schedule) j
      ∙ ap (λ x. x % length s.schedule) (omega arith) in
    subst (IdleAt s) e (later j (omega arith))

extend :
    (n : ℕ) (s : MissionScheduler)
    → s.cursor < length s.schedule
    → IdleAt s s.cursor
    → (r : MissionScheduler × Pull)
    → Scanned n (record s { cursor = (s.cursor + 1) % length s.schedule }) r
    → Scanned (suc n) s r
extend n s c here (t, gives a) sc = sc
extend n s c here (t, nothing) (m, v, later) = (m, v, λ k h. extend_idle n k s c here later h)
extend n s c here (t, out_of_bounds) sc = sc

scan :
    (n : ℕ) (s : MissionScheduler)
    → s.cursor < length s.schedule
    → IsValid s
    → Scanned n s (next_within n s)
unfolding next_within
scan zero s c v = (refl, v, λ k h. elim h [ ])
scan (suc n) s c v =
    let (id, here) = get_elem?-some s.schedule s.cursor c in
    let c' = (s.cursor + 1) % length s.schedule in
    let c'-lt : c' < length s.schedule = mod-lt (s.cursor + 1) (omega arith) in
    let t = record s { cursor = c' } in
    let w : IsValid t = cursor-IsValid s c' c'-lt v in
    let turn : has_turns (get id s.missions) ≡ true =
      get_elem?-All (λ j. has_turns (get j s.missions) ≡ true) s.schedule s.cursor id
        (rw v.planned (build-All s.registration_order s.missions)) here in
    elim (Option-cases (get id s.missions)) [
      | inl missing ↦ absurd (cc (turn, ap has_turns missing))
      | inr (q, found) ↦ elim (Option-cases (ready q)) [
        | inr (a, e) ↦
            rw (here, next_within)
              (rw (found, next_within)
                (rw (e, next_within) (id, q, found, e, refl, pop-IsValid t id q found w)))
        | inl e ↦
            let here_idle : IdleAt s s.cursor = idle_place s id q here found e in
            rw (here, next_within)
              (rw (found, next_within)
                (rw (e, next_within) (extend n s c here_idle (next_within n t) (scan n t c'-lt w))))
      ]
    ]

-- A full scan from any place visits every place.
ring_distance : (c i n : ℕ) → c < n → i < n → (k : ℕ) × (k < n) × ((c + k) % n ≡ i)
ring_distance c i n hc hi = elim (Bool-cases (ltb i c)) [
  | inl behind ↦ (i + n - c, ground arith, wrapped (ground arith))
  | inr ahead ↦ (i - c, ground arith, straight (ground arith))
]
  where
    wrapped : i < c → (c + (i + n - c)) % n ≡ i
    wrapped b =
        let e : c + (i + n - c) ≡ i + n = omega arith in
        rw e (
          mod-eq-sub-mod {n = i + n} {m = n} (omega arith)
          ∙ (let d : i + n - n ≡ i = omega arith in rw d (mod-eq_of_lt hi)))

    straight : c ≤ i → (c + (i - c)) % n ≡ i
    straight a = let e : c + (i - c) ≡ i = omega arith in rw e (mod-eq_of_lt hi)

abbrev IsIdle : MissionMap → MissionId → Type 0
IsIdle m id = waiting (get id m) ≡ none

turns-idle :
    (m : MissionMap) (id : MissionId) (o : Option MissionQueue)
    → get id m ≡ o
    → All (IsIdle m) (turns_of o id)
    → waiting o ≡ none
unfolding turns_of ready
turns-idle m id none e h = refl
turns-idle m id (some q) e h = elim (Bool-cases (is_active q.state)) [
  | inr off ↦ rw off
  | inl on ↦
      subst (λ r. waiting r ≡ none) e
        (first_idle (if q.foreground then 3 else 1) (ground arith) (rw on at h))
]
  where
    first_idle : (n : ℕ) → 0 < n → All (IsIdle m) (replicate n id) → IsIdle m id
    first_idle zero p a = elim p [ ]
    first_idle (suc n) p a = a.0

build-IsIdle :
    (ids : List MissionId) (m : MissionMap)
    → All (IsIdle m) (build_schedule ids m)
    → All (IsIdle m) ids
unfolding build_schedule
build-IsIdle [] m h = tt
build-IsIdle (id ∷ ids) m h =
    let (own, others) = All-split (IsIdle m) (turns_of (get id m) id) (build_schedule ids m) h in
    (turns-idle m id (get id m) refl own, build-IsIdle ids m others)

-- What a call of `next` answers.
abbrev pub Answer : MissionScheduler → MissionScheduler × Pull → Type 0
Answer s (t, gives a) =
    (id : MissionId) × (q : MissionQueue) × (get id s.missions ≡ some q)
    × (ready q ≡ some a)
    × (t.missions ≡ modify id pop_front s.missions)
    × IsValid t
Answer s (t, nothing) =
    (t.missions ≡ s.missions)
    × IsValid t
    × All (λ id. waiting (get id s.missions) ≡ none) s.registration_order
Answer s (t, out_of_bounds) = ⊥

answer :
    (s : MissionScheduler) (r : MissionScheduler × Pull)
    → s.cursor < length s.schedule
    → IsValid s
    → Scanned (length s.schedule) s r
    → Answer s r
answer s (t, gives a) c v sc = sc
answer s (t, out_of_bounds) c v sc = sc
answer s (t, nothing) c v (m, w, idle) = (
  m,
  w,
  build-IsIdle s.registration_order s.missions (
      subst (All (IsIdle s.missions)) v.planned (
        All-get_elem? (IsIdle s.missions) s.schedule λ i id e.
          let (k, within, there) =
            ring_distance s.cursor i (length s.schedule) c (get_elem?-lt s.schedule i id e) in
          subst (IdleAt s) there (idle k within) id e)),
)

-- On a valid scheduler `next` never indexes past the schedule. It gives the action at the head of the
-- queue of an active mission, which alone loses it; or it gives nothing, and then no registered
-- mission that is active has an action left, and no mission has changed. The scheduler stays valid.
pub next_lem : (s : MissionScheduler) → IsValid s → Answer s (next s)
unfolding next
next_lem s v = elim (Bool-cases (ltb 0 (length s.schedule))) [
  | inl some_turns ↦
      let c : s.cursor < length s.schedule = ground (arith, v.placed) in
      answer s (next_within (length s.schedule) s) c v (scan (length s.schedule) s c v)
  | inr no_turns ↦
      let e : length s.schedule ≡ 0 = ground arith in
      rw (e, next_within)
        (
          refl,
          v,
          build-IsIdle s.registration_order s.missions (
              subst (All (IsIdle s.missions)) v.planned (
                All-get_elem? (IsIdle s.missions) s.schedule
                  λ i id there. absurd (omega (arith, get_elem?-lt s.schedule i id there, e)))),
        )
]
