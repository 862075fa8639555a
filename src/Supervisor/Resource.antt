-- ===== src/Supervisor/Resource.antt =====
-- crates/supervisor/src/resource_budget.rs: when resource pressure throttles or pauses a mission.
-- Bytes are `u64`, percentages `u8`.
pub mod Samples
use Prim.Native.String.{◌++◌}
use agent_mission_control.Prelude.{
  ℕ, ◌+◌, ◌*◌, ◌≤◌, ◌<◌, ◌≡◌, ◌≢◌, ◌⊎◌, ◌↔◌, inl, inr, refl, Bool, true, false, not, ◌&&◌, ◌||◌,
  ◌==◌, leb, Option, none, some, String, Result, ok, err, if◌then◌else◌, arith, Option-cases,
}
use agent_mission_control.Prelude.Text.{to_decimal}
use agent_mission_control.Prelude.Word.{u64_max, saturating_mul}

abbrev pub throttle_percent : ℕ
throttle_percent = 80

pub record ObservedResources : Type 0 where
  pub memory_bytes : ℕ
  pub cpu_percent : ℕ

pub data ResourceDecision : Type 0 where
  proceed : ResourceDecision
  throttle pause_at_safe_boundary : String → ResourceDecision

pub record ResourcePressure : Type 0 where
  pub memory_bytes : ℕ
  pub cpu_percent : ℕ
  pub disk_bytes : ℕ

pub record ResourceBudget : Type 0 where
  pub memory_limit_bytes : ℕ
  pub cpu_limit_percent : ℕ
  pub disk_limit_bytes : Option ℕ

pub data ResourceBudgetError : Type 0 where
  invalid_limit : ResourceBudgetError

unfoldable pub new : ℕ → ℕ → Result ResourceBudget ResourceBudgetError
new memory cpu =
    if memory == 0 || not (leb 1 cpu && leb cpu 100)
    then err invalid_limit
    else ok
        (record { memory_limit_bytes = memory; cpu_limit_percent = cpu; disk_limit_bytes = none })

unfoldable pub with_disk_limit : ResourceBudget → ℕ → Result ResourceBudget ResourceBudgetError
with_disk_limit b disk =
    if disk == 0 then err invalid_limit else ok (record b { disk_limit_bytes = some disk })

-- `Option::is_some_and`.
abbrev pub is_some_and : Option ℕ → (ℕ → Bool) → Bool
is_some_and none p = false
is_some_and (some n) p = p n

abbrev pub unwrap_or : Option ℕ → ℕ → ℕ
unwrap_or none d = d
unwrap_or (some n) d = n

-- The text of the `format!` calls, behind its first words.
unfoldable pub report : ResourceBudget → ResourcePressure → String
report b o =
    "memory "
    ++ to_decimal o.memory_bytes
    ++ "/"
    ++ to_decimal b.memory_limit_bytes
    ++ ", cpu "
    ++ to_decimal o.cpu_percent
    ++ "/"
    ++ to_decimal b.cpu_limit_percent
    ++ "%, disk "
    ++ to_decimal o.disk_bytes
    ++ "/"
    ++ to_decimal (unwrap_or b.disk_limit_bytes 0)

-- `a * 100 >= b * THROTTLE_PERCENT`, saturating.
unfoldable pub is_pressed : ℕ → ℕ → Bool
is_pressed observed limit =
    leb (saturating_mul limit throttle_percent) (saturating_mul observed 100)

unfoldable pub evaluate_pressure : ResourceBudget → ResourcePressure → ResourceDecision
evaluate_pressure b o =
    let disk_critical = is_some_and b.disk_limit_bytes (λ limit. leb limit o.disk_bytes) in
    let disk_throttle = is_some_and b.disk_limit_bytes (λ limit. is_pressed o.disk_bytes limit) in
    if leb b.memory_limit_bytes o.memory_bytes
      || leb b.cpu_limit_percent o.cpu_percent
      || disk_critical
    then pause_at_safe_boundary ("resource limit reached: " ++ report b o)
    else if is_pressed o.memory_bytes b.memory_limit_bytes
        || is_pressed o.cpu_percent b.cpu_limit_percent
        || disk_throttle
    then throttle ("resource pressure: " ++ report b o)
    else proceed

unfoldable pub evaluate : ResourceBudget → ObservedResources → ResourceDecision
unfolding evaluate_pressure
evaluate b o =
    evaluate_pressure b
      (record { memory_bytes = o.memory_bytes; cpu_percent = o.cpu_percent; disk_bytes = 0 })

-- A limit is reached. A disk limit counts where there is one.
abbrev pub DiskReached : Option ℕ → ℕ → Type 0
DiskReached none disk = ⊥
DiskReached (some limit) disk = limit ≤ disk

abbrev pub Reached : ResourceBudget → ResourcePressure → Type 0
Reached b o =
    (b.memory_limit_bytes ≤ o.memory_bytes)
    ⊎ (b.cpu_limit_percent ≤ o.cpu_percent)
    ⊎ DiskReached b.disk_limit_bytes o.disk_bytes

-- Four fifths of a limit are used, in exact arithmetic.
abbrev pub DiskPressed : Option ℕ → ℕ → Type 0
DiskPressed none disk = ⊥
DiskPressed (some limit) disk = 4 * limit ≤ 5 * disk

abbrev pub Pressed : ResourceBudget → ResourcePressure → Type 0
Pressed b o =
    (4 * b.memory_limit_bytes ≤ 5 * o.memory_bytes)
    ⊎ (4 * b.cpu_limit_percent ≤ 5 * o.cpu_percent)
    ⊎ DiskPressed b.disk_limit_bytes o.disk_bytes

-- What the saturating products decide, where the limit's product does not saturate.
is_pressed_iff :
    (observed limit : ℕ)
    → limit * 80 ≤ u64_max
    → (is_pressed observed limit ≡ true) ↔ (4 * limit ≤ 5 * observed)
unfolding is_pressed saturating_mul
is_pressed_iff observed limit h = (λ p. ground arith, λ p. ground arith)

abbrev pub is_pause : ResourceDecision → Bool
is_pause (pause_at_safe_boundary r) = true
is_pause _ = false

abbrev pub is_throttle : ResourceDecision → Bool
is_throttle (throttle r) = true
is_throttle _ = false

abbrev pub FitsDisk : Option ℕ → Type 0
FitsDisk none = Unit {0}
FitsDisk (some limit) = limit * 80 ≤ u64_max

module _ (b : ResourceBudget) (o : ResourcePressure) where
  pause_by :
      (d : Option ℕ)
      → let c = record b { disk_limit_bytes = d } in
        (is_pause (evaluate_pressure c o) ≡ true) ↔ Reached c o
  unfolding evaluate_pressure
  pause_by none = (λ h. ground arith, λ h. ground arith)
  pause_by (some limit) = (λ h. ground arith, λ h. ground arith)

  throttle_by :
      (d : Option ℕ)
      → let c = record b { disk_limit_bytes = d } in
        b.memory_limit_bytes * 80 ≤ u64_max
        → b.cpu_limit_percent * 80 ≤ u64_max
        → FitsDisk d
        → (is_throttle (evaluate_pressure c o) ≡ true) ↔ ((¬ Reached c o) × Pressed c o)
  unfolding evaluate_pressure
  throttle_by none m c d = (
    λ h. (
      λ r. ground arith,
      ground (
        arith,
        is_pressed_iff o.memory_bytes b.memory_limit_bytes m,
        is_pressed_iff o.cpu_percent b.cpu_limit_percent c,
      ),
    ),
    λ (n, p). ground (
      arith,
      is_pressed_iff o.memory_bytes b.memory_limit_bytes m,
      is_pressed_iff o.cpu_percent b.cpu_limit_percent c,
    ),
  )
  throttle_by (some limit) m c d = (
    λ h. (
      λ r. ground arith,
      ground (
        arith,
        is_pressed_iff o.memory_bytes b.memory_limit_bytes m,
        is_pressed_iff o.cpu_percent b.cpu_limit_percent c,
        is_pressed_iff o.disk_bytes limit d,
      ),
    ),
    λ (n, p). ground (
      arith,
      is_pressed_iff o.memory_bytes b.memory_limit_bytes m,
      is_pressed_iff o.cpu_percent b.cpu_limit_percent c,
      is_pressed_iff o.disk_bytes limit d,
    ),
  )

  -- A mission is paused exactly when it reaches its memory, its CPU or its disk limit. It is throttled
  -- exactly when it reaches none and has used four fifths of one, where eighty times each limit fits
  -- a `u64`.
  pub evaluate_pressure_lem :
      b.memory_limit_bytes * 80 ≤ u64_max
      → b.cpu_limit_percent ≤ 255
      → FitsDisk b.disk_limit_bytes
      → ((is_pause (evaluate_pressure b o) ≡ true) ↔ Reached b o)
        × ((is_throttle (evaluate_pressure b o) ≡ true) ↔ ((¬ Reached b o) × Pressed b o))
  evaluate_pressure_lem m c d =
      (pause_by b.disk_limit_bytes, throttle_by b.disk_limit_bytes m (omega arith) d)
