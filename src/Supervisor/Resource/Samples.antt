-- ===== src/Supervisor/Resource/Samples.antt =====
-- Concrete resource budgets.
use agent_mission_control.Prelude.{◌≡◌, refl, some}
use agent_mission_control.Supervisor.Resource.{
  ResourceBudget, ResourcePressure, throttle, evaluate_pressure, report, is_pressed,
}
use agent_mission_control.Prelude.Word.{saturating_mul}
use agent_mission_control.Prelude.Text.{to_decimal}

abbrev budget : ResourceBudget
budget = record { memory_limit_bytes = 1000; cpu_limit_percent = 90; disk_limit_bytes = some 500 }

abbrev busy : ResourcePressure
busy = record { memory_bytes = 300; cpu_percent = 20; disk_bytes = 420 }

busy_throttled :
    evaluate_pressure budget busy
    ≡ throttle "resource pressure: memory 300/1000, cpu 20/90%, disk 420/500"
unfolding evaluate_pressure report is_pressed saturating_mul to_decimal
busy_throttled = refl
