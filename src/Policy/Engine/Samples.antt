-- ===== src/Policy/Engine/Samples.antt =====
-- Concrete intents.
use agent_mission_control.Prelude.{◌≡◌, refl, true, [], ◌∷◌}
use agent_mission_control.Prelude.Text.{is_blank}
use agent_mission_control.Domain.Contract.{autopilot}
use agent_mission_control.Policy.Action.{
  ActionClass, ActionIntent, IntentOrigin, no_deviation, is_trusted, is_complete, contains_class,
  always_requires_user,
}
use agent_mission_control.Policy.Engine.{PolicyContext, allow, evaluate}
use agent_mission_control.Policy.Engine.Decisions.{IsSound, ModeAllows, allow_iff}

abbrev pilot : PolicyContext
pilot = record {
  driving_mode = autopilot;
  autopilot_allowed_actions = ActionClass.write ∷ ActionClass.git_push ∷ [];
}

abbrev intent : ActionClass → IntentOrigin → ActionIntent
intent class origin = record {
  class = class;
  origin = origin;
  planned = true;
  within_allowed_paths = true;
  deviation = no_deviation;
  evidence = record { event_id = "e1"; action_digest = "d1" };
}

pilot_writes : evaluate pilot (intent ActionClass.write IntentOrigin.supervisor) ≡ allow
unfolding evaluate is_complete is_blank is_trusted contains_class always_requires_user
pilot_writes = refl

allow_iff_example :
    IsSound (intent ActionClass.write IntentOrigin.supervisor)
    × ModeAllows autopilot
        (ActionClass.write ∷ ActionClass.git_push ∷ [])
        (intent ActionClass.write IntentOrigin.supervisor)
allow_iff_example =
    (allow_iff pilot (intent ActionClass.write IntentOrigin.supervisor)).0 pilot_writes
