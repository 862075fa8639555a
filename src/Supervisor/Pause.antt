-- ===== src/Supervisor/Pause.antt =====
-- crates/supervisor/src/pause.rs: the protocol that pauses a mission and, on an explicit token,
-- terminates it.
pub mod Safety
pub mod Samples
use Prim.Native.String.{◌++◌}
use agent_mission_control.Prelude.{
  ℕ, Bool, true, false, not, Option, none, some, List, [], ◌∷◌, String, Result, ok, err,
  if◌then◌else◌,
}
use agent_mission_control.Prelude.Text.{to_decimal, str_eq}
use agent_mission_control.Prelude.Word.{increment}

pub data PauseState : Type 0 where
  running : PauseState
  pause_requested : String → PauseState
  pause_acknowledged : PauseState
  paused : String → PauseState
  pause_timed_out : PauseState
  force_termination_available : String → PauseState
  terminated : PauseState

pub record PauseTransition : Type 0 where
  pub from : PauseState
  pub to : PauseState
  pub confirmation_token : Option String

pub data PauseError : Type 0 where
  already_requested invalid_state invalid_confirmation_token : PauseError

pub record PauseController : Type 0 where
  pub state : PauseState
  pub token_counter : ℕ

-- What a method answers: the controller as it leaves it, and the outcome.
abbrev pub Outcome : Type 0
Outcome = PauseController × Result PauseTransition PauseError

-- `PauseController::default`.
unfoldable pub default_controller : PauseController
default_controller = record { state = running; token_counter = 0 }

-- A transition that shows no token.
unfoldable pub move : PauseController → PauseState → Outcome
move c to =
    (record c { state = to }, ok (record { from = c.state; to = to; confirmation_token = none }))

unfoldable pub request_from : PauseState → PauseController → String → Outcome
unfolding move
request_from running c reason = move c (pause_requested reason)
request_from (pause_requested r) c reason = (c, err already_requested)
request_from pause_acknowledged c reason = (c, err already_requested)
request_from _ c reason = (c, err invalid_state)

unfoldable pub request : PauseController → String → Outcome
unfolding request_from
request c reason = request_from c.state c reason

unfoldable pub acknowledge_from : PauseState → PauseController → Outcome
unfolding move
acknowledge_from (pause_requested reason) c = move c (paused reason)
acknowledge_from _ c = (c, err invalid_state)

unfoldable pub acknowledge : PauseController → Outcome
unfolding acknowledge_from
acknowledge c = acknowledge_from c.state c

-- `format!("pause-force-{}", counter)`.
unfoldable pub token_text : ℕ → String
token_text counter = "pause-force-" ++ to_decimal counter

-- The end of `force_termination_token`: a new token.
unfoldable pub offer : PauseController → Outcome
unfolding token_text
offer c =
    let counter = increment c.token_counter in
    let token = token_text counter in
    (
      record { state = force_termination_available token; token_counter = counter },
      ok (record {
        from = c.state;
        to = force_termination_available token;
        confirmation_token = some token;
      }),
    )

unfoldable pub token_from : PauseState → PauseController → Outcome
unfolding offer
token_from (force_termination_available token) c =
    (c, ok (record { from = c.state; to = c.state; confirmation_token = some token }))
token_from (pause_requested r) c = offer c
token_from pause_acknowledged c = offer c
token_from (paused r) c = offer c
token_from pause_timed_out c = offer c
token_from _ c = (c, err invalid_state)

unfoldable pub force_termination_token : PauseController → Outcome
unfolding token_from
force_termination_token c = token_from c.state c

unfoldable pub timeout : PauseController → Outcome
unfolding force_termination_token
timeout c = force_termination_token c

unfoldable pub terminate_from : PauseState → PauseController → String → Outcome
unfolding move
terminate_from (force_termination_available expected) c token =
    if not (str_eq expected token) then (c, err invalid_confirmation_token) else move c terminated
terminate_from _ c token = (c, err invalid_state)

unfoldable pub force_terminate : PauseController → String → Outcome
unfolding terminate_from
force_terminate c token = terminate_from c.state c token

unfoldable pub available_for : PauseState → String → Bool
available_for (force_termination_available expected) token = str_eq expected token
available_for _ token = false

unfoldable pub can_force_terminate : PauseController → String → Bool
unfolding available_for
can_force_terminate c token = available_for c.state token

-- One event as `from_events` reads it: its kind's text, and the text field `reason` of its payload.
pub record SeenEvent : Type 0 where
  pub kind : String
  pub reason : Option String

abbrev pub unwrap_or : Option String → String → String
unwrap_or none d = d
unwrap_or (some s) d = s

unfoldable pub see : PauseController → SeenEvent → PauseController
see c e =
    if str_eq e.kind "pause_requested"
    then record c { state = pause_requested (unwrap_or e.reason "pause requested") }
    else if str_eq e.kind "pause_acknowledged"
    then record c { state = pause_acknowledged }
    else if str_eq e.kind "pause_timed_out"
    then record c { state = pause_timed_out }
    else if str_eq e.kind "force_terminated"
    then record c { state = terminated }
    else c

unfoldable pub see_each : PauseController → List SeenEvent → PauseController
unfolding see
see_each c [] = c
see_each c (e ∷ es) = see_each (see c e) es

unfoldable pub from_events : List SeenEvent → PauseController
unfolding see_each default_controller
from_events events = see_each default_controller events
