-- ===== src/Supervisor/Actor/Pausing.antt =====
-- The methods of the actor that pause the mission, terminate it, and end its recovery.
use Prim.Native.String.{◌++◌ as cat}
use agent_mission_control.Prelude.{
  Bool, true, false, not, ◌&&◌, ◌||◌, Option, none, some, List, [], ◌∷◌, String, Result, ok, err,
  if◌then◌else◌,
}
use agent_mission_control.Prelude.Text.{str_eq}
use agent_mission_control.Domain.Event.{EventKind}
use agent_mission_control.Policy.Budget.{
  BudgetSignal, warning, require_approval, pause_at_safe_boundary,
}
use agent_mission_control.Policy.Envelope.{
  FlightEnvelope, FlightIdentity, EnvelopeDecision, allow, pause_identity_changed,
  check_before_model_request,
}
use agent_mission_control.Supervisor.Pause.{
  PauseState, PauseController, PauseTransition, PauseError, invalid_state,
  invalid_confirmation_token, request, acknowledge, timeout, force_termination_token,
  can_force_terminate,
}
use agent_mission_control.Supervisor.Pause
use agent_mission_control.Supervisor.Actor.{
  Host, ledger_error, pause_error, recovery_not_required, recovery_decision_invalid, is_running,
  Step, ◌>>=◌, ◌>>◌, pure, fail, append,
}

-- The derived `==` of the pause states, by the enum's constructors and their texts.
unfoldable pub same_state : PauseState → PauseState → Bool
same_state PauseState.running PauseState.running = true
same_state (PauseState.pause_requested a) (PauseState.pause_requested b) = str_eq a b
same_state PauseState.pause_acknowledged PauseState.pause_acknowledged = true
same_state (PauseState.paused a) (PauseState.paused b) = str_eq a b
same_state PauseState.pause_timed_out PauseState.pause_timed_out = true
same_state (PauseState.force_termination_available a) (PauseState.force_termination_available b) =
    str_eq a b
same_state PauseState.terminated PauseState.terminated = true
same_state _ _ = false

module _ (h : Host) where
  open h use {json, Tree, terminate}

  -- What follows a call of the pause controller, and its `?`.
  unfoldable pub set_pause :
      PauseController × Result PauseTransition PauseError → Step h PauseTransition
  set_pause (c, ok t) a = (record a { pause = c }, ok t)
  set_pause (c, err e) a = (record a { pause = c }, err (pause_error e))

  unfoldable pub paused_by :
      (PauseController → PauseController × Result PauseTransition PauseError)
      → Step h PauseTransition
  unfolding set_pause
  paused_by f a = set_pause (f a.pause) a

  unfoldable pub request_safe_pause : String → Step h (Unit {0})
  unfolding paused_by
  request_safe_pause reason = do
    t ← paused_by (λ c. request c reason)
    append h EventKind.pause_requested (h.pause_payload reason t.to)

  unfoldable pub acknowledge_pause : Step h (Unit {0})
  unfolding paused_by
  acknowledge_pause = do
    t ← paused_by acknowledge
    append h (EventKind.unknown "pause_acknowledged") (h.state_payload t.to)

  -- The event of a token that is new, behind the token's `?`.
  unfoldable pub record_token : String → PauseTransition → Step h String
  unfolding same_state
  record_token token t =
      if same_state t.from t.to
      then pure token
      else do append h (EventKind.unknown "pause_timed_out") (h.token_payload t.to); pure token

  unfoldable pub record_shown : Option String → PauseTransition → Step h String
  unfolding record_token
  record_shown none t = fail (pause_error invalid_state)
  record_shown (some token) t = record_token token t

  unfoldable pub record_force_token_transition : PauseTransition → Step h String
  unfolding record_shown
  record_force_token_transition t = record_shown t.confirmation_token t

  unfoldable pub pause_timeout : Step h String
  unfolding paused_by record_force_token_transition
  pause_timeout = do t ← paused_by timeout; record_force_token_transition t

  -- `if condition { step?; }`.
  unfoldable pub when : Bool → Step h (Unit {0}) → Step h (Unit {0})
  when true s = s
  when false s = pure tt

  -- What the actor answers about its pause state.
  unfoldable pub when_running : Step h (Unit {0}) → Step h (Unit {0})
  unfolding when is_running
  when_running s a = when (is_running a.pause.state) s a

  unfoldable pub request_force_termination : Step h String
  unfolding when_running request_safe_pause paused_by record_force_token_transition
  request_force_termination = do
    when_running (request_safe_pause "user requested force termination")
    t ← paused_by force_termination_token
    record_force_token_transition t

  unfoldable pub kill_tree : Step h (Result (Unit {0}) String)
  kill_tree a =
      let (tree, outcome) = terminate a.process_tree in
      (record a { process_tree = tree }, ok outcome)

  -- `let _ = step`.
  unfoldable pub ignore : {A : Type 0} → Step h A → Step h (Unit {0})
  ignore s a = ((s a).0, ok tt)

  -- `force_terminate` behind the check of the token, by what the kill answers.
  unfoldable pub terminated_by : String → Result (Unit {0}) String → Step h (Unit {0})
  unfolding ignore paused_by
  terminated_by token (err message) = do
    ignore (append h (EventKind.unknown "termination_failed") (h.failure_payload message))
    fail (ledger_error (cat "termination failed: " message))
  terminated_by token (ok _) = do
    t ← paused_by (λ c. Pause.force_terminate c token)
    append h (EventKind.unknown "force_terminated") (h.state_payload t.to)

  unfoldable pub force_terminate : String → Step h (Unit {0})
  unfolding kill_tree terminated_by
  force_terminate token a =
      if not (can_force_terminate a.pause token)
      then (a, err (pause_error invalid_confirmation_token))
      else (do outcome ← kill_tree; terminated_by token outcome) a

  unfoldable pub set_ui_connected : Bool → Step h (Unit {0})
  unfolding when request_safe_pause is_running
  set_ui_connected connected a =
      when (not connected && is_running a.pause.state) (request_safe_pause "ui disconnected")
        (record a { ui_connected = connected })

  -- The event of one signal.
  unfoldable pub record_signal : BudgetSignal → Step h (Unit {0})
  record_signal (warning d) = append h EventKind.budget_warning (h.dimension_payload d)
  record_signal (require_approval d) =
      append h EventKind.budget_approval_required (h.dimension_payload d)
  record_signal (pause_at_safe_boundary d) =
      append h EventKind.budget_exceeded (h.dimension_payload d)

  unfoldable pub asks_pause : BudgetSignal → Bool
  asks_pause (pause_at_safe_boundary d) = true
  asks_pause _ = false

  -- The loop over the signals, with its flag.
  unfoldable pub record_signals : Bool → List BudgetSignal → Step h Bool
  unfolding record_signal asks_pause
  record_signals pause [] = pure pause
  record_signals pause (s ∷ rest) = do record_signal s; record_signals (pause || asks_pause s) rest

  unfoldable pub apply_budget_signals : List BudgetSignal → Step h Bool
  unfolding record_signals when request_safe_pause
  apply_budget_signals signals = do
    pause ← record_signals false signals
    when pause (request_safe_pause "mission budget reached at safe boundary")
    pure pause

  unfoldable pub flight_checked : FlightIdentity → EnvelopeDecision → Step h EnvelopeDecision
  unfolding request_safe_pause
  flight_checked current allow = pure allow
  flight_checked current pause_identity_changed = do
    append h EventKind.flight_envelope_changed (h.identity_payload current)
    request_safe_pause "flight envelope identity changed"
    pure pause_identity_changed

  unfoldable pub check_flight_identity : FlightEnvelope → FlightIdentity → Step h EnvelopeDecision
  unfolding flight_checked
  check_flight_identity envelope current =
      flight_checked current (check_before_model_request envelope current)

  -- The kind of a decision on the recovery.
  unfoldable pub decision_kind : String → Option EventKind
  decision_kind decision =
      if str_eq decision "continue"
      then some EventKind.recovery_continued
      else if str_eq decision "abandon"
      then some EventKind.recovery_abandoned
      else none

  unfoldable pub decided : Option EventKind → String → json.Value → Step h (Unit {0})
  decided none decision manifest = fail recovery_decision_invalid
  decided (some kind) decision manifest = append h kind (h.decision_payload decision manifest)

  unfoldable pub resolve_recovery : String → json.Value → Step h (Unit {0})
  unfolding decision_kind decided
  resolve_recovery decision manifest a =
      if not a.requires_recovery
      then (a, err recovery_not_required)
      else decided (decision_kind decision) decision manifest a
