-- ===== src/Supervisor/Actor/Recorded.antt =====
-- Every method of the actor keeps it in agreement with its ledger.
use agent_mission_control.Prelude.{
  refl, inl, inr, Bool, false, not, ◌&&◌, ◌||◌, Bool-cases, Option, none, some, List, [], ◌∷◌,
  String, Result, ok, err,
}
use agent_mission_control.Prelude.Text.{str_eq}
use agent_mission_control.Domain.Ids.{MissionId, RouteId}
use agent_mission_control.Domain.Event.{EventKind}
use agent_mission_control.Policy.Budget.{
  BudgetSignal, warning, require_approval, pause_at_safe_boundary,
}
use agent_mission_control.Policy.Envelope.{
  FlightIdentity, EnvelopeDecision, allow, pause_identity_changed,
}
use agent_mission_control.Supervisor.Pause.{
  PauseController, PauseTransition, PauseError, request, acknowledge, timeout,
  force_termination_token, invalid_state, can_force_terminate,
}
use agent_mission_control.Supervisor.Pause
use agent_mission_control.Supervisor.Actor.{
  Host, pause_error, recovery_decision_invalid, is_running, is_approval_kind, MissionActor, Step,
  append,
}
use agent_mission_control.Supervisor.Actor.Pausing.{
  same_state, asks_pause, set_pause, record_shown, paused_by, request_safe_pause, acknowledge_pause,
  record_token, record_force_token_transition, pause_timeout, when, when_running,
  request_force_termination, kill_tree, ignore, terminated_by, force_terminate, set_ui_connected,
  record_signal, record_signals, apply_budget_signals, flight_checked, decision_kind, decided,
  resolve_recovery,
}
use agent_mission_control.Supervisor.Actor.Keeps.{
  Keeps, pure-Keeps, fail-Keeps, bind-Keeps, ignore-Keeps, when-Keeps,
}
use agent_mission_control.Supervisor.Actor.Rehydration.{IsFaithful}
use agent_mission_control.Supervisor.Actor.Appended.{Agrees, append_then-Keeps, append-Keeps}

module _ (h : Host) (m : MissionId) (route : RouteId) (faithful : IsFaithful h m) where
  -- In agreement with the ledger.
  abbrev InStep : MissionActor h → Type 0
  InStep = Agrees h m route faithful

  set_pause-Agrees :
      (o : PauseController × Result PauseTransition PauseError) (a : MissionActor h)
      → InStep a
      → InStep (set_pause h o a).0
  unfolding set_pause
  set_pause-Agrees (c, ok t) a v = record {
    mission = v.mission;
    on_route = v.on_route;
    number = v.number;
    recovery = v.recovery;
    filed = v.filed;
    keyed = v.keyed;
  }
  set_pause-Agrees (c, err e) a v = record {
    mission = v.mission;
    on_route = v.on_route;
    number = v.number;
    recovery = v.recovery;
    filed = v.filed;
    keyed = v.keyed;
  }

  paused_by-Keeps :
      (f : PauseController → PauseController × Result PauseTransition PauseError)
      → Keeps InStep (paused_by h f)
  unfolding paused_by
  paused_by-Keeps f = record { run = λ a v. set_pause-Agrees (f a.pause) a v }

  pub request_safe_pause-Keeps : (reason : String) → Keeps InStep (request_safe_pause h reason)
  unfolding request_safe_pause is_approval_kind
  request_safe_pause-Keeps reason =
      bind-Keeps InStep (paused_by h (λ c. request c reason)) _
        (paused_by-Keeps (λ c. request c reason))
        (λ t.
          append-Keeps h m route faithful EventKind.pause_requested (h.pause_payload reason t.to)
            refl)

  pub acknowledge_pause-Keeps : Keeps InStep (acknowledge_pause h)
  unfolding acknowledge_pause is_approval_kind
  acknowledge_pause-Keeps =
      bind-Keeps InStep (paused_by h acknowledge) _ (paused_by-Keeps acknowledge) (λ t.
        append-Keeps h m route faithful (EventKind.unknown "pause_acknowledged")
          (h.state_payload t.to) refl)

  record_token-Keeps :
      (token : String) (t : PauseTransition) → Keeps InStep (record_token h token t)
  unfolding record_token is_approval_kind
  record_token-Keeps token t = elim (Bool-cases (same_state t.from t.to)) [
    | inl same ↦ rw same (pure-Keeps InStep token)
    | inr other ↦ rw other (
        append_then-Keeps h m route faithful (EventKind.unknown "pause_timed_out")
          (h.token_payload t.to) _ refl (pure-Keeps InStep token))
  ]

  shown-Keeps : (o : Option String) (t : PauseTransition) → Keeps InStep (record_shown h o t)
  unfolding record_shown
  shown-Keeps none t = fail-Keeps InStep (pause_error invalid_state)
  shown-Keeps (some token) t = record_token-Keeps token t

  transition-Keeps : (t : PauseTransition) → Keeps InStep (record_force_token_transition h t)
  unfolding record_force_token_transition
  transition-Keeps t = shown-Keeps t.confirmation_token t

  pub pause_timeout-Keeps : Keeps InStep (pause_timeout h)
  unfolding pause_timeout
  pause_timeout-Keeps =
      bind-Keeps InStep (paused_by h timeout) _ (paused_by-Keeps timeout) transition-Keeps

  when_running-Keeps : (s : Step h (Unit {0})) → Keeps InStep s → Keeps InStep (when_running h s)
  unfolding when_running
  when_running-Keeps s v = record {
    run = λ a w. (when-Keeps InStep (is_running a.pause.state) s v).run a w;
  }

  pub request_force_termination-Keeps : Keeps InStep (request_force_termination h)
  unfolding request_force_termination
  request_force_termination-Keeps =
      bind-Keeps InStep (when_running h (request_safe_pause h "user requested force termination")) _
        (when_running-Keeps _ (request_safe_pause-Keeps "user requested force termination"))
        (λ u.
          bind-Keeps InStep (paused_by h force_termination_token) _
            (paused_by-Keeps force_termination_token) transition-Keeps)

  kill_tree-Keeps : Keeps InStep (kill_tree h)
  unfolding kill_tree
  kill_tree-Keeps = record {
    run = λ a v. record {
      mission = v.mission;
      on_route = v.on_route;
      number = v.number;
      recovery = v.recovery;
      filed = v.filed;
      keyed = v.keyed;
    };
  }

  terminated_by-Keeps :
      (token : String) (o : Result (Unit {0}) String) → Keeps InStep (terminated_by h token o)
  unfolding terminated_by is_approval_kind
  terminated_by-Keeps token (err message) =
      bind-Keeps InStep
        (ignore h (append h (EventKind.unknown "termination_failed") (h.failure_payload message))) _
        (ignore-Keeps InStep _ (
          append-Keeps h m route faithful (EventKind.unknown "termination_failed")
            (h.failure_payload message) refl))
        (λ u. fail-Keeps InStep _)
  terminated_by-Keeps token (ok u) =
      bind-Keeps InStep (paused_by h (λ c. Pause.force_terminate c token)) _
        (paused_by-Keeps (λ c. Pause.force_terminate c token))
        (λ t.
          append-Keeps h m route faithful (EventKind.unknown "force_terminated")
            (h.state_payload t.to) refl)

  pub force_terminate-Keeps : (token : String) → Keeps InStep (force_terminate h token)
  unfolding force_terminate
  force_terminate-Keeps token = record {
    run = λ a v. elim (Bool-cases (can_force_terminate a.pause token)) [
      | inl fits ↦ rw fits (
          (bind-Keeps InStep (kill_tree h) (terminated_by h token) kill_tree-Keeps
              (terminated_by-Keeps token)).run
            a v)
      | inr misfit ↦ rw misfit v
    ];
  }

  pub set_ui_connected-Keeps : (connected : Bool) → Keeps InStep (set_ui_connected h connected)
  unfolding set_ui_connected
  set_ui_connected-Keeps connected = record {
    run = λ a v.
        (when-Keeps InStep (not connected && is_running a.pause.state)
            (request_safe_pause h "ui disconnected")
            (request_safe_pause-Keeps "ui disconnected")).run
          (record a { ui_connected = connected })
          (record {
            mission = v.mission;
            on_route = v.on_route;
            number = v.number;
            recovery = v.recovery;
            filed = v.filed;
            keyed = v.keyed;
          });
  }

  record_signal-Keeps : (s : BudgetSignal) → Keeps InStep (record_signal h s)
  unfolding record_signal is_approval_kind
  record_signal-Keeps (warning d) =
      append-Keeps h m route faithful EventKind.budget_warning (h.dimension_payload d) refl
  record_signal-Keeps (require_approval d) =
      append-Keeps h m route faithful EventKind.budget_approval_required (h.dimension_payload d)
        refl
  record_signal-Keeps (pause_at_safe_boundary d) =
      append-Keeps h m route faithful EventKind.budget_exceeded (h.dimension_payload d) refl

  record_signals-Keeps :
      (signals : List BudgetSignal) (p : Bool) → Keeps InStep (record_signals h p signals)
  unfolding record_signals
  record_signals-Keeps [] p = pure-Keeps InStep p
  record_signals-Keeps (s ∷ rest) p =
      bind-Keeps InStep (record_signal h s) _ (record_signal-Keeps s)
        (λ u. record_signals-Keeps rest (p || asks_pause h s))

  pub apply_budget_signals-Keeps :
      (signals : List BudgetSignal) → Keeps InStep (apply_budget_signals h signals)
  unfolding apply_budget_signals
  apply_budget_signals-Keeps signals =
      bind-Keeps InStep (record_signals h false signals) _ (record_signals-Keeps signals false)
        (λ p.
          bind-Keeps InStep
            (when h p (request_safe_pause h "mission budget reached at safe boundary")) _
            (when-Keeps InStep p _
              (request_safe_pause-Keeps "mission budget reached at safe boundary"))
            (λ u. pure-Keeps InStep p))

  pub flight_checked-Keeps :
      (current : FlightIdentity) (d : EnvelopeDecision) → Keeps InStep (flight_checked h current d)
  unfolding flight_checked is_approval_kind
  flight_checked-Keeps current allow = pure-Keeps InStep allow
  flight_checked-Keeps current pause_identity_changed =
      append_then-Keeps h m route faithful EventKind.flight_envelope_changed
        (h.identity_payload current) _ refl
        (bind-Keeps InStep (request_safe_pause h "flight envelope identity changed") _
          (request_safe_pause-Keeps "flight envelope identity changed")
          (λ u. pure-Keeps InStep pause_identity_changed))

  decided-Keeps :
      (decision : String) (manifest : h.json.Value)
      → Keeps InStep (decided h (decision_kind h decision) decision manifest)
  unfolding decision_kind decided is_approval_kind
  decided-Keeps decision manifest = elim (Bool-cases (str_eq decision "continue")) [
    | inl goes_on ↦ rw goes_on (
        append-Keeps h m route faithful EventKind.recovery_continued
          (h.decision_payload decision manifest) refl)
    | inr other ↦ rw other (elim (Bool-cases (str_eq decision "abandon")) [
      | inl given_up ↦ rw given_up (
          append-Keeps h m route faithful EventKind.recovery_abandoned
            (h.decision_payload decision manifest) refl)
      | inr invalid ↦ rw invalid (fail-Keeps InStep recovery_decision_invalid)
    ])
  ]

  pub resolve_recovery-Keeps :
      (decision : String) (manifest : h.json.Value)
      → Keeps InStep (resolve_recovery h decision manifest)
  unfolding resolve_recovery
  resolve_recovery-Keeps decision manifest = record {
    run = λ a v. elim (Bool-cases a.requires_recovery) [
      | inl needed ↦ simp needed ((decided-Keeps decision manifest).run a v)
      | inr spare ↦ simp spare v
    ];
  }
