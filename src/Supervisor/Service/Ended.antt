-- ===== src/Supervisor/Service/Ended.antt =====
-- The loop over a run's events always comes to its end, and the run is then forgotten.
pub mod Samples
use agent_mission_control.Prelude.{
  ℕ, ◌≡◌, ◌≢◌, refl, sym, ap, inl, inr, Bool, true, false, not, ◌||◌, Bool-cases, Option, none,
  some, List, [], ◌∷◌, String, Result, ok, err, is_ok, arith,
}
use mathlib.Core.Path.{subst}
use agent_mission_control.Prelude.Text.{str_eq, str_eq_iff}
use agent_mission_control.Prelude.Dict.{Dict, lookup, lookup-remove-same}
use agent_mission_control.Policy.Budget.{
  Duration, BudgetSignal, UsageRecord, BudgetDimension, millis, sample, one_usage,
}
use agent_mission_control.Supervisor.Actor.{Host}
use agent_mission_control.Supervisor.Actor.Pausing.{apply_budget_signals}
use agent_mission_control.Supervisor.Actor.Pausing
use agent_mission_control.Supervisor.Actor.AgentEvents.{AgentEvent, record_agent_event}
use agent_mission_control.Supervisor.Budgets.{is_text, usage_record_from_event}
use agent_mission_control.Supervisor.Service.Succeeds.{
  Succeeds, pure-Succeeds, modify-Succeeds, bound-ok, bind-Succeeds, either-Succeeds, if-Succeeds,
}
use agent_mission_control.Supervisor.Service.Unrecorded.{outcome_flag_lem}
use agent_mission_control.Supervisor.Service.{
  is_some, MissionService, PendingServerRequest, Platform, safe_pause,
}
use agent_mission_control.Supervisor.Service.Action.{
  Action, bound, ◌>>=◌, pure, modify, asks, on_actor, shown, call,
}
use agent_mission_control.Supervisor.Service.Runs.{
  Flags, Run, without_run, outcome_of, charge, signalled, charged, await_approval, degraded,
  pause_actor, pause_for_adapter, after_record, record_or_stop, pause_adapter, any_pause, is_empty,
  finish_round, take_event, take_events, end_run, consume,
}

-- Whether a request of the run waits for its answer.
unfoldable pub any_of_run : {h : Host} → String → Dict (PendingServerRequest h) → Bool
any_of_run run_id [] = false
any_of_run run_id ((k, waiting) ∷ rest) = str_eq waiting.run_id run_id || any_of_run run_id rest

without_run-any :
    {h : Host} (run_id : String) (pending : Dict (PendingServerRequest h))
    → any_of_run run_id (without_run run_id pending) ≡ false
unfolding any_of_run without_run
without_run-any run_id [] = refl
without_run-any run_id ((k, waiting) ∷ rest) = elim (Bool-cases (str_eq waiting.run_id run_id)) [
  | inl same ↦ rw same (without_run-any run_id rest)
  | inr other ↦ rw (other, other) (without_run-any run_id rest)
]

is_text-false : (o : Option String) (t : String) → is_text o t ≡ false → o ≢ some t
is_text-false none t e = λ same. absurd (ground arith)
is_text-false (some u) t e =
    λ same. let alike : str_eq u t ≡ true = (str_eq_iff u t).1 cc in absurd (ground arith)

module _ {h : Host} (p : Platform h) (run : Run) where
  outcome_of-Succeeds : {A : Type 0} (m : Action h A) → Succeeds (outcome_of p run m)
  unfolding outcome_of
  outcome_of-Succeeds m = record {
    answers = λ s. (
      is_ok (m s).1,
      ap (λ (o : MissionService h × Result Bool String). o.1) (outcome_flag_lem p run (m s)),
    );
  }

  signalled-Succeeds : (signals : List BudgetSignal) → Succeeds (signalled p run signals)
  unfolding signalled
  signalled-Succeeds signals =
      bind-Succeeds (asks (λ s. is_some (lookup run.key s.missions))) _
        (record { answers = λ s. (is_some (lookup run.key s.missions), refl) })
        λ there. either-Succeeds (is_empty signals || not there) _ _ (pure-Succeeds false) (
          bind-Succeeds _ _
            (outcome_of-Succeeds {A = Bool}
              (on_actor run.key (shown p "") (apply_budget_signals h signals)))
            λ done. pure-Succeeds (any_pause h signals || not done))

  charged-Succeeds : (usage : Option UsageRecord) → Succeeds (charged p run usage)
  unfolding charged charge
  charged-Succeeds none = pure-Succeeds false
  charged-Succeeds (some usage) =
      bind-Succeeds (charge p run usage) (signalled p run) (record { answers = λ s. (_, refl) })
        signalled-Succeeds

  pause_actor-Succeeds : (reason : String) → Succeeds (pause_actor p run reason)
  unfolding pause_actor
  pause_actor-Succeeds reason =
      outcome_of-Succeeds {A = Unit {0}}
        (on_actor run.key (shown p "") (Pausing.request_safe_pause h reason))

  degraded-Succeeds : (reason : String) → Succeeds (degraded p run reason)
  unfolding degraded
  degraded-Succeeds reason = record { answers = λ s. (tt, refl) }

  after_record-Succeeds :
      (done requires_pause budget_pause : Bool)
      → Succeeds (after_record p run done requires_pause budget_pause)
  unfolding after_record pause_for_adapter
  after_record-Succeeds true true budget_pause =
      bind-Succeeds _ _ (pause_actor-Succeeds _) λ paused.
        either-Succeeds paused _ _ (pure-Succeeds _)
          (bind-Succeeds _ _ (degraded-Succeeds _) λ u. pure-Succeeds _)
  after_record-Succeeds true false budget_pause = pure-Succeeds _
  after_record-Succeeds false requires_pause budget_pause =
      bind-Succeeds _ _ (degraded-Succeeds _)
        λ u. bind-Succeeds _ _ (pause_actor-Succeeds _) λ done. pure-Succeeds _

  record_or_stop-Succeeds :
      (e : AgentEvent h) (budget_pause there : Bool)
      → Succeeds (record_or_stop p run e budget_pause there)
  unfolding record_or_stop
  record_or_stop-Succeeds e budget_pause true =
      bind-Succeeds _ _
        (outcome_of-Succeeds {A = Unit {0}}
          (on_actor run.key (shown p "") (record_agent_event h e)))
        λ done. after_record-Succeeds done e.requires_safe_pause budget_pause
  record_or_stop-Succeeds e budget_pause false = pure-Succeeds _

  pause_adapter-Succeeds : (flags : Flags) → Succeeds (pause_adapter p run flags)
  unfolding pause_adapter
  pause_adapter-Succeeds flags =
      if-Succeeds flags.adapter_pause _ _
        (bind-Succeeds _ _
          (outcome_of-Succeeds {A = Unit {0}} (call p "" (safe_pause run.provider run.run_id)))
          λ done. pure-Succeeds (flags.should_remove || not done))
        (pure-Succeeds flags.should_remove)

  take_event-Succeeds :
      (e : AgentEvent h) (usage : Option UsageRecord) → Succeeds (take_event p run e usage)
  unfolding take_event finish_round await_approval
  take_event-Succeeds e usage = bind-Succeeds _ _ (charged-Succeeds usage) λ budget_pause.
      bind-Succeeds _ _ (modify-Succeeds _) λ u.
        bind-Succeeds (asks (λ s. is_some (lookup run.key s.missions))) _
          (record { answers = λ s. (is_some (lookup run.key s.missions), refl) })
          λ there.
            bind-Succeeds _ _ (record_or_stop-Succeeds e budget_pause there) pause_adapter-Succeeds

  take_events-Succeeds :
      (events : List (AgentEvent h)) (previous : ℕ) → Succeeds (take_events p run events previous)
  unfolding take_events
  take_events-Succeeds [] previous = pure-Succeeds tt
  take_events-Succeeds (e ∷ rest) previous =
      let (usage, next) = usage_record_from_event h.json p.fields e.payload previous in
      bind-Succeeds _ _ (take_event-Succeeds e usage)
        λ stop. either-Succeeds stop _ _ (pure-Succeeds tt) (take_events-Succeeds rest next)

  end_run_lem :
      (s : MissionService h)
      → (lookup run.key (end_run p run s).runs ≢ some run.run_id)
        × (any_of_run run.run_id (end_run p run s).pending_server_requests ≡ false)
  unfolding end_run
  end_run_lem s = elim (Bool-cases (is_text (lookup run.key s.runs) run.run_id)) [
    | inl ours ↦ rw ours (
      λ there. let gone : _ = lookup-remove-same run.key s.runs in absurd (ground arith),
      without_run-any run.run_id s.pending_server_requests,
    )
    | inr other ↦ rw other (
      is_text-false (lookup run.key s.runs) run.run_id other,
      without_run-any run.run_id s.pending_server_requests,
    )
  ]

  abbrev Ends : MissionService h × Result (Unit {0}) String → Type 0
  Ends (s, answer) =
      (answer ≡ ok tt)
      × (lookup run.key s.runs ≢ some run.run_id)
      × (any_of_run run.run_id s.pending_server_requests ≡ false)

  bind-Ends :
      {A : Type 0} (m : Action h A) (k : A → Action h (Unit {0}))
      → Succeeds m
      → ((x : A) (s : MissionService h) → Ends (k x s))
      → (s : MissionService h) → Ends ((m >>= k) s)
  bind-Ends m k v after s =
      let (x, first) = v.answers s in subst Ends (sym (bound-ok (m s) k x first)) (after x (m s).0)

  -- The task over the events that a run gives always comes to its end without an error, whatever the actor, the
  -- ledger and the adapters answer; behind it the mission does not hold the run as its own, and no
  -- request of the run waits for an answer.
  pub consume_ends :
      (events : List (AgentEvent h)) (elapsed : Duration) (s : MissionService h)
      → let task = consume p run events elapsed s in
        (task.1 ≡ ok tt)
        × (lookup run.key task.0.runs ≢ some run.run_id)
        × (any_of_run run.run_id task.0.pending_server_requests ≡ false)
  unfolding consume
  consume_ends events elapsed s =
      let none_left : (s : MissionService h) → Ends (modify (end_run p run) s) =
        λ s. let (forgotten, answered) = end_run_lem s in (refl, forgotten, answered) in
      bind-Ends (take_events p run events 0) _ (take_events-Succeeds events 0)
        (λ u.
          bind-Ends (charge p run (sample (one_usage BudgetDimension.wall_clock (millis elapsed))))
            _ (record { answers = λ s. (_, refl) })
            λ signals.
              bind-Ends (signalled p run signals) _ (signalled-Succeeds signals)
                λ paused. none_left)
        s
