-- ===== src/Supervisor/Service/Runs.antt =====
-- crates/supervisor/src/mission_service.rs: `spawn_event_consumer`, the loop over the events of a run.
use agent_mission_control.Prelude.{
  ℕ, Bool, true, false, not, ◌||◌, Option, none, some, List, [], ◌∷◌, String, Result, ok, err,
  if◌then◌else◌,
}
use agent_mission_control.Prelude.Text.{str_eq}
use agent_mission_control.Prelude.Dict.{Dict, lookup, insert, remove}
use agent_mission_control.Domain.Event.{EventKind}
use agent_mission_control.Policy.Budget.{
  BudgetDimension, Duration, millis, BudgetSignal, UsageRecord, sample, one_usage,
}
use agent_mission_control.Supervisor.Actor.{Host, record_event}
use agent_mission_control.Supervisor.Actor.Pausing.{asks_pause, apply_budget_signals}
use agent_mission_control.Supervisor.Actor.Pausing
use agent_mission_control.Supervisor.Actor.AgentEvents.{
  AgentEvent, is_request_kind, record_agent_event,
}
use agent_mission_control.Supervisor.Budgets.{
  default_budget_tracker, unwrap_or, usage_record_from_event, take_usage, is_text,
}
use agent_mission_control.Supervisor.Loadouts.{ProviderId}
use agent_mission_control.Supervisor.Service.{
  MissionService, PendingServerRequest, safe_pause, Platform, is_some,
}
use agent_mission_control.Supervisor.Service.Action.{
  Action, ◌>>=◌, ◌>>◌, pure, asks, modify, ignore, on_actor, shown, call, provider_or_default,
}

unfoldable pub any_pause : Host → List BudgetSignal → Bool
unfolding asks_pause
any_pause h [] = false
any_pause h (s ∷ rest) = asks_pause h s || any_pause h rest

abbrev pub is_empty {ℓ} : {A : Type ℓ} → List A → Bool
is_empty [] = true
is_empty (x ∷ xs) = false

-- `retain(|_, request| request.run_id != run_id)`.
unfoldable pub without_run :
    {h : Host} → String → Dict (PendingServerRequest h) → Dict (PendingServerRequest h)
without_run run_id [] = []
without_run run_id ((k, waiting) ∷ rest) =
    let others = without_run run_id rest in
    if str_eq waiting.run_id run_id then others else (k, waiting) ∷ others

-- The flags of a round of the loop.
pub record Flags : Type 0 where
  pub should_remove : Bool
  pub adapter_pause : Bool

-- What stays the same through the loop: the mission's key, the run, and the provider of its adapter.
pub record Run : Type 0 where
  pub key : String
  pub run_id : String
  pub provider : ProviderId

module _ {h : Host} (p : Platform h) (run : Run) where
  -- A method of the actor whose error the loop looks at.
  unfoldable pub outcome_flag :
      {A : Type 0} → MissionService h × Result A String → MissionService h × Result Bool String
  outcome_flag (s, ok x) = (s, ok true)
  outcome_flag (s, err e) = (s, ok false)

  unfoldable pub outcome_of : {A : Type 0} → Action h A → Action h Bool
  unfolding outcome_flag
  outcome_of action s = outcome_flag (action s)

  -- `entry(..).or_insert_with(default_budget_tracker)`, the record, and the evaluation.
  unfoldable pub charge : UsageRecord → Action h (List BudgetSignal)
  unfolding default_budget_tracker take_usage
  charge usage s =
      let (tracker, signals) =
        take_usage h.json p.fields (some usage)
          (unwrap_or (lookup run.key s.budgets) default_budget_tracker) in
      (record s { budgets = insert run.key tracker s.budgets }, ok signals)

  -- The signals go to the actor, if there are any and the actor is there; the flag asks for a pause.
  unfoldable pub signalled : List BudgetSignal → Action h Bool
  unfolding any_pause outcome_of
  signalled signals = do
    there ← asks (λ s. is_some (lookup run.key s.missions))
    elim (is_empty signals || not there) [
      | true ↦ pure false
      | false ↦ do
        done ← outcome_of (on_actor run.key (shown p "") (apply_budget_signals h signals))
        pure (any_pause h signals || not done)
    ]

  unfoldable pub charged : Option UsageRecord → Action h Bool
  unfolding charge signalled
  charged none = pure false
  charged (some usage) = do signals ← charge usage; signalled signals

  -- The request of an agent that waits for an approval.
  unfoldable pub waits :
      Bool → Option String → Option h.json.Value → MissionService h → MissionService h
  waits true (some approval_id) (some request_id) s = record s {
    pending_server_requests =
        insert approval_id
          (record {
            run_id = run.run_id;
            request_id = request_id;
            provider = provider_or_default (lookup run.key s.run_providers);
          })
          s.pending_server_requests;
  }
  waits _ _ _ s = s

  unfoldable pub await_approval : AgentEvent h → Action h (Unit {0})
  unfolding waits
  await_approval e = modify (
      waits (is_request_kind e.event_kind) (h.json.get_str e.payload "approval_id")
        (p.fields.get e.payload "server_request_id"))

  unfoldable pub degraded : String → Action h (Unit {0})
  degraded reason = ignore (
      on_actor run.key (shown p "")
        (record_event h (EventKind.unknown "mission.degraded") (p.degraded_payload reason)))

  unfoldable pub pause_actor : String → Action h Bool
  unfolding outcome_of
  pause_actor reason =
      outcome_of (on_actor run.key (shown p "") (Pausing.request_safe_pause h reason))

  -- An event that needs a pause, behind the recording of it.
  unfoldable pub pause_for_adapter : Action h Flags
  unfolding degraded pause_actor
  pause_for_adapter = do
    done ← pause_actor "adapter requires safe pause"
    elim done [
      | true ↦ pure (record { should_remove = false; adapter_pause = true })
      | false ↦ do
        degraded "safe pause audit append failed"
        pure (record { should_remove = true; adapter_pause = true })
    ]

  -- What follows the recording of the event, by whether it succeeded and whether a pause is required.
  unfoldable pub after_record : Bool → Bool → Bool → Action h Flags
  unfolding pause_for_adapter degraded pause_actor
  after_record true true budget_pause = pause_for_adapter
  after_record true false budget_pause =
      pure (record { should_remove = false; adapter_pause = budget_pause })
  after_record false requires_pause budget_pause = do
    degraded "agent event append failed"
    pause_actor "agent event append failed"
    pure (record { should_remove = true; adapter_pause = true })

  unfoldable pub record_or_stop : AgentEvent h → Bool → Bool → Action h Flags
  unfolding after_record outcome_of
  record_or_stop e budget_pause there =
      if there
      then (do
        done ← outcome_of (on_actor run.key (shown p "") (record_agent_event h e))
        after_record done e.requires_safe_pause budget_pause)
      else pure (record { should_remove = true; adapter_pause = true })

  -- `if adapter_pause && adapter.request_safe_pause(..).await.is_err() { should_remove = true; }`.
  unfoldable pub pause_adapter : Flags → Action h Bool
  unfolding call outcome_of
  pause_adapter flags =
      if flags.adapter_pause
      then (do
        done ← outcome_of (call p "" (safe_pause run.provider run.run_id))
        pure (flags.should_remove || not done))
      else pure flags.should_remove

  -- The end of a round: the event is recorded, and the adapter pauses where that is asked for.
  unfoldable pub finish_round : AgentEvent h → Bool → Action h Bool
  unfolding record_or_stop pause_adapter
  finish_round e budget_pause = do
    there ← asks (λ s. is_some (lookup run.key s.missions))
    flags ← record_or_stop e budget_pause there
    pause_adapter flags

  -- One round of the loop: whether it stops.
  unfoldable pub take_event : AgentEvent h → Option UsageRecord → Action h Bool
  unfolding charged await_approval finish_round
  take_event e usage = do
    budget_pause ← charged usage
    await_approval e
    finish_round e budget_pause

  unfoldable pub take_events : List (AgentEvent h) → ℕ → Action h (Unit {0})
  unfolding take_event
  take_events [] previous = pure tt
  take_events (e ∷ rest) previous =
      let (usage, next) = usage_record_from_event h.json p.fields e.payload previous in
      take_event e usage >>= λ stop. elim stop [ true ↦ pure tt | false ↦ take_events rest next ]

  -- `remove` of the run and of its provider, if the mission still runs it.
  unfoldable pub end_run : MissionService h → MissionService h
  unfolding without_run
  end_run s =
      let pending = without_run run.run_id s.pending_server_requests in
      if is_text (lookup run.key s.runs) run.run_id
      then record s {
        runs = remove run.key s.runs;
        run_providers = remove run.key s.run_providers;
        pending_server_requests = pending;
      }
      else record s { pending_server_requests = pending }

  -- The whole task: the events up to the one that stops it, the time of the run, and the end of the run.
  unfoldable pub consume : List (AgentEvent h) → Duration → Action h (Unit {0})
  unfolding take_events charge signalled end_run
  consume events elapsed = do
    take_events events 0
    signals ← charge (sample (one_usage BudgetDimension.wall_clock (millis elapsed)))
    signalled signals
    modify end_run
