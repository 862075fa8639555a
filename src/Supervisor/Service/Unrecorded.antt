-- ===== src/Supervisor/Service/Unrecorded.antt =====
-- What the loop over a run's events does where an event cannot be recorded.
use agent_mission_control.Prelude.{
  ◌≡◌, refl, ap, ◌∙◌, inl, inr, Bool, true, false, ◌||◌, not, Bool-cases, is_ok, List, [], ◌∷◌,
  ◌++◌, String, Result, ok, err,
}
use agent_mission_control.Prelude.Dict.{lookup}
use agent_mission_control.Domain.Event.{EventKind}
use agent_mission_control.Supervisor.Actor.Pausing
use agent_mission_control.Supervisor.Actor.{record_event, Host}
use agent_mission_control.Supervisor.Actor.AgentEvents.{AgentEvent, record_agent_event}
use agent_mission_control.Supervisor.Service.{
  MissionService, ControlCall, safe_pause, Platform, is_some,
}
use agent_mission_control.Supervisor.Service.Action.{Action, pure, bound, on_actor, shown, call}
use agent_mission_control.Supervisor.Service.Guards.{on_actor-keeps}
use agent_mission_control.Supervisor.Service.Runs.{
  Flags, Run, outcome_flag, outcome_of, degraded, pause_actor, after_record, record_or_stop,
  pause_adapter, finish_round,
}

module _ {h : Host} (p : Platform h) (run : Run) where
  -- The service with one more call, and whether the loop stops.
  abbrev Round : Type 0
  Round = MissionService h × Result Bool String

  pub outcome_flag_lem :
      {A : Type 0} (o : MissionService h × Result A String)
      → outcome_flag p run o ≡ (o.0, ok (is_ok o.1))
  unfolding outcome_flag
  outcome_flag_lem (s, ok x) = refl
  outcome_flag_lem (s, err e) = refl

  -- A method whose error is only looked at, and what follows it.
  looked_at :
      {A B : Type 0} (m : Action h A) (k : Bool → Action h B) (s : MissionService h)
      → bound (outcome_of p run m s) k ≡ k (is_ok (m s).1) (m s).0
  unfolding outcome_of bound
  looked_at m k s = ap (λ (o : Round). bound o k) (outcome_flag_lem (m s))

  paused_round :
      (s : MissionService h)
      → let round = pause_adapter p run (record { should_remove = true; adapter_pause = true }) s in
        (round.1 ≡ ok true) × (round.0.calls ≡ s.calls ++ safe_pause run.provider run.run_id ∷ [])
  unfolding pause_adapter call
  paused_round s =
      let paused : Action h (Unit {0}) = call p "" (safe_pause run.provider run.run_id) in
      let looked : _ = looked_at paused (λ done. pure (true || not done)) s in
      (ap (λ (o : Round). o.1) looked, ap (λ (o : Round). o.0.calls) looked)

  -- The steps after a failed recording call no adapter.
  failed_recording :
      (requires_pause budget_pause : Bool) (s : MissionService h)
      → (u : MissionService h) × (after_record p run false requires_pause budget_pause s
          ≡ (u, ok (record { should_remove = true; adapter_pause = true })))
        × (u.calls ≡ s.calls)
  unfolding after_record degraded pause_actor bound
  failed_recording requires_pause budget_pause s =
      let marker : MissionService h =
        (on_actor run.key (shown p "")
          (record_event h (EventKind.unknown "mission.degraded")
            (p.degraded_payload "agent event append failed"))
          s).0 in
      let pausing : Action h (Unit {0}) =
        on_actor run.key (shown p "") (Pausing.request_safe_pause h "agent event append failed") in
      let (pending, calls, runs, loadouts) =
        on_actor-keeps (shown p "") run.key
          (record_event h (EventKind.unknown "mission.degraded")
            (p.degraded_payload "agent event append failed"))
          s in
      let (pending', calls', runs', loadouts') =
        on_actor-keeps (shown p "") run.key
          (Pausing.request_safe_pause h "agent event append failed") marker in
      (
        (pausing marker).0,
        looked_at pausing (λ done. pure (record { should_remove = true; adapter_pause = true }))
            marker,
        calls' ∙ calls,
      )

  stopped_with :
      (e : AgentEvent h) (budget_pause : Bool) (s : MissionService h) (text : String)
      → (on_actor run.key (shown p "") (record_agent_event h e) s).1 ≡ err text
      → (u : MissionService h) × (record_or_stop p run e budget_pause
            (is_some (lookup run.key s.missions))
            s
          ≡ (u, ok (record { should_remove = true; adapter_pause = true })))
        × (u.calls ≡ s.calls)
  unfolding record_or_stop
  stopped_with e budget_pause s text failed =
      elim (Bool-cases (is_some (lookup run.key s.missions))) [
        | inr missing ↦ (s, rw missing refl, refl)
        | inl there ↦
            let recording : Action h (Unit {0}) =
              on_actor run.key (shown p "") (record_agent_event h e) in
            let (pending, calls, runs, loadouts) =
              on_actor-keeps (shown p "") run.key (record_agent_event h e) s in
            let (u, stops, same) =
              failed_recording e.requires_safe_pause budget_pause (recording s).0 in
            (
              u,
              rw there (
                  looked_at recording
                    (λ done. after_record p run done e.requires_safe_pause budget_pause) s
                  ∙ ap
                      (λ (r : Result (Unit {0}) String).
                        after_record p run (is_ok r) e.requires_safe_pause budget_pause
                          (recording s).0)
                      failed
                  ∙ stops),
              same ∙ calls,
            )
      ]

  -- An event that the mission's actor cannot record, or that finds no actor, ends the loop, and the run's
  -- adapter is asked once to pause, whatever it answers.
  pub unrecorded_stops :
      (e : AgentEvent h) (budget_pause : Bool) (s : MissionService h) (text : String)
      → (on_actor run.key (shown p "") (record_agent_event h e) s).1 ≡ err text
      → ((finish_round p run e budget_pause s).1 ≡ ok true)
        × ((finish_round p run e budget_pause s).0.calls
            ≡ s.calls ++ safe_pause run.provider run.run_id ∷ [])
  unfolding finish_round bound
  unrecorded_stops e budget_pause s text failed =
      let (u, stops, same) = stopped_with e budget_pause s text failed in
      let (stop, call) = paused_round u in
      let round : finish_round p run e budget_pause s
          ≡ pause_adapter p run (record { should_remove = true; adapter_pause = true }) u =
        ap (λ (o : MissionService h × Result Flags String). bound o (pause_adapter p run)) stops in
      (
        ap (λ (o : Round). o.1) round ∙ stop,
        ap (λ (o : Round). o.0.calls) round
            ∙ call
            ∙ ap (λ (cs : List (ControlCall h)). cs ++ safe_pause run.provider run.run_id ∷ [])
                same,
      )
