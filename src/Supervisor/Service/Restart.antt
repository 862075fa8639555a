-- ===== src/Supervisor/Service/Restart.antt =====
-- The budget that a restarted service reads back from the events of a mission.
use agent_mission_control.Prelude.{
  ℕ, ◌≡◌, refl, ap, ◌∙◌, false, Option, none, some, List, [], ◌∷◌, ◌++◌, String, if◌then◌else◌,
}
use agent_mission_control.Domain.Event.{EventKind, EventEnvelope}
use agent_mission_control.Policy.Budget.{BudgetLimits, BudgetTracker, Duration, pause}
use agent_mission_control.Policy.Budget
use agent_mission_control.Supervisor.Actor.{Host}
use agent_mission_control.Supervisor.Budgets.{
  default_budget_tracker, is_contract_updated, and_then, last_contract, limits_or_default,
  budget_tracker_from_events,
}
use agent_mission_control.Supervisor.Service.{Platform}

module _ {h : Host} (p : Platform h) where
  abbrev pub NoContract : List (EventEnvelope h.json) → Type 0
  NoContract [] = Unit {0}
  NoContract (e ∷ es) = (is_contract_updated e.kind ≡ false) × NoContract es

  last_contract-quiet :
      (es : List (EventEnvelope h.json)) (found : Option (EventEnvelope h.json))
      → NoContract es
      → last_contract h.json p.fields found es ≡ found
  unfolding last_contract
  last_contract-quiet [] found quiet = refl
  last_contract-quiet (e ∷ es) found (other, quiet) = rw other (last_contract-quiet es found quiet)

  last_contract-append :
      (es fs : List (EventEnvelope h.json)) (found : Option (EventEnvelope h.json))
      → last_contract h.json p.fields found (es ++ fs)
        ≡ last_contract h.json p.fields (last_contract h.json p.fields found es) fs
  unfolding last_contract
  last_contract-append [] fs found = refl
  last_contract-append (e ∷ es) fs found =
      last_contract-append es fs (if is_contract_updated e.kind then some e else found)

  found_last :
      (found : Option (EventEnvelope h.json)) (e : EventEnvelope h.json)
      (later : List (EventEnvelope h.json))
      → e.kind ≡ EventKind.contract_updated
      → NoContract later
      → last_contract h.json p.fields found (e ∷ later) ≡ some e
  unfolding last_contract is_contract_updated
  found_last found e later updates quiet =
      ap
        (λ k. last_contract h.json p.fields (if is_contract_updated k then some e else found) later)
        updates
      ∙ last_contract-quiet later (some e) quiet

  -- The tracker by the event that the search finds.
  abbrev tracker_of : Option (EventEnvelope h.json) → BudgetTracker
  tracker_of found =
      Budget.new 1
        (limits_or_default h.json p.fields (and_then found (λ e. p.fields.read_request e.payload)))
        pause

  -- An update of the contract, which writes no budget, makes the restarted service forget the budget of
  -- the mission, whatever it was: the limits are the default ones again.
  pub updated_budget_forgotten :
      (events later : List (EventEnvelope h.json)) (e : EventEnvelope h.json) (goal : Option String)
      (version : Option ℕ)
      → e.kind ≡ EventKind.contract_updated
      → e.payload ≡ p.goal_payload goal version
      → p.fields.read_request (p.goal_payload goal version) ≡ none
      → NoContract later
      → budget_tracker_from_events h.json p.fields (events ++ e ∷ later) ≡ default_budget_tracker
  unfolding budget_tracker_from_events default_budget_tracker
  updated_budget_forgotten events later e goal version updates payload unwritten quiet =
      ap tracker_of (
        last_contract-append events (e ∷ later) none
        ∙ found_last (last_contract h.json p.fields none events) e later updates quiet)
      ∙ ap (λ o. Budget.new 1 (limits_or_default h.json p.fields o) pause)
          (ap p.fields.read_request payload ∙ unwritten)
