-- ===== src/Domain/Route/Graph.antt =====
-- The diagram of a route's states, against the table of `allowed_transition`.
use agent_mission_control.Prelude.{true, false, ◌≡◌, ◌↔◌, refl, arith, is_ok}
use agent_mission_control.Domain.Route.{
  RouteState, draft, read_only_exploration, awaiting_plan_approval, executing, verifying,
  awaiting_acceptance, completed, paused, blocked, abandoned, Route, transition, is_terminal,
}

-- The stages in which a route has work to suspend.
pub data IsUnderway : RouteState → Type 0 where
  drafting : IsUnderway draft
  exploring : IsUnderway read_only_exploration
  planning : IsUnderway awaiting_plan_approval
  working : IsUnderway executing
  checking : IsUnderway verifying
  presenting : IsUnderway awaiting_acceptance

-- The moves that need no acceptance.
infix 40 ◌⟶◌ ◌⟶*◌
pub data ◌⟶◌ : RouteState → RouteState → Type 0 where
  explore : draft ⟶ read_only_exploration
  plan : read_only_exploration ⟶ awaiting_plan_approval
  execute : awaiting_plan_approval ⟶ executing
  verify : executing ⟶ verifying
  present : verifying ⟶ awaiting_acceptance
  suspend : {s : RouteState} → IsUnderway s → s ⟶ paused
  resume : paused ⟶ executing
  block_work : executing ⟶ blocked
  block_check : verifying ⟶ blocked
  unblock : blocked ⟶ executing

pub data ◌⟶*◌ : RouteState → RouteState → Type 0 where
  here : {s : RouteState} → s ⟶* s
  step : {s t u : RouteState} → s ⟶ t → t ⟶* u → s ⟶* u

ruleset moves = (explore, plan, execute, verify, present, resume, block_work, block_check, unblock)

ruleset stages = (drafting, exploring, planning, working, checking, presenting)

-- `transition` proposes an event for the moves of the diagram, and for no other.
transition_iff : (r : Route) (t : RouteState) → (is_ok (transition r t) ≡ true) ↔ (r.state ⟶ t)
unfolding transition
transition_iff r t = (λ h. grind (arith, moves, suspend, stages), λ m. back r.state t m)
  where
    back : (s u : RouteState) → s ⟶ u → is_ok (transition (record r { state = s }) u) ≡ true
    back s u explore = refl
    back s u plan = refl
    back s u execute = refl
    back s u verify = refl
    back s u present = refl
    back s u (suspend drafting) = refl
    back s u (suspend exploring) = refl
    back s u (suspend planning) = refl
    back s u (suspend working) = refl
    back s u (suspend checking) = refl
    back s u (suspend presenting) = refl
    back s u resume = refl
    back s u block_work = refl
    back s u block_check = refl
    back s u unblock = refl

-- From every state that is not terminal the moves lead to the state where acceptance is asked for.
pub ⟶*-awaiting_acceptance : (s : RouteState) → is_terminal s ≡ false → s ⟶* awaiting_acceptance
unfolding is_terminal
⟶*-awaiting_acceptance completed h = cc
⟶*-awaiting_acceptance abandoned h = cc
⟶*-awaiting_acceptance awaiting_acceptance h = here
⟶*-awaiting_acceptance _ _ = search (here, step, moves) depth 9
