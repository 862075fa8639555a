-- ===== src/Supervisor/Service/Busy.antt =====
-- A launch on a mission that already runs.

use agent_mission_control.Prelude.{
  ◌≡◌, refl, ap, ◌∙◌, inl, inr, Result-cases, Option, none, some, String, Result, ok, err, arith,
}
use agent_mission_control.Prelude.Dict.{lookup}
use agent_mission_control.Domain.Ids.{MissionId, RouteId}
use agent_mission_control.Domain.Event.{EventKind}
use agent_mission_control.Supervisor.Actor.{Host, record_event}
use agent_mission_control.Supervisor.Service.{
  MissionCommandRequest, MissionCommandResult, MissionService, Platform, is_some,
}
use agent_mission_control.Supervisor.Service.Action.{
  Action, refuse, bound, on_actor, shown, request_mission_id, request_route_id,
}
use agent_mission_control.Supervisor.Service.Guards.{on_actor-keeps}
use agent_mission_control.Supervisor.Service.Launch.{launch_route}

module _ {h : Host} (p : Platform h) (m : MissionId) (route : RouteId) (r : MissionCommandRequest h)
    (s : MissionService h) where
  refuse_running :
      {B : Type 0} (t : MissionService h) (k : Unit {0} → Action h B) (active : Option String)
      {run : String}
      → active ≡ some run
      → bound (refuse (is_some active) "ROUTE_ALREADY_RUNNING" t) k
        ≡ (t, err "ROUTE_ALREADY_RUNNING")
  unfolding bound
  refuse_running t k none e = absurd (ground arith)
  refuse_running t k (some run) e = refl

  abbrev Answer : Type 0
  Answer = MissionService h × Result (MissionCommandResult h) String

  -- What the actor makes of the event that exploration has started.
  abbrev pub began : MissionService h × Result (Unit {0}) String
  began =
      on_actor (p.id_text m) (shown p "ROUTE_LAUNCH_FAILED:")
        (record_event h EventKind.exploration_started (p.exploration_payload route)) s

  -- A launch of a mission that already runs is refused and calls no adapter. But it is refused only behind
  -- the event that exploration has started, which the actor then has recorded.
  pub launch_route-busy :
      (run : String)
      → request_mission_id p r ≡ ok m
      → request_route_id p r ≡ ok route
      → lookup (p.id_text m) s.runs ≡ some run
      → ((launch_route p r s).0 ≡ began.0)
        × ((launch_route p r s).0.calls ≡ s.calls)
        × (began.1 ≡ ok tt → (launch_route p r s).1 ≡ err "ROUTE_ALREADY_RUNNING")
  unfolding launch_route bound
  launch_route-busy run read_mission read_route busy =
      let (pending, calls, runs, loadouts) =
        on_actor-keeps (shown p "ROUTE_LAUNCH_FAILED:") (p.id_text m)
          (record_event h EventKind.exploration_started (p.exploration_payload route)) s in
      elim (Result-cases began.1) [
        | inr (e, failed) ↦ (
          rw (read_mission, read_route, failed, bound) refl,
          rw (read_mission, read_route, failed, bound) calls,
          λ accepted. absurd (ground arith),
        )
        | inl (u, accepted) ↦
            let active : lookup (p.id_text m) began.0.runs ≡ some run =
              ap (lookup (p.id_text m)) runs ∙ busy in
            let refused : launch_route p r s ≡ (began.0, err "ROUTE_ALREADY_RUNNING") =
              rw (read_mission, read_route, accepted)
                (refuse_running began.0 _ (lookup (p.id_text m) began.0.runs) active) in
            (
              ap (λ (o : Answer). o.0) refused,
              ap (λ (o : Answer). o.0.calls) refused ∙ calls,
              λ again. ap (λ (o : Answer). o.1) refused,
            )
      ]
