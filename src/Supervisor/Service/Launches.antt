-- ===== src/Supervisor/Service/Launches.antt =====
-- What has to hold before the service tells an adapter to start an agent.

use agent_mission_control.Prelude.{
  ◌≡◌, refl, sym, ap, ◌∙◌, inl, inr, ◌⊎◌, true, false, Result-cases, Option-cases, Option, none,
  some, [], ◌∷◌, ◌++◌, String, Result, ok, err, arith,
}
use mathlib.Core.Path.{subst}
use agent_mission_control.Prelude.Dict.{lookup}
use agent_mission_control.Domain.Ids.{MissionId, RouteId}
use agent_mission_control.Supervisor.Actor.{Host}
use agent_mission_control.Supervisor.Loadouts.{
  ProviderId, AgentCapabilityReport, is_installed, installed, is_available, frozen_for,
  freeze_fingerprint,
}
use agent_mission_control.Supervisor.Loadouts.Frozen.{frozen_for-put_frozen}
use agent_mission_control.Supervisor.Service.{
  MissionCommandRequest, MissionService, start, StartAgentRequest, Platform,
}
use agent_mission_control.Supervisor.Service.Action.{bound, call, provider_or_default, required}
use agent_mission_control.Supervisor.Service.Launch.{
  in_recovery, launch_checks, start_request, start_agent, enter_run, frozen, launch_in,
  launch_agent, events_of,
}

available_lem :
    (r : AgentCapabilityReport)
    → is_available r ≡ true
    → (r.install_state ≡ installed)
      × (r.unavailable_reason ≡ none)
      × (r.capability.structured_events ≡ true)
unfolding is_available is_installed
available_lem r h = ground arith

module _ {h : Host} (p : Platform h) where
  -- What holds of a start that is made: the mission needs no recovery, the adapter's report names no
  -- obstacle, and the agent starts to read only, under the fingerprint that is frozen for the mission.
  pub record Starts (m : MissionId) (provider : ProviderId) (s t : MissionService h)
      (request : StartAgentRequest) : Type 0 where
    pub no_recovery : in_recovery p (lookup (p.id_text m) s.missions) ≡ false
    pub report : AgentCapabilityReport
    pub probed : p.probe provider ≡ ok report
    pub is_there : report.install_state ≡ installed
    pub no_obstacle : report.unavailable_reason ≡ none
    pub tells_events : report.capability.structured_events ≡ true
    pub called : t.calls ≡ s.calls ++ start provider request ∷ []
    pub is_read_only : request.read_only ≡ true
    pub under_frozen : frozen_for m t.loadouts ≡ some request.loadout_fingerprint

  bound-kept :
      {B : Type 0} (o : MissionService h × Result (Unit {0}) String) (x : B)
      → (bound o (λ u t. (t, ok x))).0 ≡ o.0
  unfolding bound
  bound-kept (t, ok u) x = refl
  bound-kept (t, err e) x = refl

  -- A start is called whatever the adapter answers, and leaves the frozen fingerprints.
  start_agent_lem :
      (key : String) (provider : ProviderId) (request : StartAgentRequest) (s : MissionService h)
      → ((start_agent p key provider request s).0.calls ≡ s.calls ++ start provider request ∷ [])
        × ((start_agent p key provider request s).0.loadouts ≡ s.loadouts)
  unfolding start_agent bound call enter_run
  start_agent_lem key provider request s = (ground arith, ground arith)

  module _ (m : MissionId) (route : RouteId) (r : MissionCommandRequest h)
      (s : MissionService h) where
    abbrev wanted : ProviderId
    wanted = provider_or_default r.provider

    -- A launch that fails its checks leaves the service as it was.
    refused_launch :
        (root text : String)
        → launch_checks p wanted r (lookup (p.id_text m) s.missions) ≡ err text
        → launch_in p root m route r s ≡ (s, err text)
    unfolding launch_in bound
    refused_launch root text refused = rw (refused, bound) refl

    checks-ok :
        (report : AgentCapabilityReport) (text : String)
        → launch_checks p wanted r (lookup (p.id_text m) s.missions) ≡ ok (report, text)
        → (in_recovery p (lookup (p.id_text m) s.missions) ≡ false)
          × (p.probe wanted ≡ ok report)
          × (report.install_state ≡ installed)
          × (report.unavailable_reason ≡ none)
          × (report.capability.structured_events ≡ true)
    unfolding launch_checks
    checks-ok report text passed =
        let (is_there, no_obstacle, tells_events) = available_lem report (ground arith) in
        (ground arith, ground arith, is_there, no_obstacle, tells_events)

    -- The service behind the freeze of the fingerprint.
    abbrev froze : String → MissionService h
    froze text = record s { loadouts = (freeze_fingerprint s.loadouts m text).0 }

    abbrev request_of : String → String → StartAgentRequest
    request_of root text =
        start_request p root m route r text (events_of p (p.id_text m) (froze text))

    launch_in-froze :
        (root : String) (report : AgentCapabilityReport) (text : String)
        → launch_checks p wanted r (lookup (p.id_text m) s.missions) ≡ ok (report, text)
        → (freeze_fingerprint s.loadouts m text).1 ≡ ok tt
        → (launch_in p root m route r s).0
          ≡ (start_agent p (p.id_text m) wanted (request_of root text) (froze text)).0
    unfolding launch_in bound frozen
    launch_in-froze root report text passed valid =
        rw (passed, valid, bound)
          (bound-kept (start_agent p (p.id_text m) wanted (request_of root text) (froze text))
            report)

    froze-frozen_for :
        (text : String)
        → (freeze_fingerprint s.loadouts m text).1 ≡ ok tt
        → frozen_for m (froze text).loadouts ≡ some text
    unfolding freeze_fingerprint
    froze-frozen_for text valid = ground (arith, frozen_for-put_frozen m m text s.loadouts)

    launched_lem :
        (root : String) (report : AgentCapabilityReport) (text : String)
        → launch_checks p wanted r (lookup (p.id_text m) s.missions) ≡ ok (report, text)
        → ((launch_in p root m route r s).0.calls ≡ s.calls)
          ⊎ ((request : StartAgentRequest) × Starts m wanted s
                (launch_in p root m route r s).0
                request)
    unfolding launch_in bound frozen start_request
    launched_lem root report text passed =
        elim (Result-cases (freeze_fingerprint s.loadouts m text).1) [
          | inr (e, invalid) ↦ inl (rw (passed, invalid, bound) refl)
          | inl (u, valid) ↦
              let (calls, loadouts) =
                start_agent_lem (p.id_text m) wanted (request_of root text) (froze text) in
              let same : (launch_in p root m route r s).0
                  ≡ (start_agent p (p.id_text m) wanted (request_of root text) (froze text)).0 =
                launch_in-froze root report text passed valid in
              let (no_recovery, probed, is_there, no_obstacle, tells_events) =
                checks-ok report text passed in
              inr (
                request_of root text,
                record {
                  no_recovery = no_recovery;
                  report = report;
                  probed = probed;
                  is_there = is_there;
                  no_obstacle = no_obstacle;
                  tells_events = tells_events;
                  called = ap (λ (t : MissionService h). t.calls) same ∙ calls;
                  is_read_only = refl;
                  under_frozen =
                      ap (λ (t : MissionService h). frozen_for m t.loadouts) same
                      ∙ ap (frozen_for m) loadouts
                      ∙ froze-frozen_for text valid;
                },
              )
        ]

    abbrev Outcome : Type 0
    Outcome = MissionService h × Result AgentCapabilityReport String

    -- A launch by the project that its request names.
    abbrev launched_by : Option String → Outcome
    launched_by none = (s, err "PROJECT_ROOT_REQUIRED")
    launched_by (some root) = launch_in p root m route r s

    launched_by-bound :
        (o : Option String)
        → bound (s, required p "PROJECT_ROOT_REQUIRED" o) (λ root. launch_in p root m route r)
          ≡ launched_by o
    unfolding bound
    launched_by-bound none = refl
    launched_by-bound (some root) = refl

    by_root : (o : Option String) → r.project_root ≡ o → launch_agent p m route r s ≡ launched_by o
    unfolding launch_agent
    by_root o given =
        ap
          (λ root.
            bound (s, required p "PROJECT_ROOT_REQUIRED" root) (λ text. launch_in p text m route r))
          given
        ∙ launched_by-bound o

    -- Beside the probe of the adapter, a launch gives the adapters at most one order: to start an agent that
    -- only reads, under the fingerprint that is frozen for the mission. Where it does, the mission needs
    -- no recovery, and the adapter's report says that the agent is installed, tells its events in a
    -- structured form, and gives no reason why it would be unavailable.
    pub launch_agent-guarded :
        ((launch_agent p m route r s).0.calls ≡ s.calls)
        ⊎ ((request : StartAgentRequest) × Starts m wanted s (launch_agent p m route r s).0 request)
    launch_agent-guarded = elim (Option-cases r.project_root) [
      | inl missing ↦ inl (ap (λ (o : Outcome). o.0.calls) (by_root none missing))
      | inr (root, given) ↦
          elim (Result-cases (launch_checks p wanted r (lookup (p.id_text m) s.missions))) [
            | inr (e, refused) ↦ inl (
                ap (λ (o : Outcome). o.0.calls)
                  (by_root (some root) given ∙ refused_launch root e refused))
            | inl ((report, text), passed) ↦
                subst
                  (λ (o : Outcome).
                    (o.0.calls ≡ s.calls)
                    ⊎ ((request : StartAgentRequest) × Starts m wanted s o.0 request))
                  (sym (by_root (some root) given)) (launched_lem root report text passed)
          ]
    ]
