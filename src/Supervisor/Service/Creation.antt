-- ===== src/Supervisor/Service/Creation.antt =====
-- What `create_mission` does to the service on every branch.
use Prim.Native.String.{◌++◌ as cat}
use agent_mission_control.Prelude.{
  ◌≡◌, refl, sym, ap, ◌∙◌, inl, inr, ◌⊎◌, true, false, not, ◌&&◌, Result-cases, none, some, List,
  [], ◌∷◌, String, ok, err, arith,
}
use agent_mission_control.Prelude.Dict.{lookup, insert, lookup-insert-same}
use agent_mission_control.Domain.Ids.{MissionId, RouteId}
use agent_mission_control.Policy.Budget.{BudgetTracker, pause}
use agent_mission_control.Policy.Budget
use agent_mission_control.Domain.Event.{Json, EventEnvelope, new, as_str}
use agent_mission_control.Supervisor.Actor.{
  Host, MissionActor, try_new, seen, largest, recovery_after, recovery_loop, recovery_required,
  file, is_approval_kind, replay_loop, replay_approvals, is_running,
}
use agent_mission_control.Supervisor.Actor.History.{started, try_new-ok}
use agent_mission_control.Supervisor.Pause.{running, see, see_each, default_controller, from_events}
use agent_mission_control.Supervisor.Budgets.{no_budget_request, unwrap_or, limits}
use agent_mission_control.Supervisor.Service.{
  MissionCommandRequest, MissionCommandResult, MissionService, Platform,
}
use agent_mission_control.Supervisor.Service.Action.{bound, result}
use agent_mission_control.Supervisor.Service.Missions.{
  has_mission, creation_events, creatable, enter, create_as,
}

-- Two lists of events with the same numbers and kinds.
abbrev pub SameHeads : (j : Json) → List (EventEnvelope j) → List (EventEnvelope j) → Type 0
SameHeads j [] [] = Unit {0}
SameHeads j [] (e ∷ es) = ⊥
SameHeads j (f ∷ fs) [] = ⊥
SameHeads j (f ∷ fs) (e ∷ es) = (f.sequence ≡ e.sequence) × (f.kind ≡ e.kind) × SameHeads j fs es

module _ {h : Host} (p : Platform h) (r : MissionCommandRequest h) (m : MissionId)
    (route : RouteId) where
  abbrev pub asked : Budget.BudgetLimits
  asked = limits (unwrap_or r.budget no_budget_request)

  -- The service with the events written, and with the actor and the tracker that go into its maps.
  abbrev pub wrote : MissionService h → MissionService h
  wrote s = record s { disk = (p.append_batch s.disk (creation_events p r m route asked)).0 }

  abbrev pub entered : MissionService h → MissionActor h → MissionService h
  entered s a = enter p (p.id_text m) (Budget.new 1 asked pause) a (wrote s)

  -- What a mission that is created was before: absent from memory and from the ledger.
  pub record IsNew (s : MissionService h) : Type 0 where
    pub unknown : lookup (p.id_text m) s.missions ≡ none
    pub ids : List MissionId
    pub listed : p.mission_ids s.disk ≡ ok ids
    pub unlisted : has_mission m ids ≡ false

  -- The rest of a creation that is allowed.
  abbrev pub Rest : MissionService h → Type 0
  Rest s =
      ((text : String) × ((p.append_batch s.disk (creation_events p r m route asked)).1 ≡ err text)
        × (create_as p r m route s ≡ (wrote s, err (cat "MISSION_CREATE_FAILED:" text))))
      ⊎ (((p.append_batch s.disk (creation_events p r m route asked)).1 ≡ ok tt)
          × (((text : String) × (try_new h m route (wrote s).disk ≡ err text)
                × (create_as p r m route s
                    ≡ (wrote s, err (cat "mission actor recovery failed: " text))))
              ⊎ ((a : MissionActor h) × (try_new h m route (wrote s).disk ≡ ok a)
                  × (create_as p r m route s ≡ result p (p.id_text m) (entered s a)))))

  pub refused_creation :
      (s : MissionService h) (text : String)
      → creatable p m s ≡ err text
      → create_as p r m route s ≡ (s, err text)
  unfolding create_as bound
  refused_creation s text refused = rw (refused, bound) refl

  pub allowed_creation : (s : MissionService h) → creatable p m s ≡ ok tt → Rest s
  unfolding create_as bound
  allowed_creation s allowed =
      elim (Result-cases (p.append_batch s.disk (creation_events p r m route asked)).1) [
        | inr (text, unwritten) ↦ inl (text, unwritten, rw (allowed, unwritten, bound) refl)
        | inl (u, written) ↦ elim (Result-cases (try_new h m route (wrote s).disk)) [
          | inr (text, broken) ↦
              inr (written, inl (text, broken, rw (allowed, written, broken, bound) refl))
          | inl (a, made) ↦ inr (written, inr (a, made, rw (allowed, written, made, bound) refl))
        ]
      ]

  pub allowed-IsNew : (s : MissionService h) → creatable p m s ≡ ok tt → IsNew s
  unfolding creatable
  allowed-IsNew s allowed = elim (Result-cases (p.mission_ids s.disk)) [
    | inl (ids, listed) ↦ record {
      unknown = ground arith;
      ids = ids;
      listed = listed;
      unlisted = ground arith;
    }
    | inr (text, unlisted) ↦ absurd (ground arith)
  ]

  -- A creation succeeds only for a mission that neither the memory nor the ledger has, and only if its
  -- three events are written; it then stores the actor that the ledger gives and the tracker of the budget
  -- that was asked for under the mission's key, and changes nothing else.
  pub create_as-ok :
      (s t : MissionService h) (answer : MissionCommandResult h)
      → create_as p r m route s ≡ (t, ok answer)
      → IsNew s
        × ((p.append_batch s.disk (creation_events p r m route asked)).1 ≡ ok tt)
        × ((a : MissionActor h) × (try_new h m route t.disk ≡ ok a)
            × (t ≡ record s {
              disk = (p.append_batch s.disk (creation_events p r m route asked)).0;
              missions = insert (p.id_text m) a s.missions;
              budgets = insert (p.id_text m) (Budget.new 1 asked pause) s.budgets;
            })
            × (lookup (p.id_text m) t.missions ≡ some a)
            × (lookup (p.id_text m) t.budgets ≡ some (Budget.new 1 asked pause)))
  unfolding result enter
  create_as-ok s t answer done = elim (Result-cases (creatable p m s)) [
    | inr (text, refused) ↦ absurd (ground (arith, refused_creation s text refused))
    | inl (u, allowed) ↦ elim (allowed_creation s allowed) [
      | inl (text, unwritten, fails) ↦ absurd (ground arith)
      | inr (written, inl (text, broken, fails)) ↦ absurd (ground arith)
      | inr (written, inr (a, made, gives)) ↦
          let left : entered s a ≡ t = ground arith in
          (
            allowed-IsNew s allowed,
            written,
            (
              a,
              ap (λ (u : MissionService h). try_new h m route u.disk) (sym left) ∙ made,
              sym left,
              ap (λ (u : MissionService h). lookup (p.id_text m) u.missions) (sym left)
                  ∙ lookup-insert-same (p.id_text m) a s.missions,
              ap (λ (u : MissionService h). lookup (p.id_text m) u.budgets) (sym left)
                  ∙ lookup-insert-same (p.id_text m) (Budget.new 1 asked pause) s.budgets,
            ),
          )
    ]
  ]

  -- Where the ledger replays three events with the numbers and the kinds of a creation, whatever it makes
  -- of their payloads, the actor of the mission is made without an error, so the creation does not panic:
  -- at number 3, running, with the desktop connected, with no approvals, and with no recovery asked for.
  pub created_actor_lem :
      (disk : h.Ledger) (fs : List (EventEnvelope h.json))
      → h.replay_after disk m 0 ≡ fs
      → SameHeads h.json fs (creation_events p r m route asked)
      → (a : MissionActor h) × (try_new h m route disk ≡ ok a)
        × (a.sequence ≡ 3)
        × (a.pause.state ≡ running)
        × (a.ui_connected ≡ true)
        × (a.approvals ≡ [])
        × (a.requires_recovery ≡ false)
  unfolding creation_events new replay_approvals replay_loop file is_approval_kind recovery_required
      recovery_loop recovery_after largest from_events see_each see default_controller is_running
      as_str
  created_actor_lem disk [] replays heads = absurd heads
  created_actor_lem disk (f ∷ []) replays heads = absurd heads.2
  created_actor_lem disk (f ∷ g ∷ []) replays heads = absurd heads.2.2
  created_actor_lem disk (f ∷ g ∷ l ∷ x ∷ fs) replays heads = absurd (heads.2.2.2)
  created_actor_lem disk (f ∷ g ∷ l ∷ []) replays (n1, k1, (n2, k2, (n3, k3, end))) = (
    started h m route disk [],
    try_new-ok h m route disk [] (ap (replay_approvals h) replays ∙ rw (k1, k2, k3) refl),
    ap (largest h) replays ∙ rw (n1, n2, n3) refl,
    ap (λ es. (from_events (seen h es)).state) replays ∙ rw (k1, k2, k3) refl,
    ap (λ es. is_running (from_events (seen h es)).state && not (recovery_required h es)) replays
        ∙ rw (k1, k2, k3) refl,
    refl,
    ap (recovery_required h) replays ∙ rw (k1, k2, k3) refl,
  )
