-- ===== src/Supervisor/Actor/History.antt =====
-- Calls of the methods of an actor one after the other, and the actor that its ledger gives back then.
use agent_mission_control.Prelude.{
  ℕ, ◌≡◌, refl, sym, inl, inr, Bool, false, not, ◌&&◌, Bool-cases, Result-cases, Option, none, some,
  List, [], ◌∷◌, String, Result, ok, err, All, arith,
}
use mathlib.Core.Path.{subst}
use agent_mission_control.Domain.Ids.{MissionId, RouteId}
use agent_mission_control.Domain.Event.{EventKind, EventEnvelope}
use agent_mission_control.Policy.Action.{ActionIntent}
use agent_mission_control.Policy.Engine.{PolicyContext}
use agent_mission_control.Policy.Approval.{ApprovalRequest, ApprovalSubject}
use agent_mission_control.Policy.Budget.{BudgetSignal}
use agent_mission_control.Policy.Envelope.{
  FlightEnvelope, FlightIdentity, check_before_model_request,
}
use agent_mission_control.Supervisor.Pause.{from_events}
use agent_mission_control.Prelude.Dict.{insert}
use agent_mission_control.Supervisor.Actor.{
  Host, ApprovalMap, is_approval_kind, is_running, seen, MissionActor, record_event, largest,
  recovery_required, read_into, file, replay_loop, replay_approvals, try_new,
}
use agent_mission_control.Supervisor.Actor.Pausing.{
  request_safe_pause, acknowledge_pause, pause_timeout, request_force_termination, force_terminate,
  set_ui_connected, apply_budget_signals, check_flight_identity, resolve_recovery,
}
use agent_mission_control.Supervisor.Actor.Decisions.{Actor, ResolveApproval}
use agent_mission_control.Supervisor.Actor.AgentEvents.{AgentEvent, record_agent_event}
use agent_mission_control.Supervisor.Actor.Approvals.{
  gate_action, resolve_approval, authorize_approved_action, check_loadout_change,
}
use agent_mission_control.Supervisor.Actor.Rehydration.{IsFaithful, IsKeyed, insert-IsKeyed}
use agent_mission_control.Supervisor.Actor.Appended.{Agrees, append-Keeps}
use agent_mission_control.Supervisor.Actor.Recorded.{
  request_safe_pause-Keeps, acknowledge_pause-Keeps, pause_timeout-Keeps,
  request_force_termination-Keeps, force_terminate-Keeps, set_ui_connected-Keeps,
  apply_budget_signals-Keeps, flight_checked-Keeps, resolve_recovery-Keeps,
}
use agent_mission_control.Supervisor.Actor.Filed.{
  IsReadable, gate_action-Keeps, resolve_approval-Keeps, authorize_approved_action-Keeps,
  check_loadout_change-Keeps, record_agent_event-Agrees,
}

-- A call of a method of the actor.
pub data Call (h : Host) : Type 0 where
  gates : PolicyContext → ActionIntent → Option ApprovalRequest → Call h
  resolves : Actor → ResolveApproval → Call h
  authorizes : String → ApprovalSubject → ℕ → Call h
  signals : List BudgetSignal → Call h
  flies : FlightEnvelope → FlightIdentity → Call h
  reloads : String → String → Call h
  takes_in : AgentEvent h → Call h
  records : EventKind → h.json.Value → Call h
  recovers : String → h.json.Value → Call h
  pauses : String → Call h
  connects : Bool → Call h
  terminates : String → Call h
  acknowledges times_out asks_force : Call h

module _ (h : Host) where
  -- The actor behind a call, whatever the call returns.
  abbrev pub perform : Call h → MissionActor h → MissionActor h
  perform (gates context intent request) a = (gate_action h context intent request a).0
  perform (resolves actor c) a = (resolve_approval h actor c a).0
  perform (authorizes id subject now_ms) a = (authorize_approved_action h id subject now_ms a).0
  perform (signals list) a = (apply_budget_signals h list a).0
  perform (flies envelope current) a = (check_flight_identity h envelope current a).0
  perform (reloads previous next) a = (check_loadout_change h previous next a).0
  perform (takes_in e) a = (record_agent_event h e a).0
  perform (records kind payload) a = (record_event h kind payload a).0
  perform (recovers decision manifest) a = (resolve_recovery h decision manifest a).0
  perform (pauses reason) a = (request_safe_pause h reason a).0
  perform (connects connected) a = (set_ui_connected h connected a).0
  perform (terminates token) a = (force_terminate h token a).0
  perform acknowledges a = (acknowledge_pause h a).0
  perform times_out a = (pause_timeout h a).0
  perform asks_force a = (request_force_termination h a).0

  abbrev pub run : List (Call h) → MissionActor h → MissionActor h
  run [] a = a
  run (c ∷ cs) a = run cs (perform c a)

  -- The actor that the ledger of `a` gives back stands where `a` stands.
  pub record Rehydrates (a : MissionActor h) : Type 0 where
    pub rebuilt : MissionActor h
    pub is_rebuilt : try_new h a.mission_id a.route_id a.ledger ≡ ok rebuilt
    pub same_sequence : rebuilt.sequence ≡ a.sequence
    pub same_recovery : rebuilt.requires_recovery ≡ a.requires_recovery
    pub same_approvals : rebuilt.approvals ≡ a.approvals

  read_into-IsKeyed :
      (o : Option (Result ApprovalRequest String)) (e : EventEnvelope h.json) (m n : ApprovalMap)
      → IsKeyed m
      → read_into h o e m ≡ ok n
      → IsKeyed n
  unfolding read_into
  read_into-IsKeyed none e m n v eq = absurd (ground arith)
  read_into-IsKeyed (some (err text)) e m n v eq = absurd (ground arith)
  read_into-IsKeyed (some (ok r)) e m n v eq =
      let same : insert r.id r m ≡ n = ground arith in rw⁻¹ same (insert-IsKeyed r m v)

  file-IsKeyed :
      (e : EventEnvelope h.json) (m n : ApprovalMap) → IsKeyed m → file h m e ≡ ok n → IsKeyed n
  unfolding file
  file-IsKeyed e m n v eq = elim (Bool-cases (is_approval_kind e.kind)) [
    | inl approval ↦ read_into-IsKeyed (h.read_approval e.payload) e m n v (rw approval at eq)
    | inr quiet ↦ let same : m ≡ n = ground arith in rw⁻¹ same v
  ]

  replay_loop-IsKeyed :
      (es : List (EventEnvelope h.json)) (m n : ApprovalMap)
      → IsKeyed m
      → replay_loop h m es ≡ ok n
      → IsKeyed n
  unfolding replay_loop
  replay_loop-IsKeyed [] m n v eq = let same : m ≡ n = ground arith in rw⁻¹ same v
  replay_loop-IsKeyed (e ∷ es) m n v eq = elim (Result-cases (file h m e)) [
    | inl (k, filed) ↦ replay_loop-IsKeyed es k n (file-IsKeyed e m k v filed) (rw filed at eq)
    | inr (text, failed) ↦ absurd (ground arith)
  ]

  -- The actor that `try_new` makes of the approvals it has read.
  abbrev pub started : MissionId → RouteId → h.Ledger → ApprovalMap → MissionActor h
  started m route l approvals =
      let replayed = h.replay_after l m 0 in
      let pause = from_events (seen h replayed) in
      let requires_recovery = recovery_required h replayed in
      record {
        mission_id = m;
        route_id = route;
        ledger = l;
        sequence = largest h replayed;
        pause = pause;
        process_tree = h.new_tree;
        ui_connected = is_running pause.state && not requires_recovery;
        requires_recovery = requires_recovery;
        approvals = approvals;
      }

  pub try_new-ok :
      (m : MissionId) (route : RouteId) (l : h.Ledger) (n : ApprovalMap)
      → replay_approvals h (h.replay_after l m 0) ≡ ok n
      → try_new h m route l ≡ ok (started m route l n)
  unfolding try_new
  try_new-ok m route l n filed = rw (filed, try_new) refl

  pub try_new-err :
      (m : MissionId) (route : RouteId) (l : h.Ledger) (text : String)
      → replay_approvals h (h.replay_after l m 0) ≡ err text
      → try_new h m route l ≡ err text
  unfolding try_new
  try_new-err m route l text failed = rw (failed, try_new) refl

  module _ (m : MissionId) (route : RouteId) (faithful : IsFaithful h m) where
    -- A call whose event the replay can read: no approval event is recorded without an approval in it.
    abbrev pub IsFiled : Call h → Type 0
    IsFiled (takes_in e) = IsReadable h m route faithful e
    IsFiled (records kind payload) = is_approval_kind kind ≡ false
    IsFiled _ = Unit {0}

    perform-Agrees :
        (c : Call h) (a : MissionActor h)
        → IsFiled c
        → Agrees h m route faithful a
        → Agrees h m route faithful (perform c a)
    unfolding check_flight_identity record_event
    perform-Agrees (gates context intent request) a u v =
        (gate_action-Keeps h m route faithful context intent request).run a v
    perform-Agrees (resolves actor c) a u v =
        (resolve_approval-Keeps h m route faithful actor c).run a v
    perform-Agrees (authorizes id subject now_ms) a u v =
        (authorize_approved_action-Keeps h m route faithful id subject now_ms).run a v
    perform-Agrees (signals list) a u v =
        (apply_budget_signals-Keeps h m route faithful list).run a v
    perform-Agrees (flies envelope current) a u v =
        (flight_checked-Keeps h m route faithful current
            (check_before_model_request envelope current)).run
          a v
    perform-Agrees (reloads previous next) a u v =
        (check_loadout_change-Keeps h m route faithful previous next).run a v
    perform-Agrees (takes_in e) a u v = record_agent_event-Agrees h m route faithful e a u v
    perform-Agrees (records kind payload) a u v =
        (append-Keeps h m route faithful kind payload u).run a v
    perform-Agrees (recovers decision manifest) a u v =
        (resolve_recovery-Keeps h m route faithful decision manifest).run a v
    perform-Agrees (pauses reason) a u v =
        (request_safe_pause-Keeps h m route faithful reason).run a v
    perform-Agrees (connects connected) a u v =
        (set_ui_connected-Keeps h m route faithful connected).run a v
    perform-Agrees (terminates token) a u v =
        (force_terminate-Keeps h m route faithful token).run a v
    perform-Agrees acknowledges a u v = (acknowledge_pause-Keeps h m route faithful).run a v
    perform-Agrees times_out a u v = (pause_timeout-Keeps h m route faithful).run a v
    perform-Agrees asks_force a u v = (request_force_termination-Keeps h m route faithful).run a v

    run-Agrees :
        (cs : List (Call h)) (a : MissionActor h)
        → All IsFiled cs
        → Agrees h m route faithful a
        → Agrees h m route faithful (run cs a)
    run-Agrees [] a u v = v
    run-Agrees (c ∷ cs) a u v = run-Agrees cs (perform c a) u.1 (perform-Agrees c a u.0 v)

    pub try_new-Agrees :
        (l : h.Ledger) (a : MissionActor h)
        → try_new h m route l ≡ ok a
        → Agrees h m route faithful a
    unfolding replay_approvals
    try_new-Agrees l a eq = elim (Result-cases (replay_approvals h (h.replay_after l m 0))) [
      | inl (n, filed) ↦
          let same : started m route l n ≡ a =
            (let built = try_new-ok m route l n filed in ground arith) in
          subst (Agrees h m route faithful) same (record {
            mission = refl;
            on_route = refl;
            number = λ sound. refl;
            recovery = λ sound. refl;
            filed = λ sound. filed;
            keyed = replay_loop-IsKeyed (h.replay_after l m 0) [] n tt filed;
          })
      | inr (text, failed) ↦
          let refused = try_new-err m route l text failed in absurd (ground arith)
    ]

    Agrees-Rehydrates :
        (a : MissionActor h)
        → Agrees h m route faithful a
        → faithful.IsSound a.ledger
        → Rehydrates a
    Agrees-Rehydrates a v sound = record {
      rebuilt = started m route a.ledger a.approvals;
      is_rebuilt =
          rw (v.mission, v.on_route) (try_new-ok m route a.ledger a.approvals (v.filed sound));
      same_sequence = sym (v.number sound);
      same_recovery = sym (v.recovery sound);
      same_approvals = refl;
    }

    -- After any calls on an actor that was made of a faithful ledger, successful or not, in which no
    -- approval event is recorded without an approval, a ledger that is still sound gives an actor with
    -- the same sequence number, recovery flag and approvals.
    pub run-Rehydrates :
        (l : h.Ledger) (a : MissionActor h) (cs : List (Call h))
        → try_new h m route l ≡ ok a
        → All IsFiled cs
        → faithful.IsSound (run cs a).ledger
        → Rehydrates (run cs a)
    run-Rehydrates l a cs start filed =
        Agrees-Rehydrates (run cs a) (run-Agrees cs a filed (try_new-Agrees l a start))
