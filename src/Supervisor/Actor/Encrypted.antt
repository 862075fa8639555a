-- ===== src/Supervisor/Actor/Encrypted.antt =====
-- crates/supervisor/src/mission_actor.rs: the encrypted ledger as the ledger of an actor.
use agent_mission_control.Prelude.{
  ℕ, ltb, ◌≡◌, refl, ap, false, List, [], ◌∷◌, String, Result, ok, err, if◌then◌else◌,
}
use agent_mission_control.Domain.Ids.{MissionId, RouteId}
use agent_mission_control.Domain.Event.{EventEnvelope}
use agent_mission_control.Ledger.Events.{
  LedgerError, Row, Faults, Codec, map_err, append, replay_events,
}
use agent_mission_control.Supervisor.Actor.{
  Host, MissionActor, seen, largest, recovery_loop, recovery_required, replay_loop,
  replay_approvals, try_new,
}
use agent_mission_control.Supervisor.Actor.History.{started, try_new-ok}
use agent_mission_control.Supervisor.Pause.{running, see_each, default_controller, from_events}

-- `unwrap_or_default` of a list.
abbrev pub unwrap_or_default {ℓ κ} : {A : Type ℓ} {E : Type κ} → Result (List A) E → List A
unwrap_or_default (ok list) = list
unwrap_or_default (err e) = []

module _ (h : Host) where
  -- The filter of `replay_after`.
  unfoldable pub after : ℕ → List (EventEnvelope h.json) → List (EventEnvelope h.json)
  after sequence [] = []
  after sequence (e ∷ es) =
      let rest = after sequence es in if ltb sequence e.sequence then e ∷ rest else rest

module _ (h : Host) (codec : Codec h.json) (show_error : LedgerError → String) where
  -- The ledger that the actor is given: the rows, and the faults of the database under the next call.
  unfoldable pub append_event :
      Faults × List Row → EventEnvelope h.json → (Faults × List Row) × Result (Unit {0}) String
  append_event (faults, rows) e =
      let (new_rows, outcome) = append h.json codec faults rows e in
      ((faults, new_rows), map_err outcome show_error)

  unfoldable pub replay_after : Faults × List Row → MissionId → ℕ → List (EventEnvelope h.json)
  unfolding after
  replay_after (faults, rows) m sequence =
      after h sequence (unwrap_or_default (replay_events h.json codec rows m))

  abbrev pub encrypted : Host
  encrypted = record h {
    Ledger = Faults × List Row;
    append_event = append_event;
    replay_after = replay_after;
  }

  replay_after-unreadable :
      (faults : Faults) (rows : List Row) (m : MissionId) (e : LedgerError)
      → replay_events h.json codec rows m ≡ err e
      → replay_after (faults, rows) m 0 ≡ []
  unfolding replay_after
  replay_after-unreadable faults rows m e unreadable = rw unreadable refl

  -- Where the replay of a mission fails, for instance because a row has been tampered with, the actor of
  -- that mission is made without an error, and it is the actor of a new mission: at number 0, running, with
  -- no approvals, and with no recovery asked for.
  pub unreadable_ledger_lem :
      (faults : Faults) (rows : List Row) (m : MissionId) (route : RouteId) (e : LedgerError)
      → replay_events h.json codec rows m ≡ err e
      → (a : MissionActor encrypted) × (try_new encrypted m route (faults, rows) ≡ ok a)
        × (a.ledger ≡ (faults, rows))
        × (a.sequence ≡ 0)
        × (a.pause.state ≡ running)
        × (a.requires_recovery ≡ false)
        × (a.approvals ≡ [])
  unfolding replay_approvals replay_loop recovery_required recovery_loop largest from_events
      see_each default_controller
  unreadable_ledger_lem faults rows m route e unreadable =
      let lost = replay_after-unreadable faults rows m e unreadable in
      (
        started encrypted m route (faults, rows) [],
        try_new-ok encrypted m route (faults, rows) [] (ap (replay_approvals encrypted) lost),
        refl,
        ap (largest encrypted) lost,
        ap (λ es. (from_events (seen encrypted es)).state) lost,
        ap (recovery_required encrypted) lost,
        refl,
      )
