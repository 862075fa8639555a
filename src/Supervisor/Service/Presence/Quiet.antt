-- ===== src/Supervisor/Service/Presence/Quiet.antt =====
-- The watchdog asks for a pause once: while the desktop stays away, its further ticks do nothing.
use agent_mission_control.Prelude.{
  ◌≡◌, refl, sym, ap, ◌∙◌, Bool, false, Option, none, some, List, [], ◌∷◌, String, arith,
}
use mathlib.Core.Path.{subst}
use agent_mission_control.Domain.Event.{EventKind}
use agent_mission_control.Prelude.Dict.{Dict, lookup}
use agent_mission_control.Supervisor.Pause.{PauseState, request, request_from}
use agent_mission_control.Supervisor.Actor.{
  Host, MissionActor, is_running, continue, append, append_envelope, appended,
}
use agent_mission_control.Supervisor.Actor.Pausing.{
  set_ui_connected, when, request_safe_pause, paused_by, set_pause,
}
use agent_mission_control.Supervisor.Service.{MissionService, Platform}
use agent_mission_control.Supervisor.Service.Action.{on_disk, call}
use agent_mission_control.Supervisor.Service.Presence.{
  sweep, set_all, pause_run, pause_runs, pause_for_ui_disconnect,
}

module _ {h : Host} where
  -- An actor that nothing is left to do about: disconnected, and not running.
  abbrev pub IsAway : MissionActor h → Type 0
  IsAway a = (a.ui_connected ≡ false) × (is_running a.pause.state ≡ false)

  append-still :
      (kind : EventKind) (payload : h.json.Value) (a : MissionActor h)
      → ((append h kind payload a).0.pause ≡ a.pause)
        × ((append h kind payload a).0.ui_connected ≡ a.ui_connected)
  unfolding append append_envelope appended
  append-still kind payload a = (ground arith, ground arith)

  asked-IsAway :
      (a : MissionActor h) (state : PauseState)
      → a.pause.state ≡ state
      → a.ui_connected ≡ false
      → IsAway (when h (is_running a.pause.state) (request_safe_pause h "ui disconnected") a).0
  unfolding when is_running request_safe_pause paused_by set_pause request request_from continue
  asked-IsAway a PauseState.running e apart =
      let asked : PauseState = PauseState.pause_requested "ui disconnected" in
      ground (
        arith,
        append-still EventKind.pause_requested (h.pause_payload "ui disconnected" asked)
            (record a { pause = record a.pause { state = asked } }),
      )
  asked-IsAway a _ e apart = ground arith

  set_ui_connected-IsAway : (a : MissionActor h) → IsAway (set_ui_connected h false a).0
  unfolding set_ui_connected
  set_ui_connected-IsAway a =
      asked-IsAway (record a { ui_connected = false }) a.pause.state refl refl

  set_ui_connected-quiet : (a : MissionActor h) → IsAway a → (set_ui_connected h false a).0 ≡ a
  unfolding set_ui_connected when
  set_ui_connected-quiet a (apart, idle) =
      rw (idle, when) (ap (λ (c : Bool). record a { ui_connected = c }) (sym apart))

  abbrev pub AreAway : Dict (MissionActor h) → Type 0
  AreAway [] = Unit {0}
  AreAway ((key, a) ∷ rest) = IsAway a × AreAway rest

  sweep-AreAway :
      (d : Dict (MissionActor h)) (disk : h.Ledger) → AreAway (sweep false d disk).missions
  unfolding sweep
  sweep-AreAway [] disk = tt
  sweep-AreAway ((key, a) ∷ rest) disk =
      (set_ui_connected-IsAway (on_disk disk a), sweep-AreAway rest _)

  -- A sweep over actors that are away leaves the database, and finds no one who was connected.
  sweep-quiet :
      (d : Dict (MissionActor h)) (disk : h.Ledger)
      → AreAway d
      → ((sweep false d disk).disk ≡ disk) × ((sweep false d disk).keys ≡ [])
  unfolding sweep
  sweep-quiet [] disk v = (refl, refl)
  sweep-quiet ((key, a) ∷ rest) disk (away, v) =
      let same : (set_ui_connected h false (on_disk disk a)).0 ≡ on_disk disk a =
        set_ui_connected-quiet (on_disk disk a) away in
      let (kept, none_left) = sweep-quiet rest disk v in rw (same, away.0) (kept, none_left)

module _ {h : Host} (p : Platform h) where
  pause_run-keeps :
      (key : String) (run : Option String) (s : MissionService h)
      → ((pause_run p key run s).missions ≡ s.missions) × ((pause_run p key run s).disk ≡ s.disk)
  unfolding pause_run call
  pause_run-keeps key none s = (refl, refl)
  pause_run-keeps key (some run_id) s = (ground arith, ground arith)

  pause_runs-keeps :
      (keys : List String) (s : MissionService h)
      → ((pause_runs p keys s).missions ≡ s.missions) × ((pause_runs p keys s).disk ≡ s.disk)
  unfolding pause_runs
  pause_runs-keeps [] s = (refl, refl)
  pause_runs-keeps (key ∷ rest) s =
      let next = pause_run p key (lookup key s.runs) s in
      let (missions, disk) = pause_runs-keeps rest (pause_run p key (lookup key s.runs) s) in
      let (missions', disk') = pause_run-keeps key (lookup key s.runs) s in
      (missions ∙ missions', disk ∙ disk')

  tick-AreAway : (s : MissionService h) → AreAway (pause_for_ui_disconnect p s).missions
  unfolding pause_for_ui_disconnect set_all
  tick-AreAway s =
      subst AreAway
        (sym (pause_runs-keeps (sweep false s.missions s.disk).keys (set_all false s)).0)
        (sweep-AreAway s.missions s.disk)

  away_tick :
      (s : MissionService h)
      → AreAway s.missions
      → ((pause_for_ui_disconnect p s).disk ≡ s.disk)
        × ((pause_for_ui_disconnect p s).calls ≡ s.calls)
  unfolding pause_for_ui_disconnect set_all pause_runs
  away_tick s v =
      let (disk, keys) = sweep-quiet s.missions s.disk v in rw (keys, pause_runs) (disk, refl)

  -- While the desktop stays away, a second tick of the watchdog writes no event and calls no adapter, and
  -- behind the first tick no mission is running or connected.
  pub disconnect_once :
      (s : MissionService h)
      → let away = pause_for_ui_disconnect p s in
        AreAway away.missions
        × ((pause_for_ui_disconnect p away).disk ≡ away.disk)
        × ((pause_for_ui_disconnect p away).calls ≡ away.calls)
  disconnect_once s =
      let (disk, calls) = away_tick (pause_for_ui_disconnect p s) (tick-AreAway s) in
      (tick-AreAway s, disk, calls)
