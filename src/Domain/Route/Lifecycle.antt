-- ===== src/Domain/Route/Lifecycle.antt =====
-- What holds of a route between two operations, and what a history can reach.
use agent_mission_control.Prelude.{
  true, false, ◌≡◌, ◌≢◌, ◌⊎◌, ◌↔◌, refl, ok, err, Option, none, some, List, [], ◌∷◌, arith, is_ok,
  Result, is_empty,
}
use agent_mission_control.Prelude.Text.{is_blank, str_eq_iff}
use agent_mission_control.Prelude.Word.{increment, increment-ne}
use agent_mission_control.Domain.Ids.{now, RouteId}
use agent_mission_control.Domain.Evidence.{Approval, EvidenceMatrix, is_acceptance, is_complete}
use agent_mission_control.Domain.Route.{
  RouteState, draft, read_only_exploration, awaiting_plan_approval, executing, completed, paused,
  abandoned, Route, RouteTransitioned, RouteAbandoned, RouteAbandonment, InvalidTransition,
  InvalidAbandonment, new, transition, complete_with_evidence, abandon, apply_transition,
  apply_abandonment, is_terminal, derived,
}

-- What a caller asks of a route: the event is proposed and, if there is one, applied.
pub data Request : Type 0 where
  moves : RouteState → Request
  completes : Approval → EvidenceMatrix → Request
  abandons : RouteAbandonment → Request

-- A refused event leaves the route as it was.
abbrev applied : Route → Result RouteTransitioned InvalidTransition → Route
applied r (err e) = r
applied r (ok event) = after (apply_transition r event)
  where
    after : Result Route InvalidTransition → Route
    after (ok s) = s
    after (err e) = r

abbrev abandoned_by : Route → Result RouteAbandoned InvalidAbandonment → Route
abandoned_by r (err e) = r
abandoned_by r (ok event) = after (apply_abandonment r event)
  where
    after : Result Route InvalidAbandonment → Route
    after (ok s) = s
    after (err e) = r

unfoldable pub perform : Route → Request → Route
perform r (moves target) = applied r (transition r target)
perform r (completes approval matrix) = applied r (complete_with_evidence r approval matrix)
perform r (abandons metadata) = abandoned_by r (abandon r metadata)

unfoldable pub run : Route → List Request → Route
run r [] = r
run r (q ∷ qs) = run (perform r q) qs

abbrev pub IsAccepted : Option Approval → EvidenceMatrix → Type 0
IsAccepted none matrix = ⊥
IsAccepted (some a) matrix =
    (a.decision ≡ "accept")
    × (is_blank a.actor ≡ false)
    × (is_empty a.evidence_event_ids ≡ false)
    × (is_complete matrix ≡ true)

abbrev pub IsRecorded : Option RouteAbandonment → Type 0
IsRecorded none = ⊥
IsRecorded (some m) =
    (is_blank m.last_checkpoint_id ≡ false)
    × (is_blank m.reason ≡ false)
    × (is_empty m.failure_evidence_ids ≡ false)

pub record IsJustified (r : Route) : Type 0 where
  pub accepted : r.state ≡ completed → IsAccepted r.final_approval r.evidence_matrix
  pub recorded : r.state ≡ abandoned → IsRecorded r.abandonment

perform-IsJustified : (r : Route) (q : Request) → IsJustified r → IsJustified (perform r q)
unfolding perform transition apply_transition complete_with_evidence abandon apply_abandonment
    is_acceptance
perform-IsJustified r (moves t) v = ground arith
perform-IsJustified r (completes a m) v = ground (arith, str_eq_iff a.decision "accept")
perform-IsJustified r (abandons m) v = ground arith

new-IsJustified : (id : RouteId) → IsJustified (new id)
unfolding new
new-IsJustified id = ground arith

run-IsJustified : (r : Route) (qs : List Request) → IsJustified r → IsJustified (run r qs)
unfolding run
run-IsJustified r [] v = v
run-IsJustified r (q ∷ qs) v = run-IsJustified (perform r q) qs (perform-IsJustified r q v)

-- Whatever is asked of a new route: once it is completed it holds an approval whose decision
-- is "accept" and which names an actor and some evidence, and a complete evidence matrix, and once it is abandoned it holds a checkpoint, a reason and failure evidence.
pub run-new-IsJustified : (id : RouteId) (qs : List Request) → IsJustified (run (new id) qs)
run-new-IsJustified id qs = run-IsJustified (new id) qs (new-IsJustified id)

perform_terminal : (r : Route) (q : Request) → is_terminal r.state ≡ true → perform r q ≡ r
unfolding perform transition complete_with_evidence abandon
perform_terminal r (moves t) h = ground arith
perform_terminal r (completes a m) h = ground arith
perform_terminal r (abandons m) h = ground arith

-- A completed or abandoned route is never changed again by what is asked of it.
terminal_absorbs : (r : Route) (qs : List Request) → is_terminal r.state ≡ true → run r qs ≡ r
unfolding run
terminal_absorbs r [] h = refl
terminal_absorbs r (q ∷ qs) h = rw (perform_terminal r q h) (terminal_absorbs r qs h)

-- An event that a route proposes for a move is accepted by that route: it takes the new state and
-- the next version, and keeps its evidence, its approval and what it was derived from.
transition-apply :
    (r : Route) (t : RouteState) (e : RouteTransitioned)
    → transition r t ≡ ok e
    → apply_transition r e
      ≡ ok (record r { state = t; version = increment r.version; updated_at = now })
unfolding transition apply_transition
transition-apply r t e h = ground arith

-- So is an event that completes the route: it stores the approval and the matrix it was given.
complete_with_evidence-apply :
    (r : Route) (a : Approval) (m : EvidenceMatrix) (e : RouteTransitioned)
    → complete_with_evidence r a m ≡ ok e
    → apply_transition r e
      ≡ ok (record r {
        state = completed;
        version = increment r.version;
        updated_at = now;
        final_approval = some a;
        evidence_matrix = m;
      })
unfolding complete_with_evidence apply_transition
complete_with_evidence-apply r a m e h = ground arith

-- And so is an abandonment: it stores the metadata.
pub abandon-apply :
    (r : Route) (m : RouteAbandonment) (e : RouteAbandoned)
    → abandon r m ≡ ok e
    → apply_abandonment r e
      ≡ ok (record r {
        state = abandoned;
        abandonment = some m;
        version = increment r.version;
        updated_at = now;
      })
unfolding abandon apply_abandonment
abandon-apply r m e h = ground arith

-- No event is applied twice: the version has moved on, also where it wraps.
apply_transition_once :
    (r s : Route) (e : RouteTransitioned)
    → apply_transition r e ≡ ok s
    → apply_transition s e ≡ err (record { from = s.state; to = e.to })
unfolding apply_transition
apply_transition_once r s e h = ground (arith, increment-ne r.version)

-- A route that has not had its plan approved reaches execution by a pause and a resumption: the
-- pause forgets the stage that it interrupts.
pub pause_skips_approval :
    (r : Route)
    → (r.state ≡ draft) ⊎ (r.state ≡ read_only_exploration) ⊎ (r.state ≡ awaiting_plan_approval)
    → (run r (moves paused ∷ moves executing ∷ [])).state ≡ executing
unfolding run perform transition apply_transition
pause_skips_approval r h = ground arith

-- `apply_transition` does not consult the table: an event made by hand, with the route's id, state
-- and version, reopens a terminal route, in any state but `completed`.
pub apply_transition_unchecked :
    (r : Route) (t : RouteState)
    → is_terminal r.state ≡ true
    → t ≢ completed
    → apply_transition r (record {
      route_id = r.route_id;
      from = r.state;
      to = t;
      expected_version = r.version;
      acceptance = none;
    })
      ≡ ok (record r { state = t; version = increment r.version; updated_at = now })
unfolding apply_transition
apply_transition_unchecked r t h ne = ground arith

-- A route is derived exactly from an abandoned route that kept its metadata; it starts as a draft
-- at version 0 that names its source.
derived_lem :
    (id : RouteId) (source : Route)
    → ((is_ok (derived id source) ≡ true)
        ↔ ((source.state ≡ abandoned) × (source.abandonment ≢ none)))
      × ((r : Route)
          → derived id source ≡ ok r
          → (r.route_id ≡ id)
            × (r.state ≡ draft)
            × (r.version ≡ 0)
            × (r.derived_from ≡ some source.route_id))
unfolding derived
derived_lem id source = ((λ h. grind arith, λ h. ground arith), λ r h. ground arith)
