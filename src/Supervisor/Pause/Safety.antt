-- ===== src/Supervisor/Pause/Safety.antt =====
-- A mission is terminated only by the token that it was offered.
use agent_mission_control.Prelude.{
  ℕ, true, false, ◌≡◌, ◌≢◌, ◌↔◌, ◌⊎◌, inl, inr, refl, none, some, List, [], ◌∷◌, String, ok, arith,
  ap, ◌++◌, is_ok,
}
use agent_mission_control.Prelude.Text.{str_eq_iff}
use agent_mission_control.Supervisor.Pause.{
  PauseState, running, pause_requested, pause_acknowledged, paused, force_termination_available,
  terminated, PauseTransition, PauseController, Outcome, default_controller, request, acknowledge,
  timeout, force_termination_token, force_terminate, can_force_terminate, from_events,
}

pub data Call : Type 0 where
  requests : String → Call
  acknowledges times_out asks_token : Call
  terminates : String → Call

unfoldable pub step : PauseController → Call → Outcome
step c (requests reason) = request c reason
step c acknowledges = acknowledge c
step c times_out = timeout c
step c asks_token = force_termination_token c
step c (terminates token) = force_terminate c token

unfoldable pub run : PauseController → List Call → PauseController
run c [] = c
run c (x ∷ xs) = run (step c x).0 xs

abbrev pub controller : PauseState → ℕ → PauseController
controller s n = record { state = s; token_counter = n }

-- `force_terminate` succeeds exactly where `can_force_terminate` says so, and then the mission is
-- terminated; where it fails it changes nothing.
force_terminate_lem :
    (s : PauseState) (n : ℕ) (token : String)
    → let c = controller s n in
      ((is_ok (force_terminate c token).1 ≡ true) ↔ (s ≡ force_termination_available token))
      × (can_force_terminate c token ≡ is_ok (force_terminate c token).1)
      × (is_ok (force_terminate c token).1 ≡ true → (force_terminate c token).0.state ≡ terminated)
      × (is_ok (force_terminate c token).1 ≡ false → (force_terminate c token).0 ≡ c)
unfolding force_terminate can_force_terminate
force_terminate_lem (force_termination_available expected) n token = (
  (λ h. ground (arith, str_eq_iff expected token), λ h. ground (arith, str_eq_iff expected token)),
  ground arith,
  λ h. ground arith,
  λ h. ground arith,
)
force_terminate_lem _ n token = ((λ h. cc, λ h. cc), refl, λ h. cc, λ h. refl)

-- The call uses the text that the calls before it were answered with.
abbrev pub TokenShown : PauseController → Call → Type 0
TokenShown c (terminates token) = c.state ≡ force_termination_available token
TokenShown c _ = ⊥

step_terminates :
    (s : PauseState) (n : ℕ) (x : Call)
    → let c = controller s n in s ≢ terminated → (step c x).0.state ≡ terminated → TokenShown c x
unfolding step request acknowledge timeout force_terminate
step_terminates s n (requests reason) h e = absurd (ground arith)
step_terminates s n acknowledges h e = absurd (ground arith)
step_terminates s n times_out h e = absurd (ground arith)
step_terminates s n asks_token h e = absurd (ground arith)
step_terminates (force_termination_available expected) n (terminates token) h e =
    ground (arith, str_eq_iff expected token)
step_terminates s n (terminates token) h e = absurd (ground arith)

is_terminated-cases : (s : PauseState) → (s ≡ terminated) ⊎ (s ≢ terminated)
is_terminated-cases terminated = inl refl
is_terminated-cases running = inr (λ e. cc)
is_terminated-cases _ = inr (λ e. cc)

-- A mission that ends up terminated was terminated by a call with the token of the state
-- `force_termination_available` that the calls before had brought it to. No other call does it.
terminated_by_token :
    (c : PauseController) (xs : List Call)
    → c.state ≢ terminated
    → (run c xs).state ≡ terminated
    → (ys : List Call) × (token : String) × (zs : List Call) × (xs ≡ ys ++ terminates token ∷ zs)
      × ((run c ys).state ≡ force_termination_available token)
unfolding run
terminated_by_token c [] h e = absurd (h e)
terminated_by_token c (x ∷ xs) h e = elim (is_terminated-cases (step c x).0.state) [
  | inl now ↦ shown_here x (step_terminates c.state c.token_counter x h now)
  | inr later ↦
      let (ys, token, zs, split, shown) = terminated_by_token (step c x).0 xs later e in
      (x ∷ ys, token, zs, ap (λ l. x ∷ l) split, shown)
]
  where
    shown_here :
        (y : Call)
        → TokenShown c y
        → (ys : List Call) × (token : String) × (zs : List Call) × ((y ∷ xs)
            ≡ ys ++ terminates token ∷ zs)
          × ((run c ys).state ≡ force_termination_available token)
    shown_here (terminates token) s = ([], token, xs, refl, s)
    shown_here (requests reason) s = absurd s
    shown_here acknowledges s = absurd s
    shown_here times_out s = absurd s
    shown_here asks_token s = absurd s

-- Asking for the token again shows the same token and changes nothing.
force_termination_token_idem :
    (s : PauseState) (n : ℕ) (t : PauseTransition)
    → let c = controller s n in
      (force_termination_token c).1 ≡ ok t
      → let d = (force_termination_token c).0 in
        ((force_termination_token d).0 ≡ d)
        × ((force_termination_token d).1
            ≡ ok (record {
              from = d.state;
              to = d.state;
              confirmation_token = t.confirmation_token;
            }))
        × (d.state ≡ t.to)
unfolding force_termination_token
force_termination_token_idem (pause_requested r) n t h = (ground arith, ground arith, ground arith)
force_termination_token_idem s n t h = (ground arith, ground arith, ground arith)

-- A pause that is requested and acknowledged is `paused` with its reason in the live controller. The
-- same two events, replayed, give `pause_acknowledged`, which has no reason.
pub replayed_acknowledgement_differs :
    (reason : String)
    → ((run default_controller (requests reason ∷ acknowledges ∷ [])).state ≡ paused reason)
      × ((from_events (
            record { kind = "pause_requested"; reason = some reason }
            ∷ record { kind = "pause_acknowledged"; reason = none }
            ∷ [])).state
          ≡ pause_acknowledged)
unfolding run step request acknowledge from_events
replayed_acknowledgement_differs reason = (refl, refl)
