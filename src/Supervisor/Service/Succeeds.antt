-- ===== src/Supervisor/Service/Succeeds.antt =====
-- Actions of the service that never fail, and how they are put together.
use agent_mission_control.Prelude.{
  ◌≡◌, refl, ap, ◌∙◌, Bool, true, false, String, Result, ok, err, if◌then◌else◌, arith,
}
use agent_mission_control.Supervisor.Actor.{Host}
use agent_mission_control.Supervisor.Service.{MissionService}
use agent_mission_control.Supervisor.Service.Action.{Action, bound, ◌>>=◌, pure, modify}

module _ {h : Host} where
  -- An action that never fails.
  pub record Succeeds {A : Type 0} (m : Action h A) : Type 0 where
    pub answers : (s : MissionService h) → (x : A) × ((m s).1 ≡ ok x)

  pub pure-Succeeds : {A : Type 0} (x : A) → Succeeds (pure {h = h} x)
  pure-Succeeds x = record { answers = λ s. (x, refl) }

  pub modify-Succeeds : (f : MissionService h → MissionService h) → Succeeds (modify f)
  modify-Succeeds f = record { answers = λ s. (tt, refl) }

  pub bound-ok :
      {A B : Type 0} (o : MissionService h × Result A String) (k : A → Action h B) (x : A)
      → o.1 ≡ ok x
      → bound o k ≡ k x o.0
  unfolding bound
  bound-ok (s, ok y) k x e = let same : y ≡ x = cc in ap (λ z. k z s) same
  bound-ok (s, err text) k x e = absurd (ground arith)

  pub bind-Succeeds :
      {A B : Type 0} (m : Action h A) (k : A → Action h B)
      → Succeeds m
      → ((x : A) → Succeeds (k x))
      → Succeeds (m >>= k)
  bind-Succeeds m k v w = record {
    answers = λ s.
        let (x, first) = v.answers s in
        let (y, second) = (w x).answers (m s).0 in
        (
          y,
          ap (λ (o : MissionService h × Result _ String). o.1) (bound-ok (m s) k x first) ∙ second,
        );
  }

  pub either-Succeeds :
      {A : Type 0} (b : Bool) (m n : Action h A)
      → Succeeds m
      → Succeeds n
      → Succeeds (elim b [ true ↦ m | false ↦ n ])
  either-Succeeds true m n v w = v
  either-Succeeds false m n v w = w

  pub if-Succeeds :
      {A : Type 0} (b : Bool) (m n : Action h A)
      → Succeeds m
      → Succeeds n
      → Succeeds (if b then m else n)
  if-Succeeds true m n v w = v
  if-Succeeds false m n v w = w
