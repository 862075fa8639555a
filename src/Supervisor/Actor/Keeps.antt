-- ===== src/Supervisor/Actor/Keeps.antt =====
-- What a step keeps, whether it succeeds or fails, and how that passes through the steps' combinators.
use agent_mission_control.Prelude.{Bool, true, false, Result, ok, err}
use agent_mission_control.Supervisor.Actor.{
  Host, ActorError, MissionActor, Step, continue, ◌>>=◌, pure, fail,
}
use agent_mission_control.Supervisor.Actor.Pausing.{when, ignore}

module _ {h : Host} (P : MissionActor h → Type 0) where
  pub record Keeps {A : Type 0} (s : Step h A) : Type 0 where
    pub run : (a : MissionActor h) → P a → P (s a).0

  pub pure-Keeps : {A : Type 0} (x : A) → Keeps (pure x)
  pure-Keeps x = record { run = λ a p. p }

  pub fail-Keeps : {A : Type 0} (e : ActorError) → Keeps {A = A} (fail e)
  fail-Keeps e = record { run = λ a p. p }

  continue-Keeps :
      {A B : Type 0} (o : MissionActor h × Result A ActorError) (k : A → Step h B)
      → P o.0
      → ((x : A) → Keeps (k x))
      → P (continue o k).0
  unfolding continue
  continue-Keeps (a, ok x) k p v = (v x).run a p
  continue-Keeps (a, err e) k p v = p

  pub bind-Keeps :
      {A B : Type 0} (s : Step h A) (k : A → Step h B)
      → Keeps s
      → ((x : A) → Keeps (k x))
      → Keeps (s >>= k)
  bind-Keeps s k v w = record { run = λ a p. continue-Keeps (s a) k (v.run a p) w }

  pub ignore-Keeps : {A : Type 0} (s : Step h A) → Keeps s → Keeps (ignore h s)
  unfolding ignore
  ignore-Keeps s v = record { run = λ a p. v.run a p }

  pub when-Keeps : (b : Bool) (s : Step h (Unit {0})) → Keeps s → Keeps (when h b s)
  unfolding when
  when-Keeps true s v = v
  when-Keeps false s v = pure-Keeps tt
