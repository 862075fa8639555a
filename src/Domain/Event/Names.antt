-- ===== src/Domain/Event/Names.antt =====
-- The names of the event kinds, both ways.
use agent_mission_control.Prelude.{
  ◌≡◌, refl, String, List, [], ◌∷◌, All, arith, Bool-cases, inl, inr, ◌∙◌, sym,
}
use agent_mission_control.Prelude.Text.{str_eq, str_eq_iff}
use agent_mission_control.Domain.Event.{EventKind, as_str, arms, first_arm, visit_str}

as_str-first_arm :
    (value : String) (rest : List (String × EventKind))
    → All (λ a. as_str a.1 ≡ a.0) rest
    → as_str (first_arm value rest) ≡ value
unfolding first_arm
as_str-first_arm value [] h = unfold as_str in refl
as_str-first_arm value ((name, kind) ∷ rest) h = elim (Bool-cases (str_eq value name)) [
  | inl same ↦ rw same (h.0 ∙ sym ((str_eq_iff value name).0 same))
  | inr other ↦ rw other (as_str-first_arm value rest h.1)
]

arms_named : All (λ a. as_str a.1 ≡ a.0) arms
unfolding as_str
arms_named = ground arith

as_str-visit_str : (value : String) → as_str (visit_str value) ≡ value
unfolding visit_str
as_str-visit_str value = as_str-first_arm value arms arms_named

-- The kinds that the program names itself.
abbrev pub IsNamed : EventKind → Type 0
IsNamed (EventKind.unknown value) = ⊥
IsNamed _ = Unit {0}

visit_str-as_str : (k : EventKind) → IsNamed k → visit_str (as_str k) ≡ k
unfolding visit_str as_str
visit_str-as_str (EventKind.unknown value) h = absurd h
visit_str-as_str EventKind.mission_created h = refl
visit_str-as_str _ h = refl

-- A text that is read as a kind is written back as it was, also where no kind has its name, and a kind
-- that the program names is read back from its name.
pub visit_str_roundtrip :
    ((value : String) → as_str (visit_str value) ≡ value)
    × ((k : EventKind) → IsNamed k → visit_str (as_str k) ≡ k)
visit_str_roundtrip = (as_str-visit_str, visit_str-as_str)
