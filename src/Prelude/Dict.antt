-- ===== src/Prelude/Dict.antt =====
-- A map from texts as the list of its entries.
use mathlib.Core.Path.{◌≡◌, refl, sym, ap, ◌∙◌}
use mathlib.Core.Logic.{◌≢◌, inl, inr}
use mathlib.Core.Option.{Option, none, some}
use mathlib.Core.List.{List, [], ◌∷◌}
use Prim.Native.String.{String}
use agent_mission_control.Prelude.Tests.{if◌then◌else◌, Bool-cases}
use agent_mission_control.Prelude.Text.{str_eq, str_eq_iff}

abbrev pub Dict {ℓ} : Type ℓ → Type ℓ
Dict A = List (String × A)

unfoldable pub lookup {ℓ} : {A : Type ℓ} → String → Dict A → Option A
lookup key [] = none
lookup key ((k, a) ∷ d) = if str_eq k key then some a else lookup key d

unfoldable pub insert {ℓ} : {A : Type ℓ} → String → A → Dict A → Dict A
insert key a [] = (key, a) ∷ []
insert key a ((k, b) ∷ d) = if str_eq k key then (k, a) ∷ d else (k, b) ∷ insert key a d

module _ {ℓ} {A : Type ℓ} where
  pub lookup-insert-same :
      (key : String) (a : A) (d : Dict A) → lookup key (insert key a d) ≡ some a
  unfolding lookup insert
  lookup-insert-same key a [] = rw ((str_eq_iff key key).1 refl) refl
  lookup-insert-same key a ((k, b) ∷ d) = elim (Bool-cases (str_eq k key)) [
    | inl same ↦ rw (same, same) refl
    | inr other ↦ rw (other, other) (lookup-insert-same key a d)
  ]

  pub lookup-insert-other :
      (key other : String) (a : A) (d : Dict A)
      → other ≢ key
      → lookup other (insert key a d) ≡ lookup other d
  unfolding lookup insert
  lookup-insert-other key other a [] differs = elim (Bool-cases (str_eq key other)) [
    | inl same ↦ absurd (differs (sym ((str_eq_iff key other).0 same)))
    | inr apart ↦ rw apart refl
  ]
  lookup-insert-other key other a ((k, b) ∷ d) differs = elim (Bool-cases (str_eq k key)) [
    | inl same ↦ elim (Bool-cases (str_eq k other)) [
      | inl clash ↦
          absurd (differs (sym ((str_eq_iff k other).0 clash) ∙ (str_eq_iff k key).0 same))
      | inr apart ↦ rw (same, apart) refl
    ]
    | inr apart ↦
        rw apart (
          ap (λ r. if str_eq k other then some b else r)
            (lookup-insert-other key other a d differs))
  ]

-- Every entry under the key goes; a map has at most one.
unfoldable pub remove {ℓ} : {A : Type ℓ} → String → Dict A → Dict A
remove key [] = []
remove key ((k, a) ∷ d) = let rest = remove key d in if str_eq k key then rest else (k, a) ∷ rest

pub lookup-remove-same {ℓ} :
    {A : Type ℓ} (key : String) (d : Dict A) → lookup key (remove key d) ≡ none
unfolding lookup remove
lookup-remove-same key [] = refl
lookup-remove-same key ((k, a) ∷ d) = elim (Bool-cases (str_eq k key)) [
  | inl same ↦ rw same (lookup-remove-same key d)
  | inr other ↦ rw (other, other) (lookup-remove-same key d)
]
