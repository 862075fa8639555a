-- ===== src/Policy/Budget/Signals.antt =====
-- What a safe boundary signals: each dimension is judged on its own, and warned of once.
use mathlib.Core.List.{append-nil}
use agent_mission_control.Prelude.{
  ◌≤◌, ◌<◌, Bool, true, false, not, ◌&&◌, ◌≡◌, ◌≢◌, ◌⊎◌, ◌↔◌, inl, inr, refl, sym, ap, ◌∙◌, Option,
  none, some, List, [], ◌∷◌, ◌++◌, any, arith, if◌then◌else◌, Bool-cases, ok, &&-eq-true, ltb,
}
use agent_mission_control.Policy.Approval.{user, is_user}
use agent_mission_control.Policy.Budget.{
  BudgetDimension, all_dimensions, same_dimension, insert, limit_value, pause, Projection, known,
  unknown, BudgetTracker, BudgetSignal, warning, require_approval, pause_at_safe_boundary,
  evaluate_dimension, evaluate_each, evaluate_safe_boundary, BudgetChange, replace_limits,
}

unfoldable pub dimension_of : BudgetSignal → BudgetDimension
dimension_of (warning d) = d
dimension_of (require_approval d) = d
dimension_of (pause_at_safe_boundary d) = d

-- The signals about one dimension.
unfoldable pub signals_of : BudgetDimension → List BudgetSignal → List BudgetSignal
unfolding dimension_of
signals_of d [] = []
signals_of d (s ∷ ss) =
    if same_dimension (dimension_of s) d then s ∷ signals_of d ss else signals_of d ss

signals_of-append :
    (d : BudgetDimension) (xs ys : List BudgetSignal)
    → signals_of d (xs ++ ys) ≡ signals_of d xs ++ signals_of d ys
unfolding signals_of
signals_of-append d [] ys = refl
signals_of-append d (s ∷ ss) ys = ground (arith, signals_of-append d ss ys)

same_dimension-eq : (d e : BudgetDimension) → same_dimension d e ≡ true → d ≡ e
unfolding same_dimension
same_dimension-eq d e h = ground arith

eq_false_of_not : (b : Bool) → not b ≡ true → b ≡ false
eq_false_of_not true h = cc
eq_false_of_not false h = refl

same_dimension_refl : (d : BudgetDimension) → same_dimension d d ≡ true
unfolding same_dimension
same_dimension_refl d = ground arith

module _ (t : BudgetTracker) (e d : BudgetDimension) where
  round_other : same_dimension e d ≡ false → signals_of d (evaluate_dimension t e).1 ≡ []
  unfolding signals_of evaluate_dimension
  round_other h = ground arith

  round_independent :
      same_dimension e d ≡ false
      → (evaluate_dimension (evaluate_dimension t e).0 d).1 ≡ (evaluate_dimension t d).1
  unfolding evaluate_dimension insert
  round_independent h = ground arith

  -- A round changes no field but `warned`, which it only adds to.
  round_keeps :
      ((evaluate_dimension t e).0.limits ≡ t.limits)
      × ((evaluate_dimension t e).0.projection ≡ t.projection)
      × ((evaluate_dimension t e).0.unknown_policy ≡ t.unknown_policy)
      × (t.warned d ≡ true → (evaluate_dimension t e).0.warned d ≡ true)
  unfolding evaluate_dimension insert
  round_keeps = (ground arith, ground arith, ground arith, ground arith)

module _ (t : BudgetTracker) (d : BudgetDimension) where
  round_own : signals_of d (evaluate_dimension t d).1 ≡ (evaluate_dimension t d).1
  unfolding signals_of evaluate_dimension
  round_own = ground (arith, same_dimension_refl d)

  round_warns :
      (evaluate_dimension t d).1 ≡ warning d ∷ []
      → ((evaluate_dimension t d).0.warned d ≡ true) × (t.warned d ≡ false)
  unfolding evaluate_dimension insert
  round_warns h = ground (arith, same_dimension_refl d)

abbrev mentions : BudgetDimension → List BudgetDimension → Bool
mentions d ds = any (λ e. same_dimension e d) ds

each_absent :
    (t : BudgetTracker) (ds : List BudgetDimension) (d : BudgetDimension)
    → mentions d ds ≡ false
    → signals_of d (evaluate_each t ds).1 ≡ []
unfolding evaluate_each signals_of
each_absent t [] d h = refl
each_absent t (e ∷ ds) d h =
    signals_of-append d (evaluate_dimension t e).1 (evaluate_each (evaluate_dimension t e).0 ds).1
    ∙ ground (arith, round_other t e d, each_absent (evaluate_dimension t e).0 ds d)

abbrev distinct : List BudgetDimension → Bool
distinct [] = true
distinct (d ∷ ds) = not (mentions d ds) && distinct ds

each_own :
    (t : BudgetTracker) (ds : List BudgetDimension) (d : BudgetDimension)
    → distinct ds ≡ true
    → mentions d ds ≡ true
    → signals_of d (evaluate_each t ds).1 ≡ (evaluate_dimension t d).1
unfolding evaluate_each signals_of
each_own t [] d h m = cc
each_own t (e ∷ ds) d h m = elim (Bool-cases (same_dimension e d)) [
  | inl here ↦
      let fresh : mentions e ds ≡ false =
        eq_false_of_not (mentions e ds) (&&-eq-true (not (mentions e ds)) (distinct ds) h).0 in
      signals_of-append d (evaluate_dimension t e).1 (evaluate_each (evaluate_dimension t e).0 ds).1
      ∙ rw (same_dimension-eq e d here) (
          rw (round_own t d) (
            rw
              (each_absent (evaluate_dimension t d).0 ds d
                (rw (same_dimension-eq e d here) at (fresh)))
              (append-nil (evaluate_dimension t d).1)))
  | inr there ↦
      signals_of-append d (evaluate_dimension t e).1 (evaluate_each (evaluate_dimension t e).0 ds).1
      ∙ rw (round_other t e d there) (
          each_own (evaluate_dimension t e).0 ds d (&&-eq-true _ _ h).1 (rw there at m)
          ∙ round_independent t e d there)
]

pub each_keeps :
    (t : BudgetTracker) (ds : List BudgetDimension) (d : BudgetDimension)
    → ((evaluate_each t ds).0.limits ≡ t.limits)
      × ((evaluate_each t ds).0.projection ≡ t.projection)
      × ((evaluate_each t ds).0.unknown_policy ≡ t.unknown_policy)
      × (t.warned d ≡ true → (evaluate_each t ds).0.warned d ≡ true)
unfolding evaluate_each
each_keeps t [] d = (refl, refl, refl, λ h. h)
each_keeps t (e ∷ ds) d =
    let (l, p, u, w) = round_keeps t e d in
    let (l', p', u', w') = each_keeps (evaluate_dimension t e).0 ds d in
    (l' ∙ l, p' ∙ p, u' ∙ u, λ h. w' (w h))

each_warns :
    (t : BudgetTracker) (ds : List BudgetDimension) (d : BudgetDimension)
    → mentions d ds ≡ true
    → (evaluate_dimension t d).1 ≡ warning d ∷ []
    → (evaluate_each t ds).0.warned d ≡ true
unfolding evaluate_each
each_warns t [] d m h = cc
each_warns t (e ∷ ds) d m h = elim (Bool-cases (same_dimension e d)) [
  | inl here ↦
      (each_keeps (evaluate_dimension t e).0 ds d).3
        (rw (same_dimension-eq e d here) (round_warns t d h).0)
  | inr there ↦
      each_warns (evaluate_dimension t e).0 ds d (rw there at m) (round_independent t e d there ∙ h)
]

mentions-all : (d : BudgetDimension) → mentions d all_dimensions ≡ true
unfolding same_dimension
mentions-all d = ground arith

distinct-all : distinct all_dimensions ≡ true
unfolding same_dimension
distinct-all = refl

-- The signals of a safe boundary about a dimension are those of judging it alone, on the tracker as
-- it was: the rounds of the loop do not disturb one another.
evaluate_safe_boundary_lem :
    (t : BudgetTracker) (d : BudgetDimension)
    → signals_of d (evaluate_safe_boundary t).1 ≡ (evaluate_dimension t d).1
unfolding evaluate_safe_boundary
evaluate_safe_boundary_lem t d = each_own t all_dimensions d distinct-all (mentions-all d)

-- The dimension is spent, or cannot be known under a policy that pauses.
abbrev pub Spent : BudgetTracker → BudgetDimension → Option Projection → Type 0
Spent t d none = Unit {0}
Spent t d (some unknown) = t.unknown_policy ≡ pause
Spent t d (some (known used)) = (limit_value t.limits d ≡ 0) ⊎ (limit_value t.limits d ≤ used)

judged_pause :
    (t : BudgetTracker) (d : BudgetDimension)
    → ((evaluate_dimension t d).1 ≡ pause_at_safe_boundary d ∷ []) ↔ Spent t d (t.projection d)
unfolding evaluate_dimension
judged_pause t d = (λ h. ground arith, λ h. ground arith)

-- A safe boundary pauses for a dimension exactly when its limit is zero or used up, its usage is
-- unknown under the policy `pause`, or its usage is missing.
pub pause_iff :
    (t : BudgetTracker) (d : BudgetDimension)
    → (signals_of d (evaluate_safe_boundary t).1 ≡ pause_at_safe_boundary d ∷ [])
      ↔ Spent t d (t.projection d)
pause_iff t d = rw (evaluate_safe_boundary_lem t d) (judged_pause t d)

judged_same :
    (t u : BudgetTracker) (d : BudgetDimension)
    → u.limits ≡ t.limits
    → u.projection d ≡ t.projection d
    → (evaluate_dimension u d).1 ≡ warning d ∷ []
    → t.warned d ≡ false
    → (evaluate_dimension t d).1 ≡ warning d ∷ []
unfolding evaluate_dimension
judged_same t u d l p h w = ground arith

-- A second safe boundary repeats no warning of the first, and gives none of its own.
warns_once :
    (t : BudgetTracker) (d : BudgetDimension)
    → signals_of d (evaluate_safe_boundary (evaluate_safe_boundary t).0).1 ≢ warning d ∷ []
unfolding evaluate_safe_boundary
warns_once t d h =
    let u = (evaluate_each t all_dimensions).0 in
    let again : (evaluate_dimension u d).1 ≡ warning d ∷ [] =
      sym (each_own u all_dimensions d distinct-all (mentions-all d)) ∙ h in
    let (l, p, n, w) = each_keeps t all_dimensions d in
    let unwarned : u.warned d ≡ false = (round_warns u d again).1 in
    elim (Bool-cases (t.warned d)) [
      | inl old ↦ cc (w old, unwarned)
      | inr new ↦ cc (
        unwarned,
        each_warns t all_dimensions d (mentions-all d)
            (judged_same t u d l (ap (λ f. f d) p) again new),
      )
    ]

-- A budget changes only by the user's word and with a newer contract version; then it takes the new
-- limits and version, may warn again, and keeps the usage. A refused change changes nothing.
replace_limits_lem :
    (t : BudgetTracker) (c : BudgetChange)
    → ((c.actor ≡ user)
        × (t.contract_version < c.contract_version)
        × ((replace_limits t c).1 ≡ ok tt)
        × ((replace_limits t c).0.contract_version ≡ c.contract_version)
        × ((replace_limits t c).0.limits ≡ c.limits)
        × ((d : BudgetDimension) → (replace_limits t c).0.warned d ≡ false)
        × ((replace_limits t c).0.projection ≡ t.projection)
        × ((replace_limits t c).0.records ≡ t.records))
      ⊎ (((c.actor ≢ user) ⊎ (c.contract_version ≤ t.contract_version))
          × ((replace_limits t c).1 ≢ ok tt)
          × ((replace_limits t c).0 ≡ t))
unfolding replace_limits is_user
replace_limits_lem t c =
    elim (Bool-cases (is_user c.actor && ltb t.contract_version c.contract_version)) [
      | inl yes_user ↦ inl (
        ground arith,
        ground arith,
        ground arith,
        ground arith,
        ground arith,
        λ d. ground arith,
        ground arith,
        ground arith,
      )
      | inr not_user ↦ inr (ground arith, ground arith, ground arith)
    ]
