-- ===== src/Policy/Budget/Usage.antt =====
-- The projection of a tracker against the history that it keeps.
use agent_mission_control.Prelude.{
  ℕ, true, ◌≡◌, refl, sym, ◌∙◌, Option, none, some, List, [], ◌∷◌, ◌++◌, arith, if◌then◌else◌,
}
use agent_mission_control.Prelude.Word.{saturating_add}
use mathlib.Core.List.{append-nil, append_assoc}
use agent_mission_control.Policy.Budget.{
  BudgetDimension, tokens, same_dimension, insert, BudgetLimits, UnknownUsagePolicy, UsageSample,
  UsageRecord, sample, unknown_usage, correction, Projection, known, unknown, BudgetTracker, new,
  add_usage, project, record_usage,
}

-- What one record says of one dimension.
unfoldable pub charge : UsageRecord → BudgetDimension → Projection → Projection
charge (sample s) d (known total) = elim (s d) [
  | some n ↦ known (saturating_add total n)
  | none ↦ known total
]
charge (sample s) d unknown = unknown
charge (unknown_usage e) d p = if same_dimension e d then unknown else p
charge (correction e total) d p = if same_dimension e d then known total else p

-- The usage of one dimension by a history, from what was known before it.
unfoldable pub usage : BudgetDimension → Projection → List UsageRecord → Projection
unfolding charge
usage d p [] = p
usage d p (r ∷ rs) = usage d (charge r d p) rs

unfoldable pub record_each : BudgetTracker → List UsageRecord → BudgetTracker
record_each t [] = t
record_each t (r ∷ rs) = record_each (record_usage t r) rs

same_dimension-eq : (d e : BudgetDimension) → same_dimension d e ≡ true → d ≡ e
unfolding same_dimension
same_dimension-eq d e h = ground arith

abbrev bump : Option ℕ → Option Projection → Option Projection
bump (some n) (some (known total)) = some (known (saturating_add total n))
bump (some n) (some unknown) = some unknown
bump (some n) none = none
bump none p = p

add_usage_at :
    (o : Option ℕ) (e : BudgetDimension) (p : BudgetDimension → Option Projection)
    (d : BudgetDimension)
    → add_usage o e p d ≡ (if same_dimension e d then bump o (p d) else p d)
unfolding add_usage insert
add_usage_at none e p d = ground arith
add_usage_at (some n) e p d = ground (arith, same_dimension-eq e d)

bump-charge :
    (s : UsageSample) (d : BudgetDimension) (q : Projection)
    → bump (s d) (some q) ≡ some (charge (sample s) d q)
unfolding charge
bump-charge s d (known total) = ground arith
bump-charge s d unknown = ground arith

insert_at :
    (d e : BudgetDimension) (p : BudgetDimension → Option Projection) (q r : Projection)
    → p d ≡ some q
    → insert e (some r) p d ≡ some (if same_dimension e d then r else q)
unfolding insert
insert_at d e p q r h = ground arith

project-charge :
    (r : UsageRecord) (d : BudgetDimension) (p : BudgetDimension → Option Projection)
    (q : Projection)
    → p d ≡ some q
    → project r p d ≡ some (charge r d q)
unfolding project same_dimension
project-charge (sample s) tokens p q h = simp (add_usage_at, h) (bump-charge s tokens q)
project-charge (sample s) d p q h = simp (add_usage_at, h) (bump-charge s d q)
project-charge (unknown_usage e) d p q h = unfold charge in insert_at d e p q unknown h
project-charge (correction e n) d p q h = unfold charge in insert_at d e p q (known n) h

record_each-usage :
    (t : BudgetTracker) (rs : List UsageRecord) (d : BudgetDimension) (q : Projection)
    → t.projection d ≡ some q
    → (record_each t rs).projection d ≡ some (usage d q rs)
unfolding record_each usage record_usage
record_each-usage t [] d q h = h
record_each-usage t (r ∷ rs) d q h =
    record_each-usage (record_usage t r) rs d (charge r d q) (project-charge r d t.projection q h)

record_each-records :
    (t : BudgetTracker) (rs : List UsageRecord) → (record_each t rs).records ≡ t.records ++ rs
unfolding record_each record_usage
record_each-records t [] = sym (append-nil t.records)
record_each-records t (r ∷ rs) =
    record_each-records (record_usage t r) rs ∙ append_assoc t.records (r ∷ []) rs

-- A new tracker keeps every record in order, and its projection of each dimension is what the
-- history says: the saturated sum of the samples since the last correction, or unknown from an
-- unknown usage on until the next correction. No dimension is ever missing.
pub record_each_lem :
    (v : ℕ) (l : BudgetLimits) (u : UnknownUsagePolicy) (rs : List UsageRecord)
    → ((record_each (new v l u) rs).records ≡ rs)
      × ((d : BudgetDimension)
          → (record_each (new v l u) rs).projection d ≡ some (usage d (known 0) rs))
unfolding new
record_each_lem v l u rs =
    (record_each-records (new v l u) rs, λ d. record_each-usage (new v l u) rs d (known 0) refl)
