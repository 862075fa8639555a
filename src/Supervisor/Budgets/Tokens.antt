-- ===== src/Supervisor/Budgets/Tokens.antt =====
-- The tokens that a run's events add up to.
use agent_mission_control.Prelude.{
  ℕ, ◌+◌, ◌-◌, ◌≤◌, max, ◌≡◌, refl, sym, ap, ◌∙◌, inl, inr, ◌⊎◌, true, Bool-cases, Option, none,
  some, List, [], ◌∷◌, if◌then◌else◌, arith,
}
use agent_mission_control.Prelude.Word.{u64_max, saturating_add}
use agent_mission_control.Domain.Event.{Json}
use agent_mission_control.Policy.Budget.{
  BudgetDimension, BudgetTracker, Projection, known, sample, all_dimensions, UsageRecord,
  record_usage, project, add_each, add_usage, with_usage, one_usage, insert, same_dimension,
  discriminant, evaluate_safe_boundary,
}
use agent_mission_control.Policy.Budget.Signals.{each_keeps}
use agent_mission_control.Supervisor.Budgets.{
  Fields, unwrap_or, is_text, usage_of_total, total_tokens, usage_record_from_event, take_usage,
  take_each,
}

boundary_keeps :
    (t : BudgetTracker) (d : BudgetDimension)
    → (evaluate_safe_boundary t).0.projection d ≡ t.projection d
unfolding evaluate_safe_boundary
boundary_keeps t d =
    ap (λ (p : BudgetDimension → Option Projection). p d) (each_keeps t all_dimensions d).1

-- What an event of usage records: tokens, and one call.
abbrev call_of : ℕ → UsageRecord
call_of delta =
    sample (with_usage (one_usage BudgetDimension.tokens delta) BudgetDimension.model_calls 1)

sampled_tokens :
    (t : BudgetTracker) (used delta : ℕ)
    → t.projection BudgetDimension.tokens ≡ some (known used)
    → (record_usage t (call_of delta)).projection BudgetDimension.tokens
      ≡ some (known (saturating_add used delta))
unfolding record_usage project add_each add_usage with_usage one_usage insert same_dimension
    discriminant
sampled_tokens t used delta h = ground arith

module _ (j : Json) (fields : Fields j) where
  -- An event of token usage, of which a total can be read; or an event of another type.
  abbrev pub IsReadable : j.Value → Type 0
  IsReadable payload =
      is_text (j.get_str payload "native_type") "thread/tokenUsage/updated" ≡ true
      → (n : ℕ) × (total_tokens j fields payload ≡ some n)

  abbrev pub AreReadable : List j.Value → Type 0
  AreReadable [] = Unit {0}
  AreReadable (payload ∷ rest) = IsReadable payload × AreReadable rest

  -- The total that an event tells.
  abbrev pub told : j.Value → ℕ
  told payload =
      if is_text (j.get_str payload "native_type") "thread/tokenUsage/updated"
      then unwrap_or (total_tokens j fields payload) 0
      else 0

  abbrev pub greatest : List j.Value → ℕ
  greatest [] = 0
  greatest (payload ∷ rest) = max (told payload) (greatest rest)

  event_cases :
      (payload : j.Value) (previous : ℕ)
      → IsReadable payload
      → ((usage_record_from_event j fields payload previous ≡ (none, previous))
          × (told payload ≡ 0))
        ⊎ (usage_record_from_event j fields payload previous
            ≡ usage_of_total j fields (some (told payload)) previous)
  unfolding usage_record_from_event
  event_cases payload previous readable =
      elim (Bool-cases (is_text (j.get_str payload "native_type") "thread/tokenUsage/updated")) [
        | inl usage ↦
            let (n, total) = readable usage in
            inr (
              rw usage (
                ap (λ o. usage_of_total j fields o previous)
                  (total ∙ ap some (sym (ap (λ o. unwrap_or o 0) total)))))
        | inr other ↦ inl (rw other refl, rw other refl)
      ]

  counted_tokens :
      (t : BudgetTracker) (used total previous : ℕ)
      → t.projection BudgetDimension.tokens ≡ some (known used)
      → let next = usage_of_total j fields (some total) previous in
        (take_usage j fields next.0 t).0.projection BudgetDimension.tokens
        ≡ some (known (saturating_add used (total - previous)))
  unfolding usage_of_total take_usage
  counted_tokens t used total previous h =
      boundary_keeps (record_usage t (call_of (total - previous))) BudgetDimension.tokens
      ∙ sampled_tokens t used (total - previous) h

  -- One event adds what its total exceeds the remembered one by, and remembers the greater one.
  round_tokens :
      (payload : j.Value) (t : BudgetTracker) (used previous : ℕ)
      → IsReadable payload
      → used + (told payload - previous) ≤ u64_max
      → t.projection BudgetDimension.tokens ≡ some (known used)
      → let next = usage_record_from_event j fields payload previous in
        (next.1 ≡ max previous (told payload))
        × ((take_usage j fields next.0 t).0.projection BudgetDimension.tokens
            ≡ some (known (used + (told payload - previous))))
  unfolding saturating_add
  round_tokens payload t used previous readable fits h =
      elim (event_cases payload previous readable) [
        | inl (quiet, nothing) ↦ rw quiet (
          omega (arith, nothing),
          unfold take_usage in h ∙ ap (λ n. some (known n)) (omega (arith, nothing)),
        )
        | inr usage ↦ rw usage (
          unfold usage_of_total in refl,
          counted_tokens t used (told payload) previous h ∙ ap (λ n. some (known n)) (omega arith),
        )
      ]

  -- However a run's events tell the totals of its tokens, repeated or out of order, the tracker ends with
  -- what was used before them and the amount by which the greatest total exceeds the total that was
  -- remembered; no token counts twice. Each event of token usage tells a total, and the sum is a `u64`.
  pub take_each-tokens :
      (payloads : List j.Value) (t : BudgetTracker) (used previous : ℕ)
      → AreReadable payloads
      → used + (greatest payloads - previous) ≤ u64_max
      → t.projection BudgetDimension.tokens ≡ some (known used)
      → ((take_each j fields payloads t previous).1 ≡ max previous (greatest payloads))
        × ((take_each j fields payloads t previous).0.projection BudgetDimension.tokens
            ≡ some (known (used + (greatest payloads - previous))))
  unfolding take_each
  take_each-tokens [] t used previous readable fits h =
      (omega arith, h ∙ ap (λ n. some (known n)) (omega arith))
  take_each-tokens (payload ∷ rest) t used previous readable fits h =
      let (next, now) = round_tokens payload t used previous readable.0 (omega arith) h in
      let (last, sum) =
        take_each-tokens rest
          (take_usage j fields (usage_record_from_event j fields payload previous).0 t).0
          (used + (told payload - previous)) (usage_record_from_event j fields payload previous).1
          readable.1 (rw next (omega arith)) now in
      (rw last (rw next (omega arith)), sum ∙ ap (λ n. some (known n)) (rw next (omega arith)))
