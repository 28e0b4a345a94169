-- ===== src/Forms/FlowRate.antt =====
-- app/src/components/SidePanels/UpdateFlow/FlowRateField.js with the check of
-- app/src/components/SidePanels/AmountInput.js: the rate of the flow form, entered per hour, day, week,
-- month or year. JavaScript's numbers are a parameter.
use superfluid_aragon_app.Prelude.{
  ℕ, pos, ◌≡◌, refl, Bool, ◌&&◌, ◌||◌, not, none, some, List, [], ◌∷◌, get_elem?, if◌then◌else◌,
  Bool-cases, inl, inr,
}
use superfluid_aragon_app.Helpers.Decimals.{Text, is_empty}
use superfluid_aragon_app.Helpers.Time.{hour, day, week, month, year}
use superfluid_aragon_app.Forms.UpdateFlow.{Floats, FlowForm, handle_flow_rate_change}

abbrev pub default_rate_item : ℕ
default_rate_item = 3

abbrev pub rate_in_seconds : List ℕ
rate_in_seconds = hour ∷ day ∷ week ∷ month ∷ year ∷ []

-- The field with the form that its `onChange` writes to.
pub record RateField : Type 0 where
  pub selected_rate : ℕ
  pub rate_value : Text
  pub form : FlowForm

module _ {N : Type 0} (floats : Floats N) (div : N → N → N) (nan : N) where
  abbrev pub seconds_at : ℕ → N
  seconds_at i = elim (get_elem? rate_in_seconds i) [ none ↦ nan | some s ↦ floats.of_int (pos s) ]

  -- `(value / RATE_IN_SECONDS[index]).toString()`
  abbrev pub rate_per_second : Text → ℕ → Text
  rate_per_second value index = floats.to_text (div (floats.of_text value) (seconds_at index))

  -- `!value.length || (!isNaN(value) && Number(value) >= 0)`
  abbrev pub is_amount : Text → Bool
  is_amount value =
      is_empty value
      || (not (floats.is_nan (floats.of_text value))
          && not (floats.less (floats.of_text value) (floats.of_int (pos 0))))

  unfoldable pub handle_input_change : Text → RateField → RateField
  unfolding handle_flow_rate_change
  handle_input_change value s =
      if is_amount value
      then record s {
        rate_value = value;
        form = handle_flow_rate_change (rate_per_second value s.selected_rate) s.form;
      }
      else s

  unfoldable pub handle_dropdown_change : ℕ → RateField → RateField
  unfolding handle_flow_rate_change
  handle_dropdown_change index s = record s {
    selected_rate = index;
    form = handle_flow_rate_change (rate_per_second s.rate_value index) s.form;
  }

  -- What the user does to the field.
  pub data Enters (s : RateField) : RateField → Type 0 where
    types : (value : Text) → Enters s (handle_input_change value s)
    selects : (index : ℕ) → Enters s (handle_dropdown_change index s)

  abbrev pub IsInStep : RateField → Type 0
  IsInStep s = s.form.flow_rate ≡ rate_per_second s.rate_value s.selected_rate

  -- However the field is used, the form's rate stays the entered value divided by the seconds of the
  -- selected unit, once it is.
  pub Enters-IsInStep : {s t : RateField} → Enters s t → IsInStep s → IsInStep t
  unfolding handle_input_change handle_dropdown_change handle_flow_rate_change
  Enters-IsInStep {s} (types value) h = elim (Bool-cases (is_amount value)) [
    | inl amount ↦ rw amount refl
    | inr refused ↦ rw refused h
  ]
  Enters-IsInStep (selects index) h = refl
