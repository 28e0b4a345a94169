-- ===== src/Components/Card.antt =====
-- app/src/components/SuperTokens/index.js and its cards: SuperTokenCard/index.js, SuperTokenCard/Balance.js
-- and app/src/components/DynamicFlowAmount.js. The digits of an amount are formatTokenAmount's, of
-- @aragon/ui.
pub mod Depleted
use superfluid_aragon_app.Prelude.{
  ℕ, ℤ, pos, String, Bool, true, false, not, Option, none, some, List, [], ◌∷◌, is_zero_ℤ, ltb_ℤ,
  if◌then◌else◌,
}
use superfluid_aragon_app.Js.{Result, ok, defined, ◌>>=◌}
use superfluid_aragon_app.Packages.{Packages}
use superfluid_aragon_app.Helpers.Decimals.{Text, before_dot, after_dot, is_empty}
use superfluid_aragon_app.Helpers.Time.{Date}
use superfluid_aragon_app.Helpers.Amounts.{is_neg, calculate_current_amount}
use superfluid_aragon_app.Hooks.Items.{BalanceItem}

-- What stands in the place of the cards.
pub data CardsView : Type 0 where
  loading_super_tokens no_super_tokens : CardsView
  cards : List BalanceItem → CardsView

unfoldable pub cards_view : Bool → List BalanceItem → CardsView
cards_view is_syncing [] = if is_syncing then loading_super_tokens else no_super_tokens
cards_view is_syncing (item ∷ items) = cards (item ∷ items)

abbrev pub net_flow_sign : ℤ → String
net_flow_sign net_flow = if is_zero_ℤ net_flow then "" else if is_neg net_flow then "-" else "+"

-- An amount that changes is drawn again every second.
abbrev pub display_dynamic_amount : ℤ → Bool
display_dynamic_amount rate = not (is_zero_ℤ rate)

-- A negative amount is shown as 0, and a fraction only where there is one.
pub data Shown : Type 0 where
  nothing_left : Shown
  digits : Text → Option Text → Shown

abbrev pub fraction_of : Text → Option Text
fraction_of fraction = if is_empty fraction then none else some fraction

module _ (p : Packages) (format_token_amount : ℤ → Option ℕ → ℕ → Text) where
  abbrev pub split_amount : Option ℕ → ℕ → ℤ → Shown
  split_amount decimals digits_displayed dynamic_amount =
      if is_neg dynamic_amount
      then nothing_left
      else (let text = format_token_amount dynamic_amount decimals digits_displayed in
          digits (before_dot text) (fraction_of (after_dot text)))

  -- The balance of the card, and the one in the default currency: `none` is a dash.
  unfoldable pub balance_shown : Date → BalanceItem → Result Shown
  balance_shown now item =
      calculate_current_amount p item.amount item.net_flow item.last_update_date now >>= λ amount.
      ok (split_amount item.decimals 6 amount)

  -- A missing rate has no method to compare it.
  abbrev pub converted_at : Date → BalanceItem → ℤ → Result (Option Shown)
  converted_at now item amount =
      if ltb_ℤ amount (pos 0)
      then ok none
      else (defined item.converted_net_flow >>= λ rate.
          calculate_current_amount p amount rate item.last_update_date now >>= λ current.
          ok (some (split_amount item.decimals 2 current)))

  unfoldable pub converted_shown : Date → BalanceItem → Result (Option Shown)
  converted_shown now item = elim item.converted_amount [
    | none ↦ ok none
    | some amount ↦ converted_at now item amount
  ]
