-- ===== src/Forms/Submission.antt =====
-- What a submission of the forms with an amount asks for.
use superfluid_aragon_app.Prelude.{
  ℕ, zero, suc, ℤ, pos, ◌+ℤ◌, ◌-ℤ◌, ◌≡◌, refl, ◌∙◌, String, Bool, true, ◌&&◌, not, Option, none,
  some, List, [], ◌∷◌, get_elem?, if◌then◌else◌, arith,
}
use superfluid_aragon_app.Js.{Result, ok}
use superfluid_aragon_app.Packages.{Packages}
use superfluid_aragon_app.Helpers.Decimals.{Text, to_decimals}
use superfluid_aragon_app.Helpers.Decimals
use superfluid_aragon_app.Reducer.{FormattedToken}
use superfluid_aragon_app.Actions.{upgrade_operation, downgrade_operation}
use superfluid_aragon_app.Forms.Selector.{TokenItem, handle_drop_down_change, selected_item}
use superfluid_aragon_app.Forms.Amounts.{
  AmountForm, WithdrawalForm, Request, deposit_request, withdraw_request, convert_request,
  is_invalid, is_without_balance, adjusted_amount, validate_deposit, validate_downgrade,
  validate_upgrade, validate_withdrawal, submit_deposit, submit_downgrade, submit_upgrade,
  submit_withdrawal, underlying_tokens, decimals_of,
}

module _ (p : Packages) (at_most_zero : Text → Bool) where
  -- The token was not refused and has a balance, its address is one, and the amount is above 0.
  abbrev pub ready : AmountForm → Bool
  ready form =
      not (is_invalid form.selected_token.error)
      && not (is_without_balance form.selected_token.error)
      && p.is_address form.selected_token.address
      && not (at_most_zero form.amount)

  -- What a submission asks for where the form is ready, and the message that it shows where not.
  abbrev pub asks : AmountForm → Option String → Request → Result (AmountForm × Option Request)
  asks form message request =
      if ready form
      then ok (form, some request)
      else ok (record form { error_message = message }, none)

  -- A deposit and a downgrade ask for the selected token and the scaled amount exactly when the form
  -- is ready: the token was not refused, has a balance and an address, and the amount is above 0. A
  -- form that is not ready shows the message of its first failed check and asks for nothing.
  pub deposit_and_downgrade_ask :
      (form : AmountForm)
      → (submit_deposit p at_most_zero form
          ≡ asks form (validate_deposit p at_most_zero form.selected_token form.amount) (
              deposit_request form.selected_token.address
                (adjusted_amount p at_most_zero form)
                true))
        × (submit_downgrade p at_most_zero form
            ≡ asks form (validate_downgrade p at_most_zero form.selected_token form.amount) (
                convert_request downgrade_operation form.selected_token.address
                  (adjusted_amount p at_most_zero form)))
  unfolding submit_deposit submit_downgrade
  deposit_and_downgrade_ask form = (ground arith, ground arith)

  item_of-map :
      (tokens : List FormattedToken) (i : ℕ) {t : FormattedToken}
      → get_elem? tokens i ≡ some t
      → get_elem? (underlying_tokens tokens) i
        ≡ some (record {
          address = t.token.underlying_token.address;
          data' = record {
            decimals = t.token.underlying_token.decimals;
            name = t.token.underlying_token.name;
            symbol = t.token.underlying_token.symbol;
          };
        })
  unfolding underlying_tokens
  item_of-map [] i h = cc
  item_of-map (x ∷ xs) zero h = cc
  item_of-map (x ∷ xs) (suc i) h = item_of-map xs i h

  item_before : (i : ℕ) → pos (suc i) -ℤ pos 1 ≡ pos i
  unfolding ◌+ℤ◌ ◌-ℤ◌
  item_before i = ground arith

  index-selected_item : (k : ℤ) (o : Option TokenItem) → (selected_item k true o).index ≡ k
  index-selected_item k none = refl
  index-selected_item k (some t) = refl

  ready_upgrade :
      (form : AmountForm)
      → ready form ≡ true
      → validate_upgrade p at_most_zero form.selected_token form.amount ≡ none
  unfolding validate_upgrade
  ready_upgrade form r = ground arith

  -- An upgrade asks for the Super Token whose underlying token was chosen: where the drop-down, with
  -- its "Other…" first, stands on the item after `i`, the selector has the address of the underlying
  -- token of the `i`-th Super Token, and the form, once it is ready, asks to upgrade that Super Token.
  pub upgrade_asks_super_token :
      (tokens : List FormattedToken) (i : ℕ) (form : AmountForm) {t : FormattedToken}
      → get_elem? tokens i ≡ some t
      → form.selected_token.index
        ≡ (handle_drop_down_change (underlying_tokens tokens) true true (pos (suc i))).1.index
      → ready form ≡ true
      → ((handle_drop_down_change (underlying_tokens tokens) true true (pos (suc i))).1.address
          ≡ t.token.underlying_token.address)
        × (submit_upgrade p at_most_zero tokens form
            ≡ ok (
              form,
              some (
                  convert_request upgrade_operation t.token.address
                    (adjusted_amount p at_most_zero form)),
            ))
  unfolding handle_drop_down_change submit_upgrade
  upgrade_asks_super_token tokens i form h index r =
      let own = index ∙ index-selected_item _ _ ∙ item_before i in
      (rw (item_before i, item_of-map tokens i h), rw (ready_upgrade form r, own, h))

  -- A withdrawal asks for the selected token, the recipient and the scaled amount exactly when the
  -- recipient is an address and the amount is above 0; whether a token is selected is not checked.
  pub withdrawal_asks :
      (form : WithdrawalForm)
      → submit_withdrawal p at_most_zero form ≡ (
          if p.is_address form.recipient && not (at_most_zero form.amount)
          then (
            form,
            some (
                withdraw_request form.selected_token.address form.recipient (
                  to_decimals p
                    (Decimals.text form.amount)
                    (decimals_of form.selected_token.data'.decimals)
                    true)),
          )
          else (
            record form {
              error_message = validate_withdrawal p at_most_zero form.recipient form.amount;
            },
            none,
          ))
  unfolding submit_withdrawal
  withdrawal_asks form = ground arith
