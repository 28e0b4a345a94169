-- ===== src/Forms/DepositPreset.antt =====
-- app/src/components/SidePanels/Transfer/Deposit.js: the effect that presets the token, which the card of a
-- token asks for (app/src/components/SuperTokens/SuperTokenCard/index.js).
use superfluid_aragon_app.Prelude.{
  pos, ◌≡◌, refl, String, Bool, true, false, Option, none, some, List, All, str_eq, if◌then◌else◌,
}
use superfluid_aragon_app.Js.{Result, ok, ◌>>=◌}
use superfluid_aragon_app.Packages.{Packages}
use superfluid_aragon_app.Helpers.Decimals.{Text}
use superfluid_aragon_app.Helpers.Web3.{IsComparable}
use superfluid_aragon_app.Reducer.{FormattedToken}
use superfluid_aragon_app.Forms.Amounts.{AmountForm, find_super_token_by_address}
use superfluid_aragon_app.Forms.UpdateFlow.Presets.Listed.{listed, HasAddress, tests, locate}
use superfluid_aragon_app.Hooks.Items.{BalanceItem}

-- `onDeposit({ presetTokenAddress: address })`
abbrev pub handle_token_deposit : BalanceItem → Option String
handle_token_deposit item = some item.address

module _ (p : Packages) (at_most_zero : Text → Bool) where
  -- "Set up preset params."
  unfoldable pub deposit_preset_effect :
      List FormattedToken → Option String → AmountForm → Result AmountForm
  deposit_preset_effect super_tokens none form = ok form
  deposit_preset_effect super_tokens (some address) form =
      if str_eq address ""
      then ok form
      else (find_super_token_by_address p at_most_zero address super_tokens >>= λ token.
          ok (record form { selected_token = token }))

  -- The deposit of a card whose token is in the list opens the form on the first token of that address,
  -- whose balance is then fetched; the amount stays.
  pub card_deposit_selects :
      (super_tokens : List FormattedToken) (item : BalanceItem) (form : AmountForm)
      {t : FormattedToken}
      → str_eq item.address "" ≡ false
      → IsComparable p (some item.address)
      → All (HasAddress p) super_tokens
      → listed p item.address super_tokens ≡ some t
      → (opened : AmountForm) × (deposit_preset_effect super_tokens (handle_token_deposit item) form
          ≡ ok opened)
        × (opened.selected_token.address ≡ t.token.address)
        × (opened.selected_token.loading_data ≡ true)
        × (opened.amount ≡ form.amount)
  unfolding deposit_preset_effect find_super_token_by_address
  card_deposit_selects super_tokens item form {t} named comparable h l =
      let (i, found, at_i, its) = locate p item.address super_tokens l in
      (
        record form {
          selected_token = record {
            index = pos i;
            address = t.token.address;
            data' = record {
              decimals = t.token.decimals;
              name = t.token.name;
              symbol = t.token.symbol;
            };
            user_balance = none;
            loading_data = true;
            error = none;
          };
        },
        rw (named, tests p item.address super_tokens comparable h, found, at_i) refl,
        refl,
        refl,
        refl,
      )
