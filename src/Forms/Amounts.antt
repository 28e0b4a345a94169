-- ===== src/Forms/Amounts.antt =====
-- The forms with an amount: app/src/components/SidePanels/Transfer/Deposit.js and Withdrawal.js, and
-- app/src/components/SidePanels/Convert/Upgrade.js and Downgrade.js.
use superfluid_aragon_app.Prelude.{
  ℕ, zero, suc, ℤ, pos, negsuc, String, Bool, true, false, ◌||◌, not, Option, none, some, List, [],
  map, get_elem?, str_eq, if◌then◌else◌,
}
use superfluid_aragon_app.Js.{Result, ok, throw, type_error, defined, ◌>>=◌}
use superfluid_aragon_app.Js.Search.{find_index_js}
use superfluid_aragon_app.Packages.{Packages}
use superfluid_aragon_app.Helpers.Decimals
use superfluid_aragon_app.Helpers.Decimals.{
  Text, Numeral, Decimals, count, from_decimals, to_decimals, is_empty,
}
use superfluid_aragon_app.Helpers.Web3.{addresses_equal}
use superfluid_aragon_app.Store.Data.{Amount, value}
use superfluid_aragon_app.Reducer.{FormattedToken}
use superfluid_aragon_app.Actions.{ConvertOperation, upgrade_operation, downgrade_operation}
use superfluid_aragon_app.Forms.Selector.{
  SelectedToken, SelectionError, TokenItem, invalid_token, no_token_balance, initial_selected_token,
  lacks_balance,
}

-- The state of the deposit, upgrade and downgrade forms.
pub record AmountForm : Type 0 where
  pub selected_token : SelectedToken
  pub amount : Text
  pub error_message : Option String

pub record WithdrawalForm : Type 0 where
  pub selected_token : SelectedToken
  pub recipient : String
  pub amount : Text
  pub error_message : Option String

-- What a submission asks for: `onDeposit`, `onWithdraw` or `onConvert` with its arguments.
pub data Request : Type 0 where
  deposit_request : String → Text → Bool → Request
  withdraw_request : String → String → Text → Request
  convert_request : ConvertOperation → String → Text → Request

abbrev pub empty_form : AmountForm
empty_form = record {
  selected_token = initial_selected_token;
  amount = [];
  error_message = some "";
}

abbrev pub empty_withdrawal : WithdrawalForm
empty_withdrawal = record {
  selected_token = initial_selected_token;
  recipient = "";
  amount = [];
  error_message = some "";
}

unfoldable pub handle_token_change : SelectedToken → AmountForm → AmountForm
handle_token_change token form = record form { selected_token = token; error_message = some "" }

unfoldable pub handle_amount_change : Text → AmountForm → AmountForm
handle_amount_change value form = record form { amount = value; error_message = some "" }

-- The decimals that the helpers take, 18 for `undefined`.
abbrev pub decimals_of : Option ℕ → Decimals
decimals_of none = count 18
decimals_of (some n) = count n

abbrev pub max_amount : Packages → AmountForm → Option ℕ → Option Amount → AmountForm
max_amount p form (some (suc n)) (some balance) =
    if lacks_balance (some balance)
    then form
    else record form { amount = from_decimals p (Decimals.bn (value balance)) (count (suc n)) true }
max_amount p form _ _ = form

-- No decimals, or no balance: nothing to do.
unfoldable pub handle_max_amount : Packages → AmountForm → AmountForm
handle_max_amount p form =
    max_amount p form form.selected_token.data'.decimals form.selected_token.user_balance

abbrev pub is_message : Option String → Bool
is_message none = false
is_message (some m) = not (str_eq m "")

-- `Boolean(errorMessage || !selectedToken.address || !amount)`
unfoldable pub disable_submit : AmountForm → Bool
disable_submit form =
    is_message form.error_message || str_eq form.selected_token.address "" || is_empty form.amount

abbrev pub is_invalid : Option SelectionError → Bool
is_invalid (some invalid_token) = true
is_invalid _ = false

abbrev pub is_without_balance : Option SelectionError → Bool
is_without_balance (some no_token_balance) = true
is_without_balance _ = false

-- The token at the address, as `findSuperTokenByAddress` returns it.
abbrev pub found_token : List FormattedToken → Option ℕ → Result SelectedToken
found_token super_tokens none = throw type_error
found_token super_tokens (some i) = defined (get_elem? super_tokens i) >>= λ t. ok (record {
  index = pos i;
  address = t.token.address;
  data' = record { decimals = t.token.decimals; name = t.token.name; symbol = t.token.symbol };
  user_balance = none;
  loading_data = true;
  error = none;
})

-- `underlyingTokens` of the upgrade form: the items of its selector.
unfoldable pub underlying_tokens : List FormattedToken → List TokenItem
underlying_tokens super_tokens =
    map
      (λ t. record {
        address = t.token.underlying_token.address;
        data' = record {
          decimals = t.token.underlying_token.decimals;
          name = t.token.underlying_token.name;
          symbol = t.token.underlying_token.symbol;
        };
      })
      super_tokens

-- `at_most_zero s` is `Number(s) <= 0`, which is false for a text that is no number.
module _ (p : Packages) (at_most_zero : Text → Bool) where
  unfoldable pub find_super_token_by_address : String → List FormattedToken → Result SelectedToken
  find_super_token_by_address a super_tokens =
      find_index_js (λ t. addresses_equal p (some t.token.address) (some a)) super_tokens
      >>= λ index. found_token super_tokens index

  abbrev pub amount_error : Text → Option String
  amount_error amount =
      if at_most_zero amount then some "Amount provided can't be negative nor zero." else none

  -- The checks that three of the forms make in the same order, with messages of their own.
  abbrev pub token_error : String → String → SelectedToken → Text → Option String
  token_error balance_message address_message token amount =
      if is_invalid token.error
      then some "Super Token address provided must be a valid Super Token contract."
      else if is_without_balance token.error
      then some balance_message
      else if not (p.is_address token.address)
      then some address_message
      else amount_error amount

  unfoldable pub validate_deposit : SelectedToken → Text → Option String
  validate_deposit =
      token_error "You don't have super tokens to deposit."
        "Super Token address must be a valid Ethereum address."

  unfoldable pub validate_upgrade : SelectedToken → Text → Option String
  validate_upgrade =
      token_error "You don't have tokens to upgrade."
        "Token address must be a valid Ethereum address."

  unfoldable pub validate_downgrade : SelectedToken → Text → Option String
  validate_downgrade =
      token_error "You don't have super tokens to downgrade."
        "Super Token address must be a valid Ethereum address."

  unfoldable pub validate_withdrawal : String → Text → Option String
  validate_withdrawal recipient amount =
      if not (p.is_address recipient)
      then some "Recipient must be a valid Ethereum address."
      else amount_error amount

  abbrev pub adjusted_amount : AmountForm → Text
  adjusted_amount form =
      to_decimals p (Decimals.text form.amount) (decimals_of form.selected_token.data'.decimals)
        true

  -- A message ends the submission and is shown.
  abbrev pub unless_error :
      AmountForm → Option String → Result Request → Result (AmountForm × Option Request)
  unless_error form (some message) request = ok (record form { error_message = some message }, none)
  unless_error form none request = request >>= λ r. ok (form, some r)

  unfoldable pub submit_deposit : AmountForm → Result (AmountForm × Option Request)
  unfolding validate_deposit
  submit_deposit form =
      unless_error form (validate_deposit form.selected_token form.amount)
        (ok (deposit_request form.selected_token.address (adjusted_amount form) true))

  -- The address of the Super Token: the custom one, or the one at the index of its underlying token.
  abbrev pub super_token_address : List FormattedToken → ℤ → String → Result String
  super_token_address super_tokens (pos i) custom =
      defined (get_elem? super_tokens i) >>= λ t. ok t.token.address
  super_token_address super_tokens (negsuc zero) custom = ok custom
  super_token_address super_tokens (negsuc (suc n)) custom = throw type_error

  unfoldable pub submit_upgrade :
      List FormattedToken → AmountForm → Result (AmountForm × Option Request)
  unfolding validate_upgrade
  submit_upgrade super_tokens form =
      unless_error form (validate_upgrade form.selected_token form.amount) (
        super_token_address super_tokens form.selected_token.index form.selected_token.address
        >>= λ a. ok (convert_request upgrade_operation a (adjusted_amount form)))

  unfoldable pub submit_downgrade : AmountForm → Result (AmountForm × Option Request)
  unfolding validate_downgrade
  submit_downgrade form =
      unless_error form (validate_downgrade form.selected_token form.amount) (
        ok (convert_request downgrade_operation form.selected_token.address (adjusted_amount form)))

  abbrev pub withdrawn : WithdrawalForm → Option String → WithdrawalForm × Option Request
  withdrawn form (some message) = (record form { error_message = some message }, none)
  withdrawn form none = (
    form,
    some (
        withdraw_request form.selected_token.address form.recipient (
          to_decimals p (Decimals.text form.amount) (decimals_of form.selected_token.data'.decimals)
            true)),
  )

  unfoldable pub submit_withdrawal : WithdrawalForm → WithdrawalForm × Option Request
  unfolding validate_withdrawal
  submit_withdrawal form = withdrawn form (validate_withdrawal form.recipient form.amount)
