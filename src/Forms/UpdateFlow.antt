-- ===== src/Forms/UpdateFlow.antt =====
-- app/src/components/SidePanels/UpdateFlow/index.js: the form that creates or updates a flow, with the
-- rates of app/src/helpers/superfluid.js. JavaScript's numbers are a parameter.
pub mod Existing
pub mod Presets
pub mod Description
use superfluid_aragon_app.Prelude.{
  ℕ, zero, suc, ℤ, pos, negsuc, is_zero_ℤ, String, Bool, true, false, ◌||◌, ◌&&◌, not, Option, none,
  some, List, [], ◌∷◌, get_elem?, str_eq, if◌then◌else◌, ◌==◌,
}
use superfluid_aragon_app.Js.{Result, ok, throw, type_error, defined, ◌>>=◌}
use superfluid_aragon_app.Js.Search.{find_index_js}
use superfluid_aragon_app.Packages.{Packages}
use superfluid_aragon_app.Helpers.Decimals
use superfluid_aragon_app.Helpers.Decimals.{
  Text, Numeral, count, from_decimals, to_decimals, is_empty, zero_char,
}
use superfluid_aragon_app.Helpers.Web3.{addresses_equal}
use superfluid_aragon_app.Helpers.Time.{Date, month}
use superfluid_aragon_app.Helpers.Amounts.{calculate_current_amount}
use superfluid_aragon_app.Store.Data.{Amount, value}
use superfluid_aragon_app.Reducer.{FormattedToken, FormattedFlow}
use superfluid_aragon_app.Forms.Selector.{SelectedToken, initial_selected_token}
use superfluid_aragon_app.Forms.Amounts.{decimals_of}

-- JavaScript's numbers, where the app computes with fractions.
pub record Floats (N : Type 0) : Type 0 where
  -- `Number(s)`, and a whole number
  pub of_text : Text → N
  pub of_int : ℤ → N
  pub to_text : N → Text
  pub add : N → N → N
  pub mul : N → N → N
  pub less : N → N → Bool
  pub at_most_zero : N → Bool
  pub is_nan : N → Bool

pub data Message : Type 0 where
  message : String → Message
  -- "Required deposit exceeds current … balance."
  deposit_exceeds : Option String → Message

pub record FlowForm : Type 0 where
  -- 0 for incoming, 1 for outgoing
  pub selected_flow_type : ℕ
  pub recipient : String
  pub selected_token : SelectedToken
  pub flow_rate : Text
  pub description : String
  pub error_message : Option Message

abbrev pub no_error : Option Message
no_error = some (message "")

abbrev pub cleared_form : FlowForm
cleared_form = record {
  selected_flow_type = 1;
  recipient = "";
  selected_token = initial_selected_token;
  flow_rate = zero_char ∷ [];
  description = "";
  error_message = none;
}

abbrev pub outgoing_selected : FlowForm → Bool
outgoing_selected form = form.selected_flow_type == 1

-- Incoming flows have the agent as their recipient.
unfoldable pub handle_flow_type_change : String → ℕ → FlowForm → FlowForm
handle_flow_type_change agent_address index form = record form {
  recipient = if index == 0 then agent_address else "";
  selected_token = initial_selected_token;
  selected_flow_type = index;
  error_message = no_error;
}

unfoldable pub handle_recipient_change : String → FlowForm → FlowForm
handle_recipient_change value form = record form { recipient = value; error_message = no_error }

unfoldable pub handle_token_change : SelectedToken → FlowForm → FlowForm
handle_token_change value form = record form { selected_token = value; error_message = no_error }

unfoldable pub handle_flow_rate_change : Text → FlowForm → FlowForm
handle_flow_rate_change value form = record form { flow_rate = value; error_message = no_error }

unfoldable pub handle_description_change : String → FlowForm → FlowForm
handle_description_change value form = record form { description = value; error_message = no_error }

-- `&&` on tests that may throw.
abbrev pub and_then : Bool → Result Bool → Result Bool
and_then true rest = rest
and_then false rest = ok false

abbrev pub flow_found : List FormattedFlow → Option ℕ → Option FormattedFlow
flow_found flows none = none
flow_found flows (some i) = get_elem? flows i

-- What a submission asks for: the arguments of `onUpdateFlow`.
pub record FlowRequest : Type 0 where
  pub token_address : String
  pub recipient : String
  pub flow_rate : Text
  pub description : Option String
  pub is_outgoing : Bool
  pub is_create : Bool

pub data RequiredDeposit (N : Type 0) : Type 0 where
  -- `null`, `undefined`, and a number
  no_deposit undefined_deposit : RequiredDeposit N
  deposit : N → RequiredDeposit N

module _ {N : Type 0} (p : Packages) (floats : Floats N) where
  unfoldable pub calculate_new_flow_rate : Option FormattedFlow → Text → Text
  calculate_new_flow_rate none flow_rate = flow_rate
  calculate_new_flow_rate (some flow) flow_rate = floats.to_text (
      floats.add (floats.of_text (from_decimals p (Decimals.bn flow.flow_rate) (count 18) true))
        (floats.of_text flow_rate))

  -- A big number, a text or a number, times the seconds of a month.
  unfoldable pub to_monthly_rate : Numeral → Result N
  to_monthly_rate (Decimals.bn n) =
      p.bn_to_number n >>= λ k. ok (floats.mul (floats.of_int k) (floats.of_int (pos month)))
  to_monthly_rate (Decimals.text s) = ok (floats.mul (floats.of_text s) (floats.of_int (pos month)))
  to_monthly_rate (Decimals.number s) =
      ok (floats.mul (floats.of_text s) (floats.of_int (pos month)))

  unfoldable pub calculate_required_deposit : Text → ℤ → RequiredDeposit N
  calculate_required_deposit flow_rate liquidation_period =
      if is_empty flow_rate
        || floats.is_nan (floats.of_text flow_rate)
        || is_zero_ℤ liquidation_period
      then undefined_deposit
      else deposit (floats.mul (floats.of_text flow_rate) (floats.of_int liquidation_period))

  -- The deposit of the token at the index of the list, `null` for a custom token.
  abbrev pub required_deposit : List FormattedToken → FlowForm → ℤ → Result (RequiredDeposit N)
  required_deposit super_tokens form (negsuc i) = ok no_deposit
  required_deposit super_tokens form (pos i) = defined (get_elem? super_tokens i) >>= λ t.
      ok (calculate_required_deposit form.flow_rate t.liquidation_period_seconds)

  -- `text < requiredDeposit`: `null` is 0, and nothing is less than `undefined`.
  abbrev pub below : Text → RequiredDeposit N → Bool
  below balance no_deposit = floats.less (floats.of_text balance) (floats.of_int (pos 0))
  below balance undefined_deposit = false
  below balance (deposit n) = floats.less (floats.of_text balance) n

  -- A missing balance has no method to split it.
  abbrev pub numeral_of : Option Amount → Result Numeral
  numeral_of none = throw type_error
  numeral_of (some a) = ok (Decimals.bn (value a))

  abbrev pub balance_error : Numeral → Option ℕ → Option String → RequiredDeposit N → Option Message
  balance_error balance decimals symbol deposit' =
      if below (from_decimals p balance (decimals_of decimals) true) deposit'
      then some (deposit_exceeds symbol)
      else none

  -- The last check: a custom token by its fetched data, another by the token of the list.
  abbrev pub deposit_error :
      Date → List FormattedToken → FlowForm → RequiredDeposit N → ℤ → Result (Option Message)
  deposit_error now super_tokens form deposit' (negsuc zero) =
      numeral_of form.selected_token.user_balance >>= λ balance. ok (
        balance_error balance form.selected_token.data'.decimals form.selected_token.data'.symbol
          deposit')
  deposit_error now super_tokens form deposit' (negsuc (suc n)) = defined none
  deposit_error now super_tokens form deposit' (pos i) = defined (get_elem? super_tokens i) >>= λ t.
      (if outgoing_selected form
        then (calculate_current_amount p t.balance t.net_flow t.last_update_date now >>= λ b.
            ok (Decimals.bn b))
        else numeral_of form.selected_token.user_balance)
      >>= λ balance. ok (balance_error balance t.token.decimals t.token.symbol deposit')

  unfoldable pub validate_fields :
      Date → String → List FormattedToken → FlowForm → RequiredDeposit N → Result (Option Message)
  validate_fields now agent_address super_tokens form deposit' =
      if not (p.is_address form.recipient)
      then ok (some (message "Recipient must be a valid Ethereum address."))
      else ((if outgoing_selected form
            then addresses_equal p (some form.recipient) (some agent_address)
            else ok false)
          >>= λ to_agent.
              if to_agent
              then ok (some (message "You can't create a flow to the app's agent."))
              else if floats.at_most_zero (floats.of_text form.flow_rate)
              then ok (some (message "Flow rate provided can't be negative nor zero."))
              else deposit_error now super_tokens form deposit' form.selected_token.index)

  -- The test of `flows.findIndex`.
  abbrev pub is_existing : FlowForm → String → FormattedFlow → Result Bool
  is_existing form connected_account flow = and_then (not flow.is_cancelled) (
      and_then (if outgoing_selected form then not flow.is_incoming else flow.is_incoming) (
        addresses_equal p (some flow.entity)
          (some (if outgoing_selected form then form.recipient else connected_account))
        >>= λ same_entity.
            and_then same_entity (
              addresses_equal p (some flow.super_token_address)
                (some form.selected_token.address))))

  unfoldable pub existing_flow :
      List FormattedFlow → String → Bool → FlowForm → Result (Option FormattedFlow)
  existing_flow flows connected_account is_flow_update_operation form =
      if is_flow_update_operation
        || not (p.is_address form.recipient)
        || not (p.is_address form.selected_token.address)
      then ok none
      else (find_index_js (is_existing form connected_account) flows >>= λ index.
          ok (flow_found flows index))

  -- web3-eth-abi: `encodeParameter('string', description)`
  module _ (encode_string : String → String) where
    abbrev pub encoded : String → Option String
    encoded description = if str_eq description "" then none else some (encode_string description)

    abbrev pub is_none : Option FormattedFlow → Bool
    is_none none = true
    is_none (some f) = false

    abbrev pub flow_request : FlowForm → Bool → Option FormattedFlow → FlowRequest
    flow_request form is_flow_update_operation existing = record {
      token_address = form.selected_token.address;
      recipient = form.recipient;
      flow_rate =
          to_decimals p (Decimals.text (calculate_new_flow_rate existing form.flow_rate))
            (decimals_of form.selected_token.data'.decimals) true;
      description = encoded form.description;
      is_outgoing = outgoing_selected form;
      is_create = not is_flow_update_operation && is_none existing;
    }

    abbrev pub submitted :
        FlowForm → Bool → Option FormattedFlow → Option Message → FlowForm × Option FlowRequest
    submitted form update existing (some m) = (record form { error_message = some m }, none)
    submitted form update existing none = (form, some (flow_request form update existing))

    -- The deposit and the existing flow are computed at the render before.
    unfoldable pub handle_submit :
        Date
        → String
        → String
        → List FormattedToken
        → List FormattedFlow
        → Bool
        → FlowForm
        → Result (FlowForm × Option FlowRequest)
    handle_submit now agent_address connected_account super_tokens flows is_flow_update_operation
          form =
        required_deposit super_tokens form form.selected_token.index >>= λ deposit'.
        existing_flow flows connected_account is_flow_update_operation form >>= λ existing.
        validate_fields now agent_address super_tokens form deposit' >>= λ error.
        ok (submitted form is_flow_update_operation existing error)
