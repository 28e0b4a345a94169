-- ===== src/Actions.antt =====
-- The actions of app/src/app-logic.js: the transactions that a panel asks for, and the call of
-- `onDone` after them.
pub mod Outcome
use superfluid_aragon_app.Prelude.{
  ℕ, ℤ, String, Bool, true, false, ◌||◌, Option, none, some, List, [], ◌∷◌, str_eq, if◌then◌else◌,
}
use superfluid_aragon_app.Js.{Result, ok, throw, type_error, Error, ◌>>=◌}
use superfluid_aragon_app.Packages.{Packages}
use superfluid_aragon_app.Chain.{App, Chain, Contract}
use superfluid_aragon_app.Helpers.Decimals.{Text}
use superfluid_aragon_app.Helpers.Web3.{addresses_equal, zero_address}
use superfluid_aragon_app.Helpers.Network.{is_native_super_token}

-- The functions of the CFA contract, as their ABI entries.
pub data Operation : Type 0 where
  create_flow_abi update_flow_abi delete_flow_abi : Operation

-- A parameter of a function of the CFA contract.
pub data Param : Type 0 where
  word : String → Param
  amount : Text → Param

-- A transaction that is sent: through the app's contract, the host, or a Super Token.
pub data Call : Type 0 where
  create_flow update_flow : String → String → Text → String → Call
  delete_own_flow : String → Call
  delete_flow : String → String → Call
  deposit : String → Text → Bool → Call
  withdraw : String → String → Text → Call
  -- the CFA's address, the encoded call, and the user data
  call_agreement : String → Operation → List Param → String → Call
  -- the Super Token, and the amount that is sent along
  upgrade_by_eth : String → Text → Call
  -- the Super Token, the amount, and the token that is approved first
  upgrade : String → Text → String → Call
  downgrade_to_eth downgrade : String → Text → Call

-- What an action did: the calls that it sent, whether it called `onDone`, and how it ended.
pub record Ran : Type 0 where
  pub calls : List Call
  pub done : Bool
  pub outcome : Result (Unit {0})

pub data ConvertOperation : Type 0 where
  upgrade_operation downgrade_operation unknown_operation : ConvertOperation

abbrev pub unknown_convert_operation : Error
unknown_convert_operation = Error.failure 0

-- `userData && userData.length ? userData : '0x'`
abbrev pub or_no_data : Option String → String
or_no_data none = "0x"
or_no_data (some s) = if str_eq s "" then "0x" else s

-- A call that is waited for, and `onDone` after it; a rejection ends the action before `onDone`.
abbrev pub then_done : Call → Result (Unit {0}) → Ran
then_done call (ok u) = record { calls = call ∷ []; done = true; outcome = ok u }
then_done call (throw e) = record { calls = call ∷ []; done = false; outcome = throw e }

-- `answer` says whether a call is accepted, or rejected by the user or the chain.
module _ (answer : Call → Result (Unit {0})) (agent_address cfa_address : String) where
  -- Without a host contract there is no method to call, and nothing is sent.
  unfoldable pub agreement_call :
      Option Contract → Operation → List Param → Option String → List Call
  agreement_call none operation params user_data = []
  agreement_call (some host) operation params user_data =
      call_agreement cfa_address operation params (or_no_data user_data) ∷ []

  -- The `catch` takes every error, so `onDone` is always called.
  unfoldable pub update_flow_action :
      Option Contract → String → String → Text → Option String → Bool → Bool → Ran
  unfolding agreement_call
  update_flow_action host token_address entity flow_rate description is_outgoing_flow
        is_create_operation =
      let flow_description = or_no_data description in
      let incoming_params =
        word token_address ∷ word agent_address ∷ amount flow_rate ∷ word "0x" ∷ [] in
      let calls =
        if is_create_operation
        then (if is_outgoing_flow
            then create_flow token_address entity flow_rate flow_description ∷ []
            else agreement_call host create_flow_abi incoming_params (some flow_description))
        else (if is_outgoing_flow
            then update_flow token_address entity flow_rate flow_description ∷ []
            else agreement_call host update_flow_abi incoming_params (some flow_description)) in
      record { calls = calls; done = true; outcome = ok tt }

  abbrev delete_sent : List Call → Ran
  delete_sent [] = record { calls = []; done = false; outcome = throw type_error }
  delete_sent (c ∷ cs) = record { calls = c ∷ cs; done = true; outcome = ok tt }

  -- The call is not waited for: `onDone` follows at once, unless the host is missing.
  unfoldable pub delete_flow_action : Option Contract → String → String → Bool → Bool → Ran
  unfolding agreement_call
  delete_flow_action host token_address entity is_outgoing_flow is_own_flow = delete_sent (
      if is_outgoing_flow
      then (if is_own_flow
          then delete_own_flow token_address ∷ []
          else delete_flow token_address entity ∷ [])
      else agreement_call host delete_flow_abi
          (word token_address ∷ word entity ∷ word agent_address ∷ word "0x" ∷ []) none)

  unfoldable pub deposit_action : String → Text → Bool → Ran
  deposit_action token_address value is_external_deposit =
      let call = deposit token_address value is_external_deposit in then_done call (answer call)

  unfoldable pub withdraw_action : String → String → Text → Ran
  withdraw_action token_address receiver value =
      let call = withdraw token_address receiver value in then_done call (answer call)

  -- The call that converts, once it is known whether the token wraps the native currency.
  unfoldable pub convert_call : ConvertOperation → String → String → Text → Bool → Result Call
  convert_call upgrade_operation super_token underlying value is_native =
      ok (
        if is_native
        then upgrade_by_eth super_token value
        else upgrade super_token value underlying)
  convert_call downgrade_operation super_token underlying value is_native =
      ok (if is_native then downgrade_to_eth super_token value else downgrade super_token value)
  convert_call unknown_operation super_token underlying value is_native =
      throw unknown_convert_operation

  abbrev send : Result Call → Ran
  send (ok call) = then_done call (answer call)
  send (throw e) = record { calls = []; done = false; outcome = throw e }

  module _ (p : Packages) (app : App) (chain : Chain) where
    -- `||` compares with the zero address only for a token that is not in the table.
    unfoldable pub wraps_native : String → String → ℕ → Result Bool
    wraps_native super_token_address underlying_token_address network_id =
        is_native_super_token p (some super_token_address) network_id >>= λ listed.
        if listed
        then ok true
        else addresses_equal p (some underlying_token_address) (some zero_address)

    unfoldable pub convert_tokens_action : ConvertOperation → String → Text → ℕ → Ran
    unfolding wraps_native convert_call
    convert_tokens_action operation super_token_address value network_id = send (do
      super_token ← app.external super_token_address
      underlying ← chain.underlying_token super_token
      is_native ← wraps_native super_token_address underlying network_id
      convert_call operation super_token_address underlying value is_native)
