-- ===== src/Actions/Outcome.antt =====
-- What each action sends, and when it calls `onDone`.
use superfluid_aragon_app.Prelude.{
  ℕ, String, ◌≡◌, refl, Bool, true, false, ◌||◌, Option, none, some, [], ◌∷◌, if◌then◌else◌, arith,
}
use superfluid_aragon_app.Js.{Result, ok, throw, is_ok}
use superfluid_aragon_app.Packages.{Packages}
use superfluid_aragon_app.Chain.{App, Chain, Contract}
use superfluid_aragon_app.Helpers.Decimals.{Text}
use superfluid_aragon_app.Helpers.Web3.{addresses_equal-eq-same, same, IsComparable, zero_address}
use superfluid_aragon_app.Helpers.Network.{is_native_super_token, native_super_tokens}
use superfluid_aragon_app.Actions.{
  word, amount, Call, create_flow_abi, update_flow_abi, create_flow, update_flow, call_agreement,
  upgrade_by_eth, upgrade, downgrade_to_eth, downgrade, ConvertOperation, upgrade_operation,
  downgrade_operation, unknown_operation, unknown_convert_operation, or_no_data, update_flow_action,
  convert_call, wraps_native, convert_tokens_action, send, then_done,
}

-- The call through the app's contract, or through the host from the user's own account.
abbrev pub flow_call : String → String → String → String → Text → String → Bool → Bool → Call
flow_call agent cfa token entity rate data' true true = create_flow token entity rate data'
flow_call agent cfa token entity rate data' true false = update_flow token entity rate data'
flow_call agent cfa token entity rate data' false true =
    call_agreement cfa create_flow_abi (word token ∷ word agent ∷ amount rate ∷ word "0x" ∷ [])
      data'
flow_call agent cfa token entity rate data' false false =
    call_agreement cfa update_flow_abi (word token ∷ word agent ∷ amount rate ∷ word "0x" ∷ [])
      data'

pub then_done-calls : (call : Call) (r : Result (Unit {0})) → (then_done call r).calls ≡ call ∷ []
then_done-calls call (ok u) = refl
then_done-calls call (throw e) = refl

pub then_done-done : (call : Call) (r : Result (Unit {0})) → (then_done call r).done ≡ is_ok r
then_done-done call (ok u) = refl
then_done-done call (throw e) = refl

module _ (answer : Call → Result (Unit {0})) (agent_address cfa_address : String) where
  or_no_data_idempotent : (d : Option String) → or_no_data (some (or_no_data d)) ≡ or_no_data d
  or_no_data_idempotent none = refl
  or_no_data_idempotent (some s) = ground arith

  -- With a host contract, creating or updating a flow sends one call, with the description or `0x`:
  -- an outgoing flow through the app's contract, an incoming one to the agent through the host.
  -- `onDone` is called whether the call is accepted or rejected, and no error comes out.
  pub update_flow-calls :
      (host : Contract) (token entity : String) (rate : Text) (description : Option String)
      (outgoing create : Bool)
      → update_flow_action answer agent_address cfa_address
          (some host)
          token
          entity
          rate
          description
          outgoing
          create
        ≡ record {
          calls =
              flow_call agent_address cfa_address token entity rate
                (or_no_data description)
                outgoing
                create
              ∷ [];
          done = true;
          outcome = ok tt;
        }
  unfolding update_flow_action
  update_flow-calls host token entity rate d true true = refl
  update_flow-calls host token entity rate d true false = refl
  update_flow-calls host token entity rate d false true = rw (or_no_data_idempotent d)
  update_flow-calls host token entity rate d false false = rw (or_no_data_idempotent d)

  module _ (p : Packages) (app : App) (chain : Chain) where
    -- Both reads of a conversion are answered, and the addresses can be compared.
    pub record Known (super_token : String) (network_id : ℕ) (c : Contract) (underlying : String)
        : Type 0 where
      pub contract : app.external super_token ≡ ok c
      pub underlying_read : chain.underlying_token c ≡ ok underlying
      pub token_comparable : IsComparable p (some super_token)
      pub native_comparable : IsComparable p (native_super_tokens network_id)
      pub underlying_comparable : IsComparable p (some underlying)
      pub zero_comparable : IsComparable p (some zero_address)

    -- The token is the native one of the network, or wraps the zero address.
    abbrev pub is_native : String → String → ℕ → Bool
    is_native super_token underlying network_id =
        same p (some super_token) (native_super_tokens network_id)
        || same p (some underlying) (some zero_address)

    wraps_native-eq :
        {super_token underlying : String} {network_id : ℕ} {c : Contract}
        → Known super_token network_id c underlying
        → wraps_native answer agent_address cfa_address p app chain super_token underlying
            network_id
          ≡ ok (is_native super_token underlying network_id)
    unfolding wraps_native is_native_super_token
    wraps_native-eq {super_token} {underlying} {network_id} k = ground (
      arith,
      addresses_equal-eq-same p (some super_token) (native_super_tokens network_id)
          k.token_comparable k.native_comparable,
      addresses_equal-eq-same p (some underlying) (some zero_address) k.underlying_comparable
          k.zero_comparable,
    )

    convert_send :
        {super_token underlying : String} {network_id : ℕ} {c : Contract} (o : ConvertOperation)
        (value : Text)
        → Known super_token network_id c underlying
        → convert_tokens_action answer agent_address cfa_address p app chain o super_token value
            network_id
          ≡ send answer agent_address cfa_address (
              convert_call answer agent_address cfa_address o super_token underlying value
                (is_native super_token underlying network_id))
    unfolding convert_tokens_action
    convert_send o value k = rw (k.contract, k.underlying_read, wraps_native-eq k)

    -- Once both reads are answered a conversion sends the one call that fits: with the amount as
    -- value for a token that wraps the native currency, and through the approved underlying token
    -- for any other. `onDone` is called exactly when the call is accepted. An operation that is
    -- neither sends nothing and throws.
    pub convert_tokens-calls :
        {super_token underlying : String} {network_id : ℕ} {c : Contract} (value : Text)
        → Known super_token network_id c underlying
        → let native = is_native super_token underlying network_id in
          let run = λ (o : ConvertOperation).
            convert_tokens_action answer agent_address cfa_address p app chain o super_token value
              network_id in
          let up =
            if native
            then upgrade_by_eth super_token value
            else upgrade super_token value underlying in
          let down =
            if native then downgrade_to_eth super_token value else downgrade super_token value in
          ((run upgrade_operation).calls ≡ up ∷ [])
          × ((run upgrade_operation).done ≡ is_ok (answer up))
          × ((run downgrade_operation).calls ≡ down ∷ [])
          × ((run downgrade_operation).done ≡ is_ok (answer down))
          × ((run unknown_operation).calls ≡ [])
          × ((run unknown_operation).outcome ≡ throw unknown_convert_operation)
    unfolding convert_call
    convert_tokens-calls {super_token} {underlying} {network_id} value k = (
      rw (convert_send upgrade_operation value k) (then_done-calls up (answer up)),
      rw (convert_send upgrade_operation value k) (then_done-done up (answer up)),
      rw (convert_send downgrade_operation value k) (then_done-calls down (answer down)),
      rw (convert_send downgrade_operation value k) (then_done-done down (answer down)),
      rw (convert_send unknown_operation value k),
      rw (convert_send unknown_operation value k),
    )
      where
        native : Bool
        native = is_native super_token underlying network_id

        up : Call
        up =
            if native
            then upgrade_by_eth super_token value
            else upgrade super_token value underlying

        down : Call
        down = if native then downgrade_to_eth super_token value else downgrade super_token value
