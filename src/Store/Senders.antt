-- ===== src/Store/Senders.antt =====
-- `updateSendersSuperTokens` and `newSuperTokenEntry` of app/src/store/updaters.js: the balances of
-- the accounts that stream to the agent.
pub mod Outcome
use superfluid_aragon_app.Prelude.{
  ℕ, ℤ, String, Bool, true, false, not, Option, none, some, List, [], ◌∷◌, ◌++◌, str_eq,
  if◌then◌else◌, is_zero_ℤ,
}
use superfluid_aragon_app.Js.Exec.{Exec, pure, lift, ◌>>=◌}
use superfluid_aragon_app.Js.Search.{filter_js}
use superfluid_aragon_app.Js
use superfluid_aragon_app.Js.{ok}
use superfluid_aragon_app.Packages.{Packages}
use superfluid_aragon_app.Chain.{Chain}
use superfluid_aragon_app.Helpers.Web3.{addresses_equal}
use superfluid_aragon_app.Store.Data.{Amount, text, number, SenderToken, State, FlowUpdated}
use superfluid_aragon_app.Store.Tokens.{Cache, get_super_token_contract}

-- An object with texts as keys, in insertion order.
abbrev pub Senders : Type 0
Senders = List (String × List SenderToken)

unfoldable pub entry_of : String → Senders → Option (List SenderToken)
entry_of key [] = none
entry_of key ((k, v) ∷ rest) = if str_eq k key then some v else entry_of key rest

unfoldable pub assign : String → List SenderToken → Senders → Senders
assign key v [] = (key, v) ∷ []
assign key v ((k, w) ∷ rest) = if str_eq k key then (k, v) ∷ rest else (k, w) ∷ assign key v rest

-- `x !== 0`: a text is never the number 0.
abbrev pub differs_from_zero : Amount → Bool
differs_from_zero (text n) = true
differs_from_zero (number n) = not (is_zero_ℤ n)

module _ (p : Packages) (chain : Chain) where
  -- The call leaves out the `app` that a missing contract needs.
  unfoldable pub new_super_token_entry : String → String → Amount → ℕ → Exec Cache SenderToken
  new_super_token_entry sender token_address net_flow update_timestamp = do
    token_contract ← get_super_token_contract token_address none
    balance ← lift (chain.balance_of token_contract sender)
    pure (record {
      address = token_address;
      balance = balance;
      net_flow = net_flow;
      last_update_timestamp = update_timestamp;
    })

  abbrev pub other_token : String → SenderToken → Js.Result Bool
  other_token token t = Js.◌>>=◌ (addresses_equal p (some t.address) (some token)) λ b. ok (not b)

  -- A sender that the object does not hold, and one that it holds.
  unfoldable pub write_sender :
      FlowUpdated → ℕ → Senders → Option (List SenderToken) → Exec Cache Senders
  write_sender event update_timestamp senders none = do
    entry ←
        new_super_token_entry event.sender event.token event.total_sender_flow_rate update_timestamp
    pure (assign event.sender (entry ∷ []) senders)
  write_sender event update_timestamp senders (some sender_super_tokens) = do
    others ← lift (filter_js (other_token event.token) sender_super_tokens)
    if differs_from_zero event.total_sender_flow_rate
        then (do
          entry ←
              new_super_token_entry event.sender event.token event.total_sender_flow_rate
                update_timestamp
          pure (assign event.sender (others ++ entry ∷ []) senders))
        else pure senders

  unfoldable pub update_senders_super_tokens : State → FlowUpdated → ℕ → Exec Cache Senders
  update_senders_super_tokens state event update_timestamp = do
    is_incoming ← lift (addresses_equal p (some state.agent_address) (some event.receiver))
    if is_incoming
        then write_sender event update_timestamp state.senders_super_tokens
            (entry_of event.sender state.senders_super_tokens)
        else pure state.senders_super_tokens
