-- ===== src/Store/Handlers.antt =====
-- app/src/store/event-handlers.js, and the reducer that app/src/script.js gives to `app.store`.
pub mod Lost
pub mod Sound
pub mod History
use superfluid_aragon_app.Prelude.{ℕ, String, Bool, true, false, Option, none, some, if◌then◌else◌}
use superfluid_aragon_app.Js
use superfluid_aragon_app.Js.{Result, ok}
use superfluid_aragon_app.Js.Exec.{Exec, pure, lift, ◌>>=◌}
use superfluid_aragon_app.Packages.{Packages}
use superfluid_aragon_app.Chain.{App, Chain}
use superfluid_aragon_app.Helpers.Web3.{addresses_equal}
use superfluid_aragon_app.Store.Data.{Amount, State, FlowUpdated}
use superfluid_aragon_app.Store.Flows.{update_flows}
use superfluid_aragon_app.Store.Tokens.{Cache, Settings, update_super_tokens}
use superfluid_aragon_app.Store.Senders.{update_senders_super_tokens}

-- An event of the agent that moves a token of the vault.
pub record VaultEvent : Type 0 where
  pub token : String
  pub block_number : ℕ

-- What the store receives: events of the contracts, of the subscriptions and of the Aragon client.
pub data Event : Type 0 where
  flow_updated : FlowUpdated → Event
  vault_transfer vault_deposit : VaultEvent → Event
  sync_status_syncing : ℕ → Event
  external_subscription_synced : Event
  other : Event

module _ (p : Packages) (app : App) (chain : Chain) (settings : Settings) where
  -- `||` compares with the receiver only where the sender is another account.
  unfoldable pub is_agent_sender : String → String → String → Result Bool
  is_agent_sender agent_address sender receiver =
      Js.◌>>=◌ (addresses_equal p (some agent_address) (some sender))
        λ sends. if sends then ok true else addresses_equal p (some agent_address) (some receiver)

  -- The rest of `handleFlowUpdated`, for an event of the agent: the tokens, then the senders, which
  -- find the contract of the token in the cache, then the flows.
  unfoldable pub record_flow : State → FlowUpdated → Exec Cache State
  record_flow state event = do
    timestamp ← lift (chain.block_timestamp event.block_number)
    sends ← lift (addresses_equal p (some state.agent_address) (some event.sender))
    new_super_tokens ←
        update_super_tokens p app chain settings state (some event.token) timestamp
          (some (if sends then event.total_sender_flow_rate else event.total_receiver_flow_rate))
    new_senders ← update_senders_super_tokens p chain state event timestamp
    flows ← lift (update_flows p state event timestamp)
    pure (record state {
      super_tokens = new_super_tokens;
      flows = flows;
      senders_super_tokens = new_senders;
    })

  unfoldable pub handle_flow_updated : State → FlowUpdated → Exec Cache State
  handle_flow_updated state event = do
    concerned ← lift (is_agent_sender state.agent_address event.sender event.receiver)
    if concerned then record_flow state event else pure state

  unfoldable pub handle_vault_event : State → VaultEvent → Exec Cache State
  handle_vault_event state event = do
    timestamp ← lift (chain.block_timestamp event.block_number)
    new_super_tokens ←
        update_super_tokens p app chain settings state (some event.token) timestamp none
    pure (record state { super_tokens = new_super_tokens })

  -- The handlers' promises are returned and not awaited, so the `catch` does not see them reject.
  unfoldable pub reduce : State → Event → Exec Cache State
  reduce state (flow_updated event) = handle_flow_updated state event
  reduce state (vault_transfer event) = handle_vault_event state event
  reduce state (vault_deposit event) = handle_vault_event state event
  reduce state (sync_status_syncing to) =
      pure (record state { is_syncing = true; cached_block_number = some to })
  reduce state external_subscription_synced = pure (record state { is_syncing = false })
  reduce state other = pure state
