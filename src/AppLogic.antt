-- ===== src/AppLogic.antt =====
-- app/src/app-logic.js (useAppLogic): the requests of the forms become actions, and an action closes the
-- panel that asked for it, through requestTransaction of app/src/hooks/usePanelState.js. With
-- app/src/hooks/useContract.js, which gives the host.
pub mod Outcome
use superfluid_aragon_app.Prelude.{ℕ, String, Option, none, some, str_eq, if◌then◌else◌}
use superfluid_aragon_app.Js.{Result, ok, ◌>>=◌}
use superfluid_aragon_app.Packages.{Packages}
use superfluid_aragon_app.Chain.{App, Chain, Contract}
use superfluid_aragon_app.Actions.{
  Call, Ran, update_flow_action, deposit_action, withdraw_action, convert_tokens_action,
}
use superfluid_aragon_app.Forms.Amounts.{
  Request, deposit_request, withdraw_request, convert_request,
}
use superfluid_aragon_app.Forms.UpdateFlow.{FlowRequest}
use superfluid_aragon_app.Hooks.Panel.{
  Panel, request_close, request_transaction, transaction_settled, pass_time,
}

-- `null` without an address.
unfoldable pub use_contract : App → Option String → Result (Option Contract)
use_contract app none = ok none
use_contract app (some address) =
    if str_eq address "" then ok none else (app.external address >>= λ c. ok (some c))

-- `requestTransaction(fn, params)`, where `fn` settles after `ms` milliseconds: `onDone`, which closes
-- the panel, comes before the end of the waiting.
module _ {P : Type 0} (empty : P) where
  abbrev pub closed_if_done : Ran → Panel P → Panel P
  closed_if_done ran s = if ran.done then request_close s else s

  unfoldable pub run_transaction : ℕ → Ran → Panel P → Panel P
  run_transaction ms ran s =
      transaction_settled (closed_if_done ran (pass_time empty ms (request_transaction s)))

module _ (answer : Call → Result (Unit {0})) (agent_address cfa_address : String) where
  -- `[onUpdateFlow, [...]]` of the flow form.
  unfoldable pub run_flow_request : Option Contract → FlowRequest → Ran
  run_flow_request host r =
      update_flow_action answer agent_address cfa_address host r.token_address r.recipient
        r.flow_rate r.description r.is_outgoing r.is_create

  -- The actions that the other panels pass to their forms.
  unfoldable pub run_request : Packages → App → Chain → ℕ → Request → Ran
  run_request p app chain network_id (deposit_request token amount external) =
      deposit_action answer agent_address cfa_address token amount external
  run_request p app chain network_id (withdraw_request token receiver amount) =
      withdraw_action answer agent_address cfa_address token receiver amount
  run_request p app chain network_id (convert_request operation token amount) =
      convert_tokens_action answer agent_address cfa_address p app chain operation token amount
        network_id
