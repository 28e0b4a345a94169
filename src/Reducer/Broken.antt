-- ===== src/Reducer/Broken.antt =====
-- A state that has lost its Super Tokens cannot be formatted.
use superfluid_aragon_app.Prelude.{◌≡◌, none, some, List, ◌∷◌, arith}
use superfluid_aragon_app.Js.{ok, throw, type_error, Error}
use superfluid_aragon_app.Packages.{Packages}
use superfluid_aragon_app.Chain.{App, Chain, Contract}
use superfluid_aragon_app.Helpers.Time.{Date}
use superfluid_aragon_app.Store.Data.{State}
use superfluid_aragon_app.Store.Tokens.{Cache, Settings}
use superfluid_aragon_app.Store.Handlers.{Event, VaultEvent, vault_deposit}
use superfluid_aragon_app.Store.Handlers.Lost.{run, vault_event_loses_tokens}
use superfluid_aragon_app.Reducer.{app_state_reducer}

module _ (p : Packages) (app : App) (settings : Settings) where
  format_without_tokens :
      (now : Date) (state : State)
      → state.super_tokens ≡ none
      → app_state_reducer p now (some state) ≡ throw type_error
  unfolding app_state_reducer
  format_without_tokens now state h = ground arith

  -- One rejected read of the agent's balance while a deposit is handled breaks the app for good:
  -- whatever the chain answers later, and whatever events follow, each state that the store's reducer
  -- returns has `undefined` for the Super Tokens, and the panels' reducer throws a `TypeError` at it.
  pub vault_event_breaks_panels :
      (chain : Chain) (state : State) (event : VaultEvent) (history : List (Chain × Event))
      (cache : Cache) (now : Date) {e : Error} {final : State}
      → ((c : Contract) → chain.balance_of c state.agent_address ≡ throw e)
      → (run p app settings state ((chain, vault_deposit event) ∷ history) cache).0 ≡ ok final
      → (final.super_tokens ≡ none) × (app_state_reducer p now (some final) ≡ throw type_error)
  vault_event_breaks_panels chain state event history cache now {final} h r =
      let lost = vault_event_loses_tokens p app settings chain state event history cache h r in
      (lost, format_without_tokens now final lost)
