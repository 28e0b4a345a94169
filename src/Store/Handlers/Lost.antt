-- ===== src/Store/Handlers/Lost.antt =====
-- What a rejected call inside `updateSuperTokens` does to the state, and to all later states.
use superfluid_aragon_app.Prelude.{
  ℕ, String, ◌≡◌, refl, ap, Bool, true, false, Option, none, some, List, [], ◌∷◌, if◌then◌else◌,
  arith,
}
use superfluid_aragon_app.Js.{Result, ok, throw, Error, caught}
use superfluid_aragon_app.Js.Exec.{
  Exec, pure, lift, continue, ◌>>=◌, Ends, Ends-pure, Ends-any, Ends-bind,
}
use superfluid_aragon_app.Packages.{Packages}
use superfluid_aragon_app.Chain.{App, Chain, Contract}
use superfluid_aragon_app.Store.Data.{Amount, State, FlowUpdated}
use superfluid_aragon_app.Store.Tokens.{
  Cache, Settings, update_super_tokens, refresh_token, get_super_token_contract,
}
use superfluid_aragon_app.Store.Handlers.{
  Event, VaultEvent, flow_updated, vault_transfer, vault_deposit, handle_flow_updated,
  handle_vault_event, record_flow, reduce,
}

module _ (p : Packages) (app : App) (settings : Settings) where
  -- The reducer over a history of events, each with the chain's answers at its time; a rejection
  -- ends it.
  unfoldable pub run : State → List (Chain × Event) → Exec Cache State
  run state [] = pure state
  run state ((chain, event) ∷ rest) = do
    next ← reduce p app chain settings state event
    run next rest

  module _ (chain : Chain) where
    update_super_tokens_lost :
        (state : State) (token : String) (t : ℕ) (net_flow : Option Amount) (cache : Cache)
        → state.super_tokens ≡ none
        → (update_super_tokens p app chain settings state (some token) t net_flow cache).0 ≡ ok none
    unfolding update_super_tokens ◌>>=◌
    update_super_tokens_lost state token t net_flow cache h = ground arith

    refresh_token_fails :
        (state : State) (token : String) (t : ℕ) (net_flow : Option Amount) (c : Contract)
        {e : Error}
        → chain.balance_of c state.agent_address ≡ throw e
        → caught (
            refresh_token p app chain settings state.super_tokens state.agent_address
              (some token)
              t
              net_flow
              c)
          ≡ none
    unfolding refresh_token
    refresh_token_fails state token t net_flow c h = ground arith

    update_super_tokens_fails :
        (state : State) (token : String) (t : ℕ) (net_flow : Option Amount) (cache : Cache)
        {e : Error}
        → ((c : Contract) → chain.balance_of c state.agent_address ≡ throw e)
        → (update_super_tokens p app chain settings state (some token) t net_flow cache).0 ≡ ok none
    unfolding update_super_tokens ◌>>=◌
    update_super_tokens_fails state token t net_flow cache h =
        let (r, s) = get_super_token_contract token (some app) cache in ap ok (after r s)
      where
        after :
            (r : Result Contract) (s : Cache)
            → caught
                (continue r
                  (λ c. lift (
                    refresh_token p app chain settings state.super_tokens state.agent_address
                      (some token)
                      t
                      net_flow
                      c))
                  s).0
              ≡ none
        after (ok c) s = refresh_token_fails state token t net_flow c (h c)
        after (throw e') s = refl

    -- The handler returns no state that holds tokens.
    abbrev Lost : Exec Cache State → Type 0
    Lost = Ends (λ next. next.super_tokens ≡ none)

    update_super_tokens-Ends :
        (state : State) (token : String) (t : ℕ) (net_flow : Option Amount)
        → state.super_tokens ≡ none
        → Ends
            (λ tokens. tokens ≡ none)
            (update_super_tokens p app chain settings state (some token) t net_flow)
    update_super_tokens-Ends state token t net_flow h = record {
      returned = λ s e. cc (update_super_tokens_lost state token t net_flow s h);
    }

    handle_vault_event-Lost :
        (state : State) (event : VaultEvent)
        → state.super_tokens ≡ none
        → Lost (handle_vault_event p app chain settings state event)
    unfolding handle_vault_event
    handle_vault_event-Lost state event h = Ends-bind _ _ (Ends-any _) λ t _.
        Ends-bind _ _ (update_super_tokens-Ends state event.token t none h)
          λ tokens lost. Ends-pure _ lost

    record_flow-Lost :
        (state : State) (event : FlowUpdated)
        → state.super_tokens ≡ none
        → Lost (record_flow p app chain settings state event)
    unfolding record_flow
    record_flow-Lost state event h = Ends-bind _ _ (Ends-any _) λ t _.
        Ends-bind _ _ (Ends-any _) λ sends _.
          Ends-bind _ _ (update_super_tokens-Ends state event.token t _ h) λ tokens lost.
            Ends-bind _ _ (Ends-any _)
              λ senders _. Ends-bind _ _ (Ends-any _) λ flows _. Ends-pure _ lost

    handle_flow_updated-Lost :
        (state : State) (event : FlowUpdated)
        → state.super_tokens ≡ none
        → Lost (handle_flow_updated p app chain settings state event)
    unfolding handle_flow_updated
    handle_flow_updated-Lost state event h =
        Ends-bind _ _ (Ends-any _) λ concerned _. after concerned
      where
        after :
            (concerned : Bool)
            → Lost (if concerned then record_flow p app chain settings state event else pure state)
        after true = record_flow-Lost state event h
        after false = Ends-pure state h

    reduce-Lost :
        (state : State) (event : Event)
        → state.super_tokens ≡ none
        → Lost (reduce p app chain settings state event)
    unfolding reduce
    reduce-Lost state (flow_updated event) h = handle_flow_updated-Lost state event h
    reduce-Lost state (vault_transfer event) h = handle_vault_event-Lost state event h
    reduce-Lost state (vault_deposit event) h = handle_vault_event-Lost state event h
    reduce-Lost state _ h = Ends-pure _ h

    vault_event_fails :
        (state : State) (event : VaultEvent) {e : Error}
        → ((c : Contract) → chain.balance_of c state.agent_address ≡ throw e)
        → Lost (handle_vault_event p app chain settings state event)
    unfolding handle_vault_event
    vault_event_fails state event h =
        Ends-bind _ _ (Ends-any _) λ t _. Ends-bind _ _ (fails t) λ tokens lost. Ends-pure _ lost
      where
        fails :
            (t : ℕ)
            → Ends
                (λ tokens. tokens ≡ none)
                (update_super_tokens p app chain settings state (some event.token) t none)
        fails t = record {
          returned = λ s r. cc (r, update_super_tokens_fails state event.token t none s h);
        }

  run_lost :
      (history : List (Chain × Event)) (state : State)
      → state.super_tokens ≡ none
      → Ends (λ next. next.super_tokens ≡ none) (run state history)
  unfolding run
  run_lost [] state h = Ends-pure state h
  run_lost ((chain, event) ∷ rest) state h =
      Ends-bind _ _ (reduce-Lost chain state event h) λ next lost. run_lost rest next lost

  -- One rejected read of the agent's balance in the handling of a transfer or a deposit loses the
  -- Super Tokens for good: whatever the chain answers later, and whatever events follow, each state
  -- that the reducer returns has `undefined` for them.
  pub vault_event_loses_tokens :
      (chain : Chain) (state : State) (event : VaultEvent) (history : List (Chain × Event))
      (cache : Cache) {e : Error} {final : State}
      → ((c : Contract) → chain.balance_of c state.agent_address ≡ throw e)
      → (run state ((chain, vault_deposit event) ∷ history) cache).0 ≡ ok final
      → final.super_tokens ≡ none
  unfolding run reduce
  vault_event_loses_tokens chain state event history cache h r =
      (Ends-bind _ _ (vault_event_fails chain state event h)
          λ next lost. run_lost history next lost).returned
        cache r
