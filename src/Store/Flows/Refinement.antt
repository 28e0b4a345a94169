-- ===== src/Store/Flows/Refinement.antt =====
-- `updateFlows` against one walk over the flows: it returns, and changes the flow of the event or
-- adds one.
use superfluid_aragon_app.Prelude.{
  ℕ, String, ◌≡◌, ap, Bool, true, not, ◌&&◌, some, List, [], ◌∷◌, All, arith,
}
use superfluid_aragon_app.Js.{ok, is_ok}
use superfluid_aragon_app.Js.Search.{find_index_js-eq, Tests}
use superfluid_aragon_app.Packages.{Packages}
use superfluid_aragon_app.Helpers.Web3.{same, IsComparable, addresses_equal-eq-same}
use superfluid_aragon_app.Store.Data.{Flow, State, FlowUpdated}
use superfluid_aragon_app.Store.Flows.{
  get_flow_event_entity, is_flow_equal, describe, new_flow, advance_flow, update_flows,
}
use superfluid_aragon_app.Js.Upsert.{upsert}
use superfluid_aragon_app.Store.Flows.Upsert.{write_flow-eq-upsert}

module _ (p : Packages) where
  -- An open flow of the event's token, whose entity is the other party of the event.
  unfoldable pub concerns : FlowUpdated → Flow → Bool
  concerns event flow =
      not flow.is_cancelled
      && same p (some flow.super_token_address) (some event.token)
      && same p (some flow.entity) (some (get_flow_event_entity event flow.is_incoming))

  -- The addresses of a flow can be compared.
  pub record IsReadable (flow : Flow) : Type 0 where
    pub entity : IsComparable p (some flow.entity)
    pub token : IsComparable p (some flow.super_token_address)

  -- The addresses of an event can be compared, and its user data is a text or missing.
  pub record IsReadableEvent (event : FlowUpdated) : Type 0 where
    pub sender : IsComparable p (some event.sender)
    pub receiver : IsComparable p (some event.receiver)
    pub token : IsComparable p (some event.token)
    pub data_text : is_ok (describe p event.user_data) ≡ true

  pub is_flow_equal-eq-concerns :
      (event : FlowUpdated) (flow : Flow)
      → IsReadableEvent event
      → IsReadable flow
      → is_flow_equal p event flow ≡ ok (concerns event flow)
  unfolding is_flow_equal concerns
  is_flow_equal-eq-concerns event flow e f = ground (
    arith,
    addresses_equal-eq-same p (some flow.super_token_address) (some event.token) f.token e.token,
    addresses_equal-eq-same p (some flow.entity) (some event.sender) f.entity e.sender,
    addresses_equal-eq-same p (some flow.entity) (some event.receiver) f.entity e.receiver,
  )

  Tests-is_flow_equal :
      (event : FlowUpdated) (flows : List Flow)
      → IsReadableEvent event
      → All IsReadable flows
      → Tests (is_flow_equal p event) (concerns event) flows
  Tests-is_flow_equal event [] e h = tt
  Tests-is_flow_equal event (x ∷ xs) e h =
      (is_flow_equal-eq-concerns event x e h.0, Tests-is_flow_equal event xs e h.1)

  -- What one event does to the flows, read from the source as a walk.
  abbrev pub flows_after : State → FlowUpdated → ℕ → String → List Flow
  flows_after state event update_timestamp description =
      upsert (concerns event)
        (new_flow p event update_timestamp (same p (some event.receiver) (some state.agent_address))
          description)
        (advance_flow p event update_timestamp description) state.flows

  pub update_flows-eq-upsert :
      (state : State) (event : FlowUpdated) (update_timestamp : ℕ) {description : String}
      → IsReadableEvent event
      → IsComparable p (some state.agent_address)
      → All IsReadable state.flows
      → describe p event.user_data ≡ ok description
      → update_flows p state event update_timestamp
        ≡ ok (flows_after state event update_timestamp description)
  unfolding update_flows
  update_flows-eq-upsert state event t {description} e a h d =
      rw
        (
          addresses_equal-eq-same p (some event.receiver) (some state.agent_address) e.receiver a,
          find_index_js-eq (is_flow_equal p event) (concerns event) state.flows
              (Tests-is_flow_equal event state.flows e h),
          d,
        )
        (ap ok (write_flow-eq-upsert p (concerns event) _ _ state.flows))
