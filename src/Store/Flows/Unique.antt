-- ===== src/Store/Flows/Unique.antt =====
-- At most one open flow for each token, entity and direction: `updateFlows` keeps it so.
use superfluid_aragon_app.Prelude.{
  ℕ, String, ◌≡◌, Bool, true, false, not, ◌&&◌, some, List, if◌then◌else◌, All, arith,
}
use superfluid_aragon_app.Js.{ok, is_ok-eq}
use superfluid_aragon_app.Packages.{Packages}
use superfluid_aragon_app.Helpers.Web3.{same, IsComparable}
use superfluid_aragon_app.Store.Data.{Flow, State, FlowUpdated}
use superfluid_aragon_app.Store.Flows.{describe, new_flow, advance_flow, update_flows}
use superfluid_aragon_app.Js.Upsert.{All-upsert, IsUnique, Milder, upsert-IsUnique}
use superfluid_aragon_app.Store.Flows.Refinement.{
  concerns, IsReadable, IsReadableEvent, flows_after, update_flows-eq-upsert,
}

module _ (p : Packages) where
  -- Two open flows of one token, one entity and one direction.
  unfoldable pub clash : Flow → Flow → Bool
  clash f g =
      not f.is_cancelled
      && not g.is_cancelled
      && (if f.is_incoming then g.is_incoming else not g.is_incoming)
      && same p (some f.super_token_address) (some g.super_token_address)
      && same p (some f.entity) (some g.entity)

  advance_flow-Milder :
      (event : FlowUpdated) (t : ℕ) (description : String) (f : Flow)
      → Milder clash (advance_flow p event t description f) f
  unfolding advance_flow clash
  advance_flow-Milder event t description f = record {
    left = λ x h. ground arith;
    right = λ x h. ground arith;
  }

  clash-new_flow :
      (state : State) (event : FlowUpdated) (t : ℕ) (incoming : Bool) (description : String)
      (f : Flow)
      → concerns p event f ≡ false
      → clash f (new_flow p event t incoming description) ≡ false
  unfolding clash concerns
  clash-new_flow state event t true description f h = ground arith
  clash-new_flow state event t false description f h = ground arith

  -- What the handlers keep of the flows.
  pub record IsSound (flows : List Flow) : Type 0 where
    pub readable : All (IsReadable p) flows
    pub unique : IsUnique clash flows

  new_flow-IsReadable :
      (event : FlowUpdated) (t : ℕ) (incoming : Bool) (description : String)
      → IsReadableEvent p event
      → IsReadable p (new_flow p event t incoming description)
  new_flow-IsReadable event t true description e = record { entity = e.sender; token = e.token }
  new_flow-IsReadable event t false description e = record { entity = e.receiver; token = e.token }

  advance_flow-IsReadable :
      (event : FlowUpdated) (t : ℕ) (description : String) (f : Flow)
      → IsReadable p f
      → IsReadable p (advance_flow p event t description f)
  unfolding advance_flow
  advance_flow-IsReadable event t description f h = ground arith

  -- On flows whose addresses can be compared, at most one open for each token, entity and
  -- direction, and on an event whose addresses and user data can be read, `updateFlows` returns,
  -- and the flows that it returns are such flows again.
  pub update_flows-IsSound :
      (state : State) (event : FlowUpdated) (update_timestamp : ℕ)
      → IsReadableEvent p event
      → IsComparable p (some state.agent_address)
      → IsSound state.flows
      → (flows : List Flow) × (update_flows p state event update_timestamp ≡ ok flows)
        × IsSound flows
  update_flows-IsSound state event t e a h =
      let (description, d) = is_ok-eq (describe p event.user_data) e.data_text in
      let incoming = same p (some event.receiver) (some state.agent_address) in
      let created = new_flow p event t incoming description in
      let advance = advance_flow p event t description in
      (
        flows_after p state event t description,
        update_flows-eq-upsert p state event t e a h.readable d,
        record {
          readable =
              All-upsert (concerns p event) created advance
                (new_flow-IsReadable event t incoming description e)
                (advance_flow-IsReadable event t description) state.flows h.readable;
          unique =
              upsert-IsUnique clash (concerns p event) created advance
                (clash-new_flow state event t incoming description)
                (advance_flow-Milder event t description) state.flows h.unique;
        },
      )
