-- ===== src/Store/Flows/OpenRates/Outcome.antt =====
-- `updateFlows` of app/src/store/updaters.js writes the rate of the event's stream, and no other.
use superfluid_aragon_app.Prelude.{
  ℕ, pos, String, ◌≡◌, refl, ap, ◌∙◌, Bool, true, false, Option, some, none, List, [], ◌∷◌, ltb_ℤ,
  All, arith, Bool-cases, inl, inr, if◌then◌else◌, find,
}
use mathlib.Core.Option
use superfluid_aragon_app.Packages.{Packages}
use superfluid_aragon_app.Helpers.Web3.{same, IsComparable, same_comm}
use superfluid_aragon_app.Js.{ok, is_ok-eq}
use superfluid_aragon_app.Js.Upsert.{upsert, All-upsert, IsUnique}
use superfluid_aragon_app.Store.Data.{value, Flow, State, FlowUpdated}
use superfluid_aragon_app.Store.Flows.{
  get_flow_event_entity, describe, update_flows, new_flow, advance_flow,
}
use superfluid_aragon_app.Store.Flows.Refinement.{
  concerns, IsReadableEvent, flows_after, update_flows-eq-upsert,
}
use superfluid_aragon_app.Store.Flows.Unique.{clash, IsSound}
use superfluid_aragon_app.Store.Flows.OpenRates.{
  Stream, belongs, open_rate, stream_of, same_stream, rate_after, IsForeign, IsAgents,
}
use superfluid_aragon_app.Store.Flows.OpenRates.Walks.{written, find-upsert_same, find-upsert_other}
use superfluid_aragon_app.Store.Flows.OpenRates.Belonging.{
  concerns-belongs, belongs_same, belongs_both, same_stream_comm, bool_ext, unique-IsAlone,
  belongs-advance_flow, belongs_before,
}

module _ (p : Packages) (event : FlowUpdated) (t : ℕ) (description : String) (agent : String)
    (incoming : Bool) (mine : IsAgents p agent event incoming)
    (readable : IsReadableEvent p event) where
  abbrev created : Flow
  created = new_flow p event t incoming description

  abbrev advance : Flow → Flow
  advance = advance_flow p event t description

  created-belongs : (a : Stream) → belongs p a created ≡ same_stream p a (stream_of event incoming)
  unfolding belongs
  created-belongs a = ground (
    arith,
    readable.token,
    mine.far,
    same_comm p (some event.token) (some a.token),
    same_comm p (some (get_flow_event_entity event incoming)) (some a.entity),
  )

  belongs-eq-concerns :
      (a : Stream) (flows : List Flow)
      → same_stream p a (stream_of event incoming) ≡ true
      → All (IsForeign p agent) flows
      → All (λ f. belongs p a f ≡ concerns p event f) flows
  belongs-eq-concerns a [] h k = tt
  belongs-eq-concerns a (f ∷ fs) h k = (
    bool_ext p _ _
        (λ b. ground (
          arith,
          b,
          h,
          concerns-belongs p agent event incoming f mine k.0,
          belongs_same p a (stream_of event incoming) f,
        ))
        (λ c. ground (
          arith,
          c,
          h,
          concerns-belongs p agent event incoming f mine k.0,
          same_stream_comm p a (stream_of event incoming),
          belongs_same p (stream_of event incoming) a f,
        )),
    belongs-eq-concerns a fs h k.1,
  )

  concerns_other :
      (a : Stream) (flows : List Flow)
      → same_stream p a (stream_of event incoming) ≡ false
      → All (IsForeign p agent) flows
      → All (λ f. concerns p event f ≡ true → belongs p a f ≡ false) flows
  concerns_other a [] h k = tt
  concerns_other a (f ∷ fs) h k = (
    (λ c. elim (Bool-cases (belongs p a f)) [
      | inl both ↦ absurd (
          ground (
            arith,
            both,
            c,
            h,
            concerns-belongs p agent event incoming f mine k.0,
            belongs_both p a (stream_of event incoming) f,
          ))
      | inr other ↦ other
    ]),
    concerns_other a fs h k.1,
  )

  belongs_new :
      (a : Stream) (f : Flow)
      → belongs p a f ≡ true
      → belongs p a (advance f) ≡ ltb_ℤ (pos 0) (value event.flow_rate)
  belongs_new a f = belongs-advance_flow p event t description a f

  rates_written :
      (a : Stream) (found : Option Flow)
      → Option.map
          (λ f. f.flow_rate)
          (written (ltb_ℤ (pos 0) (value event.flow_rate)) created advance found)
        ≡ rate_after event.flow_rate (Option.map (λ f. f.flow_rate) found)
  unfolding advance_flow
  rates_written a none = refl
  rates_written a (some f) = ground arith

  open_rate-upsert :
      (a : Stream) (flows : List Flow)
      → All (IsForeign p agent) flows
      → IsUnique (clash p) flows
      → open_rate p (upsert (concerns p event) created advance flows) a ≡ (
          if same_stream p a (stream_of event incoming)
          then rate_after event.flow_rate (open_rate p flows a)
          else open_rate p flows a)
  unfolding open_rate
  open_rate-upsert a flows foreign unique =
      elim (Bool-cases (same_stream p a (stream_of event incoming))) [
        | inl its ↦ rw its (
            ap (Option.map (λ f. f.flow_rate)) (
              find-upsert_same (belongs p a) _ created advance (concerns p event)
                (created-belongs a ∙ its) (belongs_new a) flows
                (belongs-eq-concerns a flows its foreign) (unique-IsAlone p a flows unique))
            ∙ rates_written a (find (belongs p a) flows))
        | inr other ↦ rw other (
            ap (Option.map (λ f. f.flow_rate)) (
              find-upsert_other (concerns p event) (belongs p a) created advance
                (created-belongs a ∙ other) (belongs_before p event t description a) flows
                (concerns_other a flows other foreign)))
      ]

module _ (p : Packages) where
  advance_flow-IsForeign :
      (event : FlowUpdated) (t : ℕ) (description : String) (agent : String) (f : Flow)
      → IsForeign p agent f
      → IsForeign p agent (advance_flow p event t description f)
  unfolding advance_flow
  advance_flow-IsForeign event t description agent f h = ground (arith, h)

  -- On well-formed flows none of whose entities is the agent, and for a readable event between the agent
  -- and another account, `updateFlows` returns, keeps the flows so, and for each stream, a direction
  -- with an entity and a token: the stream of the event, if it is open, has the new rate where that is
  -- above 0 and is closed where it is not, and if it is not open, it opens with the new rate; every other
  -- stream is open at the rate at which it was open before, or stays closed.
  pub update_flows-open_rate :
      (state : State) (event : FlowUpdated) (update_timestamp : ℕ) (stream : Stream)
      → IsReadableEvent p event
      → IsComparable p (some state.agent_address)
      → IsSound p state.flows
      → All (IsForeign p state.agent_address) state.flows
      → let incoming = same p (some event.receiver) (some state.agent_address) in
        IsAgents p state.agent_address event incoming
        → (flows : List Flow) × (update_flows p state event update_timestamp ≡ ok flows)
          × All (IsForeign p state.agent_address) flows
          × (open_rate p flows stream ≡ (
              if same_stream p stream (stream_of event incoming)
              then rate_after event.flow_rate (open_rate p state.flows stream)
              else open_rate p state.flows stream))
  update_flows-open_rate state event t stream e a h foreign mine =
      let (description, d) = is_ok-eq (describe p event.user_data) e.data_text in
      let incoming = same p (some event.receiver) (some state.agent_address) in
      (
        flows_after p state event t description,
        update_flows-eq-upsert p state event t e a h.readable d,
        All-upsert (concerns p event) (new_flow p event t incoming description)
            (advance_flow p event t description) mine.far
            (advance_flow-IsForeign event t description state.agent_address) state.flows foreign,
        open_rate-upsert p event t description state.agent_address incoming mine e stream
            state.flows foreign h.unique,
      )
