-- ===== src/Store/Flows/OpenRates.antt =====
-- `updateFlows` of app/src/store/updaters.js against a map: the rate that each stream, a direction with
-- an entity and a token, runs at.
pub mod Walks
pub mod Belonging
pub mod Outcome
use superfluid_aragon_app.Prelude.{
  ℕ, pos, String, ◌≡◌, refl, ap, ◌∙◌, sym, Bool, true, false, not, ◌&&◌, Option, some, none, List,
  [], ◌∷◌, ltb_ℤ, All, arith, Bool-cases, inl, inr, if◌then◌else◌, find,
}
use mathlib.Core.Option
use superfluid_aragon_app.Packages.{Packages}
use superfluid_aragon_app.Helpers.Web3.{same, IsComparable, same_comm, same_trans}
use superfluid_aragon_app.Js.Upsert.{upsert, IsApart, IsUnique}
use superfluid_aragon_app.Store.Data.{Amount, value, Flow, State, FlowUpdated}
use superfluid_aragon_app.Store.Flows.{get_flow_event_entity, new_flow, advance_flow}
use superfluid_aragon_app.Store.Flows.Refinement.{concerns, IsReadableEvent}
use superfluid_aragon_app.Store.Flows.Unique.{clash}

-- The abstract view's key.
pub record Stream : Type 0 where
  pub is_incoming : Bool
  pub entity : String
  pub token : String

abbrev pub same_direction : Bool → Bool → Bool
same_direction a b = if a then b else not b

-- The stream that an event is about, seen from the agent.
abbrev pub stream_of : FlowUpdated → Bool → Stream
stream_of event is_incoming = record {
  is_incoming = is_incoming;
  entity = get_flow_event_entity event is_incoming;
  token = event.token;
}

-- What an event makes of the rate of its stream: a stream that runs takes the new rate or stops, and
-- any other starts.
abbrev pub rate_after : Amount → Option Amount → Option Amount
rate_after rate none = some rate
rate_after rate (some old) = if ltb_ℤ (pos 0) (value rate) then some rate else none

module _ (p : Packages) where
  -- The flow is open and is the stream's.
  unfoldable pub belongs : Stream → Flow → Bool
  belongs stream flow =
      not flow.is_cancelled
      && same_direction stream.is_incoming flow.is_incoming
      && same p (some flow.super_token_address) (some stream.token)
      && same p (some flow.entity) (some stream.entity)

  -- The abstract view of the flows.
  unfoldable pub open_rate : List Flow → Stream → Option Amount
  open_rate flows stream = Option.map (λ f. f.flow_rate) (find (belongs stream) flows)

  abbrev pub same_stream : Stream → Stream → Bool
  same_stream a b =
      same_direction a.is_incoming b.is_incoming
      && same p (some a.token) (some b.token)
      && same p (some a.entity) (some b.entity)

  -- The other party of a flow is never the agent.
  abbrev pub IsForeign : String → Flow → Type 0
  IsForeign agent flow = same p (some flow.entity) (some agent) ≡ false

  -- One party of the event is the agent, the other is not.
  pub record IsAgents (agent : String) (event : FlowUpdated) (is_incoming : Bool) : Type 0 where
    pub near : same p (some (get_flow_event_entity event (not is_incoming))) (some agent) ≡ true
    pub far : same p (some (get_flow_event_entity event is_incoming)) (some agent) ≡ false
