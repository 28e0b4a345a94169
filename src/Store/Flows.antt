-- ===== src/Store/Flows.antt =====
-- `updateFlows` of app/src/store/updaters.js, with `getFlowEventEntity`, `isFlowEqual` and
-- `calculateNewAccumulatedAmount` of app/src/store/helpers.js.
pub mod Upsert
pub mod Refinement
pub mod Unique
pub mod Accrual
pub mod Redelivery
pub mod OpenRates
use superfluid_aragon_app.Prelude.{
  ℕ, ℤ, pos, String, Bool, true, false, Option, none, some, List, [], ◌∷◌, ◌++◌, str_eq,
  if◌then◌else◌, sub_ℕ, ltb_ℤ, get_elem?, set,
}
use superfluid_aragon_app.Js.{Result, ok, ◌>>=◌}
use superfluid_aragon_app.Js.Search.{find_index_js}
use superfluid_aragon_app.Packages.{Packages}
use superfluid_aragon_app.Helpers.Web3.{addresses_equal}
use superfluid_aragon_app.Store.Data.{Amount, value, Flow, State, FlowUpdated}

abbrev pub get_flow_event_entity : FlowUpdated → Bool → String
get_flow_event_entity event is_incoming_flow =
    if is_incoming_flow then event.sender else event.receiver

module _ (p : Packages) where
  -- `&&` makes a comparison only where the one before it passed.
  unfoldable pub is_flow_equal : FlowUpdated → Flow → Result Bool
  is_flow_equal event flow = if flow.is_cancelled then ok false else do
    same_token ← addresses_equal p (some flow.super_token_address) (some event.token)
    if same_token
        then addresses_equal p (some flow.entity)
            (some (get_flow_event_entity event flow.is_incoming))
        else ok false

  unfoldable pub calculate_new_accumulated_amount : Flow → ℕ → ℤ
  calculate_new_accumulated_amount old_flow current_timestamp =
      p.bn_add
        (p.bn_mul (sub_ℕ current_timestamp old_flow.last_timestamp) (value old_flow.flow_rate))
        old_flow.accumulated_amount

  -- `userData ? Web3EthAbi.decodeParameter('string', userData) : ''`
  abbrev pub describe : Option String → Result String
  describe none = ok ""
  describe (some user_data) = if str_eq user_data "" then ok "" else p.decode_string user_data

  -- The create case.
  abbrev pub new_flow : FlowUpdated → ℕ → Bool → String → Flow
  new_flow event update_timestamp is_incoming description = record {
    is_cancelled = false;
    is_incoming = is_incoming;
    entity = get_flow_event_entity event is_incoming;
    super_token_address = event.token;
    accumulated_amount = pos 0;
    creation_timestamp = update_timestamp;
    last_timestamp = update_timestamp;
    flow_rate = event.flow_rate;
    description = description;
  }

  -- The update case, for a rate above 0, and the delete case, which keeps the rate.
  unfoldable pub advance_flow : FlowUpdated → ℕ → String → Flow → Flow
  advance_flow event update_timestamp description flow =
      if ltb_ℤ (pos 0) (value event.flow_rate)
      then record flow {
        accumulated_amount = calculate_new_accumulated_amount flow update_timestamp;
        last_timestamp = update_timestamp;
        flow_rate = event.flow_rate;
        description = description;
      }
      else record flow {
        accumulated_amount = calculate_new_accumulated_amount flow update_timestamp;
        last_timestamp = update_timestamp;
        is_cancelled = true;
      }

  -- `newFlows[flowIndex]`, which is `undefined` at -1.
  abbrev pub flow_at : List Flow → Option ℕ → Option (ℕ × Flow)
  flow_at flows none = none
  flow_at flows (some i) = elim (get_elem? flows i) [ none ↦ none | some f ↦ some (i, f) ]

  abbrev pub write_flow : List Flow → Option (ℕ × Flow) → Flow → (Flow → Flow) → List Flow
  write_flow flows none created advance = flows ++ created ∷ []
  write_flow flows (some (i, f)) created advance = set flows i (advance f)

  unfoldable pub update_flows : State → FlowUpdated → ℕ → Result (List Flow)
  update_flows state event update_timestamp = do
    is_incoming ← addresses_equal p (some event.receiver) (some state.agent_address)
    flow_index ← find_index_js (is_flow_equal event) state.flows
    description ← describe event.user_data
    ok (
        write_flow state.flows (flow_at state.flows flow_index)
          (new_flow event update_timestamp is_incoming description)
          (advance_flow event update_timestamp description))
