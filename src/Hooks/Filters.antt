-- ===== src/Hooks/Filters.antt =====
-- app/src/hooks/useFilteredFlows.js and app/src/flow.js: the filters of the flows' table and the flows
-- that pass them.
pub mod Passing
use superfluid_aragon_app.Prelude.{
  ℕ, zero, suc, String, Bool, true, false, ◌&&◌, ◌||◌, not, Option, none, some, List, [], ◌∷◌, map,
  get_elem?, if◌then◌else◌, ◌==◌, ltb,
}
use superfluid_aragon_app.Js.{Result, ok, throw, type_error, defined, ◌>>=◌}
use superfluid_aragon_app.Js.Search.{filter_js}
use superfluid_aragon_app.Packages.{Packages}
use superfluid_aragon_app.Helpers.Time.{Date}
use superfluid_aragon_app.Helpers.Web3.{addresses_equal}
use superfluid_aragon_app.Store.Data.{SuperToken}
use superfluid_aragon_app.Reducer.{FormattedFlow}

-- The symbols of app/src/flow.js.
pub data FlowKind : Type 0 where
  all_flows open_flow close_flow incoming_flow outgoing_flow : FlowKind

abbrev pub flow_states : List FlowKind
flow_states = all_flows ∷ open_flow ∷ close_flow ∷ []

abbrev pub flow_types : List FlowKind
flow_types = all_flows ∷ incoming_flow ∷ outgoing_flow ∷ []

abbrev pub kind_eq : FlowKind → FlowKind → Bool
kind_eq all_flows all_flows = true
kind_eq open_flow open_flow = true
kind_eq close_flow close_flow = true
kind_eq incoming_flow incoming_flow = true
kind_eq outgoing_flow outgoing_flow = true
kind_eq _ _ = false

-- A range is an object: two ranges are the same for React where their identities are.
pub record DateRange : Type 0 where
  pub identity : ℕ
  pub start : Option Date
  pub end : Option Date

-- `none` for an unselected filter, the -1 of the code.
pub record Filters : Type 0 where
  pub page : ℕ
  pub selected_date_range : DateRange
  pub selected_flow_state : Option ℕ
  pub selected_flow_type : Option ℕ
  pub selected_token : Option ℕ

abbrev pub unselected_date_range : DateRange
unselected_date_range = record { identity = 0; start = none; end = none }

abbrev pub initial_filters : Filters
initial_filters = record {
  page = 0;
  selected_date_range = unselected_date_range;
  selected_flow_state = none;
  selected_flow_type = none;
  selected_token = none;
}

abbrev pub same_index : Option ℕ → Option ℕ → Bool
same_index none none = true
same_index (some i) (some j) = i == j
same_index _ _ = false

-- The effect that goes to the first page, after a render with other dependencies.
unfoldable pub page_effect : Filters → Filters → Filters
page_effect before after =
    if (before.selected_date_range.identity == after.selected_date_range.identity)
      && same_index before.selected_flow_type after.selected_flow_type
      && same_index before.selected_token after.selected_token
    then after
    else record after { page = 0 }

-- `index === 0 ? -1 : index`.
abbrev pub selection : ℕ → Option ℕ
selection zero = none
selection (suc i) = some (suc i)

unfoldable pub handle_date_range_change : DateRange → Filters → Filters
unfolding page_effect
handle_date_range_change range s = page_effect s (record s { selected_date_range = range })

unfoldable pub handle_token_change : ℕ → Filters → Filters
unfolding page_effect
handle_token_change index s = page_effect s (record s { selected_token = selection index })

unfoldable pub handle_flow_state_change : ℕ → Filters → Filters
unfolding page_effect
handle_flow_state_change index s =
    page_effect s (record s { selected_flow_state = selection index })

unfoldable pub handle_flow_type_change : ℕ → Filters → Filters
unfolding page_effect
handle_flow_type_change index s = page_effect s (record s { selected_flow_type = selection index })

unfoldable pub handle_clear_filters : Filters → Filters
unfolding page_effect
handle_clear_filters s = page_effect s (record s {
  selected_flow_type = none;
  selected_token = none;
  selected_date_range = unselected_date_range;
})

-- An item of the tokens' drop-down; "All tokens" has no address.
pub record TokenOption : Type 0 where
  pub address : Option String
  pub symbol : Option String

unfoldable pub tokens_to_filter : List SuperToken → List TokenOption
tokens_to_filter tokens =
    record { address = none; symbol = some "All tokens" }
    ∷ map (λ t. record { address = some t.address; symbol = t.symbol }) tokens

-- The entry at the selected index is another one than the flow's own.
abbrev pub excluded_by : List FlowKind → Option ℕ → FlowKind → Bool
excluded_by kinds none kind = false
excluded_by kinds (some i) kind = elim (get_elem? kinds i) [
  | none ↦ true
  | some selected ↦ not (kind_eq selected kind)
]

abbrev pub state_of : FormattedFlow → FlowKind
state_of flow = if flow.is_cancelled then close_flow else open_flow

abbrev pub type_of : FormattedFlow → FlowKind
type_of flow = if flow.is_incoming then incoming_flow else outgoing_flow

-- date-fns: `startOfDay`, `endOfDay`, `isBefore` and `isAfter`.
pub record Calendar : Type 0 where
  pub start_of_day : Date → Date
  pub end_of_day : Date → Date
  pub is_before : Date → Date → Bool
  pub is_after : Date → Date → Bool

module _ (p : Packages) (calendar : Calendar) where
  abbrev pub starts_after : Option Date → Date → Bool
  starts_after none date = false
  starts_after (some start) date = calendar.is_before date (calendar.start_of_day start)

  abbrev pub ends_before : Option Date → Date → Bool
  ends_before none date = false
  ends_before (some end) date = calendar.is_after date (calendar.end_of_day end)

  -- Only a selected token is compared; an index with no token is a read of `undefined`.
  unfoldable pub passes_token : List TokenOption → Option ℕ → FormattedFlow → Result Bool
  passes_token options none flow = ok true
  passes_token options (some zero) flow = ok true
  passes_token options (some (suc i)) flow = defined (get_elem? options (suc i)) >>= λ option.
      addresses_equal p (some flow.super_token_address) option.address

  -- The test of the filter, an early return after the other.
  unfoldable pub includes : List TokenOption → Filters → FormattedFlow → Result Bool
  unfolding passes_token
  includes options s flow =
      if excluded_by flow_states s.selected_flow_state (state_of flow)
      then ok false
      else if excluded_by flow_types s.selected_flow_type (type_of flow)
      then ok false
      else if starts_after s.selected_date_range.start flow.creation_date
      then ok false
      else if ends_before s.selected_date_range.end flow.creation_date
      then ok false
      else passes_token options s.selected_token flow

  unfoldable pub filtered_flows :
      List SuperToken → Filters → List FormattedFlow → Result (List FormattedFlow)
  unfolding includes tokens_to_filter
  filtered_flows tokens s flows = filter_js (includes (tokens_to_filter tokens) s) flows
