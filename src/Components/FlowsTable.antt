-- ===== src/Components/FlowsTable.antt =====
-- app/src/components/Flows/index.js: the table of the flows, its order, its rows, and what the menu of a
-- row asks for.
pub mod Order
pub mod Rows
pub mod Menus
use superfluid_aragon_app.Prelude.{
  ℕ, ℤ, pos, negsuc, ltb_ℤ, String, Bool, true, false, ◌||◌, ◌&&◌, not, Option, none, some, List,
  [], ◌∷◌, str_eq, if◌then◌else◌, pos_part, neg_part, sub_ℕ,
}
use superfluid_aragon_app.Js.{Result, ok, throw, type_error, defined, ◌>>=◌}
use superfluid_aragon_app.Js.Sort.{comes_later, sort_onto}
use superfluid_aragon_app.Packages.{Packages}
use superfluid_aragon_app.Helpers.Time.{Date, month}
use superfluid_aragon_app.Helpers.Web3.{addresses_equal}
use superfluid_aragon_app.Helpers.Amounts.{calculate_current_amount}
use superfluid_aragon_app.Reducer.{FormattedToken, FormattedFlow}

-- date-fns: `compareDesc(a, b)`, `none` for NaN.
module _ (compare_desc : Date → Date → Option ℤ) where
  unfoldable pub compare_flows : FormattedFlow → FormattedFlow → Option ℤ
  compare_flows left right =
      if not left.is_cancelled && right.is_cancelled
      then some (negsuc 0)
      else if left.is_cancelled && not right.is_cancelled
      then some (pos 1)
      else if left.is_cancelled && right.is_cancelled
      then some (pos 0)
      else compare_desc left.creation_date right.creation_date

  abbrev pub goes_after : FormattedFlow → FormattedFlow → Bool
  goes_after left right = comes_later (compare_flows left right)

  unfoldable pub sort_flows : List FormattedFlow → List FormattedFlow
  sort_flows flows = sort_onto goes_after [] flows

-- `useFilteredFlows` gives `!filteredFlows` as `emptyResultsViaFilters`, which is false for an array.
pub data ViewStatus : Type 0 where
  empty_filters loading default_status : ViewStatus

abbrev pub data_view_status : Bool → Bool → List FormattedFlow → ViewStatus
data_view_status empty_results_via_filters is_syncing [] =
    if is_syncing then loading else default_status
data_view_status empty_results_via_filters is_syncing (f ∷ fs) =
    if empty_results_via_filters
    then empty_filters
    else if is_syncing
    then loading
    else default_status

pub record TokenDetails : Type 0 where
  pub decimals : Option ℕ
  pub symbol : Option String

-- The details by checksum address; the last token of an address counts.
abbrev pub details_of : String → List (String × TokenDetails) → Option TokenDetails
details_of address [] = none
details_of address ((key, details) ∷ rest) =
    let found = details_of address rest in if str_eq key address then some details else found

abbrev pub neg_ℤ : ℤ → ℤ
neg_ℤ n = sub_ℕ (neg_part n) (pos_part n)

-- A row; `end_date` is `none` for "Present", and the total is the one of the time `now`.
pub record FlowRow : Type 0 where
  pub entity : String
  pub connected_account : Bool
  pub start_date : Date
  pub end_date : Option Date
  pub is_incoming : Bool
  pub token_address : String
  pub token_symbol : Option String
  pub decimals : Option ℕ
  pub monthly_rate : ℤ
  pub total : ℤ

-- What the menu of a row gives to `onUpdateFlow` and `onDeleteFlow`.
pub record FlowPreset : Type 0 where
  pub super_token_address : String
  pub recipient : String
  pub sender : String
  pub flow_type_index : ℕ
  pub description : String

pub record DeleteRequest : Type 0 where
  pub super_token_address : String
  pub entity : String
  pub is_outgoing : Bool
  pub is_own : Bool

pub record FlowMenu : Type 0 where
  pub on_update_flow : FlowPreset
  pub on_delete_flow : DeleteRequest

abbrev pub signed : Bool → ℤ → ℤ
signed is_incoming amount = if is_incoming then amount else neg_ℤ amount

-- `isCancelled ? lastUpdateDate : 'Present'`
abbrev pub end_of : FormattedFlow → Option Date
end_of flow = if flow.is_cancelled then some flow.last_update_date else none

module _ (p : Packages) where
  unfoldable pub token_details :
      List (String × TokenDetails) → List FormattedToken → Result (List (String × TokenDetails))
  token_details details [] = ok details
  token_details details (t ∷ ts) = do
    checksum ← p.to_checksum_address t.token.address
    token_details
        ((checksum, record { decimals = t.token.decimals; symbol = t.token.symbol }) ∷ details) ts

  -- A closed flow shows what it has streamed, an open one what it has streamed until now.
  unfoldable pub total_so_far : Date → FormattedFlow → Result ℤ
  total_so_far now flow =
      if flow.is_cancelled
      then ok flow.accumulated_amount
      else calculate_current_amount p flow.accumulated_amount flow.flow_rate flow.last_update_date
          now

  -- A token that is not in the list has no details to read.
  unfoldable pub render_entry :
      List (String × TokenDetails) → String → Date → FormattedFlow → Result FlowRow
  render_entry details connected_account now flow = do
    checksum_address ← p.to_checksum_address flow.super_token_address
    shown ← defined (details_of checksum_address details)
    connected ← addresses_equal p (some flow.entity) (some connected_account)
    total ← total_so_far now flow
    ok (record {
      entity = flow.entity;
      connected_account = connected;
      start_date = flow.creation_date;
      end_date = end_of flow;
      is_incoming = flow.is_incoming;
      token_address = flow.super_token_address;
      token_symbol = shown.symbol;
      decimals = shown.decimals;
      monthly_rate = signed flow.is_incoming (p.bn_mul flow.flow_rate (pos month));
      total = signed flow.is_incoming total;
    })

  abbrev pub flow_menu : String → String → FormattedFlow → FlowMenu
  flow_menu agent_address connected_account flow = record {
    on_update_flow = record {
      super_token_address = flow.super_token_address;
      recipient = if flow.is_incoming then agent_address else flow.entity;
      sender = if flow.is_incoming then flow.entity else agent_address;
      flow_type_index = if flow.is_incoming then 0 else 1;
      description = flow.description;
    };
    on_delete_flow = record {
      super_token_address = flow.super_token_address;
      entity = flow.entity;
      is_outgoing = not flow.is_incoming;
      is_own = str_eq connected_account flow.entity;
    };
  }

  -- `||` and `&&` compare only for an open incoming flow.
  unfoldable pub render_entry_actions : String → String → FormattedFlow → Result (Option FlowMenu)
  render_entry_actions agent_address connected_account flow =
      if flow.is_cancelled
      then ok none
      else if not flow.is_incoming
      then ok (some (flow_menu agent_address connected_account flow))
      else (addresses_equal p (some flow.entity) (some connected_account) >>= λ own.
          ok (if own then some (flow_menu agent_address connected_account flow) else none))
