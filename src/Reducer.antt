-- ===== src/Reducer.antt =====
-- app/src/app-state-reducer.js: the cached state, formatted for the panels, with the rates of each
-- Super Token.
pub mod Rates
pub mod Broken
use superfluid_aragon_app.Prelude.{
  ℕ, ℤ, pos, String, Bool, true, false, Option, none, some, List, [], ◌∷◌, str_eq, if◌then◌else◌,
  map, ltb_ℤ,
}
use superfluid_aragon_app.Js.{Result, ok, throw, type_error, ◌>>=◌, defined}
use superfluid_aragon_app.Packages.{Packages}
use superfluid_aragon_app.Helpers.Time.{Date, timestamp_to_date}
use superfluid_aragon_app.Helpers.Amounts.{calculate_depletion_date}
use superfluid_aragon_app.Store.Data.{Amount, value, Flow, SuperToken, SenderToken, State}
use superfluid_aragon_app.Store.Senders.{Senders}

-- `inOutRates`: the inflow and the outflow of each address, keyed by its text.
abbrev pub InOutRates : Type 0
InOutRates = List (String × (ℤ × ℤ))

unfoldable pub rates_of : String → InOutRates → ℤ × ℤ
rates_of key [] = (pos 0, pos 0)
rates_of key ((k, r) ∷ rest) = if str_eq k key then r else rates_of key rest

unfoldable pub write_rates : String → ℤ × ℤ → InOutRates → InOutRates
write_rates key r [] = (key, r) ∷ []
write_rates key r ((k, s) ∷ rest) =
    if str_eq k key then (k, r) ∷ rest else (k, s) ∷ write_rates key r rest

pub record FormattedFlow : Type 0 where
  pub is_cancelled : Bool
  pub is_incoming : Bool
  pub entity : String
  pub super_token_address : String
  pub description : String
  pub accumulated_amount : ℤ
  pub creation_date : Date
  pub flow_rate : ℤ
  pub last_update_date : Date

pub record FormattedToken : Type 0 where
  pub token : SuperToken
  pub balance : ℤ
  pub last_update_date : Date
  pub liquidation_period_seconds : ℤ
  pub inflow_rate : ℤ
  pub outflow_rate : ℤ
  pub net_flow : ℤ
  pub depletion_date : Option Date

pub record FormattedSenderToken : Type 0 where
  pub address : String
  pub balance : ℤ
  pub last_update_date : Date
  pub net_flow : ℤ

module _ (p : Packages) where
  abbrev add_to : Bool → ℤ → ℤ × ℤ → ℤ × ℤ
  add_to true rate (inflow, outflow) = (p.bn_add inflow rate, outflow)
  add_to false rate (inflow, outflow) = (inflow, p.bn_add outflow rate)

  -- The first or the second of the two rates grows by the flow's.
  unfoldable pub calculate_in_out_rate : InOutRates → String → ℤ → Bool → ℤ × ℤ
  calculate_in_out_rate in_out_rates super_token_address flow_rate flow_incoming =
      add_to flow_incoming flow_rate (rates_of super_token_address in_out_rates)

  -- What one flow adds; a cancelled one adds nothing.
  unfoldable pub count_flow : InOutRates → Flow → InOutRates
  count_flow in_out_rates flow =
      if flow.is_cancelled
      then in_out_rates
      else write_rates flow.super_token_address
          (calculate_in_out_rate in_out_rates flow.super_token_address (value flow.flow_rate)
            flow.is_incoming)
          in_out_rates

  unfoldable pub in_out_rates : InOutRates → List Flow → InOutRates
  in_out_rates rates [] = rates
  in_out_rates rates (flow ∷ rest) = in_out_rates (count_flow rates flow) rest

  unfoldable pub format_flow : Flow → FormattedFlow
  format_flow flow = record {
    is_cancelled = flow.is_cancelled;
    is_incoming = flow.is_incoming;
    entity = flow.entity;
    super_token_address = flow.super_token_address;
    description = flow.description;
    accumulated_amount = flow.accumulated_amount;
    creation_date = timestamp_to_date (some flow.creation_timestamp);
    flow_rate = value flow.flow_rate;
    last_update_date = timestamp_to_date (some flow.last_timestamp);
  }

  unfoldable pub format_token : Date → InOutRates → SuperToken → Result FormattedToken
  format_token now rates token = do
    let last_update_date = timestamp_to_date token.last_update_timestamp
    let (inflow_rate, outflow_rate) = rates_of token.address rates
    depletion_date ←
        calculate_depletion_date p (value token.balance) (value token.net_flow) now last_update_date
    ok (record {
      token = token;
      balance = value token.balance;
      last_update_date = last_update_date;
      liquidation_period_seconds = value token.liquidation_period_seconds;
      inflow_rate = inflow_rate;
      outflow_rate = outflow_rate;
      net_flow = value token.net_flow;
      depletion_date = depletion_date;
    })

  unfoldable pub format_tokens : Date → InOutRates → List SuperToken → Result (List FormattedToken)
  format_tokens now rates [] = ok []
  format_tokens now rates (token ∷ rest) =
      let tail = format_tokens now rates rest in
      format_token now rates token >>= λ formatted. tail >>= λ tokens. ok (formatted ∷ tokens)

  unfoldable pub format_sender_token : SenderToken → FormattedSenderToken
  format_sender_token token = record {
    address = token.address;
    balance = value token.balance;
    last_update_date = timestamp_to_date (some token.last_update_timestamp);
    net_flow = value token.net_flow;
  }

  -- `tokenA.symbol.localeCompare(tokenB.symbol)`: a token with no symbol has no such method.
  unfoldable pub compare_super_tokens_by_symbol : FormattedToken → FormattedToken → Result ℤ
  compare_super_tokens_by_symbol a b =
      defined a.token.symbol >>= λ symbol. ok (p.locale_compare symbol b.token.symbol)

  -- A stable sort: an item goes behind those that do not come after it.
  insert_token : FormattedToken → List FormattedToken → Result (List FormattedToken)
  insert_token x [] = ok (x ∷ [])
  insert_token x (y ∷ ys) =
      let behind = insert_token x ys in
      compare_super_tokens_by_symbol y x >>= λ order.
      if ltb_ℤ (pos 0) order then ok (x ∷ y ∷ ys) else (behind >>= λ zs. ok (y ∷ zs))

  unfoldable pub sort_tokens :
      List FormattedToken → List FormattedToken → Result (List FormattedToken)
  unfolding insert_token
  sort_tokens sorted [] = ok sorted
  sort_tokens sorted (x ∷ xs) = insert_token x sorted >>= λ sorted'. sort_tokens sorted' xs

  pub record AppState : Type 0 where
    pub state : Option State
    pub super_tokens : List FormattedToken
    pub flows : List FormattedFlow
    pub senders_super_tokens : List (String × List FormattedSenderToken)
    pub is_syncing : Bool

  abbrev pub initial_state : AppState
  initial_state = record {
    state = none;
    super_tokens = [];
    flows = [];
    senders_super_tokens = [];
    is_syncing = true;
  }

  -- `null` is a state that the store has not sent yet. A state whose Super Tokens are `undefined`
  -- has no `map` to call.
  unfoldable pub app_state_reducer : Date → Option State → Result AppState
  app_state_reducer now none = ok initial_state
  app_state_reducer now (some state) = do
    let rates = in_out_rates [] state.flows
    tokens ← defined state.super_tokens
    formatted ← format_tokens now rates tokens
    sorted ← sort_tokens [] formatted
    ok (record {
      state = some state;
      super_tokens = sorted;
      flows = map format_flow state.flows;
      senders_super_tokens =
          map (λ kv. (kv.0, map format_sender_token kv.1)) state.senders_super_tokens;
      is_syncing = state.is_syncing;
    })
