-- ===== src/Hooks/Items.antt =====
-- app/src/hooks/useSuperTokenItems.js: what the cards show of the tokens that the agent has, with their
-- amounts in the default currency.
pub mod Converted
use superfluid_aragon_app.Prelude.{
  ℕ, ℤ, String, Bool, true, false, Option, none, some, List, [], ◌∷◌, str_eq, if◌then◌else◌,
}
use superfluid_aragon_app.Js.{Result, ok, ◌>>=◌}
use superfluid_aragon_app.Packages.{Packages}
use superfluid_aragon_app.Helpers.Decimals.{Text}
use superfluid_aragon_app.Helpers.Time.{Date}
use superfluid_aragon_app.Helpers.Amounts.{get_available_super_tokens}
use superfluid_aragon_app.Helpers.Conversion.{
  default_currency, get_convert_rate_token, get_converted_amount,
}
use superfluid_aragon_app.Reducer.{FormattedToken}
use superfluid_aragon_app.Hooks.Rates.{TokenRates}

pub record BalanceItem : Type 0 where
  pub address : String
  pub amount : ℤ
  pub converted_amount : Option ℤ
  pub decimals : Option ℕ
  pub depletion_date : Option Date
  pub last_update_date : Date
  pub logo_uri : Option String
  pub name : Option String
  pub inflow_rate : ℤ
  pub outflow_rate : ℤ
  pub net_flow : ℤ
  pub converted_net_flow : Option ℤ
  pub symbol : Option String

-- A read of an object's property.
abbrev pub property_of {ℓ} : {A : Type ℓ} → String → List (String × A) → Option A
property_of key [] = none
property_of key ((k, a) ∷ rest) =
    let found = property_of key rest in if str_eq k key then some a else found

-- A rate of 0 counts as none.
module _ (is_zero : Text → Bool) where
  abbrev pub nonzero : Option Text → Option Text
  nonzero none = none
  nonzero (some rate) = if is_zero rate then none else some rate

  abbrev pub currency_rate : Option (List (String × Text)) → Option Text
  currency_rate none = none
  currency_rate (some rates) = nonzero (property_of default_currency rates)

  abbrev pub rate_at : Option String → TokenRates → Option Text
  rate_at none rates = none
  rate_at (some key) rates = currency_rate (property_of key rates)

  module _ (p : Packages) (bn_of_text : Text → ℤ) (bn_pow : ℤ → ℤ → ℤ) where
    abbrev pub converted : ℤ → Option Text → Option ℤ
    converted amount none = none
    converted amount (some rate) = some (get_converted_amount p bn_of_text bn_pow amount rate)

    abbrev pub item_with : FormattedToken → Option Text → BalanceItem
    item_with t rate = record {
      address = t.token.address;
      amount = t.balance;
      converted_amount = converted t.balance rate;
      decimals = t.token.decimals;
      depletion_date = t.depletion_date;
      last_update_date = t.last_update_date;
      logo_uri = t.token.logo_uri;
      name = t.token.name;
      inflow_rate = t.inflow_rate;
      outflow_rate = t.outflow_rate;
      net_flow = t.net_flow;
      converted_net_flow = converted t.net_flow rate;
      symbol = t.token.symbol;
    }

    unfoldable pub to_item : TokenRates → Bool → FormattedToken → Result BalanceItem
    to_item convert_rates is_test_net t = get_convert_rate_token p t.token is_test_net >>= λ key.
        ok (item_with t (rate_at key convert_rates))

    unfoldable pub to_items : TokenRates → Bool → List FormattedToken → Result (List BalanceItem)
    to_items convert_rates is_test_net [] = ok []
    to_items convert_rates is_test_net (t ∷ ts) =
        let rest = to_items convert_rates is_test_net ts in
        to_item convert_rates is_test_net t >>= λ item. rest >>= λ items. ok (item ∷ items)

    unfoldable pub super_token_items :
        Date → TokenRates → Bool → List FormattedToken → Result (List BalanceItem)
    super_token_items now convert_rates is_test_net super_tokens =
        get_available_super_tokens p (λ t. t.balance) (λ t. t.net_flow) (λ t. t.last_update_date)
          now super_tokens
        >>= λ available. to_items convert_rates is_test_net available

-- The addresses whose rates are asked for.
module _ (p : Packages) where
  abbrev pub with_address : Option String → List String → List String
  with_address none rest = rest
  with_address (some a) rest = if p.is_address a then a ∷ rest else rest

  unfoldable pub token_addresses : Bool → List FormattedToken → Result (List String)
  token_addresses is_test_net [] = ok []
  token_addresses is_test_net (t ∷ ts) =
      let rest = token_addresses is_test_net ts in
      get_convert_rate_token p t.token is_test_net >>= λ key.
      rest >>= λ addresses. ok (with_address key addresses)
