-- ===== src/Hooks/Items/Converted.antt =====
-- A token finds its rate in the service's answer in whatever letter case the answer has its address.
use superfluid_aragon_app.Prelude.{
  ℤ, ◌≡◌, refl, String, Bool, Option, none, some, List, [], ◌∷◌, str_eq, if◌then◌else◌,
}
use superfluid_aragon_app.Js.{ok}
use superfluid_aragon_app.Packages.{Packages}
use superfluid_aragon_app.Helpers.Decimals.{Text}
use superfluid_aragon_app.Helpers.Conversion.{get_convert_rate_token}
use superfluid_aragon_app.Reducer.{FormattedToken}
use superfluid_aragon_app.Hooks.Rates.{TokenRates, normalize}
use superfluid_aragon_app.Hooks.Items.{
  BalanceItem, property_of, currency_rate, converted, item_with, to_item,
}

-- The last entry of the answer whose key is the text in lower case, or what stands there without one.
abbrev pub last_of :
    Packages → String → TokenRates → Option (List (String × Text)) → Option (List (String × Text))
last_of p key [] found = found
last_of p key ((k, rates) ∷ rest) found =
    last_of p key rest (if str_eq (p.to_lower_case k) key then some rates else found)

property-normalize :
    (p : Packages) (key : String) (new answer : TokenRates)
    → property_of key (normalize p new answer) ≡ last_of p key answer (property_of key new)
unfolding normalize
property-normalize p key new [] = refl
property-normalize p key new ((k, rates) ∷ rest) =
    property-normalize p key ((p.to_lower_case k, rates) ∷ new) rest

module _ (is_zero : Text → Bool) (p : Packages) (bn_of_text : Text → ℤ) (bn_pow : ℤ → ℤ → ℤ) where
  -- An available token that is converted by the price of an address shows its balance and its net flow,
  -- and both converted by the rate of the last entry of the service's answer whose key is the address in
  -- lower case; without such an entry, or with a rate of 0 or none in the default currency, neither.
  pub to_item-converted :
      (answer : TokenRates) (is_test_net : Bool) (t : FormattedToken) {key : String}
      → get_convert_rate_token p t.token is_test_net ≡ ok (some key)
      → let rate = currency_rate is_zero (last_of p key answer none) in
        (item : BalanceItem) × (to_item is_zero p bn_of_text bn_pow
            (normalize p [] answer)
            is_test_net
            t
          ≡ ok item)
        × (item.amount ≡ t.balance)
        × (item.net_flow ≡ t.net_flow)
        × (item.converted_amount ≡ converted is_zero p bn_of_text bn_pow t.balance rate)
        × (item.converted_net_flow ≡ converted is_zero p bn_of_text bn_pow t.net_flow rate)
  unfolding to_item
  to_item-converted answer is_test_net t {key} h =
      let rate = currency_rate is_zero (last_of p key answer none) in
      (
        item_with is_zero p bn_of_text bn_pow t rate,
        rw (h, property-normalize p key [] answer) refl,
        refl,
        refl,
        refl,
        refl,
      )
