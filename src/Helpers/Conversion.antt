-- ===== src/Helpers/Conversion.antt =====
-- app/src/helpers/conversion.js: the token by whose price an amount is converted, and the conversion.
pub mod Digits
pub mod Scaled
use superfluid_aragon_app.Prelude.{
  ℕ, ℤ, pos, ◌+◌, ◌^◌, String, Bool, ◌||◌, Option, none, some, List, [], ◌∷◌, ◌++◌, ◌==◌, str_eq,
  if◌then◌else◌, length,
}
use superfluid_aragon_app.Js.{Result, ok, defined, ◌>>=◌}
use superfluid_aragon_app.Packages.{Packages}
use superfluid_aragon_app.Helpers.Web3.{addresses_equal, zero_address}
use superfluid_aragon_app.Helpers.Network.{local_network_id}
use superfluid_aragon_app.Helpers.Decimals.{
  Text, before_dot, after_dot, trim_leading, trim_trailing,
}
use superfluid_aragon_app.Store.Data.{SuperToken}

abbrev pub default_currency : String
default_currency = "usd"

-- `switch (symbol.toUpperCase())`, with no default case.
unfoldable pub get_native_currency_contract_equivalent :
    Packages → Option String → Result (Option String)
get_native_currency_contract_equivalent p symbol = defined symbol >>= λ s.
    let upper = p.to_upper_case s in
    ok (
      if str_eq upper "ETH"
      then some "0xc02aaa39b223fe8d0a0e5c4f27ead9083c756cc2"
      else if str_eq upper "XDAI"
      then some "0xe91d153e0b41518a2ce8dd3d7944fa863463a97d"
      else if str_eq upper "MATIC"
      then some "0x0000000000000000000000000000000000001010"
      else none)

unfoldable pub chain_id_to_asset_platform : ℕ → Option String
chain_id_to_asset_platform chain_id =
    if chain_id == 1 || chain_id == 4 || chain_id == local_network_id
    then some "ethereum"
    else if chain_id == 100
    then some "xdai"
    else if chain_id == 137 || chain_id == 80001
    then some "polygon-pos"
    else none

-- `address ? address.toLowerCase() : undefined`
abbrev pub lowered : Packages → Option String → Option String
lowered p none = none
lowered p (some a) = if str_eq a "" then none else some (p.to_lower_case a)

unfoldable pub get_convert_rate_token : Packages → SuperToken → Bool → Result (Option String)
get_convert_rate_token p super_token is_test_network =
    addresses_equal p (some super_token.underlying_token.address) (some zero_address) >>= λ native.
    if native
    then get_native_currency_contract_equivalent p super_token.underlying_token.symbol
    else ok (
        lowered p (
          if is_test_network
          then super_token.mainnet_token_equivalent_address
          else some super_token.underlying_token.address))

-- `bn_of_text` and `bn_pow` are `new BN(text)` and `a.pow(b)` of bn.js; the rate is the text that
-- `convertRate.toString()` gives.
module _ (p : Packages) (bn_of_text : Text → ℤ) (bn_pow : ℤ → ℤ → ℤ) where
  abbrev pub parsed_dec : Text → Text
  parsed_dec convert_rate = trim_trailing (before_dot (after_dot convert_rate))

  -- The rate without its dot.
  abbrev pub rate_digits : Text → Text
  rate_digits convert_rate = trim_leading (before_dot convert_rate ++ parsed_dec convert_rate)

  unfoldable pub get_converted_amount : ℤ → Text → ℤ
  get_converted_amount amount convert_rate =
      let carry_amount = pos (length (parsed_dec convert_rate)) in
      let exp_carry_amount = bn_pow (pos 10) carry_amount in
      let one_decimal = bn_pow (pos 10) (pos 18) in
      p.bn_div (p.bn_mul amount (p.bn_mul (bn_of_text (rate_digits convert_rate)) one_decimal))
        (p.bn_mul one_decimal exp_carry_amount)
