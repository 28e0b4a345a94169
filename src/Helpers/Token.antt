-- ===== src/Helpers/Token.antt =====
-- app/src/helpers/token.js: a token's data, its holder's balance, and the texts that stand for it.
use superfluid_aragon_app.Prelude.{ℕ, String, Option, none, some, str_eq, ◌==◌, if◌then◌else◌}
use superfluid_aragon_app.Js.{Result, ok, throw, type_error, ◌>>=◌, defined}
use superfluid_aragon_app.Packages.{Packages}
use superfluid_aragon_app.Chain.{Contract, App, Chain}
use superfluid_aragon_app.Store.Data.{Amount}
use superfluid_aragon_app.Helpers.Web3.{addresses_equal, zero_address}
use superfluid_aragon_app.Helpers.Network.{Network}

-- `[decimals, name, symbol]`
pub record TokenData : Type 0 where
  pub decimals : Option ℕ
  pub name : Option String
  pub symbol : Option String

abbrev pub no_data : TokenData
no_data = record { decimals = none; name = none; symbol = none }

abbrev pub ethereum_native_currency : TokenData
ethereum_native_currency = record { decimals = some 18; name = some "ETH"; symbol = some "ETH" }

abbrev pub xdai_native_currency : TokenData
xdai_native_currency = record { decimals = some 18; name = some "xDAI"; symbol = some "XDAI" }

abbrev pub polygon_native_currency : TokenData
polygon_native_currency = record { decimals = some 18; name = some "MATIC"; symbol = some "MATIC" }

abbrev pub native_currencies : ℕ → Option TokenData
native_currencies id =
    if id == 1
    then some ethereum_native_currency
    else if id == 4
    then some ethereum_native_currency
    else if id == 100
    then some xdai_native_currency
    else if id == 137
    then some polygon_native_currency
    else if id == 80001
    then some polygon_native_currency
    else none

-- A contract's handle, or an address.
pub data TokenRef : Type 0 where
  handle : Contract → TokenRef
  address : String → TokenRef

module _ (p : Packages) (app : App) (chain : Chain) where
  abbrev pub read_token_data : Contract → Result TokenData
  read_token_data token_contract = do
    decimals ← chain.decimals token_contract
    name ← chain.name token_contract
    symbol ← chain.symbol token_contract
    ok (record { decimals = decimals; name = name; symbol = symbol })

  -- A network with no number has no data; one that the table lacks is a `TypeError`. A text that is
  -- no address has no method to call.
  unfoldable pub load_token_data : TokenRef → Network → Result TokenData
  load_token_data (handle token_contract) network = read_token_data token_contract
  load_token_data (address token) network =
      if p.is_address token
      then (do
        native ← addresses_equal p (some token) (some zero_address)
        if native
            then (if network.id == 0 then ok no_data else defined (native_currencies network.id))
            else (app.external token >>= read_token_data))
      else throw type_error

  unfoldable pub load_token_holder_balance : String → String → Result Amount
  load_token_holder_balance token_address holder = do
    native ← addresses_equal p (some token_address) (some zero_address)
    if native
        then chain.balance holder
        else (app.external token_address >>= λ token. chain.balance_of token holder)

-- `symbol && symbol.charAt(0) === 'f' ? symbol.slice(1, symbol.length) : symbol`
abbrev drop_f : String → String
drop_f String.[] = String.[]
drop_f (String.◌∷◌ c s) = if str_eq (String.◌∷◌ c String.[]) "f" then s else String.◌∷◌ c s

unfoldable pub get_fake_token_symbol : Option String → Option String
get_fake_token_symbol none = none
get_fake_token_symbol (some symbol) = some (drop_f symbol)

abbrev logo_of : String → Option String
logo_of symbol =
    if str_eq symbol "ETH"
    then some
        "https://raw.githubusercontent.com/trustwallet/assets/master/blockchains/ethereum/info/logo.png"
    else if str_eq symbol "XDAI"
    then some
        "https://assets.coingecko.com/coins/images/11062/small/Identity-Primary-DarkBG.png?1638372986"
    else if str_eq symbol "MATIC"
    then some
        "https://raw.githubusercontent.com/trustwallet/assets/master/blockchains/polygon/info/logo.png"
    else none

-- `undefined` has no method `toUpperCase`.
unfoldable pub get_native_currency_logo : Packages → Option String → Result (Option String)
get_native_currency_logo p symbol = do
  symbol' ← defined symbol
  ok (logo_of (p.to_upper_case symbol'))
