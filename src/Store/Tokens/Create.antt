-- ===== src/Store/Tokens/Create.antt =====
-- `newSuperToken` of app/src/store/updaters.js: the data of a Super Token seen for the first time.
use superfluid_aragon_app.Prelude.{
  ℕ, pos, String, Bool, Option, none, some, List, [], ◌∷◌, if◌then◌else◌,
}
use superfluid_aragon_app.Js.{Result, ok, ◌>>=◌}
use superfluid_aragon_app.Packages.{Packages}
use superfluid_aragon_app.Chain.{Contract, App, Chain}
use superfluid_aragon_app.Helpers.Web3.{addresses_equal, zero_address, option_eq}
use superfluid_aragon_app.Helpers.Network.{Network, is_test_network, is_native_super_token}
use superfluid_aragon_app.Helpers.Token.{
  TokenData, handle, address, load_token_data, get_fake_token_symbol, get_native_currency_logo,
}
use superfluid_aragon_app.Store.Data.{number, SuperToken}

-- An item of `settings.tokenList`.
pub record ListedToken : Type 0 where
  pub address : String
  pub decimals : Option ℕ
  pub name : Option String
  pub symbol : Option String
  pub logo_uri : Option String

-- What `createSettings` returns, with the contracts as their addresses.
pub record Settings : Type 0 where
  pub network : Network
  pub cfa_address : String
  pub governance_address : String
  pub host_address : String
  pub token_list : List ListedToken

-- An address that may be `undefined`, where it is a key of the map or an argument of a call: the text that
-- JavaScript prints for `undefined` is no address.
abbrev pub undefined_text : String
undefined_text = "undefined"

abbrev pub address_text : Option String → String
address_text none = undefined_text
address_text (some a) = a

-- The part of the token that depends on the network's token list.
pub record Listing : Type 0 where
  pub underlying : TokenData
  pub logo_uri : Option String
  pub mainnet_token_equivalent_address : Option String

-- `tokenList.find(({ symbol }) => symbol === tokenSymbol)`
abbrev find_by_symbol : Option String → List ListedToken → Option ListedToken
find_by_symbol symbol [] = none
find_by_symbol symbol (t ∷ ts) =
    if option_eq t.symbol symbol then some t else find_by_symbol symbol ts

module _ (p : Packages) where
  -- `tokenList.find(({ address }) => addressesEqual(address, underlyingTokenAddress))`
  abbrev find_by_address : String → List ListedToken → Result (Option ListedToken)
  find_by_address a [] = ok none
  find_by_address a (t ∷ ts) =
      let rest = find_by_address a ts in
      addresses_equal p (some t.address) (some a) >>= λ b. if b then ok (some t) else rest

  -- The test network's branch, once the underlying token's data is known.
  abbrev test_listing : String → Option String → TokenData → Option ListedToken → Result Listing
  test_listing a symbol data' (some token) = ok (record {
    underlying = data';
    logo_uri = token.logo_uri;
    mainnet_token_equivalent_address = some token.address;
  })
  test_listing a symbol data' none = do
    native ← addresses_equal p (some a) (some zero_address)
    logo ← (if native then get_native_currency_logo p symbol else ok none)
    ok (record { underlying = data'; logo_uri = logo; mainnet_token_equivalent_address = none })

  module _ (app : App) (chain : Chain) (settings : Settings) where
    -- The other networks' branch.
    abbrev main_listing : String → Bool → Option ListedToken → Result Listing
    main_listing a native (some token) = ok (record {
      underlying = record { decimals = token.decimals; name = token.name; symbol = token.symbol };
      logo_uri = token.logo_uri;
      mainnet_token_equivalent_address = none;
    })
    main_listing a native none = do
      data' ← load_token_data p app chain (address a) settings.network
      logo ← (if native then get_native_currency_logo p data'.symbol else ok none)
      ok (record { underlying = data'; logo_uri = logo; mainnet_token_equivalent_address = none })

    unfoldable pub load_listing : String → Result Listing
    load_listing a =
        if is_test_network p settings.network
        then (do
          data' ← load_token_data p app chain (address a) settings.network
          let symbol = get_fake_token_symbol data'.symbol
          test_listing a symbol data' (find_by_symbol symbol settings.token_list))
        else (do
          native ← addresses_equal p (some a) (some zero_address)
          token ← (if native then ok none else find_by_address a settings.token_list)
          main_listing a native token)

    unfoldable pub new_super_token : Option String → Contract → Result SuperToken
    unfolding load_listing
    new_super_token super_token_address super_token_contract = do
      native ← is_native_super_token p super_token_address settings.network.id
      own ← load_token_data p app chain (handle super_token_contract) settings.network
      underlying_token_address ←
          (if native then ok zero_address else chain.underlying_token super_token_contract)
      liquidation_period ←
          chain.liquidation_period settings.host_address (address_text super_token_address)
      listing ← load_listing underlying_token_address
      ok (record {
        address = address_text super_token_address;
        decimals = own.decimals;
        liquidation_period_seconds = liquidation_period;
        name = own.name;
        symbol = own.symbol;
        underlying_token = record {
          address = underlying_token_address;
          name = listing.underlying.name;
          decimals = listing.underlying.decimals;
          symbol = listing.underlying.symbol;
        };
        logo_uri = listing.logo_uri;
        mainnet_token_equivalent_address = listing.mainnet_token_equivalent_address;
        balance = number (pos 0);
        net_flow = number (pos 0);
        last_update_timestamp = none;
      })
