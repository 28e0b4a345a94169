-- ===== src/Helpers/Network.antt =====
-- app/src/helpers/network.js, app/src/helpers/token-list.js and the native Super Tokens of
-- app/src/helpers/superfluid.js.
use superfluid_aragon_app.Prelude.{
  ℕ, String, Bool, false, ◌&&◌, ◌||◌, Option, none, some, List, [], ◌∷◌, str_eq, ◌==◌,
  if◌then◌else◌,
}
use superfluid_aragon_app.Js.{Result}
use superfluid_aragon_app.Packages.{Packages}
use superfluid_aragon_app.Helpers.Web3.{addresses_equal}

pub record Network : Type 0 where
  pub id : ℕ
  pub type : String

abbrev pub test_networks : List String
test_networks = "goerly" ∷ "kovan" ∷ "rinkeby" ∷ "ropsten" ∷ "mumbai" ∷ "private" ∷ []

abbrev pub local_network_id : ℕ
local_network_id = 1337

abbrev pub test_network_ids : List ℕ
test_network_ids = 5 ∷ 42 ∷ 4 ∷ 3 ∷ 80001 ∷ local_network_id ∷ []

abbrev pub includes_text : List String → String → Bool
includes_text [] s = false
includes_text (x ∷ xs) s = str_eq x s || includes_text xs s

abbrev pub includes_number : List ℕ → ℕ → Bool
includes_number [] n = false
includes_number (x ∷ xs) n = x == n || includes_number xs n

unfoldable pub is_test_network : Packages → Network → Bool
is_test_network p network =
    includes_text test_networks (p.to_lower_case network.type)
    && includes_number test_network_ids network.id

abbrev pub mainnet_token_list : String
mainnet_token_list = "https://tokens.coingecko.com/uniswap/all.json"

abbrev pub xdai_token_list : String
xdai_token_list = "https://tokens.honeyswap.org/"

abbrev pub polygon_token_list : String
polygon_token_list =
    "https://unpkg.com/quickswap-default-token-list@1.2.11/build/quickswap-default.tokenlist.json"

unfoldable pub get_token_list_url_by_network : Packages → Network → String
get_token_list_url_by_network p network =
    if is_test_network p network
    then mainnet_token_list
    else if network.id == 1
    then mainnet_token_list
    else if network.id == 100
    then xdai_token_list
    else if network.id == 137
    then polygon_token_list
    else mainnet_token_list

-- `NATIVE_SUPER_TOKENS[chainId]`
abbrev pub native_super_tokens : ℕ → Option String
native_super_tokens chain_id =
    if chain_id == 4
    then some "0xa623b2DD931C5162b7a0B25852f4024Db48bb1A0"
    else if chain_id == 100
    then some "0x59988e47A3503AaFaA0368b9deF095c818Fdca01"
    else if chain_id == 137
    then some "0x3aD736904E9e65189c3000c7DD2c8AC8bB7cD4e3"
    else if chain_id == 80001
    then some "0x96B82B65ACF7072eFEb00502F45757F254c2a0D4"
    else none

unfoldable pub is_native_super_token : Packages → Option String → ℕ → Result Bool
is_native_super_token p super_token_address chain_id =
    addresses_equal p super_token_address (native_super_tokens chain_id)
