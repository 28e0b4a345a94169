-- ===== src/Store/Tokens.antt =====
-- `getSuperTokenContract`, `newSuperToken` and `updateSuperTokens` of app/src/store/updaters.js.
-- The module's `superTokenContracts` map is the variable that each call reads and writes.
mod Create
pub use Create.{Settings, ListedToken, undefined_text, address_text}
unfoldable pub use Create.{new_super_token}
pub mod Outcome
use superfluid_aragon_app.Prelude.{
  ℕ, String, Option, none, some, List, [], ◌∷◌, ◌++◌, str_eq, if◌then◌else◌, get_elem?, set,
}
use superfluid_aragon_app.Js
use superfluid_aragon_app.Js.{Result, ok, throw, type_error, defined}
use superfluid_aragon_app.Js.Exec.{Exec, pure, lift, attempt, ◌>>=◌}
use superfluid_aragon_app.Js.Search.{find_index_js}
use superfluid_aragon_app.Packages.{Packages}
use superfluid_aragon_app.Chain.{Contract, App, Chain}
use superfluid_aragon_app.Helpers.Web3.{addresses_equal}
use superfluid_aragon_app.Store.Data.{Amount, SuperToken, State}

-- `superTokenContracts`, keyed by the text of the address.
abbrev pub Cache : Type 0
Cache = List (String × Contract)

abbrev pub cached : String → Cache → Option Contract
cached key [] = none
cached key ((k, c) ∷ rest) = if str_eq k key then some c else cached key rest

-- `superTokenContracts.set(tokenAddress, tokenContract)`: the newest entry is read first.
abbrev pub remember : String → Contract → Cache → Cache
remember key c cache = (key, c) ∷ cache

abbrev pub obtain : Option App → String → Option Contract → Result Contract
obtain app key (some c) = ok c
obtain none key none = throw type_error
obtain (some app) key none = app.external key

-- The second argument of the call is missing in `newSuperTokenEntry`, where `app` is `undefined`.
unfoldable pub get_super_token_contract : String → Option App → Exec Cache Contract
get_super_token_contract token_address app cache =
    let found = obtain app token_address (cached token_address cache) in
    elim found [
      | ok contract ↦ (ok contract, remember token_address contract cache)
      | throw e ↦ (throw e, cache)
    ]

abbrev pub with_net_flow : Option Amount → SuperToken → SuperToken
with_net_flow none token = token
with_net_flow (some net_flow) token = record token { net_flow = net_flow }

abbrev pub at_index : List SuperToken → Option ℕ → Option SuperToken
at_index tokens none = none
at_index tokens (some i) = get_elem? tokens i

abbrev pub write_token : List SuperToken → Option ℕ → SuperToken → List SuperToken
write_token tokens none token = tokens ++ token ∷ []
write_token tokens (some i) token = set tokens i token

module _ (p : Packages) (app : App) (chain : Chain) (settings : Settings) where
  -- The token that is to be written: a copy of the old one, or a new one.
  abbrev pub token_before : Option String → Contract → Option SuperToken → Result SuperToken
  token_before token_address contract (some old) = ok old
  token_before token_address contract none =
      new_super_token p app chain settings token_address contract

  -- The body of the `try` once the contract is at hand.
  unfoldable pub refresh_token :
      Option (List SuperToken)
      → String
      → Option String
      → ℕ
      → Option Amount
      → Contract
      → Result (List SuperToken)
  refresh_token old_super_tokens agent_address token_address update_timestamp net_flow contract =
      Js.◌>>=◌ (defined old_super_tokens) λ tokens.
        Js.◌>>=◌
          (find_index_js (λ token. addresses_equal p token_address (some token.address)) tokens)
          λ index. Js.◌>>=◌ (token_before token_address contract (at_index tokens index)) λ token.
            Js.◌>>=◌ (chain.balance_of contract agent_address) λ balance.
              let updated = record token {
                last_update_timestamp = some update_timestamp;
                balance = balance;
              } in
              ok (write_token tokens index (with_net_flow net_flow updated))

  -- The value is `undefined` where anything inside throws.
  unfoldable pub update_super_tokens :
      State → Option String → ℕ → Option Amount → Exec Cache (Option (List SuperToken))
  unfolding get_super_token_contract refresh_token
  update_super_tokens state token_address update_timestamp net_flow = attempt (do
    contract ← get_super_token_contract (address_text token_address) (some app)
    lift (
        refresh_token state.super_tokens state.agent_address token_address update_timestamp net_flow
          contract))
