-- ===== src/Startup.antt =====
-- How the background script starts: `createSettings`, `fetchTokenList` and `loadInitialSuperTokens` of
-- app/src/store/helpers.js, app/src/store/preset-super-tokens.js, and `initializeState` of
-- app/src/script.js.
pub mod Presets
pub mod Loading
pub mod Distinct
pub mod Fresh
pub mod Restart
use superfluid_aragon_app.Prelude.{
  ℕ, zero, suc, String, Bool, true, false, ◌||◌, Option, none, some, List, [], ◌∷◌, ◌++◌, ◌==◌, map,
  keep_if, str_eq, if◌then◌else◌,
}
use superfluid_aragon_app.Js
use superfluid_aragon_app.Js.{Result, ok, throw, defined}
use superfluid_aragon_app.Js.Exec.{Exec, pure, lift, ◌>>=◌}
use superfluid_aragon_app.Packages.{Packages}
use superfluid_aragon_app.Chain.{App, Chain, Contract}
use superfluid_aragon_app.Helpers.Network.{Network, is_test_network, get_token_list_url_by_network}
use superfluid_aragon_app.Store.Data.{SuperToken, State}
use superfluid_aragon_app.Store.Tokens.{Cache, Settings, ListedToken, update_super_tokens}
use superfluid_aragon_app.Startup.Presets.{preset_super_tokens}
use superfluid_aragon_app.Sync.Blocks.{Ranges, block_ranges}

-- An item of a token list as it is fetched.
pub record RemoteToken : Type 0 where
  pub chain_id : ℕ
  pub token : ListedToken

-- What the script asks of the client that hosts it, of the network and of the agent's contract.
pub record Host : Type 0 where
  -- `app.call(name)`
  pub call : String → Result String
  pub governance : Contract → Result String
  pub network : Result Network
  -- `fetch(url)` and the `tokens` of its JSON
  pub fetch : String → Result (List RemoteToken)
  pub current_block : Result ℕ
  -- `parseInt` of the agent's `getInitializationBlock()`
  pub initialization_block : String → Result ℕ

module _ (p : Packages) (host : Host) where
  unfoldable pub fetch_token_list : Network → Result (List ListedToken)
  fetch_token_list network =
      Js.◌>>=◌ (host.fetch (get_token_list_url_by_network p network)) λ tokens. ok (
        map (λ t. t.token)
          (if is_test_network p network
            then tokens
            else keep_if (λ t. t.chain_id == network.id) tokens))

  unfoldable pub create_settings : App → Result Settings
  unfolding fetch_token_list
  create_settings app = Js.◌>>=◌ (host.call "cfa") λ cfa_address.
      Js.◌>>=◌ (app.external cfa_address) λ cfa. Js.◌>>=◌ (host.call "host") λ host_address.
        Js.◌>>=◌ (app.external host_address) λ host_contract.
          Js.◌>>=◌ (host.governance host_contract) λ governance_address.
            Js.◌>>=◌ (app.external governance_address) λ governance.
              Js.◌>>=◌ host.network λ network. Js.◌>>=◌ (fetch_token_list network) λ token_list.
                ok (record {
                  network = network;
                  cfa_address = cfa_address;
                  governance_address = governance_address;
                  host_address = host_address;
                  token_list = token_list;
                })

abbrev pub has_text : Option String → List (Option String) → Bool
has_text a [] = false
has_text none (none ∷ xs) = true
has_text none (some x ∷ xs) = has_text none xs
has_text (some a) (none ∷ xs) = has_text (some a) xs
has_text (some a) (some x ∷ xs) = str_eq a x || has_text (some a) xs

-- `new Set(list)`, after the items that are in it already.
abbrev pub distinct : List (Option String) → List (Option String) → List (Option String)
distinct seen [] = []
distinct seen (x ∷ xs) =
    let old = has_text x seen in
    let rest = distinct (if old then seen else x ∷ seen) xs in if old then rest else x ∷ rest

-- `tokens.map(({ address }) => address).concat(initialSTAddresses)`: where no addresses are given,
-- `concat` adds the `undefined` itself.
abbrev pub addresses_with : List SuperToken → Option (List String) → List (Option String)
addresses_with tokens none = map (λ t. some t.address) tokens ++ none ∷ []
addresses_with tokens (some addresses) = map (λ t. some t.address) tokens ++ map some addresses

-- `sha3(FLOW_UPDATED_SIGNATURE)`, `null`, or an encoded address.
pub data Topic : Type 0 where
  signature address : String → Topic
  any_topic : Topic

-- A contract that is listened to, with the topics of its events; `none` for all of them.
pub record Subscription : Type 0 where
  pub external : String
  pub topics : Option (List Topic)

abbrev pub flow_updated_signature : String
flow_updated_signature = "FlowUpdated(address,address,address,int96,int256,int256,bytes)"

-- What the script starts with: the state, and what it listens to from which blocks on.
pub record Started : Type 0 where
  pub state : State
  pub listens : List Subscription
  pub ranges : Ranges

module _ (p : Packages) (app : App) (chain : Chain) (settings : Settings) where
  -- The `for … of` loop.
  unfoldable pub update_each : List (Option String) → ℕ → State → Exec Cache State
  update_each [] timestamp state = pure state
  update_each (a ∷ rest) timestamp state = do
    tokens ← update_super_tokens p app chain settings state a timestamp none
    update_each rest timestamp (record state { super_tokens = tokens })

  abbrev pub load_with :
      Option (List SuperToken) → Option (List String) → ℕ → State → Exec Cache State
  load_with none none current_block state = pure state
  load_with tokens initial_addresses current_block state = do
    held ← lift (defined tokens)
    timestamp ← lift (chain.block_timestamp current_block)
    update_each (distinct [] (addresses_with held initial_addresses)) timestamp state

  unfoldable pub load_initial_super_tokens : State → Option (List String) → ℕ → Exec Cache State
  load_initial_super_tokens state initial_addresses current_block =
      load_with state.super_tokens initial_addresses current_block state

  abbrev pub subscriptions : String → List Subscription
  subscriptions agent =
      record { external = agent; topics = none }
      ∷ record {
        external = settings.cfa_address;
        topics =
            some (signature flow_updated_signature ∷ any_topic ∷ any_topic ∷ address agent ∷ []);
      }
      ∷ record {
        external = settings.cfa_address;
        topics = some (signature flow_updated_signature ∷ any_topic ∷ address agent ∷ []);
      }
      ∷ []

  -- `cachedState.initialBlock`, where it is not 0, or the agent's own.
  abbrev pub initial_block_of : Option ℕ → Result ℕ → Result ℕ
  initial_block_of (some (suc n)) asked = ok (suc n)
  initial_block_of _ asked = asked

  -- The fields of a cached state stand over those of a new one.
  abbrev pub state_before : String → Option State → ℕ → State
  state_before agent (some cached) initial_block = record cached { is_syncing = true }
  state_before agent none initial_block = record {
    agent_address = agent;
    cfa_address = settings.cfa_address;
    host_address = settings.host_address;
    super_tokens = some [];
    flows = [];
    senders_super_tokens = [];
    initial_block = initial_block;
    cached_block_number = none;
    is_syncing = true;
  }

  abbrev pub cached_initial : Option State → Option ℕ
  cached_initial none = none
  cached_initial (some s) = some s.initial_block

  abbrev pub cached_number : Option State → Option ℕ
  cached_number none = none
  cached_number (some s) = s.cached_block_number

  unfoldable pub initialize_state : Host → String → Option State → Exec Cache Started
  initialize_state host agent cached_state = do
    initial_block ←
        lift (initial_block_of (cached_initial cached_state) (host.initialization_block agent))
    current_block ← lift host.current_block
    state ←
        load_initial_super_tokens (state_before agent cached_state initial_block)
          (preset_super_tokens settings.network.id) current_block
    pure (record {
      state = state;
      listens = subscriptions agent;
      ranges = block_ranges (cached_number cached_state) current_block initial_block;
    })
