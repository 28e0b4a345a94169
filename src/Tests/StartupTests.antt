-- ===== src/Tests/StartupTests.antt =====
-- The start of the background script at concrete inputs.
use superfluid_aragon_app.Prelude.{◌≡◌, refl, true, none, some, [], ◌∷◌, pos}
use superfluid_aragon_app.Js.{ok}
use superfluid_aragon_app.Chain.{at}
use superfluid_aragon_app.Helpers.Web3.{checksum, addresses_equal}
use superfluid_aragon_app.Store.Data.{State}
use superfluid_aragon_app.Store.Data.{SuperToken, text, number}
use superfluid_aragon_app.Sync.Blocks.{block_ranges}
use superfluid_aragon_app.Helpers.Network.{is_native_super_token, is_test_network}
use superfluid_aragon_app.Helpers.Token.{load_token_data}
use superfluid_aragon_app.Store.Tokens.{Settings, new_super_token}
use superfluid_aragon_app.Startup.{Host, Started, load_initial_super_tokens, subscriptions}
use superfluid_aragon_app.Startup.Loading.{load_without_presets}
use superfluid_aragon_app.Startup.Fresh.{Loads, Fits, Loaded, load_with_presets-Loaded}
use superfluid_aragon_app.Tests.Samples.{
  packages, app, chain, settings, sample_state, broken_chain, held_token,
}

abbrev empty_state : State
empty_state = record sample_state { super_tokens = some [] }

no_contract_known : Fits packages app broken_chain settings "agent" []
no_contract_known = record { fits = λ k c r. cc r }

load_without_presets_example :
    (final : State) × ((load_initial_super_tokens packages app broken_chain settings sample_state
        none 200 []).0
      ≡ ok final)
    × (final.super_tokens ≡ none)
load_without_presets_example =
    load_without_presets packages app broken_chain settings "agent" sample_state (held_token ∷ [])
      200 200 [] (λ c e. refl) refl no_contract_known refl refl

no_contract_Fits : Fits packages app chain settings "agent" []
no_contract_Fits = record { fits = λ k c r. cc r }

abbrev fresh_token : SuperToken
fresh_token = record {
  address = "token";
  decimals = some 18;
  liquidation_period_seconds = text (pos 3600);
  name = some "Token";
  symbol = some "TKN";
  underlying_token = record {
    address = "under";
    name = some "Token";
    decimals = some 18;
    symbol = some "TKN";
  };
  logo_uri = none;
  mainnet_token_equivalent_address = none;
  balance = number (pos 0);
  net_flow = number (pos 0);
  last_update_timestamp = none;
}

token_Loads : Loads packages app chain settings "agent" "token"
unfolding new_super_token load_token_data is_native_super_token checksum addresses_equal
    is_test_network
token_Loads = record {
  contract = at "token";
  balance = text (pos 500);
  token = fresh_token;
  comparable = refl;
  external = refl;
  addressed = refl;
  answered = refl;
  created = refl;
}

load_with_presets-Loaded_example :
    Loaded packages app chain settings "agent"
      (some "token" ∷ [])
      []
      (load_initial_super_tokens packages app chain settings empty_state
        (some ("token" ∷ []))
        200
        []).0
load_with_presets-Loaded_example =
    load_with_presets-Loaded packages app chain settings "agent" empty_state [] ("token" ∷ []) 200
      200 [] refl refl (record { comparable = tt; unique = tt }) no_contract_Fits refl
      (token_Loads, tt)

abbrev mainnet_settings : Settings
mainnet_settings = record settings { network = record { id = 1; type = "main" } }

abbrev sample_host : Host
sample_host = record {
  call = λ name. ok name;
  governance = λ c. ok "governance";
  network = ok (record { id = 1; type = "main" });
  fetch = λ url. ok [];
  current_block = ok 200;
  initialization_block = λ a. ok 5;
}

-- Blocks up to 150 were cached.
abbrev cached_state : State
cached_state = record empty_state { cached_block_number = some 150 }

abbrev resumed : Started
resumed = record {
  state = record cached_state { is_syncing = true; super_tokens = none };
  listens = subscriptions packages app broken_chain mainnet_settings "agent";
  ranges = block_ranges (some 150) 200 5;
}
