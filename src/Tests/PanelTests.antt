-- ===== src/Tests/PanelTests.antt =====
-- What the panels see, at concrete inputs: the reducer, the amounts, the actions and the hooks.
use superfluid_aragon_app.Prelude.{
  ℕ, ◌+ℤ◌, ◌*ℤ◌, pos, negsuc, ◌≡◌, refl, true, false, none, some, [], ◌∷◌, arith, keep_if, ℤ,
  Option,
}
use superfluid_aragon_app.Js.{ok, throw, type_error, failure, Result}
use superfluid_aragon_app.Js.Exec.{◌>>=◌}
use superfluid_aragon_app.Js.Search.{find_index_js}
use superfluid_aragon_app.Chain.{at}
use superfluid_aragon_app.Helpers.Time
use superfluid_aragon_app.Helpers.Time.{Date}
use superfluid_aragon_app.Helpers.Amounts.{later_by, calculate_depletion_date}
use superfluid_aragon_app.Hooks.Items.{BalanceItem}
use superfluid_aragon_app.Components.Card.{Shown, balance_shown}
use superfluid_aragon_app.Components.Card.Depleted.{card_runs_out, is_nothing}
use superfluid_aragon_app.Helpers.Web3.{checksum, addresses_equal, same}
use superfluid_aragon_app.Store.Data.{State}
use superfluid_aragon_app.Store.Tokens.{update_super_tokens}
use superfluid_aragon_app.Store.Handlers.{handle_vault_event, reduce, sync_status_syncing}
use superfluid_aragon_app.Store.Handlers.Lost.{run}
use superfluid_aragon_app.Reducer.{
  app_state_reducer, FormattedToken, FormattedFlow, in_out_rates, count_flow, calculate_in_out_rate,
  rates_of, write_rates, format_token,
}
use superfluid_aragon_app.Reducer.Rates.{total, format_token-totals}
use superfluid_aragon_app.Reducer.Broken.{vault_event_breaks_panels}
use superfluid_aragon_app.Helpers.Decimals.{Text}
use superfluid_aragon_app.Actions.{
  Call, convert_tokens_action, upgrade_operation, downgrade_operation, unknown_operation, upgrade,
  downgrade, unknown_convert_operation,
}
use superfluid_aragon_app.Actions.Outcome.{convert_tokens-calls, Known}
use superfluid_aragon_app.Hooks.Panel.{
  opens, closes, elapse, transaction, settled, transition_end, initial_panel, act, acts,
  request_open,
}
use superfluid_aragon_app.Hooks.Panel.Timers.{opened_params_stay, reopened_params_lost}
use superfluid_aragon_app.Hooks.Filters.{Calendar, Filters, initial_filters, filtered_flows}
use superfluid_aragon_app.Hooks.Filters.Passing.{filtered_flows-eq, passes}
use superfluid_aragon_app.Tests.Samples.{
  packages, packages_laws, app, chain, broken_chain, settings, carols_flow, held_token,
  sample_state,
}

-- The state after a deposit whose balance could not be read.
abbrev without_tokens : State
without_tokens = record sample_state {
  super_tokens = none;
  is_syncing = true;
  cached_block_number = some 9;
}

vault_event_breaks_panels_example :
    (without_tokens.super_tokens ≡ none)
    × (app_state_reducer packages (Time.at (pos 0)) (some without_tokens) ≡ throw type_error)
unfolding run reduce handle_vault_event update_super_tokens checksum find_index_js addresses_equal
    ◌>>=◌
vault_event_breaks_panels_example =
    vault_event_breaks_panels packages app settings broken_chain sample_state
      (record { token = "token"; block_number = 8 }) ((chain, sync_status_syncing 9) ∷ []) []
      (Time.at (pos 0)) (λ c. refl) refl

-- A balance of 7 that shrinks by 2 a second lasts for 3 whole seconds.
-- A card with 7 at the time 5, which streams 2 in each second.
abbrev leaving_item : BalanceItem
leaving_item = record {
  address = "token";
  amount = pos 7;
  converted_amount = none;
  decimals = some 2;
  depletion_date = some (Time.at (pos 8000));
  last_update_date = Time.at (pos 5000);
  logo_uri = none;
  name = some "Token";
  inflow_rate = pos 0;
  outflow_rate = pos 2;
  net_flow = negsuc 1;
  converted_net_flow = none;
  symbol = some "TKN";
}

abbrev no_digits : ℤ → Option ℕ → ℕ → Text
no_digits amount decimals n = []

card_runs_out_example :
    (calculate_depletion_date packages (pos 7) (negsuc 1) (Time.at (pos 5000)) (Time.at (pos 5000))
      ≡ ok (some (later_by (pos 3000) (Time.at (pos 5000)))))
    × ((shown : Shown) × (balance_shown packages no_digits
            (later_by (pos 4000) (Time.at (pos 5000)))
            leaving_item
          ≡ ok shown)
        × (is_nothing shown ≡ true))
unfolding ◌+ℤ◌ ◌*ℤ◌
card_runs_out_example =
    card_runs_out packages packages_laws no_digits leaving_item 1 7 4 (pos 5000) (pos 0) refl refl
      refl refl refl

abbrev formatted_token : FormattedToken
formatted_token = record {
  token = held_token;
  balance = pos 40;
  last_update_date = Time.at (pos 100000);
  liquidation_period_seconds = pos 3600;
  inflow_rate = pos 3;
  outflow_rate = pos 0;
  net_flow = pos 3;
  depletion_date = none;
}

format_token-totals_example :
    (pos 3 ≡ total true "token" (carols_flow ∷ []))
    × (pos 0 ≡ total false "token" (carols_flow ∷ []))
unfolding in_out_rates count_flow calculate_in_out_rate rates_of write_rates format_token
    calculate_depletion_date Time.timestamp_to_date ◌+ℤ◌
format_token-totals_example =
    format_token-totals packages packages_laws (Time.at (pos 0)) (carols_flow ∷ []) held_token
      {formatted = formatted_token} refl

abbrev rejected : Call → Result (Unit {0})
rejected call = throw (failure 3)

sample-Known : Known rejected "agent" "cfa" packages app chain "token" 137 (at "token") "under"
unfolding checksum
sample-Known = record {
  contract = refl;
  underlying_read = refl;
  token_comparable = refl;
  native_comparable = refl;
  underlying_comparable = refl;
  zero_comparable = refl;
}

abbrev eight : Text
eight = b'8' ∷ []

convert_tokens-calls_example :
    ((convert_tokens_action rejected "agent" "cfa" packages app chain upgrade_operation "token"
        eight 137).calls
      ≡ upgrade "token" eight "under" ∷ [])
    × ((convert_tokens_action rejected "agent" "cfa" packages app chain upgrade_operation "token"
          eight 137).done
        ≡ false)
    × ((convert_tokens_action rejected "agent" "cfa" packages app chain downgrade_operation "token"
          eight 137).calls
        ≡ downgrade "token" eight ∷ [])
    × ((convert_tokens_action rejected "agent" "cfa" packages app chain downgrade_operation "token"
          eight 137).done
        ≡ false)
    × ((convert_tokens_action rejected "agent" "cfa" packages app chain unknown_operation "token"
          eight 137).calls
        ≡ [])
    × ((convert_tokens_action rejected "agent" "cfa" packages app chain unknown_operation "token"
          eight 137).outcome
        ≡ throw unknown_convert_operation)
unfolding same checksum
convert_tokens-calls_example =
    convert_tokens-calls rejected "agent" "cfa" packages app chain eight sample-Known

opened_params_stay_example :
    let after =
      acts {P = ℕ} 0
        (transition_end true ∷ transaction ∷ elapse 5000 ∷ settled ∷ [])
        (request_open (some 7) initial_panel) in
    (after.visible ≡ true) × (after.preset_params ≡ some 7)
opened_params_stay_example =
    opened_params_stay {P = ℕ} 0 initial_panel 7
      (transition_end true ∷ transaction ∷ elapse 5000 ∷ settled ∷ []) refl
      (tt, (tt, (tt, (tt, tt))))

reopened_params_lost_example :
    let reopened = acts {P = ℕ} 0 (closes ∷ elapse 400 ∷ opens (some 7) ∷ []) initial_panel in
    let later = act {P = ℕ} 0 (elapse 600) reopened in
    (reopened.preset_params ≡ some 7) × (later.visible ≡ true) × (later.preset_params ≡ some 0)
reopened_params_lost_example = reopened_params_lost {P = ℕ} 0 initial_panel 7 400 (omega arith)

abbrev plain_calendar : Calendar
plain_calendar = record {
  start_of_day = λ d. d;
  end_of_day = λ d. d;
  is_before = λ a b. false;
  is_after = λ a b. false;
}

abbrev shown_flow : FormattedFlow
shown_flow = record {
  is_cancelled = false;
  is_incoming = true;
  entity = "carol";
  super_token_address = "token";
  description = "rent";
  accumulated_amount = pos 10;
  creation_date = Time.at (pos 90000);
  flow_rate = pos 3;
  last_update_date = Time.at (pos 100000);
}

abbrev by_first_token : Filters
by_first_token = record initial_filters {
  selected_token = some 1;
  selected_flow_state = some 2;
  page = 4;
}

filtered_flows-eq_example :
    filtered_flows packages plain_calendar (held_token ∷ []) by_first_token (shown_flow ∷ [])
    ≡ ok (
        keep_if (passes packages plain_calendar (held_token ∷ []) by_first_token) (shown_flow ∷ []))
unfolding checksum
filtered_flows-eq_example =
    filtered_flows-eq packages plain_calendar (held_token ∷ []) by_first_token (shown_flow ∷ [])
      (held_token, refl, refl) (refl, tt)
