-- ===== src/Tests/LogicTests.antt =====
-- The way from a form to a transaction at concrete inputs.
use superfluid_aragon_app.Prelude.{ℕ, pos, ◌+ℤ◌, ◌-ℤ◌, ◌≡◌, refl, true, false, some, [], ◌∷◌}
use superfluid_aragon_app.Js.{Result, ok, throw, failure}
use superfluid_aragon_app.Helpers.Time
use superfluid_aragon_app.Helpers.Decimals.{
  Text, to_decimals, from_decimals, trim_leading, trim_trailing,
}
use superfluid_aragon_app.Helpers.Web3.{checksum, addresses_equal, same}
use superfluid_aragon_app.Helpers.Amounts.{calculate_current_amount}
use superfluid_aragon_app.Chain.{at}
use superfluid_aragon_app.Js.Search.{find_index_js}
use superfluid_aragon_app.Actions.{Call, update_flow, deposit, upgrade, upgrade_operation}
use superfluid_aragon_app.Actions.Outcome.{Known}
use superfluid_aragon_app.Forms.Selector.{handle_drop_down_change, from_token_items_index}
use superfluid_aragon_app.Forms.Amounts.{
  deposit_request, convert_request, submit_deposit, submit_upgrade, underlying_tokens,
}
use superfluid_aragon_app.Forms.UpdateFlow.{
  FlowRequest, handle_submit, existing_flow, validate_fields, calculate_required_deposit,
  flow_request, calculate_new_flow_rate,
}
use superfluid_aragon_app.Hooks.Panel.{Panel, initial_panel, request_open}
use superfluid_aragon_app.AppLogic.{run_transaction, run_flow_request, run_request}
use superfluid_aragon_app.AppLogic.Outcome.{submission_sends, deposit_sends, upgrade_sends}
use superfluid_aragon_app.Tests.Samples.{packages, app, chain}
use superfluid_aragon_app.Tests.FormTests.{
  ready_form, no_amount_is_zero, listed_token, plain_floats, flow_form, flow_to_carol, encode,
}

abbrev rejected : Call → Result (Unit {0})
rejected call = throw (failure 3)

abbrev accepted : Call → Result (Unit {0})
accepted call = ok tt

abbrev open_panel : Panel ℕ
open_panel = request_open (some 7) initial_panel

abbrev asked_for : FlowRequest
asked_for = flow_request packages plain_floats encode flow_form false (some flow_to_carol)

submission_sends_example :
    (plain_floats.at_most_zero (b'7' ∷ []) ≡ false)
    × ((run_flow_request rejected "agent" "cfa" (some (at "host")) asked_for).calls
        ≡ update_flow "token" "carol" (b'7' ∷ b'0' ∷ b'0' ∷ []) "0x" ∷ [])
    × ((run_transaction 0 5000
          (run_flow_request rejected "agent" "cfa" (some (at "host")) asked_for)
          open_panel).visible
        ≡ false)
    × ((run_transaction 0 5000
          (run_flow_request rejected "agent" "cfa" (some (at "host")) asked_for)
          open_panel).wait_tx_panel
        ≡ false)
unfolding handle_submit existing_flow validate_fields checksum addresses_equal find_index_js
    calculate_current_amount calculate_required_deposit same to_decimals from_decimals trim_leading
    trim_trailing calculate_new_flow_rate
submission_sends_example =
    submission_sends rejected "agent" "cfa" packages 0 plain_floats encode false
      (Time.at (pos 100000)) "me" (listed_token ∷ []) (flow_to_carol ∷ []) flow_form (at "host")
      5000 open_panel {request = asked_for}
      (record { entity = refl; token = refl; end_comparable = refl; own_token = refl }, tt) refl
      refl refl

-- An amount of 7 of a token with 2 decimals.
abbrev scaled : Text
scaled = b'7' ∷ b'0' ∷ b'0' ∷ []

deposit_sends_example :
    (submit_deposit packages no_amount_is_zero ready_form
      ≡ ok (ready_form, some (deposit_request "token" scaled true)))
    × ((run_request rejected "agent" "cfa" packages app chain 137
          (deposit_request "token" scaled true)).calls
        ≡ deposit "token" scaled true ∷ [])
    × ((run_transaction 0 5000
          (run_request rejected "agent" "cfa" packages app chain 137
            (deposit_request "token" scaled true))
          open_panel).visible
        ≡ true)
    × ((run_transaction 0 5000
          (run_request rejected "agent" "cfa" packages app chain 137
            (deposit_request "token" scaled true))
          open_panel).wait_tx_panel
        ≡ false)
unfolding request_open to_decimals trim_leading trim_trailing
deposit_sends_example =
    deposit_sends rejected "agent" "cfa" packages 0 no_amount_is_zero app chain 137 ready_form 5000
      open_panel refl

token-Known : Known accepted "agent" "cfa" packages app chain "token" 137 (at "token") "under"
unfolding checksum
token-Known = record {
  contract = refl;
  underlying_read = refl;
  token_comparable = refl;
  native_comparable = refl;
  underlying_comparable = refl;
  zero_comparable = refl;
}

upgrade_sends_example :
    (submit_upgrade packages no_amount_is_zero (listed_token ∷ []) ready_form
      ≡ ok (ready_form, some (convert_request upgrade_operation "token" scaled)))
    × ((run_request accepted "agent" "cfa" packages app chain 137
          (convert_request upgrade_operation "token" scaled)).calls
        ≡ upgrade "token" scaled "under" ∷ [])
    × ((run_transaction 0 5000
          (run_request accepted "agent" "cfa" packages app chain 137
            (convert_request upgrade_operation "token" scaled))
          open_panel).visible
        ≡ false)
    × ((run_transaction 0 5000
          (run_request accepted "agent" "cfa" packages app chain 137
            (convert_request upgrade_operation "token" scaled))
          open_panel).wait_tx_panel
        ≡ false)
unfolding handle_drop_down_change from_token_items_index underlying_tokens ◌+ℤ◌ ◌-ℤ◌ request_open
    same checksum to_decimals trim_leading trim_trailing
upgrade_sends_example =
    upgrade_sends accepted "agent" "cfa" packages 0 no_amount_is_zero app chain 137
      (listed_token ∷ []) 0 ready_form 5000 open_panel refl refl refl token-Known
