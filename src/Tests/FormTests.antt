-- ===== src/Tests/FormTests.antt =====
-- The forms at concrete inputs.
use superfluid_aragon_app.Prelude.{
  pos, arith, ◌+◌, ◌+ℤ◌, ◌-ℤ◌, ◌≡◌, refl, true, false, Bool, none, some, List, [], ◌∷◌, String,
}
use superfluid_aragon_app.Js.{ok}
use superfluid_aragon_app.Helpers.Time
use superfluid_aragon_app.Helpers.Decimals.{Text, to_decimals, trim_leading, trim_trailing}
use superfluid_aragon_app.Helpers.Web3.{checksum, addresses_equal}
use superfluid_aragon_app.Helpers.Token.{load_token_holder_balance}
use superfluid_aragon_app.Store.Data.{text}
use superfluid_aragon_app.Actions.{downgrade_operation}
use superfluid_aragon_app.Reducer.{FormattedToken, FormattedFlow}
use superfluid_aragon_app.Forms.Selector.{
  SelectedToken, TokenItem, selector_effect, fetch_token_data, read_token, handle_drop_down_change,
  from_token_items_index,
}
use superfluid_aragon_app.Forms.Selector.Renders.{
  SelectorState, effect_of, first_render, choose_item, fetched, after_effect,
}
use superfluid_aragon_app.Forms.Selector.Settled.{
  History, shown, moved, chooses, one, History-IsSettled,
}
use superfluid_aragon_app.Forms.Amounts.{
  AmountForm, deposit_request, convert_request, submit_deposit, submit_downgrade,
}
use superfluid_aragon_app.Forms.Submission.{deposit_and_downgrade_ask}
use superfluid_aragon_app.Forms.UpdateFlow.{Floats, FlowForm, no_error}
use superfluid_aragon_app.Tests.Samples.{packages, app, chain, settings, held_token}

abbrev selecting : SelectedToken
selecting = record {
  index = pos 0;
  address = "token";
  data' = record { decimals = some 2; name = some "Token"; symbol = some "TKN" };
  user_balance = none;
  loading_data = true;
  error = none;
}

abbrev selected : SelectedToken
selected = record selecting { loading_data = false; user_balance = some (text (pos 500)) }

abbrev items : List TokenItem
items =
    record {
      address = "token";
      data' = record { decimals = some 2; name = some "Token"; symbol = some "TKN" };
    }
    ∷ []

-- The selector after a token was chosen, whose fetch is under way.
abbrev choosing : SelectorState
choosing =
    choose_item packages app chain settings.network (λ a. true) (λ a. ok a) true items false (pos 0)
      (first_render packages app chain settings.network (λ a. true) (λ a. ok a) true (some "me"))

abbrev chosen_history :
    History packages app chain settings.network (λ a. true) (λ a. ok a) true choosing
chosen_history = moved (shown (some "me")) (chooses items false (pos 0))

History-IsSettled_example :
    (0 + 1 ≡ 1)
    × (selected.loading_data ≡ false)
    × (effect_of packages app chain settings.network
          (λ a. true)
          (λ a. ok a)
          true
          (record {
            custom_token_address = "";
            selected_token = selected;
            connected_account = some "me";
            fetches = [];
          })
        ≡ none)
unfolding fetched choose_item first_render after_effect selector_effect fetch_token_data read_token
    load_token_holder_balance checksum addresses_equal handle_drop_down_change
    from_token_items_index ◌-ℤ◌ ◌+ℤ◌
History-IsSettled_example =
    History-IsSettled packages app chain settings.network (λ a. true) (λ a. ok a) true (λ a h. refl)
      chosen_history (one 0 (ground arith))

-- An amount of "7".
abbrev pub ready_form : AmountForm
ready_form = record { selected_token = selected; amount = b'7' ∷ []; error_message = some "" }

abbrev pub no_amount_is_zero : Text → Bool
no_amount_is_zero s = false

deposit_and_downgrade_ask_example :
    (submit_deposit packages no_amount_is_zero ready_form
      ≡ ok (ready_form, some (deposit_request "token" (b'7' ∷ b'0' ∷ b'0' ∷ []) true)))
    × (submit_downgrade packages no_amount_is_zero ready_form
        ≡ ok (
          ready_form,
          some (convert_request downgrade_operation "token" (b'7' ∷ b'0' ∷ b'0' ∷ [])),
        ))
unfolding to_decimals trim_leading trim_trailing
deposit_and_downgrade_ask_example = deposit_and_downgrade_ask packages no_amount_is_zero ready_form

abbrev pub listed_token : FormattedToken
listed_token = record {
  token = held_token;
  balance = pos 40;
  last_update_date = Time.at (pos 100000);
  liquidation_period_seconds = pos 3600;
  inflow_rate = pos 3;
  outflow_rate = pos 0;
  net_flow = pos 3;
  depletion_date = none;
}

-- Numbers that hold texts: nothing is less than another, and a sum is its second term.
abbrev pub plain_floats : Floats Text
plain_floats = record {
  of_text = λ s. s;
  of_int = λ n. [];
  to_text = λ s. s;
  add = λ a b. b;
  mul = λ a b. a;
  less = λ a b. false;
  at_most_zero = λ s. false;
  is_nan = λ s. false;
}

abbrev pub flow_form : FlowForm
flow_form = record {
  selected_flow_type = 1;
  recipient = "carol";
  selected_token = selected;
  flow_rate = b'7' ∷ [];
  description = "";
  error_message = no_error;
}

abbrev pub flow_to_carol : FormattedFlow
flow_to_carol = record {
  is_cancelled = false;
  is_incoming = false;
  entity = "carol";
  super_token_address = "token";
  description = "rent";
  accumulated_amount = pos 10;
  creation_date = Time.at (pos 90000);
  flow_rate = pos 3;
  last_update_date = Time.at (pos 100000);
}

abbrev pub encode : String → String
encode s = s
