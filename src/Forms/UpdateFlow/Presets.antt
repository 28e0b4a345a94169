-- ===== src/Forms/UpdateFlow/Presets.antt =====
-- app/src/components/SidePanels/UpdateFlow/index.js: the form that the menu of a flow opens, with the
-- effect that fills it in.
pub mod Listed
pub mod Opening
pub mod Menu
use superfluid_aragon_app.Prelude.{
  ℕ, pos, String, Bool, true, false, ◌&&◌, not, Option, none, some, List, [], ◌∷◌, str_eq,
  get_elem?, ◌==◌, if◌then◌else◌,
}
use superfluid_aragon_app.Js.{Result, ok, throw, type_error, defined, ◌>>=◌}
use superfluid_aragon_app.Js.Search.{find_index_js}
use superfluid_aragon_app.Packages.{Packages}
use superfluid_aragon_app.Helpers.Time.{Date}
use superfluid_aragon_app.Helpers.Web3.{addresses_equal}
use superfluid_aragon_app.Helpers.Amounts.{get_available_super_tokens}
use superfluid_aragon_app.Reducer.{FormattedToken}
use superfluid_aragon_app.Forms.Selector.{SelectedToken}
use superfluid_aragon_app.Forms.UpdateFlow.{FlowForm, cleared_form, outgoing_selected}
use superfluid_aragon_app.Components.FlowsTable.{FlowPreset}

-- `Boolean(presetSuperTokenAddress && presetRecipient)`
abbrev pub is_flow_update : Option FlowPreset → Bool
is_flow_update none = false
is_flow_update (some preset) =
    not (str_eq preset.super_token_address "") && not (str_eq preset.recipient "")

-- The form as it is mounted: outgoing, if there is a token to send.
abbrev pub mounted_form : List FormattedToken → FlowForm
mounted_form [] = record cleared_form { selected_flow_type = 0 }
mounted_form (t ∷ ts) = cleared_form

-- The tokens of the selector.
abbrev pub offered : List FormattedToken → List FormattedToken → FlowForm → List FormattedToken
offered available all_tokens form = if outgoing_selected form then available else all_tokens

-- A formatted token has no `isIncoming`, so `loadingData` is `undefined`.
abbrev pub token_at : List FormattedToken → Option ℕ → Result SelectedToken
token_at super_tokens none = throw type_error
token_at super_tokens (some i) = defined (get_elem? super_tokens i) >>= λ t. ok (record {
  index = pos i;
  address = t.token.address;
  data' = record { decimals = t.token.decimals; name = t.token.name; symbol = t.token.symbol };
  user_balance = none;
  loading_data = false;
  error = none;
})

abbrev pub filled_form : FlowPreset → FlowForm → SelectedToken → FlowForm
filled_form preset form token = record form {
  selected_flow_type = preset.flow_type_index;
  recipient = preset.recipient;
  selected_token =
      if preset.flow_type_index == 0 then record token { loading_data = true } else token;
  description = preset.description;
}

module _ (p : Packages) where
  unfoldable pub find_flow_token : String → List FormattedToken → Result SelectedToken
  find_flow_token address super_tokens =
      find_index_js (λ t. addresses_equal p (some t.token.address) (some address)) super_tokens
      >>= λ index. token_at super_tokens index

  -- "Set up preset params."
  unfoldable pub preset_effect :
      List FormattedToken → Option FlowPreset → FlowForm → Result FlowForm
  unfolding find_flow_token
  preset_effect super_tokens none form = ok form
  preset_effect super_tokens (some preset) form =
      if is_flow_update (some preset)
      then (find_flow_token preset.super_token_address super_tokens >>= λ token.
          ok (filled_form preset form token))
      else ok form

  -- The effect runs again where it has changed the direction, and with that the offered tokens.
  unfoldable pub open_form : Date → List FormattedToken → Option FlowPreset → Result FlowForm
  open_form now all_tokens preset = do
    available ←
        get_available_super_tokens p (λ t. t.balance) (λ t. t.net_flow) (λ t. t.last_update_date)
          now all_tokens
    let mounted = mounted_form available
    first ← preset_effect (offered available all_tokens mounted) preset mounted
    if first.selected_flow_type == mounted.selected_flow_type
        then ok first
        else preset_effect (offered available all_tokens first) preset first
