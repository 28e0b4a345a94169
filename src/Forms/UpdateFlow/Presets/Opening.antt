-- ===== src/Forms/UpdateFlow/Presets/Opening.antt =====
-- The effect fills in what the preset says, where its token is offered.
use superfluid_aragon_app.Prelude.{
  ◌≡◌, refl, true, some, List, [], ◌∷◌, All, ◌==◌, if◌then◌else◌, arith, Bool-cases, inl, inr,
}
use superfluid_aragon_app.Js.{ok}
use superfluid_aragon_app.Packages.{Packages}
use superfluid_aragon_app.Helpers.Time.{Date}
use superfluid_aragon_app.Helpers.Decimals.{zero_char}
use superfluid_aragon_app.Helpers.Web3.{same, IsComparable}
use superfluid_aragon_app.Helpers.Amounts.{get_available_super_tokens}
use superfluid_aragon_app.Reducer.{FormattedToken}
use superfluid_aragon_app.Forms.Selector.{SelectedToken}
use superfluid_aragon_app.Forms.UpdateFlow.{FlowForm, outgoing_selected}
use superfluid_aragon_app.Components.FlowsTable.{FlowPreset}
use superfluid_aragon_app.Forms.UpdateFlow.Presets.{
  is_flow_update, mounted_form, offered, filled_form, preset_effect, open_form,
}
use superfluid_aragon_app.Forms.UpdateFlow.Presets.Listed.{listed, HasAddress, found_token}

module _ (p : Packages) where
  -- The preset of a flow's menu has an address and a recipient.
  abbrev pub IsNamed : FlowPreset → Type 0
  IsNamed preset = is_flow_update (some preset) ≡ true

  -- One run of the effect.
  filled :
      (preset : FlowPreset) (tokens : List FormattedToken) (form : FlowForm) {t : FormattedToken}
      → IsNamed preset
      → IsComparable p (some preset.super_token_address)
      → All (HasAddress p) tokens
      → listed p preset.super_token_address tokens ≡ some t
      → (token : SelectedToken) × (preset_effect p tokens (some preset) form
          ≡ ok (filled_form preset form token))
        × (same p (some token.address) (some preset.super_token_address) ≡ true)
  unfolding preset_effect
  filled preset tokens form n a h l =
      let (token, found, its) = found_token p preset.super_token_address tokens a h l in
      (token, rw (n, found) refl, its)

  -- The form shows what the preset says.
  pub record IsFilled (preset : FlowPreset) (form : FlowForm) : Type 0 where
    pub flow_type : form.selected_flow_type ≡ preset.flow_type_index
    pub recipient : form.recipient ≡ preset.recipient
    pub description : form.description ≡ preset.description
    pub token : same p (some form.selected_token.address) (some preset.super_token_address) ≡ true
    pub flow_rate : form.flow_rate ≡ zero_char ∷ []

  filled_form-IsFilled :
      (preset : FlowPreset) (form : FlowForm) (token : SelectedToken)
      → form.flow_rate ≡ zero_char ∷ []
      → same p (some token.address) (some preset.super_token_address) ≡ true
      → IsFilled preset (filled_form preset form token)
  filled_form-IsFilled preset form token r h = record {
    flow_type = refl;
    recipient = refl;
    description = refl;
    token = ground (arith, h);
    flow_rate = r;
  }

  mounted_rate :
      (available : List FormattedToken) → (mounted_form available).flow_rate ≡ zero_char ∷ []
  mounted_rate [] = refl
  mounted_rate (t ∷ ts) = refl

  pub open_form-IsFilled :
      (now : Date) (tokens : List FormattedToken) (preset : FlowPreset)
      {available : List FormattedToken} {t u : FormattedToken}
      → get_available_super_tokens p
          (λ t. t.balance)
          (λ t. t.net_flow)
          (λ t. t.last_update_date)
          now
          tokens
        ≡ ok available
      → All (HasAddress p) tokens
      → All (HasAddress p) available
      → IsComparable p (some preset.super_token_address)
      → IsNamed preset
      → listed p preset.super_token_address (offered available tokens (mounted_form available))
        ≡ some t
      → listed p preset.super_token_address
          (if preset.flow_type_index == 1 then available else tokens)
        ≡ some u
      → (form : FlowForm) × (open_form p now tokens (some preset) ≡ ok form) × IsFilled preset form
  unfolding open_form
  open_form-IsFilled now tokens preset {available} g h k a n l m =
      let mounted = mounted_form available in
      let (token, ran, its) =
        filled preset (offered available tokens mounted) mounted n a (comparable mounted) l in
      let first = filled_form preset mounted token in
      let (token', ran', its') =
        filled preset (offered available tokens first) first n a (comparable first) m in
      elim (Bool-cases (preset.flow_type_index == mounted.selected_flow_type)) [
        | inl unchanged ↦ (
          first,
          rw (g, ran, unchanged) refl,
          filled_form-IsFilled preset mounted token (mounted_rate available) its,
        )
        | inr changed ↦ (
          filled_form preset first token',
          rw (g, ran, changed) ran',
          filled_form-IsFilled preset first token' (mounted_rate available) its',
        )
      ]
    where
      comparable : (form : FlowForm) → All (HasAddress p) (offered available tokens form)
      comparable form = elim (Bool-cases (outgoing_selected form)) [
        | inl outgoing ↦ rw outgoing k
        | inr incoming ↦ rw incoming h
      ]
