-- ===== src/Forms/UpdateFlow/Presets/Menu.antt =====
-- The menu of a flow opens the form on that flow, or breaks where its token is not offered.
use superfluid_aragon_app.Prelude.{
  String, ◌≡◌, refl, ap, ◌∙◌, sym, true, not, none, some, List, [], ◌∷◌, All, ◌==◌, if◌then◌else◌,
  arith,
}
use superfluid_aragon_app.Js.{ok, throw, type_error}
use superfluid_aragon_app.Packages.{Packages}
use superfluid_aragon_app.Helpers.Time.{Date}
use superfluid_aragon_app.Helpers.Decimals.{zero_char}
use superfluid_aragon_app.Helpers.Web3.{same, IsComparable}
use superfluid_aragon_app.Helpers.Amounts.{get_available_super_tokens}
use superfluid_aragon_app.Reducer.{FormattedToken, FormattedFlow}
use superfluid_aragon_app.Forms.UpdateFlow.{FlowForm, outgoing_selected}
use superfluid_aragon_app.Components.FlowsTable.{flow_menu}
use superfluid_aragon_app.Forms.UpdateFlow.Presets.{
  is_flow_update, mounted_form, offered, preset_effect, open_form,
}
use superfluid_aragon_app.Forms.UpdateFlow.Presets.Listed.{listed, HasAddress, lost_token}
use superfluid_aragon_app.Forms.UpdateFlow.Presets.Opening.{IsNamed, open_form-IsFilled}
use superfluid_aragon_app.Components.FlowsTable.{FlowMenu, render_entry_actions}
use superfluid_aragon_app.Components.FlowsTable.Menus.{has_menu-eq}

module _ (p : Packages) where
  -- The tokens that the form offers while it is filled in: those of a new form, and those of the flow's
  -- direction.
  abbrev pub IsOffered : List FormattedToken → List FormattedToken → FormattedFlow → Type 0
  IsOffered available tokens flow =
      ((t : FormattedToken) × (listed p flow.super_token_address
            (offered available tokens (mounted_form available))
          ≡ some t))
      × ((u : FormattedToken) × (listed p flow.super_token_address
              (if flow.is_incoming then tokens else available)
            ≡ some u))

  by_direction :
      (agent account : String) (flow : FormattedFlow) (available tokens : List FormattedToken)
      → (if (flow_menu p agent account flow).on_update_flow.flow_type_index == 1
          then available
          else tokens)
        ≡ (if flow.is_incoming then tokens else available)
  by_direction agent account flow available tokens = ground arith

  -- Where the row of a flow has a menu with an address and a recipient, and the flow's token is among the
  -- tokens that the form offers, those of a new form and those of the flow's direction, the menu opens
  -- the form on the flow: its direction, its description and its token, and its receiver as the
  -- recipient, with a rate of 0 to fill in.
  pub menu_opens_flow :
      (now : Date) (tokens : List FormattedToken) (agent account : String) (flow : FormattedFlow)
      {menu : FlowMenu} {available : List FormattedToken}
      → render_entry_actions p agent account flow ≡ ok (some menu)
      → IsComparable p (some flow.entity)
      → IsComparable p (some account)
      → IsComparable p (some flow.super_token_address)
      → IsNamed p menu.on_update_flow
      → get_available_super_tokens p
          (λ t. t.balance)
          (λ t. t.net_flow)
          (λ t. t.last_update_date)
          now
          tokens
        ≡ ok available
      → All (HasAddress p) tokens
      → All (HasAddress p) available
      → IsOffered available tokens flow
      → (form : FlowForm) × (open_form p now tokens (some menu.on_update_flow) ≡ ok form)
        × (outgoing_selected form ≡ not flow.is_incoming)
        × (form.recipient ≡ (if flow.is_incoming then agent else flow.entity))
        × (form.description ≡ flow.description)
        × (same p (some form.selected_token.address) (some flow.super_token_address) ≡ true)
        × (form.flow_rate ≡ zero_char ∷ [])
  menu_opens_flow now tokens agent account flow h e a c n g hs ha o =
      let own = (has_menu-eq p agent account flow e a h).1 in
      let preset = (flow_menu p agent account flow).on_update_flow in
      let named = ap (λ m. is_flow_update (some m.on_update_flow)) (sym own) ∙ n in
      let ((t, first), (u, second)) = o in
      let (form, ran, is_filled) = open_form-IsFilled p now tokens preset g hs ha c named first (
        ap (listed p flow.super_token_address) (by_direction agent account flow _ tokens)
        ∙ second) in
      (
        form,
        ap (λ m. open_form p now tokens (some m.on_update_flow)) own ∙ ran,
        ap (λ i. i == 1) is_filled.flow_type ∙ direction flow,
        is_filled.recipient,
        is_filled.description,
        is_filled.token,
        is_filled.flow_rate,
      )
    where
      direction :
          (f : FormattedFlow)
          → ((flow_menu p agent account f).on_update_flow.flow_type_index == 1) ≡ not f.is_incoming
      direction f = ground arith

  -- Where a token is available to the agent, the menu of a flow whose token is not throws a
  -- `TypeError`: the form looks for the token among the available ones, also for an incoming flow.
  pub unavailable_menu_breaks :
      (now : Date) (tokens : List FormattedToken) (agent account : String) (flow : FormattedFlow)
      (t : FormattedToken) (ts : List FormattedToken)
      → get_available_super_tokens p
          (λ t. t.balance)
          (λ t. t.net_flow)
          (λ t. t.last_update_date)
          now
          tokens
        ≡ ok (t ∷ ts)
      → All (HasAddress p) (t ∷ ts)
      → IsComparable p (some flow.super_token_address)
      → IsNamed p (flow_menu p agent account flow).on_update_flow
      → listed p flow.super_token_address (t ∷ ts) ≡ none
      → open_form p now tokens (some (flow_menu p agent account flow).on_update_flow)
        ≡ throw type_error
  unfolding open_form preset_effect
  unavailable_menu_breaks now tokens agent account flow t ts g h c n l =
      rw (g, n, lost_token p flow.super_token_address (t ∷ ts) c h l) refl
