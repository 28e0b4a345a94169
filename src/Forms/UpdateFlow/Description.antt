-- ===== src/Forms/UpdateFlow/Description.antt =====
-- app/src/components/SidePanels/UpdateFlow/index.js: the effect that shows the description of the open
-- flow that the form would add to.
use superfluid_aragon_app.Prelude.{
  ℕ, ◌≡◌, refl, String, Bool, true, false, ◌||◌, not, Option, none, some, List, All, find_index,
  ◌==◌, if◌then◌else◌,
}
use superfluid_aragon_app.Js.{Result, ok, ◌>>=◌}
use superfluid_aragon_app.Js.Search.{find_index_js, find_index_js-eq}
use superfluid_aragon_app.Packages.{Packages}
use superfluid_aragon_app.Reducer.{FormattedFlow}
use superfluid_aragon_app.Forms.UpdateFlow.{
  Floats, FlowForm, is_existing, flow_found, handle_recipient_change,
}
use superfluid_aragon_app.Forms.UpdateFlow.Existing.{fits, Readable, Tests-is_existing}

-- `existingFlow`: `null` where the form is not searched for, `undefined` where no flow is found, and a flow
-- with its place.
pub data ExistingFlow : Type 0 where
  not_searched not_found : ExistingFlow
  found : ℕ → FormattedFlow → ExistingFlow

-- What React compares between two renders of the same flows.
abbrev pub is_same : ExistingFlow → ExistingFlow → Bool
is_same not_searched not_searched = true
is_same not_found not_found = true
is_same (found i f) (found j g) = i == j
is_same _ _ = false

abbrev pub at_place : List FormattedFlow → Option ℕ → ExistingFlow
at_place flows none = not_found
at_place flows (some i) = elim (flow_found flows (some i)) [ none ↦ not_found | some f ↦ found i f ]

-- The effect without its dependencies.
abbrev pub description_effect : Bool → ExistingFlow → FlowForm → FlowForm
description_effect true existing form = form
description_effect false not_searched form = record form { description = "" }
description_effect false not_found form = record form { description = "" }
description_effect false (found i f) form = record form { description = f.description }

-- It runs where the flow has changed between two renders.
unfoldable pub after_render : ExistingFlow → ExistingFlow → FlowForm → FlowForm
after_render before after form =
    if is_same before after then form else description_effect false after form

module _ {N : Type 0} (p : Packages) (floats : Floats N) where
  unfoldable pub existing_value :
      List FormattedFlow → String → Bool → FlowForm → Result ExistingFlow
  existing_value flows connected_account is_flow_update_operation form =
      if is_flow_update_operation
        || not (p.is_address form.recipient)
        || not (p.is_address form.selected_token.address)
      then ok not_searched
      else (find_index_js (is_existing p floats form connected_account) flows >>= λ index.
          ok (at_place flows index))

  -- A render after the recipient has changed, in a form that creates a flow.
  unfoldable pub change_recipient :
      List FormattedFlow → String → String → FlowForm → Result FlowForm
  unfolding existing_value handle_recipient_change
  change_recipient flows connected_account recipient form =
      existing_value flows connected_account false form >>= λ before.
      existing_value flows connected_account false (handle_recipient_change recipient form)
      >>= λ after. ok (after_render before after (handle_recipient_change recipient form))

  -- In a form whose token is chosen and whose recipient is not an address yet, a description that was
  -- entered is lost when the recipient becomes an address to which no flow of the token is open.
  pub typed_description_lost :
      (flows : List FormattedFlow) (account recipient : String) (form : FlowForm)
      → let changed = handle_recipient_change recipient form in
        p.is_address form.recipient ≡ false
        → p.is_address recipient ≡ true
        → p.is_address form.selected_token.address ≡ true
        → All (Readable p floats changed account) flows
        → find_index (fits p floats changed account) flows ≡ none
        → (lost : FlowForm) × (change_recipient flows account recipient form ≡ ok lost)
          × (lost.description ≡ "")
          × (lost.recipient ≡ recipient)
          × (lost.selected_token ≡ form.selected_token)
  unfolding change_recipient existing_value after_render handle_recipient_change
  typed_description_lost flows account recipient form not_yet now token readable none_open =
      let changed = handle_recipient_change recipient form in
      (
        record changed { description = "" },
        rw
            (
              not_yet,
              now,
              token,
              find_index_js-eq _ _ flows
                  (Tests-is_existing p floats changed account flows readable),
              none_open,
            )
            refl,
        refl,
        refl,
        refl,
      )
