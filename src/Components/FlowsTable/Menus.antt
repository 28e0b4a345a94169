-- ===== src/Components/FlowsTable/Menus.antt =====
-- The menu of a row: who has one, and what its deletion sends.
use superfluid_aragon_app.Prelude.{
  String, ◌≡◌, refl, Bool, true, false, ◌&&◌, ◌||◌, not, none, some, [], ◌∷◌, str_eq, if◌then◌else◌,
  arith, ap, ◌∙◌, sym,
}
use superfluid_aragon_app.Js.{Result, ok, ok-injective}
use superfluid_aragon_app.Packages.{Packages}
use superfluid_aragon_app.Chain.{Contract}
use superfluid_aragon_app.Helpers.Web3.{IsComparable, addresses_equal-eq-same, same}
use superfluid_aragon_app.Reducer.{FormattedFlow}
use superfluid_aragon_app.Actions.{
  word, Call, delete_flow_abi, delete_own_flow, delete_flow, call_agreement, delete_flow_action,
}
use superfluid_aragon_app.Components.FlowsTable.{FlowMenu, flow_menu, render_entry_actions}

module _ (p : Packages) where
  -- The flow is open, and outgoing or sent by the connected account.
  abbrev pub has_menu : String → FormattedFlow → Bool
  has_menu account flow =
      not flow.is_cancelled && (not flow.is_incoming || same p (some flow.entity) (some account))

  pub render_entry_actions-eq :
      (agent account : String) (flow : FormattedFlow)
      → IsComparable p (some flow.entity)
      → IsComparable p (some account)
      → render_entry_actions p agent account flow
        ≡ ok (if has_menu account flow then some (flow_menu p agent account flow) else none)
  unfolding render_entry_actions
  render_entry_actions-eq agent account flow e a =
      ground (arith, addresses_equal-eq-same p (some flow.entity) (some account) e a)

  some-injective : {x y : FlowMenu} → some x ≡ some y → x ≡ y
  some-injective h = cc

  none_is_not_some : {x : FlowMenu} → none ≡ some x → ⊥
  none_is_not_some h = cc

  -- A row has at most the menu of its own flow.
  pub has_menu-eq :
      (agent account : String) (flow : FormattedFlow) {menu : FlowMenu}
      → IsComparable p (some flow.entity)
      → IsComparable p (some account)
      → render_entry_actions p agent account flow ≡ ok (some menu)
      → (has_menu account flow ≡ true) × (menu ≡ flow_menu p agent account flow)
  has_menu-eq agent account flow {menu} e a h =
      let shown = ok-injective (sym (render_entry_actions-eq agent account flow e a) ∙ h) in
      by_test (has_menu account flow) shown
    where
      by_test :
          (b : Bool)
          → (if b then some (flow_menu p agent account flow) else none) ≡ some menu
          → (b ≡ true) × (menu ≡ flow_menu p agent account flow)
      by_test true k = (refl, sym (some-injective k))
      by_test false k = absurd (none_is_not_some k)

-- The call that ends a flow: the sender ends an incoming one through the host; an outgoing one is ended by
-- the app's contract, with a function of its own for the receiver.
abbrev pub deletion : String → String → String → FormattedFlow → Call
deletion agent cfa account flow =
    if flow.is_incoming
    then call_agreement cfa delete_flow_abi
        (word flow.super_token_address ∷ word flow.entity ∷ word agent ∷ word "0x" ∷ []) "0x"
    else if str_eq account flow.entity
    then delete_own_flow flow.super_token_address
    else delete_flow flow.super_token_address flow.entity

module _ (p : Packages) (answer : Call → Result (Unit {0})) (agent cfa : String) where
  deletes_by_menu :
      (account : String) (host : Contract) (flow : FormattedFlow)
      → let d = (flow_menu p agent account flow).on_delete_flow in
        (delete_flow_action answer agent cfa
          (some host)
          d.super_token_address
          d.entity
          d.is_outgoing
          d.is_own).calls
        ≡ deletion agent cfa account flow ∷ []
  unfolding delete_flow_action
  deletes_by_menu account host flow = ground arith

  -- Where the row of a flow has a menu, the flow is open, and outgoing or from the connected account; and
  -- with a host contract the menu's deletion sends one call: for an incoming flow, through the host, the
  -- deletion of the flow from its entity to the agent; for an outgoing one, through the app's contract,
  -- the deletion of the flow to its entity, as the entity's own where the texts of both addresses are
  -- equal.
  pub menu_deletes :
      (account : String) (host : Contract) (flow : FormattedFlow) {menu : FlowMenu}
      → IsComparable p (some flow.entity)
      → IsComparable p (some account)
      → render_entry_actions p agent account flow ≡ ok (some menu)
      → let d = menu.on_delete_flow in
        (flow.is_cancelled ≡ false)
        × ((not flow.is_incoming || same p (some flow.entity) (some account)) ≡ true)
        × ((delete_flow_action answer agent cfa
              (some host)
              d.super_token_address
              d.entity
              d.is_outgoing
              d.is_own).calls
            ≡ deletion agent cfa account flow ∷ [])
  menu_deletes account host flow e a h =
      let (tested, own) = has_menu-eq p agent account flow e a h in
      (
        ground (arith, tested),
        ground (arith, tested),
        ap
              (λ m.
                (delete_flow_action answer agent cfa (some host)
                  m.on_delete_flow.super_token_address m.on_delete_flow.entity
                  m.on_delete_flow.is_outgoing m.on_delete_flow.is_own).calls)
              own
            ∙ deletes_by_menu account host flow,
      )
