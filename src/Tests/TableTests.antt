-- ===== src/Tests/TableTests.antt =====
-- The flows' table, its menus and the carousel at concrete inputs.
use mathlib.Core.List.{Perm}
use superfluid_aragon_app.Prelude.{
  ℤ, pos, negsuc, ltb_ℤ, ◌+ℤ◌, ◌*ℤ◌, ◌≡◌, refl, true, false, Option, none, some, List, [], ◌∷◌,
  ◌++◌, String, if◌then◌else◌, not, ◌||◌, arith,
}
use superfluid_aragon_app.Js.{ok, throw, type_error}
use superfluid_aragon_app.Js.Sort.{IsSorted}
use superfluid_aragon_app.Chain.{at}
use superfluid_aragon_app.Helpers.Time
use superfluid_aragon_app.Helpers.Time.{Date, timestamp_to_date}
use superfluid_aragon_app.Helpers.Decimals.{zero_char}
use superfluid_aragon_app.Helpers.Web3.{checksum, addresses_equal, same}
use superfluid_aragon_app.Helpers.Amounts.{get_available_super_tokens, calculate_current_amount}
use superfluid_aragon_app.Reducer.{FormattedFlow, FormattedToken, format_flow}
use superfluid_aragon_app.Actions.{word, call_agreement, delete_flow_abi, delete_flow_action}
use superfluid_aragon_app.Components.Carousel.{
  CarouselProps, lay_out, next, release, initial_carousel,
}
use superfluid_aragon_app.Components.Carousel.Range.{
  mounted, moved, went_on, dragged, IsInRange, History-IsInRange,
}
use superfluid_aragon_app.Components.FlowsTable.{
  TokenDetails, FlowRow, sort_flows, render_entry, render_entry_actions, flow_menu,
}
use superfluid_aragon_app.Components.FlowsTable.Order.{CompareDesc, IsNewer, sort_flows-eq}
use superfluid_aragon_app.Components.FlowsTable.Rows.{render_entry-shows}
use superfluid_aragon_app.Components.FlowsTable.Menus.{menu_deletes}
use superfluid_aragon_app.Forms.UpdateFlow.{FlowForm, outgoing_selected}
use superfluid_aragon_app.Forms.UpdateFlow.Presets.{open_form}
use superfluid_aragon_app.Forms.UpdateFlow.Presets.Menu.{menu_opens_flow, unavailable_menu_breaks}
use superfluid_aragon_app.Tests.Samples.{packages, packages_laws, carols_flow, held_token}

abbrev compare_desc : Date → Date → Option ℤ
compare_desc (Date.at a) (Date.at b) = some (if ltb_ℤ a b then pos 1 else pos 0)
compare_desc _ _ = none

compare_desc-CompareDesc : CompareDesc compare_desc
compare_desc-CompareDesc = record { earlier = λ a b h. rw h refl; latest = λ a b h. rw h refl }

abbrev shown_flow : FormattedFlow
shown_flow = record {
  is_cancelled = false;
  is_incoming = true;
  entity = "carol";
  super_token_address = "token";
  description = "rent";
  accumulated_amount = pos 10;
  creation_date = Time.at (pos 90000);
  flow_rate = pos 3;
  last_update_date = Time.at (pos 100000);
}

abbrev later_flow : FormattedFlow
later_flow = record shown_flow { creation_date = Time.at (pos 95000) }

abbrev closed_flow : FormattedFlow
closed_flow = record shown_flow { is_cancelled = true }

sort_flows-eq_example :
    (opens : List FormattedFlow) × (sort_flows compare_desc
        (closed_flow ∷ shown_flow ∷ later_flow ∷ [])
      ≡ opens ++ closed_flow ∷ [])
    × Perm opens (shown_flow ∷ later_flow ∷ [])
    × IsSorted IsNewer opens
sort_flows-eq_example =
    sort_flows-eq compare_desc-CompareDesc (closed_flow ∷ shown_flow ∷ later_flow ∷ [])
      ((pos 90000, refl), ((pos 90000, refl), ((pos 95000, refl), tt)))

abbrev details : List (String × TokenDetails)
details = ("token", record { decimals = some 18; symbol = some "TKN" }) ∷ []

render_entry-shows_example :
    (row : FlowRow) × (render_entry packages details "carol"
        (Time.at (pos 110000))
        (format_flow packages carols_flow)
      ≡ ok row)
    × (row.total ≡ pos 40)
    × (row.monthly_rate ≡ pos 7776000)
    × (row.end_date ≡ none)
    × (row.token_symbol ≡ some "TKN")
    × (row.connected_account ≡ true)
unfolding checksum same ◌+ℤ◌ ◌*ℤ◌ timestamp_to_date
render_entry-shows_example =
    render_entry-shows packages packages_laws details "carol" (Time.at (pos 110000)) 110 carols_flow
      refl refl refl refl (record { seconds = refl; taken = refl })

menu_deletes_example :
    (shown_flow.is_cancelled ≡ false)
    × ((not shown_flow.is_incoming || same packages (some "carol") (some "carol")) ≡ true)
    × ((delete_flow_action
          (λ c. ok tt)
          "agent"
          "cfa"
          (some (at "host"))
          "token"
          "carol"
          false
          true).calls
        ≡ call_agreement "cfa" delete_flow_abi
            (word "token" ∷ word "carol" ∷ word "agent" ∷ word "0x" ∷ [])
            "0x"
          ∷ [])
unfolding checksum render_entry_actions addresses_equal
menu_deletes_example =
    menu_deletes packages (λ c. ok tt) "agent" "cfa" "carol" (at "host") shown_flow refl refl refl

abbrev shown_token : FormattedToken
shown_token = record {
  token = held_token;
  balance = pos 40;
  last_update_date = Time.at (pos 100000);
  liquidation_period_seconds = pos 3600;
  inflow_rate = pos 3;
  outflow_rate = pos 0;
  net_flow = pos 3;
  depletion_date = none;
}

-- A token that is used up.
abbrev empty_token : FormattedToken
empty_token = record shown_token {
  token = record held_token { address = "empty" };
  balance = pos 0;
  net_flow = pos 0;
}

menu_opens_flow_example :
    (form : FlowForm) × (open_form packages
        (Time.at (pos 110000))
        (shown_token ∷ [])
        (some (flow_menu packages "agent" "carol" shown_flow).on_update_flow)
      ≡ ok form)
    × (outgoing_selected form ≡ false)
    × (form.recipient ≡ "agent")
    × (form.description ≡ "rent")
    × (same packages (some form.selected_token.address) (some "token") ≡ true)
    × (form.flow_rate ≡ zero_char ∷ [])
unfolding checksum render_entry_actions addresses_equal get_available_super_tokens
    calculate_current_amount same ◌+ℤ◌ ◌*ℤ◌
menu_opens_flow_example =
    menu_opens_flow packages (Time.at (pos 110000)) (shown_token ∷ []) "agent" "carol" shown_flow
      refl refl refl refl refl refl (refl, tt) (refl, tt) ((shown_token, refl), (shown_token, refl))

unavailable_menu_breaks_example :
    open_form packages (Time.at (pos 110000)) (shown_token ∷ empty_token ∷ []) (
      some
        (flow_menu packages "agent" "carol"
          (record shown_flow { super_token_address = "empty" })).on_update_flow)
    ≡ throw type_error
unfolding checksum get_available_super_tokens calculate_current_amount same ◌+ℤ◌ ◌*ℤ◌
unavailable_menu_breaks_example =
    unavailable_menu_breaks packages (Time.at (pos 110000)) (shown_token ∷ empty_token ∷ []) "agent"
      "carol" (record shown_flow { super_token_address = "empty" }) shown_token [] refl (refl, tt)
      refl refl refl

-- Five cards, two of which are in view.
abbrev five_cards : CarouselProps
five_cards = record {
  item_count = 5;
  compact_mode = true;
  item_width = 286;
  item_spacing = 24;
  custom_side_space = some (pos 64);
}

History-IsInRange_example :
    IsInRange (release (next (lay_out five_cards 700 (initial_carousel five_cards))) (negsuc 399))
unfolding lay_out next ◌+ℤ◌
History-IsInRange_example =
    History-IsInRange (moved (moved (mounted five_cards 700) (went_on refl)) (dragged (negsuc 399)))
      ((λ h. omega arith), tt)
