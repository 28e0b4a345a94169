-- ===== src/Components/AutoComplete.antt =====
-- app/src/components/LocalIdentitiesAutoComplete.js: the recipient's field, which searches the local
-- identities. A search is answered some time after it was asked for; the searches that are not answered
-- yet stand in the state, in the order in which they were asked for.
pub mod Searches
use Prim.Native.String.{count}
use superfluid_aragon_app.Prelude.{
  ℕ, zero, suc, ltb, ltb_ℤ, pos, String, Bool, true, false, ◌&&◌, ◌||◌, Option, none, some, List,
  [], ◌∷◌, ◌++◌, str_eq, if◌then◌else◌, get_elem?, remove_at,
}
use superfluid_aragon_app.Js.Sort.{sort_onto}
use superfluid_aragon_app.Packages.{Packages}

pub record Identity : Type 0 where
  pub name : String
  pub address : String

-- What waits for `api.searchIdentities(term)`: the list of the field, or the look-up of a value that did
-- not come from typing.
pub data Search : Type 0 where
  for_items for_value : String → Search

-- `value` is the parent's, which `onChange` changes.
pub record FieldState : Type 0 where
  pub items : List Identity
  pub selected : Option Identity
  pub search_term : String
  pub value : String
  pub pending : List Search

abbrev pub initial_field : FieldState
initial_field = record { items = []; selected = none; search_term = ""; value = ""; pending = [] }

unfoldable pub handle_search : String → FieldState → FieldState
handle_search term s =
    if ltb (count term) 3
    then record s { items = [] }
    else record s { pending = s.pending ++ for_items term ∷ [] }

unfoldable pub handle_change : String → FieldState → FieldState
unfolding handle_search
handle_change value s = record (handle_search value (record s { search_term = value })) {
  value = value;
}

unfoldable pub handle_select : Identity → FieldState → FieldState
unfolding handle_search
handle_select selected s =
    record (handle_search selected.name (record s { search_term = selected.name })) {
      selected = some selected;
      value = selected.address;
    }

-- Only a selected identity can be clicked.
unfoldable pub handle_selected_click : FieldState → FieldState
handle_selected_click s = elim s.selected [
  | none ↦ s
  | some selected ↦ record s { selected = none; value = selected.name }
]

-- The effect up to where it waits.
unfoldable pub field_effect : FieldState → FieldState
unfolding handle_search
field_effect s =
    if str_eq s.value ""
    then handle_search "" (record s { selected = none; search_term = "" })
    else if str_eq s.search_term ""
    then record s { pending = s.pending ++ for_value s.value ∷ [] }
    else s

module _ (p : Packages) where
  abbrev pub sort_alph_asc : Identity → Identity → Bool
  sort_alph_asc a b = ltb_ℤ (pos 0) (p.locale_compare a.name (some b.name))

  -- The name or the address is the value, in lower case.
  abbrev pub is_value : String → Identity → Bool
  is_value value item =
      str_eq (p.to_lower_case item.name) (p.to_lower_case value)
      || str_eq (p.to_lower_case item.address) (p.to_lower_case value)

  abbrev pub look_up : String → List Identity → FieldState → FieldState
  look_up value (item ∷ []) s =
      if is_value value item
      then handle_search item.name (record s { selected = some item; search_term = item.name })
      else record s { search_term = value }
  look_up value _ s = record s { search_term = value }

  -- What follows the answer of a search.
  unfoldable pub answer : Search → List Identity → FieldState → FieldState
  answer (for_items term) found s = record s { items = sort_onto sort_alph_asc [] found }
  answer (for_value value) found s = look_up value found s

  -- The search at `i` is answered.
  unfoldable pub resolve : ℕ → List Identity → FieldState → FieldState
  unfolding answer
  resolve i found s = elim (get_elem? s.pending i) [
    | none ↦ s
    | some search ↦ answer search found (record s { pending = remove_at s.pending i })
  ]
