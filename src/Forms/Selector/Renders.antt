-- ===== src/Forms/Selector/Renders.antt =====
-- app/src/components/SidePanels/TokenSelector/index.js between renders: the selector with the fetches that
-- it has started, whose answers come in any order.
use superfluid_aragon_app.Prelude.{
  ℕ, ℤ, String, Bool, Option, none, some, List, [], ◌∷◌, ◌++◌, get_elem?, remove_at,
}
use superfluid_aragon_app.Js.{Result, ok, throw}
use superfluid_aragon_app.Packages.{Packages}
use superfluid_aragon_app.Chain.{App, Chain}
use superfluid_aragon_app.Helpers.Network.{Network}
use superfluid_aragon_app.Forms.Selector.{
  SelectedToken, TokenItem, initial_selected_token, handle_drop_down_change,
  handle_custom_token_address_change, selector_effect,
}

-- The selector with the token of its form. A fetch is what it will give to `onChange`, or its rejection.
pub record SelectorState : Type 0 where
  pub custom_token_address : String
  pub selected_token : SelectedToken
  pub connected_account : Option String
  pub fetches : List (Result SelectedToken)

module _ (p : Packages) (app : App) (chain : Chain) (network : Network)
    (validate_token : String → Bool) (process_custom_token : String → Result String)
    (load_user_balance : Bool) where
  abbrev pub effect_of : SelectorState → Option (Result SelectedToken)
  effect_of s =
      selector_effect p app chain network validate_token process_custom_token load_user_balance
        s.custom_token_address s.connected_account s.selected_token

  -- The effect after a render in which one of its dependencies has changed.
  abbrev pub started : SelectorState → Option (Result SelectedToken) → SelectorState
  started s none = s
  started s (some fetch) = record s { fetches = s.fetches ++ fetch ∷ [] }

  unfoldable pub after_effect : SelectorState → SelectorState
  after_effect s = started s (effect_of s)

  unfoldable pub first_render : Option String → SelectorState
  unfolding after_effect
  first_render account = after_effect (record {
    custom_token_address = "";
    selected_token = initial_selected_token;
    connected_account = account;
    fetches = [];
  })

  abbrev pub with_selection : String × SelectedToken → SelectorState → SelectorState
  with_selection (custom_address, token) s =
      after_effect (record s { custom_token_address = custom_address; selected_token = token })

  unfoldable pub choose_item : List TokenItem → Bool → ℤ → SelectorState → SelectorState
  unfolding after_effect handle_drop_down_change
  choose_item tokens allow_custom_token index s =
      with_selection (handle_drop_down_change tokens allow_custom_token load_user_balance index) s

  unfoldable pub type_address : String → SelectorState → SelectorState
  unfolding after_effect handle_custom_token_address_change
  type_address value s = with_selection (handle_custom_token_address_change value) s

  -- The form sets another token, as a preset does.
  unfoldable pub set_token : SelectedToken → SelectorState → SelectorState
  unfolding after_effect
  set_token token s = after_effect (record s { selected_token = token })

  unfoldable pub connect : Option String → SelectorState → SelectorState
  unfolding after_effect
  connect account s = after_effect (record s { connected_account = account })

  -- A rejection changes nothing.
  abbrev pub given : Option (Result SelectedToken) → SelectorState → SelectorState
  given none s = s
  given (some (throw e)) s = s
  given (some (ok token)) s = after_effect (record s { selected_token = token })

  unfoldable pub fetched : ℕ → SelectorState → SelectorState
  unfolding after_effect
  fetched i s = given (get_elem? s.fetches i) (record s { fetches = remove_at s.fetches i })
