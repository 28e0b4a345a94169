-- ===== src/Forms/Selector/Overtaken.antt =====
-- Two items chosen in the selector one after the other, and the order of the answers.
use superfluid_aragon_app.Prelude.{
  ℕ, pos, ◌≡◌, refl, ap, ◌∙◌, String, Bool, true, false, some, List, [], ◌∷◌, ◌++◌, get_elem?,
  remove_at, str_eq, arith,
}
use superfluid_aragon_app.Js.{Result, ok}
use superfluid_aragon_app.Packages.{Packages}
use superfluid_aragon_app.Chain.{App, Chain}
use superfluid_aragon_app.Helpers.Network.{Network}
use superfluid_aragon_app.Forms.Selector.{
  SelectedToken, TokenItem, selected_item, read_token, fetch_token_data, selector_effect,
  handle_drop_down_change, from_token_items_index,
}
use superfluid_aragon_app.Forms.Selector.Fetching.{read_token-loading_data}
use superfluid_aragon_app.Forms.Selector.Settled.{given_read}
use superfluid_aragon_app.Forms.Selector.Renders.{
  SelectorState, after_effect, choose_item, given, fetched,
}

module _ (p : Packages) (app : App) (chain : Chain) (network : Network)
    (validate_token : String → Bool) (process_custom_token : String → Result String) where
  -- What the fetch of an item gives.
  abbrev pub read_item : ℕ → TokenItem → String → SelectedToken
  read_item i item account =
      read_token p app chain network validate_token process_custom_token true item.address
        (record (selected_item (pos i) true (some item)) { loading_data = false }) account false

  read_item-chosen :
      (i : ℕ) (item : TokenItem) (account : String)
      → ((read_item i item account).index ≡ pos i)
        × ((read_item i item account).address ≡ item.address)
  unfolding read_token
  read_item-chosen i item account = (ground arith, ground arith)

  module _ (account : String) (named : str_eq account "" ≡ false) (tokens : List TokenItem) where
    choose_item-starts :
        (i : ℕ) (item : TokenItem) (s : SelectorState)
        → get_elem? tokens i ≡ some item
        → str_eq item.address "" ≡ false
        → p.is_address item.address ≡ true
        → s.connected_account ≡ some account
        → choose_item p app chain network validate_token process_custom_token true tokens false
            (pos i)
            s
          ≡ record s {
            custom_token_address = "";
            selected_token = selected_item (pos i) true (some item);
            fetches = s.fetches ++ ok (read_item i item account) ∷ [];
          }
    unfolding choose_item after_effect handle_drop_down_change from_token_items_index
        selector_effect fetch_token_data
    choose_item-starts i item s found filled valid connected =
        simp (found, filled, valid, connected, named) refl

    -- Both items are in the list, at addresses, and no fetch is under way.
    pub record CanChoose (i : ℕ) (x : TokenItem) (s : SelectorState) : Type 0 where
      pub found : get_elem? tokens i ≡ some x
      pub filled : str_eq x.address "" ≡ false
      pub valid : p.is_address x.address ≡ true

    abbrev pub choose : ℕ → SelectorState → SelectorState
    choose i s =
        choose_item p app chain network validate_token process_custom_token true tokens false
          (pos i) s

    abbrev pub answered : ℕ → SelectorState → SelectorState
    answered i s = fetched p app chain network validate_token process_custom_token true i s

    abbrev first_asked : ℕ → TokenItem → SelectorState → SelectorState
    first_asked i x s = record s {
      custom_token_address = "";
      selected_token = selected_item (pos i) true (some x);
      fetches = ok (read_item i x account) ∷ [];
    }

    abbrev both_asked : ℕ → TokenItem → ℕ → TokenItem → SelectorState → SelectorState
    both_asked i x j y s = record s {
      custom_token_address = "";
      selected_token = selected_item (pos j) true (some y);
      fetches = ok (read_item i x account) ∷ ok (read_item j y account) ∷ [];
    }

    answered_read :
        (n : ℕ) (s : SelectorState) {token : SelectedToken}
        → get_elem? s.fetches n ≡ some (ok token)
        → token.loading_data ≡ false
        → answered n s ≡ record s { selected_token = token; fetches = remove_at s.fetches n }
    unfolding fetched
    answered_read n s {token} found read =
        ap
          (λ o.
            given p app chain network validate_token process_custom_token true o
              (record s { fetches = remove_at s.fetches n }))
          found
        ∙ given_read p app chain network validate_token process_custom_token true
            (record s { fetches = remove_at s.fetches n }) token read

    module _ {i j : ℕ} {x y : TokenItem} (s : SelectorState) (first : CanChoose i x s)
        (second : CanChoose j y s) (none_waits : s.fetches ≡ [])
        (connected : s.connected_account ≡ some account) where
      choose_once : choose i s ≡ first_asked i x s
      choose_once =
          choose_item-starts i x s first.found first.filled first.valid connected
          ∙ ap
              (λ fs. record (first_asked i x s) { fetches = fs ++ ok (read_item i x account) ∷ [] })
              none_waits

      choose_twice : choose j (choose i s) ≡ both_asked i x j y s
      choose_twice =
          ap (choose j) choose_once
          ∙ choose_item-starts j y (first_asked i x s) second.found second.filled second.valid
              connected

      read_first : (read_item i x account).loading_data ≡ false
      read_first =
          read_token-loading_data p app chain network validate_token process_custom_token true _ _ _
            _

      read_second : (read_item j y account).loading_data ≡ false
      read_second =
          read_token-loading_data p app chain network validate_token process_custom_token true _ _ _
            _

      answered_in_order : answered 0 (answered 0 (choose j (choose i s))) ≡ record s {
        custom_token_address = "";
        selected_token = read_item j y account;
        fetches = [];
      }
      answered_in_order =
          ap (λ t. answered 0 (answered 0 t)) choose_twice
          ∙ ap (answered 0) (answered_read 0 (both_asked i x j y s) refl read_first)
          ∙ answered_read 0 _ refl read_second

      answered_overtaken : answered 0 (answered 1 (choose j (choose i s))) ≡ record s {
        custom_token_address = "";
        selected_token = read_item i x account;
        fetches = [];
      }
      answered_overtaken =
          ap (λ t. answered 0 (answered 1 t)) choose_twice
          ∙ ap (answered 0) (answered_read 1 (both_asked i x j y s) refl read_second)
          ∙ answered_read 0 _ refl read_first

      -- Two items are chosen one after the other, where no fetch is under way. With the answers in the order
      -- of the choices the second item is selected; with the second answer first the first item is, at its
      -- place in the list, and nothing is left to fetch.
      pub overtaken_choice :
          let in_order = answered 0 (answered 0 (choose j (choose i s))) in
          let overtaken = answered 0 (answered 1 (choose j (choose i s))) in
          (in_order.selected_token.address ≡ y.address)
          × (overtaken.selected_token.index ≡ pos i)
          × (overtaken.selected_token.address ≡ x.address)
          × (overtaken.fetches ≡ [])
      overtaken_choice = (
        ap (λ t. t.selected_token.address) answered_in_order ∙ (read_item-chosen j y account).1,
        ap (λ t. t.selected_token.index) answered_overtaken ∙ (read_item-chosen i x account).0,
        ap (λ t. t.selected_token.address) answered_overtaken ∙ (read_item-chosen i x account).1,
        ap (λ t. t.fetches) answered_overtaken,
      )
