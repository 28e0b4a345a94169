-- ===== src/Forms/Selector.antt =====
-- app/src/components/SidePanels/TokenSelector/index.js: the token that a form selects, and the data
-- that are fetched for it.
pub mod Fetching
pub mod Renders
pub mod Settled
pub mod Overtaken
use superfluid_aragon_app.Prelude.{
  ℕ, ℤ, pos, negsuc, ◌+ℤ◌, ◌-ℤ◌, is_zero_ℤ, String, Bool, true, false, ◌&&◌, ◌||◌, not, Option,
  none, some, List, get_elem?, str_eq, if◌then◌else◌,
}
use superfluid_aragon_app.Js.{Result, ok, throw, ◌>>=◌}
use superfluid_aragon_app.Packages.{Packages}
use superfluid_aragon_app.Chain.{App, Chain}
use superfluid_aragon_app.Helpers.Network.{Network}
use superfluid_aragon_app.Helpers.Token.{
  TokenData, no_data, address, load_token_data, load_token_holder_balance,
}
use superfluid_aragon_app.Store.Data.{Amount, text, number}

pub data SelectionError : Type 0 where
  invalid_token no_token_balance fetch_token : SelectionError

pub record SelectedToken : Type 0 where
  pub index : ℤ
  pub address : String
  pub data' : TokenData
  pub user_balance : Option Amount
  pub loading_data : Bool
  pub error : Option SelectionError

abbrev pub custom_token_index : ℤ
custom_token_index = negsuc 0

abbrev pub initial_selected_token : SelectedToken
initial_selected_token = record {
  index = negsuc 1;
  address = "";
  data' = no_data;
  user_balance = none;
  loading_data = false;
  error = none;
}

-- What the selector reads of an item of its list.
pub record TokenItem : Type 0 where
  pub address : String
  pub data' : TokenData

unfoldable pub to_token_items_index : ℤ → Bool → ℤ
to_token_items_index index allow_custom_token = if allow_custom_token then index +ℤ pos 1 else index

unfoldable pub from_token_items_index : ℤ → Bool → ℤ
from_token_items_index index allow_custom_token =
    if allow_custom_token then index -ℤ pos 1 else index

-- `tokens[index]`
abbrev pub item_at : List TokenItem → ℤ → Option TokenItem
item_at tokens (pos i) = get_elem? tokens i
item_at tokens (negsuc i) = none

abbrev pub selected_item : ℤ → Bool → Option TokenItem → SelectedToken
selected_item index load_user_balance none = record {
  index = index;
  address = "";
  data' = no_data;
  user_balance = none;
  loading_data = load_user_balance;
  error = none;
}
selected_item index load_user_balance (some token) = record {
  index = index;
  address = token.address;
  data' = token.data';
  user_balance = none;
  loading_data = load_user_balance;
  error = none;
}

-- The text of the custom address, and the token that `onChange` is given.
unfoldable pub handle_drop_down_change : List TokenItem → Bool → Bool → ℤ → String × SelectedToken
unfolding from_token_items_index
handle_drop_down_change tokens allow_custom_token load_user_balance index =
    let token_index = from_token_items_index index allow_custom_token in
    ("", selected_item token_index load_user_balance (item_at tokens token_index))

unfoldable pub handle_custom_token_address_change : String → String × SelectedToken
handle_custom_token_address_change value = (
  value,
  record {
    index = custom_token_index;
    address = value;
    data' = no_data;
    user_balance = none;
    loading_data = true;
    error = none;
  },
)

-- `!userBalance || userBalance === '0'`
abbrev pub lacks_balance : Option Amount → Bool
lacks_balance none = true
lacks_balance (some (text n)) = is_zero_ℤ n
lacks_balance (some (number n)) = is_zero_ℤ n

module _ (p : Packages) (app : App) (chain : Chain) (network : Network) where
  -- `isSuperToken` of app/src/helpers/superfluid.js: a contract that has a host.
  unfoldable pub is_super_token : String → Bool
  is_super_token token_address = elim (app.external token_address >>= chain.host) [
    | ok host ↦ true
    | throw e ↦ false
  ]

  module _ (validate_token : String → Bool) (process_custom_token : String → Result String)
      (load_user_balance : Bool) where
    -- The end of the `try`, once the balance is read, or its `catch`.
    abbrev pub with_balance : SelectedToken → Result (Option Amount) → SelectedToken
    with_balance token (throw e) = record token { error = some fetch_token }
    with_balance token (ok balance) = record token {
      user_balance = balance;
      error = if lacks_balance balance then some no_token_balance else token.error;
    }

    -- `updatedToken.data.userBalance`: what is fetched, or what the data held.
    abbrev pub balance_read : String → String → Option Amount → Result (Option Amount)
    balance_read processed_address holder held =
        if load_user_balance
        then (load_token_holder_balance p app chain processed_address holder >>= λ b. ok (some b))
        else ok held

    abbrev pub with_data : String → String → SelectedToken → Result SelectedToken → SelectedToken
    with_data processed_address holder token (throw e) = record token { error = some fetch_token }
    with_data processed_address holder token (ok updated) =
        with_balance updated (balance_read processed_address holder updated.user_balance)

    -- The `try` and its `catch`: what was written before a rejection stays written.
    unfoldable pub read_token : String → SelectedToken → String → Bool → SelectedToken
    read_token processed_address token holder is_custom_token =
        with_data processed_address holder token (
          if is_custom_token
          then (load_token_data p app chain (address processed_address) network >>= λ data'.
              ok (record token { data' = data'; user_balance = none }))
          else ok token)

    -- What `onChange` is given; a rejection of `processCustomToken` is thrown before the `try`.
    unfoldable pub fetch_token_data : String → SelectedToken → String → Bool → Result SelectedToken
    unfolding read_token
    fetch_token_data token_address selected_token holder is_custom_token =
        if is_custom_token && not (validate_token token_address)
        then ok (record selected_token { loading_data = false; error = some invalid_token })
        else ((if is_custom_token then process_custom_token token_address else ok token_address)
            >>= λ processed_address.
                let updated = record selected_token {
                  address = token_address;
                  loading_data = false;
                } in
                ok (read_token processed_address updated holder is_custom_token))

    abbrev pub is_custom : String → SelectedToken → Bool
    is_custom custom_token_address token =
        not (str_eq custom_token_address "") && is_zero_ℤ (token.index +ℤ pos 1)

    -- The effect: nothing to do, or the token that comes of the fetch.
    unfoldable pub selector_effect :
        String → Option String → SelectedToken → Option (Result SelectedToken)
    unfolding fetch_token_data
    selector_effect custom_token_address none token = none
    selector_effect custom_token_address (some connected_account) token =
        let custom = is_custom custom_token_address token in
        let token_address = if custom then custom_token_address else token.address in
        if not token.loading_data
          || str_eq token_address ""
          || not (p.is_address token_address)
          || str_eq connected_account ""
        then none
        else some (fetch_token_data token_address token connected_account custom)
