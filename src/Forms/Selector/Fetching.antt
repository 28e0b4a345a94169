-- ===== src/Forms/Selector/Fetching.antt =====
-- The effect of the selector settles, and what its answer says.
use superfluid_aragon_app.Prelude.{
  ℤ, ◌≡◌, refl, subst, String, Bool, true, false, ◌&&◌, not, Option, none, some, arith,
  if◌then◌else◌, Bool-cases, inl, inr, ◌+ℤ◌, ◌-ℤ◌,
}
use superfluid_aragon_app.Js.{Result, ok, throw, ◌>>=◌}
use superfluid_aragon_app.Packages.{Packages}
use superfluid_aragon_app.Chain.{App, Chain}
use superfluid_aragon_app.Helpers.Network.{Network}
use superfluid_aragon_app.Store.Data.{Amount}
use superfluid_aragon_app.Forms.Selector.{
  SelectedToken, invalid_token, to_token_items_index, from_token_items_index, with_balance,
  read_token, fetch_token_data, selector_effect,
}

-- The index that the drop-down shows for a selected item is the one that was chosen in it.
pub to_token_items_index-from_token_items_index :
    (index : ℤ) (allow_custom_token : Bool)
    → to_token_items_index (from_token_items_index index allow_custom_token) allow_custom_token
      ≡ index
unfolding to_token_items_index from_token_items_index ◌+ℤ◌ ◌-ℤ◌
to_token_items_index-from_token_items_index index true = ground arith
to_token_items_index-from_token_items_index index false = refl

pub else_some {ℓ} :
    {A : Type ℓ} (b : Bool) (x : A) {y : A} → (if b then none else some x) ≡ some y → x ≡ y
else_some true x h = cc
else_some false x h = cc

abbrev loading_of : Result SelectedToken → Bool
loading_of (ok token) = token.loading_data
loading_of (throw e) = false

module _ (p : Packages) (app : App) (chain : Chain) (network : Network)
    (validate_token : String → Bool) (process_custom_token : String → Result String)
    (load_user_balance : Bool) where
  with_balance-loading_data :
      (token : SelectedToken) (r : Result (Option Amount))
      → (with_balance p app chain network validate_token process_custom_token load_user_balance
          token r).loading_data
        ≡ token.loading_data
  with_balance-loading_data token (ok b) = refl
  with_balance-loading_data token (throw e) = refl

  pub read_token-loading_data :
      (a : String) (token : SelectedToken) (holder : String) (custom : Bool)
      → (read_token p app chain network validate_token process_custom_token load_user_balance a
          token holder custom).loading_data
        ≡ token.loading_data
  unfolding read_token
  read_token-loading_data a token holder custom = ground arith

  pub idle :
      (custom_address : String) (account : Option String) (token : SelectedToken)
      → token.loading_data ≡ false
      → selector_effect p app chain network validate_token process_custom_token load_user_balance
          custom_address account token
        ≡ none
  unfolding selector_effect
  idle custom_address none token h = refl
  idle custom_address (some a) token h = rw h

  pub fetched_is_read :
      (a : String) (token : SelectedToken) (holder : String) (custom : Bool)
      {fetched : SelectedToken}
      → fetch_token_data p app chain network validate_token process_custom_token load_user_balance a
          token holder custom
        ≡ ok fetched
      → fetched.loading_data ≡ false
  unfolding fetch_token_data
  fetched_is_read a token holder custom {fetched} h =
      elim (Bool-cases (custom && not (validate_token a))) [
        | inl refused ↦ ground (arith, refused)
        | inr valid ↦ after (if custom then process_custom_token a else ok a) (
            subst
              (λ b.
                (if b
                  then ok (record token { loading_data = false; error = some invalid_token })
                  else ((if custom then process_custom_token a else ok a) >>= continue))
                ≡ ok fetched)
              valid h)
      ]
    where
      continue : String → Result SelectedToken
      continue processed = ok (
          read_token p app chain network validate_token process_custom_token load_user_balance
            processed (record token { address = a; loading_data = false }) holder custom)

      after : (r : Result String) → (r >>= continue) ≡ ok fetched → fetched.loading_data ≡ false
      after (throw e) k = cc
      after (ok processed) k =
          subst (λ r. loading_of r ≡ false) k
            (read_token-loading_data processed (record token { address = a; loading_data = false })
              holder custom)

  -- The effect of the selector settles: on the token that a fetch gives it does nothing more, whether
  -- the fetch found the token, refused it or failed.
  pub selector_effect_settles :
      (custom_address : String) (account : Option String) (token : SelectedToken)
      {fetched : SelectedToken}
      → selector_effect p app chain network validate_token process_custom_token load_user_balance
          custom_address account token
        ≡ some (ok fetched)
      → selector_effect p app chain network validate_token process_custom_token load_user_balance
          custom_address account fetched
        ≡ none
  unfolding selector_effect fetch_token_data
  selector_effect_settles custom_address account token {fetched} h =
      idle custom_address account fetched (after account h)
    where
      after :
          (account : Option String)
          → selector_effect p app chain network validate_token process_custom_token
              load_user_balance custom_address account token
            ≡ some (ok fetched)
          → fetched.loading_data ≡ false
      after none k = cc
      after (some a) k = fetched_is_read _ token a _ (else_some _ _ k)
