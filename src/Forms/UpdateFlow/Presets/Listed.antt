-- ===== src/Forms/UpdateFlow/Presets/Listed.antt =====
-- The search of a preset's token among the offered ones.
use superfluid_aragon_app.Prelude.{
  ℕ, suc, pos, String, ◌≡◌, refl, ap, ◌∙◌, sym, Bool, true, false, Option, none, some, List, [],
  ◌∷◌, All, get_elem?, find_index, if◌then◌else◌, arith, Bool-cases, inl, inr, find,
}
use superfluid_aragon_app.Js.{ok, throw, type_error}
use superfluid_aragon_app.Js.Search.{find_index_js, find_index_js-eq, Tests}
use superfluid_aragon_app.Packages.{Packages}
use superfluid_aragon_app.Helpers.Web3.{
  addresses_equal, addresses_equal-eq-same, same, IsComparable,
}
use superfluid_aragon_app.Reducer.{FormattedToken}
use superfluid_aragon_app.Forms.Selector.{SelectedToken}
use superfluid_aragon_app.Forms.UpdateFlow.Presets.{find_flow_token}

module _ (p : Packages) where
  abbrev pub is_token : String → FormattedToken → Bool
  is_token address t = same p (some t.token.address) (some address)

  -- The token at the address in a list.
  abbrev pub listed : String → List FormattedToken → Option FormattedToken
  listed address tokens = find (is_token address) tokens

  abbrev pub HasAddress : FormattedToken → Type 0
  HasAddress t = IsComparable p (some t.token.address)

  pub tests :
      (address : String) (tokens : List FormattedToken)
      → IsComparable p (some address)
      → All HasAddress tokens
      → find_index_js (λ t. addresses_equal p (some t.token.address) (some address)) tokens
        ≡ ok (find_index (is_token address) tokens)
  tests address tokens a h = find_index_js-eq _ _ tokens (each tokens h)
    where
      each :
          (ts : List FormattedToken)
          → All HasAddress ts
          → Tests
              (λ t. addresses_equal p (some t.token.address) (some address))
              (is_token address)
              ts
      each [] k = tt
      each (t ∷ ts) k =
          (addresses_equal-eq-same p (some t.token.address) (some address) k.0 a, each ts k.1)

  none_is_not_some : {t : FormattedToken} → none ≡ some t → ⊥
  none_is_not_some h = cc

  some-injective : {t u : FormattedToken} → some t ≡ some u → t ≡ u
  some-injective h = cc

  pub locate :
      (address : String) (tokens : List FormattedToken) {t : FormattedToken}
      → listed address tokens ≡ some t
      → (i : ℕ) × (find_index (is_token address) tokens ≡ some i)
        × (get_elem? tokens i ≡ some t)
        × (is_token address t ≡ true)
  locate address [] h = absurd (none_is_not_some h)
  locate address (u ∷ us) {t} h = elim (Bool-cases (is_token address u)) [
    | inl hit ↦
        let own =
          some-injective (sym (ap (λ b. if b then some u else listed address us) hit) ∙ h) in
        (0, rw hit refl, ap some own, ap (is_token address) (sym own) ∙ hit)
    | inr miss ↦
        let below = sym (ap (λ b. if b then some u else listed address us) miss) ∙ h in
        let (i, found, at_i, its) = locate address us below in
        (suc i, rw (miss, found) refl, at_i, its)
  ]

  missing :
      (address : String) (tokens : List FormattedToken)
      → listed address tokens ≡ none
      → find_index (is_token address) tokens ≡ none
  missing address [] h = refl
  missing address (u ∷ us) h = elim (Bool-cases (is_token address u)) [
    | inl hit ↦ absurd (ground (arith, hit, h))
    | inr miss ↦ ground (arith, miss, missing address us (ground (arith, miss, h)))
  ]

  pub found_token :
      (address : String) (tokens : List FormattedToken) {t : FormattedToken}
      → IsComparable p (some address)
      → All HasAddress tokens
      → listed address tokens ≡ some t
      → (token : SelectedToken) × (find_flow_token p address tokens ≡ ok token)
        × (same p (some token.address) (some address) ≡ true)
  unfolding find_flow_token
  found_token address tokens {t} a h l =
      let (i, found, at_i, its) = locate address tokens l in
      (
        record {
          index = pos i;
          address = t.token.address;
          data' = record {
            decimals = t.token.decimals;
            name = t.token.name;
            symbol = t.token.symbol;
          };
          user_balance = none;
          loading_data = false;
          error = none;
        },
        rw (tests address tokens a h, found, at_i) refl,
        its,
      )

  pub lost_token :
      (address : String) (tokens : List FormattedToken)
      → IsComparable p (some address)
      → All HasAddress tokens
      → listed address tokens ≡ none
      → find_flow_token p address tokens ≡ throw type_error
  unfolding find_flow_token
  lost_token address tokens a h l = rw (tests address tokens a h, missing address tokens l) refl
