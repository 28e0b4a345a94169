-- ===== src/Store/Tokens/Outcome.antt =====
-- `updateSuperTokens` where the chain answers: one walk over the tokens. The contract of the token
-- is in the cache afterwards, so a later call needs no `app`.
use superfluid_aragon_app.Prelude.{
  ℕ, String, ◌≡◌, refl, ap, sym, ◌∙◌, Bool, false, Option, none, some, List, [], ◌∷◌, str_eq_refl,
  All, find_index, Option-cases, inl, inr,
}
use superfluid_aragon_app.Js.{ok}
use superfluid_aragon_app.Js.Exec.{◌>>=◌}
use superfluid_aragon_app.Js.Search.{find_index_js-eq, Tests}
use superfluid_aragon_app.Js.Upsert.{
  upsert, upsert_absent, upsert_present, All-upsert, IsUnique, Milder, upsert-IsUnique,
}
use superfluid_aragon_app.Packages.{Packages}
use superfluid_aragon_app.Chain.{Contract, App, Chain}
use superfluid_aragon_app.Helpers.Web3.{
  addresses_equal, same, same_comm, IsComparable, addresses_equal-eq-same,
}
use superfluid_aragon_app.Store.Data.{Amount, SuperToken, State}
use superfluid_aragon_app.Store.Tokens.{
  Cache, cached, remember, obtain, Settings, get_super_token_contract, new_super_token,
  with_net_flow, refresh_token, update_super_tokens,
}

-- The call that has no `app` returns the contract that an earlier call has remembered.
pub remembered_contract :
    (token_address : String) (c : Contract) (cache : Cache)
    → (get_super_token_contract token_address none (remember token_address c cache)).0 ≡ ok c
unfolding get_super_token_contract
remembered_contract token_address c cache = rw (str_eq_refl token_address, get_super_token_contract)

-- What is written over a token: the time, the balance and, if given, the net flow.
abbrev pub refreshed : ℕ → Option Amount → Amount → SuperToken → SuperToken
refreshed t net_flow balance token =
    with_net_flow net_flow (record token { last_update_timestamp = some t; balance = balance })

address-refreshed :
    (t : ℕ) (net_flow : Option Amount) (balance : Amount) (token : SuperToken)
    → (refreshed t net_flow balance token).address ≡ token.address
address-refreshed t none balance token = refl
address-refreshed t (some n) balance token = refl

module _ (p : Packages) where
  abbrev pub is_token : String → SuperToken → Bool
  is_token token_address t = same p (some token_address) (some t.address)

  abbrev pub ComparableTokens : List SuperToken → Type 0
  ComparableTokens = All (λ t. IsComparable p (some t.address))

  -- The tokens as one walk: the token of the address is refreshed, or the new one is added.
  abbrev pub tokens_after :
      String → ℕ → Option Amount → Amount → SuperToken → List SuperToken → List SuperToken
  tokens_after token_address t net_flow balance new =
      upsert (is_token token_address) (refreshed t net_flow balance new)
        (refreshed t net_flow balance)

  pub token_clash : SuperToken → SuperToken → Bool
  token_clash a b = same p (some a.address) (some b.address)

  -- What the handlers keep of the tokens: their addresses can be compared, and no two are the same.
  pub record IsSoundTokens (tokens : List SuperToken) : Type 0 where
    pub comparable : ComparableTokens tokens
    pub unique : IsUnique token_clash tokens

  refreshed-Milder :
      (t : ℕ) (net_flow : Option Amount) (balance : Amount) (token : SuperToken)
      → Milder token_clash (refreshed t net_flow balance token) token
  unfolding token_clash
  refreshed-Milder t net_flow balance token = record {
    left = λ z h. rw (address-refreshed t net_flow balance token) h;
    right = λ z h. rw (address-refreshed t net_flow balance token) h;
  }

  clash-refreshed :
      (token_address : String) (t : ℕ) (net_flow : Option Amount) (balance : Amount)
      (new : SuperToken)
      → new.address ≡ token_address
      → (x : SuperToken) → is_token token_address x ≡ false
      → token_clash x (refreshed t net_flow balance new) ≡ false
  unfolding token_clash
  clash-refreshed token_address t net_flow balance new e x h =
      rw (address-refreshed t net_flow balance new, e)
        (same_comm p (some x.address) (some token_address) ∙ h)

  pub tokens_after-IsSound :
      (token_address : String) (t : ℕ) (net_flow : Option Amount) (balance : Amount)
      (new : SuperToken) (tokens : List SuperToken)
      → IsComparable p (some token_address)
      → new.address ≡ token_address
      → IsSoundTokens tokens
      → IsSoundTokens (tokens_after token_address t net_flow balance new tokens)
  tokens_after-IsSound token_address t net_flow balance new tokens r e h =
      let q = is_token token_address in
      let write = refreshed t net_flow balance in
      record {
        comparable =
            All-upsert {P = λ x. IsComparable p (some x.address)} q (write new) write
              (rw (address-refreshed t net_flow balance new, e) r)
              (λ x k. rw (address-refreshed t net_flow balance x) k) tokens h.comparable;
        unique =
            upsert-IsUnique token_clash q (write new) write
              (clash-refreshed token_address t net_flow balance new e)
              (refreshed-Milder t net_flow balance) tokens h.unique;
      }

module _ (p : Packages) (app : App) (chain : Chain) (settings : Settings) where
  -- `c` is the contract that the cache holds for the token, or else the one that `app` returns.
  abbrev pub Obtains : String → Contract → Cache → Type 0
  Obtains token_address c cache =
      obtain (some app) token_address (cached token_address cache) ≡ ok c

  get_super_token_contract-ok :
      (token_address : String) (c : Contract) (cache : Cache)
      → Obtains token_address c cache
      → get_super_token_contract token_address (some app) cache
        ≡ (ok c, remember token_address c cache)
  unfolding get_super_token_contract
  get_super_token_contract-ok token_address c cache h = rw (h, get_super_token_contract)

  Tests-is_token :
      (token_address : String) (tokens : List SuperToken)
      → IsComparable p (some token_address)
      → ComparableTokens p tokens
      → Tests
          (λ t. addresses_equal p (some token_address) (some t.address))
          (is_token p token_address)
          tokens
  Tests-is_token a [] c h = tt
  Tests-is_token a (x ∷ xs) c h =
      (addresses_equal-eq-same p (some a) (some x.address) c h.0, Tests-is_token a xs c h.1)

  -- The answers that the handling of a token waits for: its contract, the agent's balance, and the
  -- data of a token that the state does not hold yet.
  pub record Answers (agent_address token_address : String) (tokens : List SuperToken)
      (cache : Cache) (c : Contract) (balance : Amount) (new : SuperToken) : Type 0 where
    pub obtained : Obtains token_address c cache
    pub addressed : new.address ≡ token_address
    pub answered : chain.balance_of c agent_address ≡ ok balance
    pub created :
        find_index (is_token p token_address) tokens ≡ none
        → new_super_token p app chain settings (some token_address) c ≡ ok new

  module _ {agent_address token_address : String} {tokens : List SuperToken} {cache : Cache}
      {c : Contract} {balance : Amount} {new : SuperToken} (t : ℕ) (net_flow : Option Amount)
      (answers : Answers agent_address token_address tokens cache c balance new)
      (readable : IsComparable p (some token_address))
      (comparable : ComparableTokens p tokens) where
    refresh_token-eq-upsert :
        refresh_token p app chain settings
          (some tokens)
          agent_address
          (some token_address)
          t
          net_flow
          c
        ≡ ok (tokens_after p token_address t net_flow balance new tokens)
    unfolding refresh_token
    refresh_token-eq-upsert =
        let q = is_token p token_address in
        let write = refreshed t net_flow balance in
        rw (find_index_js-eq _ q tokens (Tests-is_token token_address tokens readable comparable))
          (elim (Option-cases (find_index q tokens)) [
            | inl absent ↦
                rw (absent, answers.created absent, answers.answered)
                  (ap ok (sym (upsert_absent q (write new) write tokens absent)))
            | inr (i, found) ↦
                let (old, at_i, walk, _) = upsert_present q (write new) write tokens i found in
                rw (found, at_i, answers.answered) (ap ok (sym walk))
          ])

    -- The tokens are refreshed, and the contract of the token is remembered.
    pub update_super_tokens-eq-upsert :
        (state : State)
        → state.agent_address ≡ agent_address
        → state.super_tokens ≡ some tokens
        → update_super_tokens p app chain settings state (some token_address) t net_flow cache ≡ (
          ok (some (tokens_after p token_address t net_flow balance new tokens)),
          remember token_address c cache,
        )
    unfolding update_super_tokens ◌>>=◌
    update_super_tokens-eq-upsert state a h = rw (
      get_super_token_contract-ok token_address c cache answers.obtained,
      a,
      h,
      refresh_token-eq-upsert,
    )
