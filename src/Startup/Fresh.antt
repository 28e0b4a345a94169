-- ===== src/Startup/Fresh.antt =====
-- The tokens that the start loads where every call is answered.
use superfluid_aragon_app.Prelude.{
  ℕ, String, ◌≡◌, refl, sym, ◌∙◌, ap, subst, Bool, true, false, ◌||◌, Option, none, some, List, [],
  ◌∷◌, All, Bool-cases, Option-cases, inl, inr, arith, str_eq, str_eq_iff, if◌then◌else◌,
}
use superfluid_aragon_app.Js.{ok, Result}
use superfluid_aragon_app.Js.Exec.{bind_step, pure, ◌>>=◌}
use superfluid_aragon_app.Packages.{Packages}
use superfluid_aragon_app.Chain.{App, Chain, Contract}
use superfluid_aragon_app.Helpers.Web3.{IsComparable, same_refl}
use superfluid_aragon_app.Store.Data.{Amount, SuperToken, State}
use superfluid_aragon_app.Store.Tokens.{Cache, Settings, cached, remember, new_super_token}
use superfluid_aragon_app.Store.Tokens.Outcome.{
  IsSoundTokens, tokens_after, tokens_after-IsSound, Answers, update_super_tokens-eq-upsert,
  Obtains, is_token,
}
use superfluid_aragon_app.Startup.{
  distinct, addresses_with, update_each, load_with, load_initial_super_tokens,
}
use superfluid_aragon_app.Startup.Distinct.{distinct-All, distinct_covers}

module _ (p : Packages) where
  -- A token of the address is among them.
  abbrev pub held : Option String → List SuperToken → Bool
  held none tokens = false
  held (some a) [] = false
  held (some a) (x ∷ xs) = is_token p a x || held (some a) xs

  module _ (t : ℕ) (balance : Amount) where
    held_refreshed :
        (a key : String) (new : SuperToken) (tokens : List SuperToken)
        → held (some a) tokens ≡ true
        → held (some a) (tokens_after p key t none balance new tokens) ≡ true
    held_refreshed a key new [] h = cc
    held_refreshed a key new (x ∷ xs) h = ground (arith, held_refreshed a key new xs)

    held_after :
        (a : Option String) (key : String) (new : SuperToken) (tokens : List SuperToken)
        → held a tokens ≡ true
        → held a (tokens_after p key t none balance new tokens) ≡ true
    held_after none key new tokens h = cc
    held_after (some a) key new tokens h = held_refreshed a key new tokens h

    held_new :
        (a : String) (new : SuperToken) (tokens : List SuperToken)
        → IsComparable p (some a)
        → new.address ≡ a
        → held (some a) (tokens_after p a t none balance new tokens) ≡ true
    held_new a new [] r e = rw (e, same_refl p (some a) r)
    held_new a new (x ∷ xs) r e = ground (arith, held_new a new xs r e)

module _ (p : Packages) (app : App) (chain : Chain) (settings : Settings) (agent : String) where
  -- Every call for the token of the address is answered.
  pub record Loads (a : String) : Type 0 where
    pub contract : Contract
    pub balance : Amount
    pub token : SuperToken
    pub comparable : IsComparable p (some a)
    pub external : app.external a ≡ ok contract
    pub addressed : token.address ≡ a
    pub answered : chain.balance_of contract agent ≡ ok balance
    pub created : new_super_token p app chain settings (some a) contract ≡ ok token

  abbrev pub LoadsAt : Option String → Type 0
  LoadsAt none = ⊥
  LoadsAt (some a) = Loads a

  -- The cache holds the contracts that `app` returns.
  pub record Fits (cache : Cache) : Type 0 where
    pub fits : (k : String) (c : Contract) → cached k cache ≡ some c → app.external k ≡ ok c

  pub Fits-remember :
      (a : String) (c : Contract) (cache : Cache)
      → app.external a ≡ ok c
      → Fits cache
      → Fits (remember a c cache)
  Fits-remember a c cache e h = record {
    fits = λ k d r. elim (Bool-cases (str_eq a k)) [
      | inl hit ↦
          let same_key = (str_eq_iff a k).0 hit in
          let same_contract = subst (λ b. (if b then some c else cached k cache) ≡ some d) hit r in
          cc
      | inr miss ↦ h.fits k d (subst (λ b. (if b then some c else cached k cache) ≡ some d) miss r)
    ];
  }

  Fits-Obtains :
      (a : String) (c : Contract) (cache : Cache)
      → app.external a ≡ ok c
      → Fits cache
      → Obtains p app chain settings a c cache
  Fits-Obtains a c cache e h = elim (Option-cases (cached a cache)) [
    | inl absent ↦ rw absent e
    | inr (d, found) ↦ rw found (sym (h.fits a d found) ∙ e)
  ]

  -- The run returns a state with sound tokens, which hold each of the addresses and all that were
  -- held before.
  pub record Loaded (as' : List (Option String)) (before : List SuperToken) (result : Result State)
      : Type 0 where
    pub final : State
    pub tokens : List SuperToken
    pub returned : result ≡ ok final
    pub stored : final.super_tokens ≡ some tokens
    pub sound : IsSoundTokens p tokens
    pub each_held : All (λ a. held p a tokens ≡ true) as'
    pub still_held : (a : Option String) → held p a before ≡ true → held p a tokens ≡ true

  update_each-Loaded :
      (as' : List (Option String)) (t : ℕ) (state : State) (tokens : List SuperToken)
      (cache : Cache)
      → All LoadsAt as'
      → Fits cache
      → state.super_tokens ≡ some tokens
      → state.agent_address ≡ agent
      → IsSoundTokens p tokens
      → Loaded as' tokens (update_each p app chain settings as' t state cache).0
  unfolding update_each pure
  update_each-Loaded [] t state tokens cache l f h a s = record {
    final = state;
    tokens = tokens;
    returned = refl;
    stored = h;
    sound = s;
    each_held = tt;
    still_held = λ a k. k;
  }
  update_each-Loaded (none ∷ rest) t state tokens cache l f h a s = elim l.0 [ ]
  update_each-Loaded (some x ∷ rest) t state tokens cache l f h a s =
      let r = l.0 in
      let tokens' = tokens_after p x t none r.balance r.token tokens in
      let state' = record state { super_tokens = some tokens' } in
      let step =
        update_super_tokens-eq-upsert p app chain settings t none (answers r) r.comparable
          s.comparable state a h in
      let end =
        update_each-Loaded rest t state' tokens' (remember x r.contract cache) l.1
          (Fits-remember x r.contract cache r.external f) refl a
          (tokens_after-IsSound p x t none r.balance r.token tokens r.comparable r.addressed s) in
      record {
        final = end.final;
        tokens = end.tokens;
        returned = ap (λ x'. x'.0) (bind_step _ _ cache step) ∙ end.returned;
        stored = end.stored;
        sound = end.sound;
        each_held = (
          end.still_held (some x)
              (held_new p t r.balance x r.token tokens r.comparable r.addressed),
          end.each_held,
        );
        still_held = λ b k. end.still_held b (held_after p t r.balance b x r.token tokens k);
      }
    where
      answers :
          (r : Loads x)
          → Answers p app chain settings agent x tokens cache r.contract r.balance r.token
      answers r = record {
        obtained = Fits-Obtains x r.contract cache r.external f;
        addressed = r.addressed;
        answered = r.answered;
        created = λ absent. r.created;
      }

  load_with-step :
      (o : Option (List SuperToken)) (state : State) (tokens : List SuperToken)
      (presets : List String) (current_block t : ℕ) (cache : Cache)
      → o ≡ some tokens
      → chain.block_timestamp current_block ≡ ok t
      → load_with p app chain settings o (some presets) current_block state cache
        ≡ update_each p app chain settings
            (distinct [] (addresses_with tokens (some presets)))
            t
            state
            cache
  unfolding ◌>>=◌
  load_with-step o state tokens presets current_block t cache h timed = rw (h, timed)

  -- On a network with preset Super Tokens the start returns, where every call that it makes for a
  -- token is answered, and it then holds sound tokens: one for each token of the state before it and
  -- for each preset one.
  pub load_with_presets-Loaded :
      (state : State) (tokens : List SuperToken) (presets : List String) (current_block t : ℕ)
      (cache : Cache)
      → state.super_tokens ≡ some tokens
      → state.agent_address ≡ agent
      → IsSoundTokens p tokens
      → Fits cache
      → chain.block_timestamp current_block ≡ ok t
      → All LoadsAt (addresses_with tokens (some presets))
      → Loaded
          (addresses_with tokens (some presets))
          tokens
          (load_initial_super_tokens p app chain settings state
            (some presets)
            current_block
            cache).0
  unfolding load_initial_super_tokens
  load_with_presets-Loaded state tokens presets current_block t cache h a s f timed l =
      let addresses = addresses_with tokens (some presets) in
      let run =
        update_each-Loaded (distinct [] addresses) t state tokens cache
          (distinct-All LoadsAt [] addresses l) f h a s in
      record {
        final = run.final;
        tokens = run.tokens;
        returned =
            ap (λ x. x.0)
              (load_with-step state.super_tokens state tokens presets current_block t cache h timed)
            ∙ run.returned;
        stored = run.stored;
        sound = run.sound;
        each_held = distinct_covers (λ b. held p b run.tokens ≡ true) [] addresses tt run.each_held;
        still_held = run.still_held;
      }
