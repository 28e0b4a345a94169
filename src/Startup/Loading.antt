-- ===== src/Startup/Loading.antt =====
-- The Super Tokens after the start: with presets of the network, and without.
use superfluid_aragon_app.Prelude.{
  ℕ, String, ◌≡◌, refl, ap, false, Option, none, some, List, [], ◌∷◌, ◌++◌, map, Bool-cases, inl,
  inr, ◌∙◌, arith,
}
use superfluid_aragon_app.Js.{Result, ok, throw, caught, is_ok, ok-injective}
use superfluid_aragon_app.Js.Exec.{◌>>=◌, pure, bind_step, continue, lift}
use superfluid_aragon_app.Packages.{Packages}
use superfluid_aragon_app.Chain.{App, Chain, Contract}
use superfluid_aragon_app.Store.Data.{SuperToken, State}
use superfluid_aragon_app.Store.Tokens.{
  Cache, Settings, cached, remember, obtain, get_super_token_contract, refresh_token,
  update_super_tokens, address_text, undefined_text,
}
use superfluid_aragon_app.Startup.{
  has_text, distinct, addresses_with, update_each, load_with, load_initial_super_tokens,
}
use superfluid_aragon_app.Startup.Fresh.{Fits, Fits-remember}

distinct_with_undefined :
    (tokens : List SuperToken) (seen : List (Option String))
    → has_text none seen ≡ false
    → (ys : List (Option String)) × (distinct seen (map (λ t. some t.address) tokens ++ none ∷ [])
        ≡ ys ++ none ∷ [])
distinct_with_undefined [] seen h = ([], rw h refl)
distinct_with_undefined (t ∷ ts) seen h = elim (Bool-cases (has_text (some t.address) seen)) [
  | inl old ↦ let (ys, e) = distinct_with_undefined ts seen h in (ys, rw old e)
  | inr new ↦
      let (ys, e) = distinct_with_undefined ts (some t.address ∷ seen) h in
      (some t.address ∷ ys, rw new (ap (λ l. some t.address ∷ l) e))
]

module _ (p : Packages) (app : App) (chain : Chain) (settings : Settings) (agent : String) where
  -- Whatever contract the host gives for an undefined address, its balances cannot be read.
  abbrev pub RejectsUndefined : Type 0
  RejectsUndefined =
      (c : Contract) → app.external undefined_text ≡ ok c → is_ok (chain.balance_of c agent) ≡ false

  obtained :
      (key : String) (cache : Cache) {c : Contract}
      → Fits p app chain settings agent cache
      → obtain (some app) key (cached key cache) ≡ ok c
      → app.external key ≡ ok c
  obtained key cache {c} f h = by_cached (cached key cache) refl h
    where
      by_cached :
          (o : Option Contract)
          → cached key cache ≡ o
          → obtain (some app) key o ≡ ok c
          → app.external key ≡ ok c
      by_cached none e k = k
      by_cached (some d) e k = f.fits key c (e ∙ ap some (ok-injective k))

  -- What `updateSuperTokens` returns, and the cache after it, once the contract is found or not.
  abbrev outcome :
      State → Option String → ℕ → Cache → Result Contract → Option (List SuperToken) × Cache
  outcome state address t cache (throw e) = (none, cache)
  outcome state address t cache (ok c) = (
    caught (
        refresh_token p app chain settings state.super_tokens state.agent_address address t none c),
    remember (address_text address) c cache,
  )

  abbrev after_get : String → Cache → Result Contract → Result Contract × Cache
  after_get key cache (ok c) = (ok c, remember key c cache)
  after_get key cache (throw e) = (throw e, cache)

  get-found :
      (key : String) (cache : Cache)
      → get_super_token_contract key (some app) cache
        ≡ after_get key cache (obtain (some app) key (cached key cache))
  unfolding get_super_token_contract
  get-found key cache = by_found (obtain (some app) key (cached key cache))
    where
      by_found :
          (r : Result Contract)
          → (elim r [
            | ok contract ↦ (ok contract, remember key contract cache)
            | throw e ↦ (throw e, cache)
          ])
            ≡ after_get key cache r
      by_found (ok c) = refl
      by_found (throw e) = refl

  update-outcome :
      (state : State) (address : Option String) (t : ℕ) (cache : Cache)
      → let found =
          obtain (some app) (address_text address) (cached (address_text address) cache) in
        update_super_tokens p app chain settings state address t none cache
        ≡ (ok (outcome state address t cache found).0, (outcome state address t cache found).1)
  unfolding update_super_tokens ◌>>=◌
  update-outcome state address t cache =
      ap body (get-found (address_text address) cache)
      ∙ by_found (obtain (some app) (address_text address) (cached (address_text address) cache))
    where
      body : Result Contract × Cache → Result (Option (List SuperToken)) × Cache
      body (r, s) =
          let (refreshed, s') =
            continue r
              (λ contract. lift (
                refresh_token p app chain settings state.super_tokens state.agent_address address t
                  none contract))
              s in
          (ok (caught refreshed), s')

      by_found :
          (r : Result Contract)
          → body (after_get (address_text address) cache r)
            ≡ (ok (outcome state address t cache r).0, (outcome state address t cache r).1)
      by_found (ok c) = refl
      by_found (throw e) = refl

  outcome-Fits :
      (state : State) (address : Option String) (t : ℕ) (cache : Cache) (found : Result Contract)
      → Fits p app chain settings agent cache
      → obtain (some app) (address_text address) (cached (address_text address) cache) ≡ found
      → Fits p app chain settings agent (outcome state address t cache found).1
  outcome-Fits state address t cache (ok c) f e =
      Fits-remember p app chain settings agent (address_text address) c cache
        (obtained (address_text address) cache f e) f
  outcome-Fits state address t cache (throw x) f e = f

  refresh_token_rejected :
      (state : State) (address : Option String) (t : ℕ) (c : Contract)
      → state.agent_address ≡ agent
      → is_ok (chain.balance_of c agent) ≡ false
      → caught (
          refresh_token p app chain settings state.super_tokens state.agent_address address t none
            c)
        ≡ none
  unfolding refresh_token
  refresh_token_rejected state address t c a h = ground (arith, a, h)

  outcome_lost :
      (state : State) (t : ℕ) (cache : Cache) (found : Result Contract)
      → RejectsUndefined
      → state.agent_address ≡ agent
      → Fits p app chain settings agent cache
      → obtain (some app) undefined_text (cached undefined_text cache) ≡ found
      → (outcome state none t cache found).0 ≡ none
  outcome_lost state t cache (throw x) rejects a f e = refl
  outcome_lost state t cache (ok c) rejects a f e =
      refresh_token_rejected state none t c a (rejects c (obtained undefined_text cache f e))

  update_each_lost :
      (ys : List (Option String)) (t : ℕ) (state : State) (cache : Cache)
      → RejectsUndefined
      → state.agent_address ≡ agent
      → Fits p app chain settings agent cache
      → (final : State) × ((update_each p app chain settings (ys ++ none ∷ []) t state cache).0
          ≡ ok final)
        × (final.super_tokens ≡ none)
  unfolding update_each pure
  update_each_lost [] t state cache rejects a f =
      let found = obtain (some app) undefined_text (cached undefined_text cache) in
      (
        record state { super_tokens = (outcome state none t cache found).0 },
        ap (λ x. x.0) (bind_step _ _ cache (update-outcome state none t cache)),
        outcome_lost state t cache found rejects a f refl,
      )
  update_each_lost (y ∷ ys) t state cache rejects a f =
      let found = obtain (some app) (address_text y) (cached (address_text y) cache) in
      let (final, returned, lost) =
        update_each_lost ys t (record state { super_tokens = (outcome state y t cache found).0 })
          (outcome state y t cache found).1 rejects a (outcome-Fits state y t cache found f refl) in
      (final, ap (λ x. x.0) (bind_step _ _ cache (update-outcome state y t cache)) ∙ returned, lost)

  load_with-step :
      (o : Option (List SuperToken)) (state : State) (tokens : List SuperToken)
      (current_block t : ℕ) (cache : Cache)
      → o ≡ some tokens
      → chain.block_timestamp current_block ≡ ok t
      → load_with p app chain settings o none current_block state cache
        ≡ update_each p app chain settings (distinct [] (addresses_with tokens none)) t state cache
  unfolding ◌>>=◌
  load_with-step o state tokens current_block t cache h timed = rw (h, timed)

  -- On a network that has no preset Super Tokens the start loses them all: the list of addresses ends
  -- in `undefined` there. Where the time of the block is answered and the balances of a contract at an
  -- undefined address cannot be read, the start returns, whatever tokens the state held and whatever
  -- the chain answers for them, and the state that comes back has `undefined` for its Super Tokens.
  pub load_without_presets :
      (state : State) (tokens : List SuperToken) (current_block t : ℕ) (cache : Cache)
      → RejectsUndefined
      → state.agent_address ≡ agent
      → Fits p app chain settings agent cache
      → state.super_tokens ≡ some tokens
      → chain.block_timestamp current_block ≡ ok t
      → (final : State) × ((load_initial_super_tokens p app chain settings state none current_block
            cache).0
          ≡ ok final)
        × (final.super_tokens ≡ none)
  unfolding load_initial_super_tokens
  load_without_presets state tokens current_block t cache rejects a f h timed =
      let (ys, e) = distinct_with_undefined tokens [] refl in
      let (final, returned, lost) = update_each_lost ys t state cache rejects a f in
      (
        final,
        ap (λ x. x.0)
              (load_with-step state.super_tokens state tokens current_block t cache h timed
                ∙ ap (λ xs. update_each p app chain settings xs t state cache) e)
            ∙ returned,
        lost,
      )
