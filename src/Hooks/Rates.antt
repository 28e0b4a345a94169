-- ===== src/Hooks/Rates.antt =====
-- app/src/hooks/useConvertRates.js: the rates of the tokens, fetched again after a failure. A fetch is
-- answered some time after it was started; JavaScript's numbers are a parameter.
pub mod OneFetch
use superfluid_aragon_app.Prelude.{
  ℕ, zero, suc, ◌+◌, ℤ, pos, ◌==◌, String, Bool, true, false, Option, none, some, List, [], ◌∷◌,
  ◌++◌, str_eq, if◌then◌else◌, get_elem?, remove_at,
}
use superfluid_aragon_app.Js.{Result, ok, throw}
use superfluid_aragon_app.Packages.{Packages}
use superfluid_aragon_app.Helpers.Decimals.{Text}
use superfluid_aragon_app.Forms.UpdateFlow.{Floats}

-- The answer of the service: for each token its rates by currency.
abbrev pub TokenRates : Type 0
TokenRates = List (String × List (String × Text))

-- What the effect depends on. A missing or empty part leaves nothing to ask for.
pub record RatesQuery : Type 0 where
  pub token_addresses : String
  pub currencies : String
  pub chain_id : ℕ

-- A fetch belongs to the run of the effect that started it; a run is cancelled by the next one.
pub record RatesState (N : Type 0) : Type 0 where
  pub query : RatesQuery
  pub rates : TokenRates
  pub retry_delay : N
  pub run : ℕ
  pub fetches : List ℕ
  pub retry_timer : Option N

abbrev pub is_askable : RatesQuery → Bool
is_askable q =
    if str_eq q.token_addresses ""
    then false
    else if str_eq q.currencies ""
    then false
    else if q.chain_id == 0
    then false
    else true

-- `newRates[key.toLowerCase()] = rates[key]`: the last one of a key counts.
unfoldable pub normalize : Packages → TokenRates → TokenRates → TokenRates
normalize p new_rates [] = new_rates
normalize p new_rates ((key, rates) ∷ rest) =
    normalize p ((p.to_lower_case key, rates) ∷ new_rates) rest

module _ {N : Type 0} (floats : Floats N) where
  abbrev pub convert_api_retry_delay : N
  convert_api_retry_delay = floats.of_int (pos 2000)

  abbrev pub convert_api_retry_delay_max : N
  convert_api_retry_delay_max = floats.of_int (pos 60000)

  -- `Math.min(MAX, delay * 1.2)`
  abbrev pub next_delay : N → N
  next_delay delay =
      let longer = floats.mul delay (floats.of_text (b'1' ∷ b'.' ∷ b'2' ∷ [])) in
      if floats.less longer convert_api_retry_delay_max then longer else convert_api_retry_delay_max

  -- `update()`
  unfoldable pub update : RatesState N → RatesState N
  update s =
      if is_askable s.query
      then record s { fetches = s.fetches ++ s.run ∷ [] }
      else record s { rates = [] }

  -- The cleanup of the run before, and the run for the new query.
  unfoldable pub change_query : RatesQuery → RatesState N → RatesState N
  unfolding update
  change_query query s = update (record s {
    query = query;
    run = s.run + 1;
    retry_timer = none;
    retry_delay = convert_api_retry_delay;
  })

  unfoldable pub first_run : RatesQuery → RatesState N
  unfolding update
  first_run query = update (record {
    query = query;
    rates = [];
    retry_delay = convert_api_retry_delay;
    run = 0;
    fetches = [];
    retry_timer = none;
  })

  abbrev pub retried : Option N → RatesState N → RatesState N
  retried none s = s
  retried (some delay) s = update (record s { retry_timer = none })

  -- The retry that is due.
  unfoldable pub retry : RatesState N → RatesState N
  unfolding update
  retry s = retried s.retry_timer s

  module _ (p : Packages) where
    abbrev pub settle : Result TokenRates → RatesState N → RatesState N
    settle (ok found) s = record s {
      rates = normalize p [] found;
      retry_delay = convert_api_retry_delay;
    }
    settle (throw e) s = record s {
      retry_delay = next_delay s.retry_delay;
      retry_timer = some (next_delay s.retry_delay);
    }

    abbrev pub responded : Option ℕ → Result TokenRates → RatesState N → RatesState N
    responded none answer waiting = waiting
    responded (some owner) answer waiting =
        if owner == waiting.run then settle answer waiting else waiting

    -- The fetch at `i` is answered or fails; one of a cancelled run does nothing.
    unfoldable pub respond : ℕ → Result TokenRates → RatesState N → RatesState N
    respond i answer s =
        responded (get_elem? s.fetches i) answer (record s { fetches = remove_at s.fetches i })
