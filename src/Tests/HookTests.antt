-- ===== src/Tests/HookTests.antt =====
-- The warnings and the rates at concrete inputs.
use superfluid_aragon_app.Prelude.{
  ℕ, ℤ, pos, negsuc, ltb_ℤ, ◌-ℤ◌, false, Option, none, some, List, [], if◌then◌else◌,
}
use superfluid_aragon_app.Js.{ok, throw, failure}
use superfluid_aragon_app.Helpers.Time
use superfluid_aragon_app.Helpers.Time.{Date}
use superfluid_aragon_app.Reducer.{FormattedToken, FormattedSenderToken}
use superfluid_aragon_app.Components.Warnings.{Days, Depleting}
use superfluid_aragon_app.Forms.UpdateFlow.{Floats}
use superfluid_aragon_app.Hooks.Rates.{RatesQuery, first_run, change_query, respond, retry}
use superfluid_aragon_app.Hooks.Rates.OneFetch.{
  IsSingle, mounted, moved, asks, answers, retries, History-IsSingle,
}
use superfluid_aragon_app.Tests.Samples.{packages, held_token}

abbrev days : Days
days = record { difference_in_days = λ a b. by_day a b; compare_asc = λ a b. by_time a b }
  where
    by_day : Date → Date → Option ℤ
    by_day (Date.at a) (Date.at b) = some (a -ℤ b)
    by_day _ _ = none

    by_time : Date → Date → Option ℤ
    by_time (Date.at a) (Date.at b) = some (if ltb_ℤ b a then pos 1 else pos 0)
    by_time _ _ = none

-- A balance of 0 that shrinks.
abbrev drained : FormattedSenderToken
drained = record {
  address = "token";
  balance = pos 0;
  last_update_date = Time.at (pos 0);
  net_flow = negsuc 0;
}

abbrev shown_token : FormattedToken
shown_token = record {
  token = held_token;
  balance = pos 40;
  last_update_date = Time.at (pos 0);
  liquidation_period_seconds = pos 3600;
  inflow_rate = pos 3;
  outflow_rate = pos 0;
  net_flow = pos 3;
  depletion_date = none;
}

abbrev depleted : Depleting
depleted = record { token = drained; depletion_date = some (Time.at (pos 0)) }

-- Numbers that stand for themselves.
abbrev floats : Floats ℕ
floats = record {
  of_text = λ s. 2;
  of_int = λ n. 1;
  to_text = λ n. [];
  add = λ a b. a;
  mul = λ a b. b;
  less = λ a b. false;
  at_most_zero = λ a. false;
  is_nan = λ a. false;
}

abbrev query : RatesQuery
query = record { token_addresses = "0x1"; currencies = "usd"; chain_id = 1 }

-- A fetch fails, another query comes before the retry is due, and the first run's fetch is answered late.
History-IsSingle_example : IsSingle (
    respond floats packages 0 (ok []) (
      change_query floats query
        (retry floats (respond floats packages 0 (throw (failure 1)) (first_run floats query)))))
History-IsSingle_example = History-IsSingle floats packages (
    moved
      (moved (moved (moved (mounted query) (answers 0 (throw (failure 1)))) retries) (asks query))
      (answers 0 (ok [])))
