-- ===== src/Components/Warnings.antt =====
-- app/src/components/IncomingFlowsWarnings.js: the tokens of the connected account that run out soon. The
-- test of the cards (app/src/components/SuperTokens/SuperTokenCard/index.js) is another one.
pub mod Soonest
use superfluid_aragon_app.Prelude.{
  ℕ, ℤ, pos, ltb_ℤ, leb_ℤ, String, Bool, true, false, Option, none, some, List, [], ◌∷◌, keep_if,
  str_eq, if◌then◌else◌,
}
use superfluid_aragon_app.Js.{Result, ok, defined, ◌>>=◌}
use superfluid_aragon_app.Js.Search.{find_js}
use superfluid_aragon_app.Js.Sort.{comes_later, sort_onto}
use superfluid_aragon_app.Packages.{Packages}
use superfluid_aragon_app.Helpers.Time.{Date, invalid}
use superfluid_aragon_app.Helpers.Web3.{addresses_equal}
use superfluid_aragon_app.Helpers.Amounts.{calculate_depletion_date}
use superfluid_aragon_app.Reducer.{FormattedToken, FormattedSenderToken}

-- date-fns, `none` for NaN.
pub record Days : Type 0 where
  pub difference_in_days : Date → Date → Option ℤ
  pub compare_asc : Date → Date → Option ℤ

abbrev pub warning_threshold_days : ℕ
warning_threshold_days = 15

abbrev pub card_threshold_days : ℕ
card_threshold_days = 10

-- An item of `incomingFlowTokens` with its `depletionDate`.
pub record Depleting : Type 0 where
  pub token : FormattedSenderToken
  pub depletion_date : Option Date

pub record Warning : Type 0 where
  pub address : String
  pub symbol : Option String
  pub depletion_date : Option Date

-- `undefined` as a date is an invalid one.
abbrev pub date_of : Option Date → Date
date_of none = invalid
date_of (some d) = d

-- Nothing is less than, or at most, a number where NaN stands.
abbrev pub below : Option ℤ → ℕ → Bool
below none limit = false
below (some n) limit = ltb_ℤ n (pos limit)

abbrev pub at_most : Option ℤ → ℕ → Bool
at_most none limit = false
at_most (some n) limit = leb_ℤ n (pos limit)

module _ (p : Packages) where
  -- A token that is not in the list has no symbol to read.
  unfoldable pub to_warning : List FormattedToken → Depleting → Result Warning
  to_warning super_tokens d = do
    found ←
        find_js (λ t. addresses_equal p (some t.token.address) (some d.token.address)) super_tokens
    super_token ← defined found
    ok (record {
      address = d.token.address;
      symbol = super_token.token.symbol;
      depletion_date = d.depletion_date;
    })

  unfoldable pub to_warnings : List FormattedToken → List Depleting → Result (List Warning)
  to_warnings super_tokens [] = ok []
  to_warnings super_tokens (d ∷ ds) =
      let rest = to_warnings super_tokens ds in
      to_warning super_tokens d >>= λ w. rest >>= λ ws. ok (w ∷ ws)

module _ (days : Days) where
  abbrev pub runs_out_soon : Date → Depleting → Bool
  runs_out_soon now d =
      below (days.difference_in_days (date_of d.depletion_date) now) warning_threshold_days

  abbrev pub runs_out_after : Depleting → Depleting → Bool
  runs_out_after a b =
      comes_later (days.compare_asc (date_of a.depletion_date) (date_of b.depletion_date))

  -- `displayWarning` of a card.
  unfoldable pub display_warning : Date → Option Date → Bool
  display_warning now none = false
  display_warning now (some date) = at_most (days.difference_in_days date now) card_threshold_days

  module _ (p : Packages) where
    unfoldable pub with_depletion_dates : Date → List FormattedSenderToken → Result (List Depleting)
    with_depletion_dates now [] = ok []
    with_depletion_dates now (t ∷ ts) =
        let rest = with_depletion_dates now ts in
        calculate_depletion_date p t.balance t.net_flow now t.last_update_date >>= λ date.
        rest >>= λ ds. ok (record { token = t; depletion_date = date } ∷ ds)

    unfoldable pub filtered_super_tokens :
        Date → List FormattedSenderToken → Result (List Depleting)
    filtered_super_tokens now tokens = with_depletion_dates now tokens >>= λ ds.
        ok (sort_onto runs_out_after [] (keep_if (runs_out_soon now) ds))

    -- The first one is shown, the others unfold below it.
    unfoldable pub incoming_flow_warnings :
        Date → List FormattedSenderToken → List FormattedToken → Result (List Warning)
    incoming_flow_warnings now tokens super_tokens =
        filtered_super_tokens now tokens >>= λ ds. to_warnings p super_tokens ds

-- `sendersSuperTokens[connectedAccount]` of app/src/App.js, and whether the warnings are rendered.
abbrev pub entries_of :
    String → List (String × List FormattedSenderToken) → List FormattedSenderToken
entries_of account [] = []
entries_of account ((sender, tokens) ∷ rest) =
    let others = entries_of account rest in if str_eq sender account then tokens else others
