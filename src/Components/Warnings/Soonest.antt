-- ===== src/Components/Warnings/Soonest.antt =====
-- Which tokens are warned about, and in which order.
use superfluid_aragon_app.Prelude.{
  ℤ, ltb_ℤ, ◌≤ℤ◌, ◌≡◌, String, Bool, true, false, Option, none, some, List, find, pos,
}
use superfluid_aragon_app.Js.Sort.{comes_later}
use superfluid_aragon_app.Packages.{Packages}
use superfluid_aragon_app.Helpers.Time.{Date, at, invalid}
use superfluid_aragon_app.Helpers.Web3.{IsComparable, same}
use superfluid_aragon_app.Reducer.{FormattedToken}
use superfluid_aragon_app.Components.Warnings.{Days, Depleting, Warning, date_of}

abbrev pub IsBy : Date → Date → Type 0
IsBy (at m) (at n) = m ≤ℤ n
IsBy _ _ = ⊥

-- The first token runs out no later than the second.
abbrev pub IsSooner : Depleting → Depleting → Type 0
IsSooner a b = IsBy (date_of a.depletion_date) (date_of b.depletion_date)

-- date-fns: the days from or to an invalid date are NaN, and `compareAsc` is 1 where the first date is
-- later, and not above 0 where it is not.
pub record DaysLaws (days : Days) : Type 0 where
  pub no_days : (now : Date) → days.difference_in_days invalid now ≡ none
  pub later : (a b : ℤ) → ltb_ℤ b a ≡ true → comes_later (days.compare_asc (at a) (at b)) ≡ true
  pub sooner : (a b : ℤ) → ltb_ℤ b a ≡ false → comes_later (days.compare_asc (at a) (at b)) ≡ false

module _ (p : Packages) where
  -- The token of the list that has the address.
  abbrev pub token_in : List FormattedToken → Depleting → Option FormattedToken
  token_in super_tokens d =
      find (λ t. same p (some t.token.address) (some d.token.address)) super_tokens

  -- The token is in the list, and its address can be compared.
  abbrev pub IsListed : List FormattedToken → Depleting → Type 0
  IsListed super_tokens d =
      IsComparable p (some d.token.address)
      × ((t : FormattedToken) × (token_in super_tokens d ≡ some t))

  abbrev pub HasAddress : FormattedToken → Type 0
  HasAddress t = IsComparable p (some t.token.address)

  abbrev pub symbol_of : Option FormattedToken → Option String
  symbol_of none = none
  symbol_of (some t) = t.token.symbol

  abbrev pub warning_of : List FormattedToken → Depleting → Warning
  warning_of super_tokens d = record {
    address = d.token.address;
    symbol = symbol_of (token_in super_tokens d);
    depletion_date = d.depletion_date;
  }

-- A token runs out in less than 15 days.
abbrev pub in_15_days : Option ℤ → Bool
in_15_days none = false
in_15_days (some n) = ltb_ℤ n (pos 15)

abbrev pub ends_in_15_days : Days → Date → Option Date → Bool
ends_in_15_days days now none = false
ends_in_15_days days now (some date) = in_15_days (days.difference_in_days date now)

module _ {days : Days} (laws : DaysLaws days) where
  -- A token that runs out soon has a date.
  abbrev IsDated : Depleting → Type 0
  IsDated d = (ms : ℤ) × (date_of d.depletion_date ≡ at ms)
