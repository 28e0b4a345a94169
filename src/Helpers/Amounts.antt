-- ===== src/Helpers/Amounts.antt =====
-- The amounts of app/src/helpers/superfluid.js that grow and shrink with time.
pub mod Depletion
use superfluid_aragon_app.Prelude.{
  ℕ, ℤ, pos, negsuc, pos_part, neg_part, ◌+ℤ◌, ltb_ℤ, Bool, true, false, Option, none, some, List,
  [], ◌∷◌, ◌+◌, if◌then◌else◌,
}
use superfluid_aragon_app.Js.{Result, ok, ◌>>=◌}
use superfluid_aragon_app.Packages.{Packages}
use superfluid_aragon_app.Helpers.Time.{Date, at, invalid, new_date}

-- `n.isNeg()` and `n.abs()`
abbrev pub is_neg : ℤ → Bool
is_neg (pos n) = false
is_neg (negsuc n) = true

abbrev pub abs : ℤ → ℤ
abs n = pos (pos_part n + neg_part n)

-- `currentDate.getTime()` plus a number of milliseconds; an invalid date stays one.
abbrev pub later_by : ℤ → Date → Date
later_by ms invalid = invalid
later_by ms (at now) = new_date (now +ℤ ms)

module _ (p : Packages) where
  unfoldable pub calculate_current_amount : ℤ → ℤ → Date → Date → Result ℤ
  calculate_current_amount accumulated_amount rate last_date date = do
    seconds ← p.bn_from_number (p.difference_in_seconds date last_date)
    ok (p.bn_add accumulated_amount (p.bn_mul rate seconds))

  -- `undefined` unless the net flow is negative.
  unfoldable pub calculate_depletion_date : ℤ → ℤ → Date → Date → Result (Option Date)
  calculate_depletion_date balance net_flow current_date last_update_date =
      if is_neg net_flow
      then (do
        current_balance ← calculate_current_amount balance net_flow last_update_date current_date
        ms ← p.bn_to_number (p.bn_mul (p.bn_div current_balance (abs net_flow)) (pos 1000))
        ok (some (later_by ms current_date)))
      else ok none

  -- The items whose balance at the time `now` is above 0.
  module _ {A : Type 0} (balance net_flow : A → ℤ) (last_update_date : A → Date) (now : Date) where
    unfoldable pub get_available_super_tokens : List A → Result (List A)
    get_available_super_tokens [] = ok []
    get_available_super_tokens (token ∷ rest) =
        let kept = get_available_super_tokens rest in
        calculate_current_amount (balance token) (net_flow token) (last_update_date token) now
        >>= λ amount.
            kept >>= λ tokens. ok (if ltb_ℤ (pos 0) amount then token ∷ tokens else tokens)
