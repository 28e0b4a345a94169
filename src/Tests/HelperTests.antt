-- ===== src/Tests/HelperTests.antt =====
-- The shared helpers at concrete inputs.
use superfluid_aragon_app.Prelude.{
  zero, suc, negsuc, ap, ◌<◌, arith, ◌≡◌, refl, true, [], ◌∷◌, ℕ, ℤ, pos, pos_part, ◌^◌, ◌/◌,
}
use native.Mathlib.Nat.{zero-div}
use superfluid_aragon_app.Helpers.Decimals.{
  text, count, trim_leading, trim_trailing, to_decimals, Text,
}
use superfluid_aragon_app.Tests.Samples.{quotient, packages, packages_laws}
use superfluid_aragon_app.Helpers.Conversion.{get_converted_amount}
use superfluid_aragon_app.Helpers.Conversion.Digits.{read_on}
use superfluid_aragon_app.Helpers.Conversion.Scaled.{minus, get_converted_amount-eq}

-- "012.340"
abbrev twelve_point : Text
twelve_point = b'0' ∷ b'1' ∷ b'2' ∷ b'.' ∷ b'3' ∷ b'4' ∷ b'0' ∷ []

to_decimals_run :
    to_decimals packages (text twelve_point) (count 3) true ≡ b'1' ∷ b'2' ∷ b'3' ∷ b'4' ∷ b'0' ∷ []
unfolding to_decimals trim_leading trim_trailing
to_decimals_run = refl

abbrev power : ℤ → ℤ → ℤ
power a b = pos (pos_part a ^ pos_part b)

minus-suc : (n : ℕ) → minus (suc n) ≡ negsuc n
minus-suc n = ground arith

quotient-minus : (a b : ℕ) → 0 < b → quotient (minus a) (pos b) ≡ minus (a / b)
quotient-minus zero b h = rw (zero-div b) refl
quotient-minus (suc a) b h = ap (λ x. quotient x (pos b)) (minus-suc a)

-- 201 and -201 at a rate of 1.5.
get_converted_amount-eq_example :
    (get_converted_amount packages
        (λ s. pos (read_on 0 s))
        power
        (pos 201)
        (b'1' ∷ b'.' ∷ b'5' ∷ [])
      ≡ pos 301)
    × (get_converted_amount packages
          (λ s. pos (read_on 0 s))
          power
          (negsuc 200)
          (b'1' ∷ b'.' ∷ b'5' ∷ [])
        ≡ negsuc 300)
get_converted_amount-eq_example =
    get_converted_amount-eq packages (λ s. pos (read_on 0 s)) power packages_laws (λ a b. refl)
      (λ s h k. refl) quotient-minus 201 (b'1' ∷ []) (b'5' ∷ []) ((omega arith, omega arith), tt)
      ((omega arith, omega arith), tt) (omega arith)
