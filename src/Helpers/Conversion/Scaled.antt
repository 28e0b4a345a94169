-- ===== src/Helpers/Conversion/Scaled.antt =====
-- The converted amount is the amount times the rate, cut to a whole number.
use superfluid_aragon_app.Prelude.{
  sub_ℕ, pos_part, neg_part, ℕ, ℤ, pos, ◌*◌, ◌/◌, ◌^◌, ◌<◌, ◌*ℤ◌, ◌≡◌, refl, ap, ◌∙◌, sym, length,
  arith, [], ◌∷◌, ◌++◌, All, All-append, false,
}
use native.Mathlib.Nat.{mul-div-mul_left, mul_assoc, mul_comm, mul-pos, one-le-pow}
use superfluid_aragon_app.Packages.{Packages, BnLaws}
use superfluid_aragon_app.Helpers.Decimals.{
  Text, dot, is_empty, before_dot, after_dot, trim_leading, trim_trailing,
}
use superfluid_aragon_app.Helpers.Decimals.Trim.{
  before_dot_plain, after_dot_plain, before_dot-append, after_dot-append,
}
use superfluid_aragon_app.Helpers.Conversion.{get_converted_amount, parsed_dec, rate_digits}
use superfluid_aragon_app.Helpers.Conversion.Digits.{
  read_on, IsDigit, read_on-append, read_on-trim_leading, read_on-trim_trailing, All-trim_leading,
  All-trim_trailing, digits-no_dot,
}

-- The negative of a number.
abbrev pub minus : ℕ → ℤ
minus n = sub_ℕ 0 n

-- A price as JavaScript prints it without an exponent: its whole digits, and its decimals where there
-- are any.
abbrev pub rate_text : Text → Text → Text
rate_text whole [] = whole
rate_text whole (c ∷ dec) = whole ++ dot ∷ c ∷ dec

before_dot-rate_text :
    (whole dec : Text) → All IsDigit whole → before_dot (rate_text whole dec) ≡ whole
before_dot-rate_text whole [] h = before_dot_plain whole (digits-no_dot whole h)
before_dot-rate_text whole (c ∷ dec) h = before_dot-append whole (c ∷ dec) (digits-no_dot whole h)

after_dot-rate_text : (whole dec : Text) → All IsDigit whole → after_dot (rate_text whole dec) ≡ dec
after_dot-rate_text whole [] h = after_dot_plain whole (digits-no_dot whole h)
after_dot-rate_text whole (c ∷ dec) h = after_dot-append whole (c ∷ dec) (digits-no_dot whole h)

-- The two steps of a raised division, at equal ratios.
ratio_cut :
    (a n k d e f : ℕ) → 0 < d → 0 < e → 0 < f → n * e ≡ k * f → a * (k * d) / (d * e) ≡ a * n / f
ratio_cut a n k d e f hd he hf h =
    ap (λ x. x / (d * e)) (sym (mul_assoc a k d) ∙ mul_comm (a * k) d)
    ∙ mul-div-mul_left (a * k) e hd
    ∙ sym (mul-div-mul_left (a * k) e hf)
    ∙ ap (λ x. x / (f * e))
        (mul_comm f (a * k)
          ∙ mul_assoc a k f
          ∙ ap (λ x. a * x) (sym h)
          ∙ sym (mul_assoc a n e)
          ∙ mul_comm (a * n) e)
    ∙ ap (λ y. e * (a * n) / y) (mul_comm f e)
    ∙ mul-div-mul_left (a * n) f he

pos-*ℤ_lem : (a b : ℕ) → pos a *ℤ pos b ≡ pos (a * b)
unfolding ◌*ℤ◌
pos-*ℤ_lem a b = ground arith

minus-*ℤ_lem : (a b : ℕ) → minus a *ℤ pos b ≡ minus (a * b)
unfolding ◌*ℤ◌
minus-*ℤ_lem a b =
    let positive : pos_part (minus a) ≡ 0 = ground arith in
    let negative : neg_part (minus a) ≡ a = ground arith in rw (positive, negative) (ground arith)

-- The digits without the zeros at both ends.
abbrev kept_digits : Text → Text → Text
kept_digits whole dec = trim_leading (whole ++ trim_trailing dec)

kept_digits-ratio :
    (whole dec : Text)
    → read_on 0 (whole ++ dec) * 10 ^ length (trim_trailing dec)
      ≡ read_on 0 (kept_digits whole dec) * 10 ^ length dec
kept_digits-ratio whole dec =
    ap (λ x. x * 10 ^ length (trim_trailing dec)) (read_on-append 0 whole dec)
    ∙ read_on-trim_trailing (read_on 0 whole) dec
    ∙ ap (λ x. x * 10 ^ length dec)
        (sym (read_on-append 0 whole (trim_trailing dec))
          ∙ sym (read_on-trim_leading (whole ++ trim_trailing dec)))

module _ (p : Packages) (bn_of_text : Text → ℤ) (bn_pow : ℤ → ℤ → ℤ) (laws : BnLaws p)
    (pow_lem : (a b : ℕ) → bn_pow (pos a) (pos b) ≡ pos (a ^ b))
    (reads : (s : Text) → is_empty s ≡ false → All IsDigit s → bn_of_text s ≡ pos (read_on 0 s))
    (div_minus : (a b : ℕ) → 0 < b → p.bn_div (minus a) (pos b) ≡ minus (a / b)) where
  digits-eq :
      (whole dec : Text)
      → All IsDigit whole
      → All IsDigit dec
      → rate_digits p bn_of_text bn_pow (rate_text whole dec) ≡ kept_digits whole dec
  digits-eq whole dec h k =
      rw
        (
          before_dot-rate_text whole dec h,
          after_dot-rate_text whole dec h,
          before_dot_plain dec (digits-no_dot dec k),
        )
        refl

  kept_decimals :
      (whole dec : Text)
      → All IsDigit whole
      → All IsDigit dec
      → parsed_dec p bn_of_text bn_pow (rate_text whole dec) ≡ trim_trailing dec
  kept_decimals whole dec h k =
      rw (after_dot-rate_text whole dec h, before_dot_plain dec (digits-no_dot dec k)) refl

  kept_digits-nonempty :
      (whole dec : Text) → 0 < read_on 0 (whole ++ dec) → is_empty (kept_digits whole dec) ≡ false
  kept_digits-nonempty whole dec h = by_text (kept_digits whole dec) (kept_digits-ratio whole dec)
    where
      by_text :
          (t : Text)
          → read_on 0 (whole ++ dec) * 10 ^ length (trim_trailing dec)
            ≡ read_on 0 t * 10 ^ length dec
          → is_empty t ≡ false
      by_text (c ∷ t) e = refl
      by_text [] e =
          let above : 0 < read_on 0 (whole ++ dec) * 10 ^ length (trim_trailing dec) =
            mul-pos h (one-le-pow (length (trim_trailing dec)) 10 (omega arith)) in
          absurd (ground (arith, above, e))

  kept_digits-read :
      (whole dec : Text)
      → All IsDigit whole
      → All IsDigit dec
      → 0 < read_on 0 (whole ++ dec)
      → bn_of_text (rate_digits p bn_of_text bn_pow (rate_text whole dec))
        ≡ pos (read_on 0 (kept_digits whole dec))
  kept_digits-read whole dec h k l =
      ap bn_of_text (digits-eq whole dec h k)
      ∙ reads (kept_digits whole dec) (kept_digits-nonempty whole dec l) (
          All-trim_leading (whole ++ trim_trailing dec)
            (All-append IsDigit whole (trim_trailing dec) h (All-trim_trailing dec k)))

  -- The division of the code, at a rate that is read.
  raised : ℤ → ℕ → ℕ → ℕ → ℤ
  raised amount k d e = p.bn_div (amount *ℤ pos (k * d)) (pos (d * e))

  convert-raised :
      (amount : ℤ) (whole dec : Text)
      → All IsDigit whole
      → All IsDigit dec
      → 0 < read_on 0 (whole ++ dec)
      → get_converted_amount p bn_of_text bn_pow amount (rate_text whole dec)
        ≡ raised amount
            (read_on 0 (kept_digits whole dec))
            (10 ^ 18)
            (10 ^ length (trim_trailing dec))
  unfolding get_converted_amount raised
  convert-raised amount whole dec h k l = cc (
    kept_digits-read whole dec h k l,
    kept_decimals whole dec h k,
    pow_lem 10 18,
    pow_lem 10 (length (trim_trailing dec)),
    laws.mul_lem (pos (read_on 0 (kept_digits whole dec))) (pos (10 ^ 18)),
    pos-*ℤ_lem (read_on 0 (kept_digits whole dec)) (10 ^ 18),
    laws.mul_lem amount (pos (read_on 0 (kept_digits whole dec) * 10 ^ 18)),
    laws.mul_lem (pos (10 ^ 18)) (pos (10 ^ length (trim_trailing dec))),
    pos-*ℤ_lem (10 ^ 18) (10 ^ length (trim_trailing dec)),
  )

  -- At a price above 0 of any whole digits and decimals, printed without an exponent, an amount of `a`
  -- is converted to `a` times the price, rounded down, where the price is its digits without the dot
  -- over the power of 10 of its decimals; an amount of `-a`, as of an agent that pays more than it
  -- gets, is converted to the negative of that, rounded towards 0. The zeros that are trimmed and the
  -- 18 decimals by which both sides of the division are raised cancel.
  pub get_converted_amount-eq :
      (a : ℕ) (whole dec : Text)
      → All IsDigit whole
      → All IsDigit dec
      → 0 < read_on 0 (whole ++ dec)
      → let converted = a * read_on 0 (whole ++ dec) / 10 ^ length dec in
        (get_converted_amount p bn_of_text bn_pow (pos a) (rate_text whole dec) ≡ pos converted)
        × (get_converted_amount p bn_of_text bn_pow (minus a) (rate_text whole dec)
            ≡ minus converted)
  unfolding raised
  get_converted_amount-eq a whole dec h k l =
      let n = read_on 0 (kept_digits whole dec) in
      let d = 10 ^ 18 in
      let e = 10 ^ length (trim_trailing dec) in
      let above : 0 < e = one-le-pow (length (trim_trailing dec)) 10 (omega arith) in
      let cut =
        ratio_cut a (read_on 0 (whole ++ dec)) n d e (10 ^ length dec) (omega arith) above
          (one-le-pow (length dec) 10 (omega arith)) (kept_digits-ratio whole dec) in
      (
        convert-raised (pos a) whole dec h k l
            ∙ ap (λ x. p.bn_div x (pos (d * e))) (pos-*ℤ_lem a (n * d))
            ∙ laws.div_lem (a * (n * d)) (d * e)
            ∙ ap pos cut,
        convert-raised (minus a) whole dec h k l
            ∙ ap (λ x. p.bn_div x (pos (d * e))) (minus-*ℤ_lem a (n * d))
            ∙ div_minus (a * (n * d)) (d * e) (mul-pos (omega arith) above)
            ∙ ap minus cut,
      )
