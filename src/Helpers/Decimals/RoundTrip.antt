-- ===== src/Helpers/Decimals/RoundTrip.antt =====
-- `toDecimals` and then `fromDecimals`: the number again, in its shortest form, cut to the decimals.
use superfluid_aragon_app.Prelude.{
  ℕ, zero, suc, ◌+◌, ◌-◌, ◌≡◌, refl, true, false, [], ◌∷◌, ◌++◌, if◌then◌else◌, length, take, drop,
}
use superfluid_aragon_app.Packages.{Packages}
use superfluid_aragon_app.Helpers.Decimals.{
  Text, zero_char, dot, is_empty, includes, whole_part, decimal_part, pad_start, joined,
}

-- The first `n` decimals, filled up with zeros.
fill : ℕ → Text → Text
fill zero d = []
fill (suc n) [] = zero_char ∷ fill n []
fill (suc n) (c ∷ d) = c ∷ fill n d

take_nil : (n : ℕ) → take n (let e : Text = [] in e) ≡ []
take_nil zero = refl
take_nil (suc n) = refl

-- A number in its shortest form, from its whole part and its decimals.
abbrev pub shown : Text → Text → Text
shown whole dec =
    (if is_empty whole then zero_char ∷ [] else whole) ++ (if is_empty dec then [] else dot ∷ dec)

module _ (p : Packages) (s : Text) (n : ℕ) (plain : includes b'e' s ≡ false) where
  abbrev whole : Text
  whole = whole_part s

  abbrev dec : Text
  dec = decimal_part s

  -- The padded digits, cut at the decimal index.
  abbrev digits_joined : Text → Text
  digits_joined digits =
      let padded = pad_start (n + 1) digits in
      joined p true [] (take (length padded - n) padded) (drop (length padded - n) padded)
