-- ===== src/Helpers/Web3.antt =====
-- app/src/helpers/web3.js: addresses compared by their checksums.
use superfluid_aragon_app.Prelude.{
  String, ◌≡◌, refl, Bool, true, false, Option, none, some, str_eq, str_eq_iff, str_eq_refl,
  if◌then◌else◌, arith,
}
use superfluid_aragon_app.Js.{Result, ok, throw, ◌>>=◌, is_ok}
use superfluid_aragon_app.Packages.{Packages}

abbrev pub zero_address : String
zero_address = "0x0000000000000000000000000000000000000000"

-- `===` on texts, one of which may be `undefined`.
abbrev pub option_eq : Option String → Option String → Bool
option_eq none none = true
option_eq none (some b) = false
option_eq (some a) none = false
option_eq (some a) (some b) = str_eq a b

module _ (p : Packages) where
  -- `address && toChecksumAddress(address)`: `undefined` and the empty text are kept.
  unfoldable pub checksum : Option String → Result (Option String)
  checksum none = ok none
  checksum (some a) =
      if str_eq a "" then ok (some a) else (p.to_checksum_address a >>= λ c. ok (some c))

  unfoldable pub addresses_equal : Option String → Option String → Result Bool
  addresses_equal first second = do
    first' ← checksum first
    second' ← checksum second
    ok (option_eq first' second')

  -- An address that the comparison takes without a throw.
  abbrev pub IsComparable : Option String → Type 0
  IsComparable a = is_ok (checksum a) ≡ true

  abbrev same_result : Result (Option String) → Result (Option String) → Bool
  same_result (ok a) (ok b) = option_eq a b
  same_result _ _ = false

  -- The two values name the same account.
  unfoldable pub same : Option String → Option String → Bool
  same a b = same_result (checksum a) (checksum b)

  pub addresses_equal-eq-same :
      (a b : Option String) → IsComparable a → IsComparable b → addresses_equal a b ≡ ok (same a b)
  unfolding addresses_equal same
  addresses_equal-eq-same a b h k = ground arith

  pub same_comm : (a b : Option String) → same a b ≡ same b a
  unfolding same
  same_comm a b = by_results (checksum a) (checksum b)
    where
      by_options : (x y : Option String) → option_eq x y ≡ option_eq y x
      by_options none none = refl
      by_options none (some y) = refl
      by_options (some x) none = refl
      by_options (some x) (some y) = ground (arith, str_eq_iff x y, str_eq_iff y x)

      by_results : (r s : Result (Option String)) → same_result r s ≡ same_result s r
      by_results (ok x) (ok y) = by_options x y
      by_results (ok x) (throw e) = refl
      by_results (throw e) (ok y) = refl
      by_results (throw e) (throw e') = refl

  pub same_refl : (a : Option String) → IsComparable a → same a a ≡ true
  unfolding same
  same_refl a h = by_result (checksum a) h
    where
      by_option : (x : Option String) → option_eq x x ≡ true
      by_option none = refl
      by_option (some x) = str_eq_refl x

      by_result : (r : Result (Option String)) → is_ok r ≡ true → same_result r r ≡ true
      by_result (ok x) h' = by_option x
      by_result (throw e) h' = h'

  pub same_trans : (a b c : Option String) → same a b ≡ true → same b c ≡ true → same a c ≡ true
  unfolding same
  same_trans a b c h k = by_results (checksum a) (checksum b) (checksum c) h k
    where
      by_options :
          (x y z : Option String)
          → option_eq x y ≡ true
          → option_eq y z ≡ true
          → option_eq x z ≡ true
      by_options none none z h' k' = k'
      by_options none (some y) z h' k' = absurd (ground (arith, h'))
      by_options (some x) none z h' k' = absurd (ground (arith, h'))
      by_options (some x) (some y) z h' k' = rw ((str_eq_iff x y).0 h') k'

      by_results :
          (r s t : Result (Option String))
          → same_result r s ≡ true
          → same_result s t ≡ true
          → same_result r t ≡ true
      by_results (ok x) (ok y) (ok z) h' k' = by_options x y z h' k'
      by_results (ok x) (ok y) (throw e) h' k' = k'
      by_results (ok x) (throw e) t h' k' = absurd (ground (arith, h'))
      by_results (throw e) s t h' k' = absurd (ground (arith, h'))
