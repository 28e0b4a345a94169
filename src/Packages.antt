-- ===== src/Packages.antt =====
-- The packages that the app imports and the repository does not hold: `web3-utils`, `web3-eth-abi`
-- and `bn.js`, with the texts of the host (letter case, collation). Big numbers are read as the
-- integers that they hold.
use superfluid_aragon_app.Prelude.{ℕ, ℤ, String, List, ◌≡◌, Bool, ◌+ℤ◌, ◌*ℤ◌, pos, Option, ◌/◌}
use superfluid_aragon_app.Helpers.Time.{Date}
use superfluid_aragon_app.Js.{Result}

pub record Packages : Type 0 where
  -- web3-utils: throws at a text that is no address
  pub to_checksum_address : String → Result String
  pub is_address : String → Bool
  -- web3-eth-abi: `decodeParameter('string', data)`
  pub decode_string : String → Result String
  -- bn.js: `a.add(b)`, `a.mul(b)`
  pub bn_add : ℤ → ℤ → ℤ
  pub bn_mul : ℤ → ℤ → ℤ
  -- bn.js: `a.div(b)`, `a.toNumber()`, which throws past 53 bits, and `new BN(x)` of a JavaScript
  -- number, `none` for NaN
  pub bn_div : ℤ → ℤ → ℤ
  pub bn_to_number : ℤ → Result ℤ
  pub bn_from_number : Option ℤ → Result ℤ
  -- date-fns: `differenceInSeconds(a, b)`, `none` for NaN
  pub difference_in_seconds : Date → Date → Option ℤ
  -- bn.js: `a.toString()`, as the list of its characters
  pub bn_to_text : ℤ → List ℕ
  -- `Number(s).toFixed(n)`, which computes with floats
  pub to_fixed : List ℕ → ℕ → List ℕ
  -- String.prototype: letter case, and `a.localeCompare(b)`
  pub to_lower_case : String → String
  pub to_upper_case : String → String
  pub locale_compare : String → Option String → ℤ

-- bn.js computes with integers.
pub record BnLaws (p : Packages) : Type 0 where
  pub add_lem : (a b : ℤ) → p.bn_add a b ≡ a +ℤ b
  pub mul_lem : (a b : ℤ) → p.bn_mul a b ≡ a *ℤ b
  pub div_lem : (a b : ℕ) → p.bn_div (pos a) (pos b) ≡ pos (a / b)
