-- ===== src/Helpers/Decimals.antt =====
-- app/src/helpers/math.js: decimal texts, scaled to a token's base units and back. A text is the list
-- of its characters.
pub mod Trim
pub mod RoundTrip
use superfluid_aragon_app.Prelude.{
  ℕ, ℤ, suc, ◌+◌, ◌-◌, Bool, true, false, not, ◌&&◌, ◌||◌, List, [], ◌∷◌, ◌++◌, ◌==◌, ltb,
  if◌then◌else◌, length, take, drop, replicate,
}
use superfluid_aragon_app.Packages.{Packages}

abbrev pub Text : Type 0
Text = List ℕ

abbrev pub zero_char : ℕ
zero_char = b'0'

abbrev pub dot : ℕ
dot = b'.'

abbrev pub is_empty : Text → Bool
is_empty [] = true
is_empty (c ∷ s) = false

abbrev pub includes : ℕ → Text → Bool
includes x [] = false
includes x (c ∷ s) = c == x || includes x s

-- The text before the first dot, and what follows it.
abbrev pub before_dot : Text → Text
before_dot [] = []
before_dot (c ∷ s) = let rest = before_dot s in if c == dot then [] else c ∷ rest

abbrev pub after_dot : Text → Text
after_dot [] = []
after_dot (c ∷ s) = let rest = after_dot s in if c == dot then s else rest

-- `s.replace(/^0*/, '')` and `s.replace(/0*$/, '')`
unfoldable pub trim_leading : Text → Text
trim_leading [] = []
trim_leading (c ∷ s) = let rest = trim_leading s in if c == zero_char then rest else c ∷ s

unfoldable pub trim_trailing : Text → Text
trim_trailing [] = []
trim_trailing (c ∷ s) =
    let rest = trim_trailing s in if is_empty rest && c == zero_char then [] else c ∷ rest

-- `s.padStart(n, '0')` and `s.padEnd(n, '0')`
abbrev pub pad_start : ℕ → Text → Text
pad_start n s = replicate (n - length s) zero_char ++ s

abbrev pub pad_end : ℕ → Text → Text
pad_end n s = s ++ replicate (n - length s) zero_char

-- `[whole = '', dec = ''] = num.split('.')`: the first two parts, trimmed.
abbrev pub whole_part : Text → Text
whole_part num = trim_leading (before_dot num)

abbrev pub decimal_part : Text → Text
decimal_part num = trim_trailing (before_dot (after_dot num))

-- What the functions take: a text, a big number, or a JavaScript number as the text that it prints.
pub data Numeral : Type 0 where
  text : Text → Numeral
  bn : ℤ → Numeral
  number : Text → Numeral

-- The decimals are a number, or the text of one, which `parseInt` reads.
pub data Decimals : Type 0 where
  count : ℕ → Decimals
  count_text : ℕ → Decimals

abbrev pub normalized_decimals : Decimals → ℕ
normalized_decimals (count n) = n
normalized_decimals (count_text n) = n

module _ (p : Packages) where
  abbrev pub normalized_num : Numeral → Text
  normalized_num (text s) = s
  normalized_num (bn n) = p.bn_to_text n
  normalized_num (number s) = s

  abbrev pub with_fraction : Text → Text → Text
  with_fraction whole fraction = whole ++ dot ∷ fraction

  -- What `fromDecimals` returns for the padded digits, cut at the decimal index.
  abbrev pub joined : Bool → Text → Text → Text → Text
  joined truncate dec whole_without_base dec_without_base =
      let trimmed = trim_trailing dec_without_base in
      if not truncate && not (is_empty dec)
      then with_fraction whole_without_base (dec_without_base ++ dec)
      else if is_empty trimmed
      then whole_without_base
      else with_fraction whole_without_base trimmed

  unfoldable pub from_decimals : Numeral → Decimals → Bool → Text
  from_decimals num decimals truncate =
      let normalized = normalized_num num in
      let n = normalized_decimals decimals in
      let whole = whole_part normalized in
      let dec = decimal_part normalized in
      let padded_whole = pad_start (n + 1) whole in
      let decimal_index = length padded_whole - n in
      if is_empty whole && is_empty dec
      then zero_char ∷ []
      else joined truncate dec (take decimal_index padded_whole) (drop decimal_index padded_whole)

  -- A number in scientific notation is rounded to the decimals first.
  abbrev pub without_exponent : Text → ℕ → Text
  without_exponent num n = if includes b'e' num then p.to_fixed num n else num

  unfoldable pub to_decimals : Numeral → Decimals → Bool → Text
  to_decimals num decimals truncate =
      let n = normalized_decimals decimals in
      let normalized = without_exponent (normalized_num num) n in
      let whole = whole_part normalized in
      let dec = decimal_part normalized in
      let whole_length_with_base = length whole + n in
      let without_decimals = pad_end whole_length_with_base (whole ++ dec) in
      let whole_with_base = take whole_length_with_base without_decimals in
      if is_empty whole && (is_empty dec || n == 0)
      then zero_char ∷ []
      else if not truncate && ltb (length whole_with_base) (length without_decimals)
      then with_fraction whole_with_base (drop whole_length_with_base without_decimals)
      else whole_with_base
