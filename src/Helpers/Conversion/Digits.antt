-- ===== src/Helpers/Conversion/Digits.antt =====
-- What the digits of a rate come to, and that trimming its zeros does not change it.
use superfluid_aragon_app.Prelude.{
  ℕ, suc, ◌+◌, ◌-◌, ◌*◌, ◌^◌, ◌≤◌, ◌≡◌, refl, ap, subst, ◌∙◌, sym, true, false, [], ◌∷◌, ◌++◌, ◌&&◌,
  ◌==◌, length, arith, All, Bool-cases, inl, inr,
}
use native.Mathlib.Nat.{mul_assoc, mul_comm, pow-suc}
use superfluid_aragon_app.Helpers.Decimals.{
  Text, zero_char, dot, is_empty, includes, trim_leading, trim_trailing,
}

-- The number that starts with `acc` and goes on with the digits of the text.
abbrev pub read_on : ℕ → Text → ℕ
read_on acc [] = acc
read_on acc (c ∷ s) = read_on (acc * 10 + (c - zero_char)) s

abbrev pub IsDigit : ℕ → Type 0
IsDigit c = (b'0' ≤ c) × (c ≤ b'9')

pub read_on-append : (acc : ℕ) (s t : Text) → read_on acc (s ++ t) ≡ read_on (read_on acc s) t
read_on-append acc [] t = refl
read_on-append acc (c ∷ s) t = read_on-append (acc * 10 + (c - zero_char)) s t

pub read_on-trim_leading : (s : Text) → read_on 0 (trim_leading s) ≡ read_on 0 s
unfolding trim_leading
read_on-trim_leading [] = refl
read_on-trim_leading (c ∷ s) = elim (Bool-cases (c == zero_char)) [
  | inl e ↦ ground (arith, e, read_on-trim_leading s)
  | inr e ↦ rw e refl
]

shifted : (n k a b : ℕ) → n * 10 ^ a ≡ k * 10 ^ b → n * 10 ^ suc a ≡ k * 10 ^ suc b
shifted n k a b h =
    ap (λ x. n * x) (pow-suc 10 a)
    ∙ sym (mul_assoc n (10 ^ a) 10)
    ∙ ap (λ x. x * 10) h
    ∙ mul_assoc k (10 ^ b) 10
    ∙ ap (λ x. k * x) (sym (pow-suc 10 b))

is_empty-nil : (t : Text) → is_empty t ≡ true → t ≡ []
is_empty-nil [] h = refl
is_empty-nil (c ∷ t) h = absurd (ground (arith, h))

-- A zero before nothing but zeros.
only_zeros :
    (acc c k : ℕ) (s t : Text)
    → (is_empty t && c == zero_char) ≡ true
    → k * 10 ^ length t ≡ read_on (acc * 10 + (c - zero_char)) t * 10 ^ length s
    → k * 10 ^ 0 ≡ acc * 10 ^ suc (length s)
only_zeros acc c k s t e h =
    let none_left : t ≡ [] = is_empty-nil t (ground (arith, e)) in
    let zero_digit : acc * 10 + (c - zero_char) ≡ acc * 10 = ground (arith, e) in
    subst (λ u. k * 10 ^ length u ≡ read_on (acc * 10 + (c - zero_char)) u * 10 ^ length s)
      none_left h
    ∙ ap (λ x. x * 10 ^ length s) zero_digit
    ∙ mul_assoc acc 10 (10 ^ length s)
    ∙ ap (λ x. acc * x) (mul_comm 10 (10 ^ length s) ∙ sym (pow-suc 10 (length s)))

-- Zeros at the end count as the places that they take.
pub read_on-trim_trailing :
    (acc : ℕ) (s : Text)
    → read_on acc s * 10 ^ length (trim_trailing s) ≡ read_on acc (trim_trailing s) * 10 ^ length s
unfolding trim_trailing
read_on-trim_trailing acc [] = refl
read_on-trim_trailing acc (c ∷ s) =
    let rest = read_on-trim_trailing (acc * 10 + (c - zero_char)) s in
    elim (Bool-cases (is_empty (trim_trailing s) && c == zero_char)) [
      | inl e ↦
          rw e
            (only_zeros acc c (read_on (acc * 10 + (c - zero_char)) s) s (trim_trailing s) e rest)
      | inr e ↦ rw e (
          shifted (read_on (acc * 10 + (c - zero_char)) s)
            (read_on (acc * 10 + (c - zero_char)) (trim_trailing s)) (length (trim_trailing s))
            (length s) rest)
    ]

pub All-trim_leading : (s : Text) → All IsDigit s → All IsDigit (trim_leading s)
unfolding trim_leading
All-trim_leading [] h = tt
All-trim_leading (c ∷ s) h = elim (Bool-cases (c == zero_char)) [
  | inl e ↦ rw e (All-trim_leading s h.1)
  | inr e ↦ rw e h
]

pub All-trim_trailing : (s : Text) → All IsDigit s → All IsDigit (trim_trailing s)
unfolding trim_trailing
All-trim_trailing [] h = tt
All-trim_trailing (c ∷ s) h = elim (Bool-cases (is_empty (trim_trailing s) && c == zero_char)) [
  | inl e ↦ rw e tt
  | inr e ↦ rw e (h.0, All-trim_trailing s h.1)
]

pub digits-no_dot : (s : Text) → All IsDigit s → includes dot s ≡ false
digits-no_dot [] h = refl
digits-no_dot (c ∷ s) h = ground (arith, h.0.0, digits-no_dot s h.1)
