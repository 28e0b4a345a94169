-- ===== src/Helpers/Decimals/Trim.antt =====
-- What trimming zeros removes and keeps, and texts with no dot.
use superfluid_aragon_app.Prelude.{
  ℕ, zero, suc, ◌+◌, ◌≤◌, ◌≡◌, refl, ap, ◌∙◌, sym, subst, ◌≢◌, true, false, ◌||◌, [], ◌∷◌, ◌++◌,
  ◌==◌, length, replicate, arith, Bool-cases, inl, inr,
}
use mathlib.Core.Path.{ap₂}
use mathlib.Core.List.{append-nil}
use superfluid_aragon_app.Helpers.Decimals.{
  Text, zero_char, dot, is_empty, includes, before_dot, after_dot, trim_leading, trim_trailing,
}

abbrev pub zeros : ℕ → Text
zeros n = replicate n zero_char

-- A text is its leading zeros and the rest.
pub trim_leading-zeros :
    (s : Text)
    → (k : ℕ) × (s ≡ zeros k ++ trim_leading s) × (length s ≡ k + length (trim_leading s))
unfolding trim_leading
trim_leading-zeros [] = (0, refl, refl)
trim_leading-zeros (c ∷ s) = elim (Bool-cases (c == zero_char)) [
  | inl zero_here ↦
      let (k, e, l) = trim_leading-zeros s in
      (
        suc k,
        rw (zero_here, trim_leading) (ap₂ (λ x y. x ∷ y) (ground arith) e),
        rw (zero_here, trim_leading) (omega arith),
      )
  | inr other ↦ (0, rw (other, trim_leading), rw (other, trim_leading) (omega arith))
]

-- A text with a digit left keeps what follows it.
pub trim_leading-append :
    (w y : Text)
    → is_empty (trim_leading w) ≡ false
    → trim_leading (trim_leading w ++ y) ≡ trim_leading w ++ y
unfolding trim_leading
trim_leading-append [] y h = cc
trim_leading-append (c ∷ w) y h = ground (arith, trim_leading-append w y)

pub length-trim_leading : (s : Text) → length (trim_leading s) ≤ length s
unfolding trim_leading
length-trim_leading [] = omega arith
length-trim_leading (c ∷ s) = ground (arith, length-trim_leading s)

pub trim_trailing-zeros : (n : ℕ) → trim_trailing (zeros n) ≡ []
unfolding trim_trailing
trim_trailing-zeros zero = refl
trim_trailing-zeros (suc n) = ground (arith, trim_trailing-zeros n)

-- Zeros at the end make no difference.
pub trim_trailing-append_zeros : (s : Text) (n : ℕ) → trim_trailing (s ++ zeros n) ≡ trim_trailing s
unfolding trim_trailing
trim_trailing-append_zeros [] n = trim_trailing-zeros n
trim_trailing-append_zeros (c ∷ s) n = ground (arith, trim_trailing-append_zeros s n)

pub trim_trailing_idempotent : (s : Text) → trim_trailing (trim_trailing s) ≡ trim_trailing s
unfolding trim_trailing
trim_trailing_idempotent [] = refl
trim_trailing_idempotent (c ∷ s) = ground (arith, trim_trailing_idempotent s)

pub trim_leading_idempotent : (s : Text) → trim_leading (trim_leading s) ≡ trim_leading s
unfolding trim_leading
trim_leading_idempotent [] = refl
trim_leading_idempotent (c ∷ s) = ground (arith, trim_leading_idempotent s)

-- Only zeros trim to nothing, from either end.
pub trim_both_empty : (s : Text) → is_empty (trim_leading s) ≡ true → trim_trailing s ≡ []
trim_both_empty s h =
    let (k, e, l) = trim_leading-zeros s in
    subst (λ x. trim_trailing x ≡ [])
      (sym (e ∙ ap (λ r. zeros k ++ r) (empty h) ∙ append-nil (zeros k))) (trim_trailing-zeros k)
  where
    empty : {r : Text} → is_empty r ≡ true → r ≡ []
    empty {r} q = ground arith

pub includes-append : (x : ℕ) (s t : Text) → includes x (s ++ t) ≡ (includes x s || includes x t)
includes-append x [] t = refl
includes-append x (c ∷ s) t = ground (arith, includes-append x s t)

pub includes-zeros : (x n : ℕ) → x ≢ zero_char → includes x (zeros n) ≡ false
includes-zeros x zero h = refl
includes-zeros x (suc n) h = ground (arith, includes-zeros x n h)

pub includes-trim_leading :
    (x : ℕ) (s : Text) → includes x s ≡ false → includes x (trim_leading s) ≡ false
unfolding trim_leading
includes-trim_leading x [] h = refl
includes-trim_leading x (c ∷ s) h = ground (arith, includes-trim_leading x s)

pub includes-trim_trailing :
    (x : ℕ) (s : Text) → includes x s ≡ false → includes x (trim_trailing s) ≡ false
unfolding trim_trailing
includes-trim_trailing x [] h = refl
includes-trim_trailing x (c ∷ s) h = ground (arith, includes-trim_trailing x s)

pub length-trim_trailing : (s : Text) → length (trim_trailing s) ≤ length s
unfolding trim_trailing
length-trim_trailing [] = omega arith
length-trim_trailing (c ∷ s) = ground (arith, length-trim_trailing s)

pub before_dot_plain : (s : Text) → includes dot s ≡ false → before_dot s ≡ s
before_dot_plain [] h = refl
before_dot_plain (c ∷ s) h = ground (arith, before_dot_plain s)

pub after_dot_plain : (s : Text) → includes dot s ≡ false → after_dot s ≡ []
after_dot_plain [] h = refl
after_dot_plain (c ∷ s) h = ground (arith, after_dot_plain s)

pub before_dot-append : (s t : Text) → includes dot s ≡ false → before_dot (s ++ dot ∷ t) ≡ s
before_dot-append [] t h = refl
before_dot-append (c ∷ s) t h = ground (arith, before_dot-append s t)

pub after_dot-append : (s t : Text) → includes dot s ≡ false → after_dot (s ++ dot ∷ t) ≡ t
after_dot-append [] t h = refl
after_dot-append (c ∷ s) t h = ground (arith, after_dot-append s t)
