-- ===== src/Js/Search.antt =====
-- `findIndex`, `find` and `filter` with a test that may throw: the walk stops where the test does.
-- Where no test throws they are the plain walks.
use superfluid_aragon_app.Prelude.{
  ℕ, suc, ◌≡◌, refl, Bool, Option, none, some, List, [], ◌∷◌, All, if◌then◌else◌, find_index,
  keep_if, arith, find,
}
use superfluid_aragon_app.Js.{Result, ok, ◌>>=◌}
use mathlib.Core.Option

module _ {ℓ} {A : Type ℓ} where
  -- `xs.findIndex(p)`, `none` for -1; a test after the first that passes is not made.
  unfoldable pub find_index_js : (A → Result Bool) → List A → Result (Option ℕ)
  find_index_js p [] = ok none
  find_index_js p (x ∷ xs) =
      let rest = find_index_js p xs in
      p x >>= λ b. if b then ok (some 0) else (rest >>= λ i. ok (Option.map suc i))

  unfoldable pub filter_js : (A → Result Bool) → List A → Result (List A)
  filter_js p [] = ok []
  filter_js p (x ∷ xs) =
      let rest = filter_js p xs in p x >>= λ b. rest >>= λ ys. ok (if b then x ∷ ys else ys)

  -- `xs.find(p)`
  unfoldable pub find_js : (A → Result Bool) → List A → Result (Option A)
  find_js p [] = ok none
  find_js p (x ∷ xs) = let rest = find_js p xs in p x >>= λ b. if b then ok (some x) else rest

  -- The test gives `q x` at every item of the list.
  abbrev pub Tests : (A → Result Bool) → (A → Bool) → List A → Type 0
  Tests p q = All (λ x. p x ≡ ok (q x))

  pub find_index_js-eq :
      (p : A → Result Bool) (q : A → Bool) (xs : List A)
      → Tests p q xs
      → find_index_js p xs ≡ ok (find_index q xs)
  unfolding find_index_js
  find_index_js-eq p q [] h = refl
  find_index_js-eq p q (x ∷ xs) h = ground (arith, h.0, find_index_js-eq p q xs h.1)

  pub filter_js-eq :
      (p : A → Result Bool) (q : A → Bool) (xs : List A)
      → Tests p q xs
      → filter_js p xs ≡ ok (keep_if q xs)
  unfolding filter_js
  filter_js-eq p q [] h = refl
  filter_js-eq p q (x ∷ xs) h = ground (arith, h.0, filter_js-eq p q xs h.1)

  pub find_js-eq :
      (p : A → Result Bool) (q : A → Bool) (xs : List A)
      → Tests p q xs
      → find_js p xs ≡ ok (find q xs)
  unfolding find_js
  find_js-eq p q [] h = refl
  find_js-eq p q (x ∷ xs) h = ground (arith, h.0, find_js-eq p q xs h.1)
