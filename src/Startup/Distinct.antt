-- ===== src/Startup/Distinct.antt =====
-- The set of addresses that the start walks over holds the items of the list, each once.
use superfluid_aragon_app.Prelude.{
  String, ◌≡◌, sym, ap, subst, Bool, true, ◌||◌, Option, none, some, List, [], ◌∷◌, All, Bool-cases,
  inl, inr, str_eq, str_eq_iff, if◌then◌else◌,
}
use superfluid_aragon_app.Startup.{has_text, distinct}

module _ {ℓ} (P : Option String → Type ℓ) where
  has_text-All :
      (x : Option String) (seen : List (Option String)) → has_text x seen ≡ true → All P seen → P x
  has_text-All x [] h k = cc
  has_text-All none (none ∷ ys) h k = k.0
  has_text-All none (some y ∷ ys) h k = has_text-All none ys h k.1
  has_text-All (some x) (none ∷ ys) h k = has_text-All (some x) ys h k.1
  has_text-All (some x) (some y ∷ ys) h k = elim (Bool-cases (str_eq x y)) [
    | inl e ↦ subst P (ap some (sym ((str_eq_iff x y).0 e))) k.0
    | inr e ↦ has_text-All (some x) ys (subst (λ b. (b || has_text (some x) ys) ≡ true) e h) k.1
  ]

  -- The set holds no other item than the list, and each of them.
  pub distinct-All : (seen xs : List (Option String)) → All P xs → All P (distinct seen xs)
  distinct-All seen [] h = tt
  distinct-All seen (x ∷ xs) h = elim (Bool-cases (has_text x seen)) [
    | inl old ↦ rw old (distinct-All seen xs h.1)
    | inr new ↦ rw new (h.0, distinct-All (x ∷ seen) xs h.1)
  ]

  pub distinct_covers :
      (seen xs : List (Option String)) → All P seen → All P (distinct seen xs) → All P xs
  distinct_covers seen [] k h = tt
  distinct_covers seen (x ∷ xs) k h = elim (Bool-cases (has_text x seen)) [
    | inl old ↦
        (has_text-All x seen old k, distinct_covers seen xs k (subst (λ b. All P (step b)) old h))
    | inr new ↦
        let h' = subst (λ b. All P (step b)) new h in
        (h'.0, distinct_covers (x ∷ seen) xs (h'.0, k) h'.1)
  ]
    where
      step : Bool → List (Option String)
      step b = let rest = distinct (if b then seen else x ∷ seen) xs in if b then rest else x ∷ rest
