-- ===== src/Js/Upsert.antt =====
-- Writing to the place that `findIndex` found, and pushing where it found none, as one walk; and
-- what such a walk keeps of the list.
use superfluid_aragon_app.Prelude.{
  ℕ, suc, ◌≡◌, refl, ap, Bool, false, true, none, some, List, [], ◌∷◌, ◌++◌, if◌then◌else◌, All,
  arith, find_index, get_elem?, set, Bool-cases, Option-cases, inl, inr,
}

module _ {ℓ} {A : Type ℓ} (q : A → Bool) (created : A) (advance : A → A) where
  -- The first item that passes is advanced; where none does, a new one stands at the end.
  abbrev pub upsert : List A → List A
  upsert [] = created ∷ []
  upsert (x ∷ xs) = let rest = upsert xs in if q x then advance x ∷ xs else x ∷ rest

  pub upsert_absent : (xs : List A) → find_index q xs ≡ none → upsert xs ≡ xs ++ created ∷ []
  upsert_absent [] h = refl
  upsert_absent (x ∷ xs) h = elim (Bool-cases (q x)) [
    | inl hit ↦ ground (arith, hit)
    | inr miss ↦ rw miss (ap (λ l. x ∷ l) (upsert_absent xs (ground (arith, miss))))
  ]

  pub upsert_present :
      (xs : List A) (i : ℕ)
      → find_index q xs ≡ some i
      → (x : A) × (get_elem? xs i ≡ some x) × (upsert xs ≡ set xs i (advance x)) × (q x ≡ true)
  upsert_present [] i h = absurd (none_is_not_some h)
    where
      none_is_not_some : {j : ℕ} → none ≡ some j → ⊥
      none_is_not_some e = cc
  upsert_present (x ∷ xs) i h = elim (Bool-cases (q x)) [
    | inl hit ↦ rw (← zero_found hit) (x, refl, rw hit, hit)
    | inr miss ↦ elim (Option-cases (find_index q xs)) [
      | inl none_left ↦ absurd (ground (arith, miss, none_left))
      | inr (j, found) ↦
          let (y, at_j, walk, passes) = upsert_present xs j found in
          rw (← suc_found miss j found) (y, at_j, rw miss (ap (λ l. x ∷ l) walk), passes)
    ]
  ]
    where
      zero_found : q x ≡ true → 0 ≡ i
      zero_found hit = ground (arith, hit)

      suc_found : q x ≡ false → (j : ℕ) → find_index q xs ≡ some j → suc j ≡ i
      suc_found miss j found = ground (arith, miss, found)

module _ {ℓ κ} {A : Type ℓ} {P : A → Type κ} (q : A → Bool) (created : A) (advance : A → A)
    (new : P created) (old : (x : A) → P x → P (advance x)) where
  pub All-upsert : (xs : List A) → All P xs → All P (upsert q created advance xs)
  All-upsert [] h = (new, tt)
  All-upsert (x ∷ xs) h = elim (Bool-cases (q x)) [
    | inl hit ↦ rw hit (old x h.0, h.1)
    | inr miss ↦ rw miss (h.0, All-upsert xs h.1)
  ]

-- No item is in conflict with a later one.
module _ {ℓ} {A : Type ℓ} (clash : A → A → Bool) where
  abbrev pub IsApart : A → List A → Type 0
  IsApart x = All (λ y. clash x y ≡ false)

  abbrev pub IsUnique : List A → Type 0
  IsUnique [] = Unit
  IsUnique (x ∷ xs) = IsApart x xs × IsUnique xs

  -- `y` is in conflict with nothing that `x` was not in conflict with.
  pub record Milder (y x : A) : Type ℓ where
    pub left : (z : A) → clash z x ≡ false → clash z y ≡ false
    pub right : (z : A) → clash x z ≡ false → clash y z ≡ false

  IsApart-Milder : {y x : A} (xs : List A) → Milder y x → IsApart x xs → IsApart y xs
  IsApart-Milder [] m h = tt
  IsApart-Milder (z ∷ zs) m h = (m.right z h.0, IsApart-Milder zs m h.1)

  module _ (q : A → Bool) (created : A) (advance : A → A)
      (fresh : (x : A) → q x ≡ false → clash x created ≡ false)
      (milder : (x : A) → Milder (advance x) x) where
    IsApart-upsert :
        (x : A) (ys : List A) → q x ≡ false → IsApart x ys → IsApart x (upsert q created advance ys)
    IsApart-upsert x [] e h = (fresh x e, tt)
    IsApart-upsert x (y ∷ ys) e h = elim (Bool-cases (q y)) [
      | inl hit ↦ rw hit ((milder y).left x h.0, h.1)
      | inr miss ↦ rw miss (h.0, IsApart-upsert x ys e h.1)
    ]

    pub upsert-IsUnique : (xs : List A) → IsUnique xs → IsUnique (upsert q created advance xs)
    upsert-IsUnique [] h = (tt, tt)
    upsert-IsUnique (x ∷ xs) h = elim (Bool-cases (q x)) [
      | inl hit ↦ rw hit (IsApart-Milder xs (milder x) h.0, h.1)
      | inr miss ↦ rw miss (IsApart-upsert x xs miss h.0, upsert-IsUnique xs h.1)
    ]
