-- ===== src/Store/Flows/OpenRates/Walks.antt =====
-- What a search finds after a walk has written to a list.
use superfluid_aragon_app.Prelude.{
  ◌≡◌, refl, ap, Bool, true, false, Option, some, none, List, [], ◌∷◌, All, arith, Bool-cases, inl,
  inr, if◌then◌else◌, find,
}
use superfluid_aragon_app.Js.Upsert.{upsert}

module _ {ℓ} {A : Type ℓ} where
  -- A walk that writes only to items that a test does not find leaves what the test finds.
  pub find-upsert_other :
      (q r : A → Bool) (created : A) (advance : A → A)
      → r created ≡ false
      → ((x : A) → r (advance x) ≡ true → r x ≡ true)
      → (xs : List A) → All (λ x. q x ≡ true → r x ≡ false) xs
      → find r (upsert q created advance xs) ≡ find r xs
  find-upsert_other q r created advance n o [] h = rw n refl
  find-upsert_other q r created advance n o (x ∷ xs) h = elim (Bool-cases (q x)) [
    | inl hit ↦ elim (Bool-cases (r (advance x))) [
      | inl found ↦ absurd (ground (arith, o x found, h.0 hit))
      | inr lost ↦ rw (hit, lost, h.0 hit) refl
    ]
    | inr miss ↦
        rw miss
          (ap (λ o. if r x then some x else o) (find-upsert_other q r created advance n o xs h.1))
  ]

  find-none : (r : A → Bool) (xs : List A) → All (λ x. r x ≡ false) xs → find r xs ≡ none
  find-none r [] h = refl
  find-none r (x ∷ xs) h = rw (h.0, find-none r xs h.1) refl

  -- After an item that passes, no other one does.
  abbrev pub IsAlone : (A → Bool) → List A → Type 0
  IsAlone r [] = Unit
  IsAlone r (x ∷ xs) = (r x ≡ true → All (λ y. r y ≡ false) xs) × IsAlone r xs

  abbrev pub written : Bool → A → (A → A) → Option A → Option A
  written opens created advance none = some created
  written opens created advance (some x) = if opens then some (advance x) else none

  pub find-upsert_same :
      (r : A → Bool) (opens : Bool) (created : A) (advance : A → A) (q : A → Bool)
      → r created ≡ true
      → ((x : A) → r x ≡ true → r (advance x) ≡ opens)
      → (xs : List A) → All (λ x. r x ≡ q x) xs
      → IsAlone r xs
      → find r (upsert q created advance xs) ≡ written opens created advance (find r xs)
  find-upsert_same r opens created advance q n o [] e h = rw n refl
  find-upsert_same r opens created advance q n o (x ∷ xs) e h = elim (Bool-cases (r x)) [
    | inl hit ↦ elim (Bool-cases opens) [
      | inl opening ↦ rw (← e.0, hit, o x hit, opening) refl
      | inr ending ↦ rw (← e.0, hit, o x hit, ending) (find-none r xs (h.0 hit))
    ]
    | inr miss ↦
        ground (arith, e.0, miss, find-upsert_same r opens created advance q n o xs e.1 h.1)
  ]
