-- ===== src/Js/Sort.antt =====
-- `xs.sort(compare)`, which is stable: an item goes before the first one that is to come later.
use mathlib.Core.List.{Perm, perm_middle, append-nil}
use mathlib.Core.List.Perm
use superfluid_aragon_app.Prelude.{
  ℤ, pos, ltb_ℤ, ◌≡◌, subst, Bool, true, false, Option, none, some, List, [], ◌∷◌, ◌++◌, All,
  if◌then◌else◌, Bool-cases, inl, inr,
}

-- What a sort reads of a comparison: `NaN`, `none` here, counts as 0.
abbrev pub comes_later : Option ℤ → Bool
comes_later none = false
comes_later (some order) = ltb_ℤ (pos 0) order

module _ {ℓ} {A : Type ℓ} (later : A → A → Bool) where
  unfoldable pub insert_by : A → List A → List A
  insert_by x [] = x ∷ []
  insert_by x (y ∷ ys) = let behind = insert_by x ys in if later y x then x ∷ y ∷ ys else y ∷ behind

  unfoldable pub sort_onto : List A → List A → List A
  sort_onto sorted [] = sorted
  sort_onto sorted (x ∷ xs) = sort_onto (insert_by x sorted) xs

  insert-Perm : (x : A) (l : List A) → Perm (insert_by x l) (x ∷ l)
  unfolding insert_by
  insert-Perm x [] = Perm.rfl
  insert-Perm x (y ∷ ys) = elim (Bool-cases (later y x)) [
    | inl after ↦ rw after Perm.rfl
    | inr before ↦ rw before (Perm.trans (Perm.cons y (insert-Perm x ys)) (Perm.swap x y ys))
  ]

  sort_onto-Perm : (l xs : List A) → Perm (sort_onto l xs) (xs ++ l)
  unfolding sort_onto
  sort_onto-Perm l [] = Perm.rfl
  sort_onto-Perm l (x ∷ xs) =
      Perm.trans (sort_onto-Perm (insert_by x l) xs)
        (Perm.trans (Perm.append_left xs (insert-Perm x l)) (perm_middle xs l))

  pub sort-Perm : (xs : List A) → Perm (sort_onto [] xs) xs
  sort-Perm xs = subst (Perm (sort_onto [] xs)) (append-nil xs) (sort_onto-Perm [] xs)

module _ {ℓ κ} {A : Type ℓ} (later : A → A → Bool) (P : A → Type κ) where
  -- An insertion keeps what all the items and the new one have.
  All-insert : (x : A) (l : List A) → P x → All P l → All P (insert_by later x l)
  unfolding insert_by
  All-insert x [] h k = (h, tt)
  All-insert x (y ∷ ys) h k = elim (Bool-cases (later y x)) [
    | inl after ↦ rw after (h, k)
    | inr before ↦ rw before (k.0, All-insert x ys h k.1)
  ]

  sort_onto-All : (l xs : List A) → All P l → All P xs → All P (sort_onto later l xs)
  unfolding sort_onto
  sort_onto-All l [] hl hx = hl
  sort_onto-All l (x ∷ xs) hl hx =
      sort_onto-All (insert_by later x l) xs (All-insert x l hx.0 hl) hx.1

  pub All-sort : (xs : List A) → All P xs → All P (sort_onto later [] xs)
  All-sort xs h = sort_onto-All [] xs tt h

-- Each item stands before the later ones in `R`.
abbrev pub IsSorted {ℓ κ} : {A : Type ℓ} → (A → A → Type κ) → List A → Type κ
IsSorted R [] = Unit
IsSorted R (x ∷ xs) = All (R x) xs × IsSorted R xs

-- A comparison that decides an order on the items that have `P`.
pub record Decides {ℓ κ} {A : Type ℓ} (P : A → Type κ) (R : A → A → Type κ) (later : A → A → Bool)
    : Type (ℓ ⊔ κ) where
  pub is_later : (x y : A) → P x → P y → later y x ≡ true → R x y
  pub is_before : (x y : A) → P x → P y → later x y ≡ false → R x y
  pub trans : (x y z : A) → R x y → R y z → R x z

module _ {ℓ κ} {A : Type ℓ} {P : A → Type κ} {R : A → A → Type κ} {later : A → A → Bool}
    (order : Decides P R later) where
  below-All : (x y : A) (ys : List A) → R x y → All (R y) ys → All (R x) ys
  below-All x y [] h k = tt
  below-All x y (z ∷ zs) h k = (order.trans x y z h k.0, below-All x y zs h k.1)

  insert-IsSorted :
      (x : A) (l : List A) → P x → All P l → IsSorted R l → IsSorted R (insert_by later x l)
  unfolding insert_by
  insert-IsSorted x [] hx hl s = (tt, tt)
  insert-IsSorted x (y ∷ ys) hx hl s = elim (Bool-cases (later y x)) [
    | inl after ↦
        let first = order.is_later x y hx hl.0 after in
        rw after ((first, below-All x y ys first s.0), s)
    | inr before ↦ rw before (
      All-insert later (R y) x ys (order.is_before y x hl.0 hx before) s.0,
      insert-IsSorted x ys hx hl.1 s.1,
    )
  ]

  sort_onto-IsSorted :
      (l xs : List A) → All P l → All P xs → IsSorted R l → IsSorted R (sort_onto later l xs)
  unfolding sort_onto
  sort_onto-IsSorted l [] hl hx s = s
  sort_onto-IsSorted l (x ∷ xs) hl hx s =
      sort_onto-IsSorted (insert_by later x l) xs (All-insert later P x l hx.0 hl) hx.1
        (insert-IsSorted x l hx.0 hl s)

  pub sort-IsSorted : (xs : List A) → All P xs → IsSorted R (sort_onto later [] xs)
  sort-IsSorted xs h = sort_onto-IsSorted [] xs tt h tt
