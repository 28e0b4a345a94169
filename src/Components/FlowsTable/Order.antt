-- ===== src/Components/FlowsTable/Order.antt =====
-- The order of the table's flows: the open ones first, the latest first, then the closed ones as they
-- were.
use mathlib.Core.List.{Perm, append-nil, append_assoc}
use superfluid_aragon_app.Prelude.{
  ℤ, ltb_ℤ, ◌≤ℤ◌, ◌≡◌, refl, ap, sym, ◌∙◌, Bool, true, false, not, Option, List, [], ◌∷◌, ◌++◌, All,
  keep_if, arith, Bool-cases, inl, inr,
}
use superfluid_aragon_app.Helpers.Time.{Date, at, invalid}
use superfluid_aragon_app.Reducer.{FormattedFlow}
use superfluid_aragon_app.Js.Sort.{
  comes_later, insert_by, sort_onto, sort-Perm, IsSorted, Decides, sort-IsSorted,
}
use superfluid_aragon_app.Components.FlowsTable.{compare_flows, goes_after, sort_flows}

abbrev pub is_open : FormattedFlow → Bool
is_open f = not f.is_cancelled

abbrev pub is_closed : FormattedFlow → Bool
is_closed f = f.is_cancelled

-- `a` is a date that is not before the date `b`.
abbrev pub IsLatestOf : Date → Date → Type 0
IsLatestOf (at a) (at b) = b ≤ℤ a
IsLatestOf _ _ = ⊥

-- The first flow was created no earlier than the second.
abbrev pub IsNewer : FormattedFlow → FormattedFlow → Type 0
IsNewer f g = IsLatestOf f.creation_date g.creation_date

-- date-fns: `compareDesc` is 1 where the first date is earlier, and not above 0 where it is not.
pub record CompareDesc (compare_desc : Date → Date → Option ℤ) : Type 0 where
  pub earlier : (a b : ℤ) → ltb_ℤ a b ≡ true → comes_later (compare_desc (at a) (at b)) ≡ true
  pub latest : (a b : ℤ) → ltb_ℤ a b ≡ false → comes_later (compare_desc (at a) (at b)) ≡ false

abbrev pub IsDated : FormattedFlow → Type 0
IsDated f = (ms : ℤ) × (f.creation_date ≡ at ms)

-- An open flow with a valid date.
pub record IsOpenDated (f : FormattedFlow) : Type 0 where
  pub opened : f.is_cancelled ≡ false
  pub dated : IsDated f

IsLatestOf-trans : (a b c : Date) → IsLatestOf a b → IsLatestOf b c → IsLatestOf a c
IsLatestOf-trans (at a) (at b) (at c) h k = ground arith
IsLatestOf-trans (at a) (at b) invalid h k = k
IsLatestOf-trans (at a) invalid c h k = absurd h
IsLatestOf-trans invalid b c h k = absurd h

module _ (compare_desc : Date → Date → Option ℤ) where
  insert_closed :
      (x : FormattedFlow) (l : List FormattedFlow)
      → x.is_cancelled ≡ true
      → insert_by (goes_after compare_desc) x l ≡ l ++ x ∷ []
  unfolding insert_by compare_flows
  insert_closed x [] h = refl
  insert_closed x (y ∷ ys) h = ground (arith, h, insert_closed x ys h)

  insert_open :
      (x : FormattedFlow) (l closed : List FormattedFlow)
      → x.is_cancelled ≡ false
      → All (λ f. f.is_cancelled ≡ true) closed
      → insert_by (goes_after compare_desc) x (l ++ closed)
        ≡ insert_by (goes_after compare_desc) x l ++ closed
  unfolding insert_by compare_flows
  insert_open x [] [] h k = refl
  insert_open x [] (c ∷ cs) h k = rw (h, k.0) refl
  insert_open x (y ∷ ys) closed h k =
      elim (Bool-cases (comes_later (compare_flows compare_desc y x))) [
        | inl later ↦ rw later refl
        | inr before ↦ rw before (ap (λ l. y ∷ l) (insert_open x ys closed h k))
      ]

  append_closed :
      (closed : List FormattedFlow) (x : FormattedFlow)
      → All (λ f. f.is_cancelled ≡ true) closed
      → x.is_cancelled ≡ true
      → All (λ f. f.is_cancelled ≡ true) (closed ++ x ∷ [])
  append_closed [] x h k = (k, tt)
  append_closed (c ∷ cs) x h k = (h.0, append_closed cs x h.1 k)

  sort-append :
      (l closed xs : List FormattedFlow)
      → All (λ f. f.is_cancelled ≡ true) closed
      → sort_onto (goes_after compare_desc) (l ++ closed) xs
        ≡ sort_onto (goes_after compare_desc) l (keep_if is_open xs)
          ++ (closed ++ keep_if is_closed xs)
  unfolding sort_onto
  sort-append l closed [] h = ap (λ c. l ++ c) (sym (append-nil closed))
  sort-append l closed (x ∷ xs) h = elim (Bool-cases x.is_cancelled) [
    | inl shut ↦
        simp (shut, insert_closed x (l ++ closed) shut, append_assoc l closed (x ∷ []))
          (sort-append l (closed ++ x ∷ []) xs (append_closed closed x h shut)
            ∙ ap (λ c. sort_onto (goes_after compare_desc) l (keep_if is_open xs) ++ c)
                (append_assoc closed (x ∷ []) (keep_if is_closed xs)))
    | inr shown ↦
        simp (shown, insert_open x l closed shown h)
          (sort-append (insert_by (goes_after compare_desc) x l) closed xs h)
  ]

module _ {compare_desc : Date → Date → Option ℤ} (laws : CompareDesc compare_desc) where
  later_order : (a b : ℤ) → comes_later (compare_desc (at a) (at b)) ≡ true → a ≤ℤ b
  later_order a b h = elim (Bool-cases (ltb_ℤ a b)) [
    | inl less ↦ ground (arith, less)
    | inr more ↦ absurd (ground (arith, h, laws.latest a b more))
  ]

  before_order : (a b : ℤ) → comes_later (compare_desc (at a) (at b)) ≡ false → b ≤ℤ a
  before_order a b h = elim (Bool-cases (ltb_ℤ a b)) [
    | inl less ↦ absurd (ground (arith, h, laws.earlier a b less))
    | inr more ↦ ground (arith, more)
  ]

  by_dates :
      (f g : FormattedFlow)
      → IsOpenDated f
      → IsOpenDated g
      → comes_later (compare_flows compare_desc f g)
        ≡ comes_later (compare_desc f.creation_date g.creation_date)
  unfolding compare_flows
  by_dates f g hf hg = rw (hf.opened, hg.opened) refl

  later_latest :
      (f g : FormattedFlow)
      → IsOpenDated f
      → IsOpenDated g
      → comes_later (compare_flows compare_desc f g) ≡ true
      → IsLatestOf g.creation_date f.creation_date
  later_latest f g hf hg h =
      let (a, f_at) = hf.dated in
      let (b, g_at) = hg.dated in
      rw (f_at, g_at)
        (later_order a b (
          ap (λ d. comes_later (compare_desc d (at b))) (sym f_at)
          ∙ ap (λ d. comes_later (compare_desc f.creation_date d)) (sym g_at)
          ∙ sym (by_dates f g hf hg)
          ∙ h))

  before_latest :
      (f g : FormattedFlow)
      → IsOpenDated f
      → IsOpenDated g
      → comes_later (compare_flows compare_desc f g) ≡ false
      → IsLatestOf f.creation_date g.creation_date
  before_latest f g hf hg h =
      let (a, f_at) = hf.dated in
      let (b, g_at) = hg.dated in
      rw (f_at, g_at)
        (before_order a b (
          ap (λ d. comes_later (compare_desc d (at b))) (sym f_at)
          ∙ ap (λ d. comes_later (compare_desc f.creation_date d)) (sym g_at)
          ∙ sym (by_dates f g hf hg)
          ∙ h))

  open_dated :
      (flows : List FormattedFlow) → All IsDated flows → All IsOpenDated (keep_if is_open flows)
  open_dated [] h = tt
  open_dated (f ∷ fs) h = elim (Bool-cases f.is_cancelled) [
    | inl shut ↦ simp shut (open_dated fs h.1)
    | inr shown ↦ simp shown (record { opened = shown; dated = h.0 }, open_dated fs h.1)
  ]

  IsNewer-Decides : Decides IsOpenDated IsNewer (goes_after compare_desc)
  IsNewer-Decides = record {
    is_later = λ x y hx hy h. later_latest y x hy hx h;
    is_before = λ x y hx hy h. before_latest x y hx hy h;
    trans = λ x y z h k. IsLatestOf-trans x.creation_date y.creation_date z.creation_date h k;
  }

  -- With valid dates, the table shows the open flows first, each created no earlier than the open ones
  -- after it, and then the closed flows in the order that they had; no flow is lost or shown twice.
  pub sort_flows-eq :
      (flows : List FormattedFlow)
      → All IsDated flows
      → (opens : List FormattedFlow) × (sort_flows compare_desc flows
          ≡ opens ++ keep_if is_closed flows)
        × Perm opens (keep_if is_open flows)
        × IsSorted IsNewer opens
  unfolding sort_flows
  sort_flows-eq flows h = (
    sort_onto (goes_after compare_desc) [] (keep_if is_open flows),
    sort-append compare_desc [] [] flows tt,
    sort-Perm (goes_after compare_desc) (keep_if is_open flows),
    sort-IsSorted IsNewer-Decides (keep_if is_open flows) (open_dated flows h),
  )
