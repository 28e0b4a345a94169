-- ===== src/Helpers/Amounts/Depletion.antt =====
-- The depletion date is the last whole second at which the balance is not negative.
use superfluid_aragon_app.Prelude.{
  ℕ, ℤ, suc, pos, negsuc, ◌+◌, ◌*◌, ◌/◌, ◌≤◌, ◌<◌, ◌*ℤ◌, ◌≡◌, ap, ◌∙◌, some, arith, ◌+ℤ◌, ◌-◌, refl,
  pos_part, neg_part, eq_of_parts, +ℤ_parts, +ℤ_assoc, Bool-cases, inl, inr, ltb, sym,
}
use superfluid_aragon_app.Js.{ok}
use superfluid_aragon_app.Packages.{Packages, BnLaws}
use superfluid_aragon_app.Helpers.Time.{Date, at}
use superfluid_aragon_app.Helpers.Amounts.{
  abs, is_neg, later_by, calculate_current_amount, calculate_depletion_date,
}

-- A whole number of steps of `d` fits into `c`, and one more does not.
div_bounds : (c d : ℕ) → 0 < d → (d * (c / d) ≤ c) × (c < d * (c / d + 1))
div_bounds c d h = omega arith

mul_mono : (m a b : ℕ) → a ≤ b → m * a ≤ m * b
mul_mono m a b h =
    let split : b ≡ a + (b - a) = omega (arith, h) in omega (arith, ap (λ x. m * x) split)

rate_parts :
    (d : ℕ) (b : ℤ)
    → pos_part (negsuc d *ℤ b) + suc d * pos_part b ≡ neg_part (negsuc d *ℤ b) + suc d * neg_part b
unfolding ◌*ℤ◌
rate_parts d b = ground arith

-- A rate of `-(d + 1)` over `k` seconds more.
longer : (d k : ℕ) (n : ℤ) → negsuc d *ℤ (n +ℤ pos k) ≡ negsuc d *ℤ n +ℤ negsuc d *ℤ pos k
longer d k n = eq_of_parts _ _ (
    omega (
      arith,
      rate_parts d (n +ℤ pos k),
      rate_parts d n,
      rate_parts d (pos k),
      +ℤ_parts (negsuc d *ℤ n) (negsuc d *ℤ pos k),
      ap (λ x. suc d * x) (+ℤ_parts n (pos k)),
    ))

spent : (c d k : ℕ) → suc d * k ≤ c → (a : ℕ) × (pos c +ℤ negsuc d *ℤ pos k ≡ pos a)
unfolding ◌*ℤ◌ ◌+ℤ◌
spent c d k h = (c - suc d * k, ground arith)

overspent : (c d k : ℕ) → c < suc d * k → (a : ℕ) × (pos c +ℤ negsuc d *ℤ pos k ≡ negsuc a)
unfolding ◌*ℤ◌ ◌+ℤ◌
overspent c d k h = (suc d * k - c - 1, ground arith)

module _ (p : Packages) (laws : BnLaws p) where
  pos-*ℤ : (a b : ℕ) → pos a *ℤ pos b ≡ pos (a * b)
  unfolding ◌*ℤ◌
  pos-*ℤ a b = ground arith

  milliseconds :
      (c d : ℕ) → p.bn_mul (p.bn_div (pos c) (abs (negsuc d))) (pos 1000) ≡ pos (c / suc d * 1000)
  milliseconds c d =
      let size : 0 + suc d ≡ suc d = omega arith in
      ap (λ k. p.bn_mul (p.bn_div (pos c) (pos k)) (pos 1000)) size
      ∙ ap (λ q. p.bn_mul q (pos 1000)) (laws.div_lem c (suc d))
      ∙ laws.mul_lem (pos (c / suc d)) (pos 1000)
      ∙ pos-*ℤ (c / suc d) 1000

  -- With a net flow of `-(d + 1)` and a balance of `c` at the time `now`, the depletion date is
  -- `c / (d + 1)` whole seconds after `now`: the stream of those seconds is covered by the balance,
  -- and one more second is not. The number of milliseconds is one that `toNumber` returns.
  pub depletion_last_second :
      (balance : ℤ) (d c : ℕ) (now : ℤ) (last_update_date : Date)
      → calculate_current_amount p balance (negsuc d) last_update_date (at now) ≡ ok (pos c)
      → p.bn_to_number (pos (c / suc d * 1000)) ≡ ok (pos (c / suc d * 1000))
      → (seconds : ℕ) × (calculate_depletion_date p balance (negsuc d) (at now) last_update_date
          ≡ ok (some (later_by (pos (seconds * 1000)) (at now))))
        × (suc d * seconds ≤ c)
        × (c < suc d * (seconds + 1))
  unfolding calculate_depletion_date
  depletion_last_second balance d c now last_update_date current small =
      let (fits, over) = div_bounds c (suc d) (omega arith) in
      (c / suc d, rw (current, milliseconds c d, small), fits, over)

  module _ (balance : ℤ) (d c k : ℕ) (now n : ℤ) (last_update_date : Date)
      (first : p.bn_from_number (p.difference_in_seconds (at now) last_update_date) ≡ ok n)
      (left_now : balance +ℤ negsuc d *ℤ n ≡ pos c)
      (small : p.bn_to_number (pos (c / suc d * 1000)) ≡ ok (pos (c / suc d * 1000)))
      (later : p.bn_from_number
          (p.difference_in_seconds (later_by (pos (k * 1000)) (at now)) last_update_date)
        ≡ ok (n +ℤ pos k)) where
    left_later : balance +ℤ negsuc d *ℤ (n +ℤ pos k) ≡ pos c +ℤ negsuc d *ℤ pos k
    left_later =
        ap (λ x. balance +ℤ x) (longer d k n)
        ∙ sym (+ℤ_assoc balance (negsuc d *ℤ n) (negsuc d *ℤ pos k))
        ∙ ap (λ x. x +ℤ negsuc d *ℤ pos k) left_now

    sign_later : is_neg (pos c +ℤ negsuc d *ℤ pos k) ≡ ltb (c / suc d) k
    sign_later =
        let (fits, over) = div_bounds c (suc d) (omega arith) in
        elim (Bool-cases (ltb (c / suc d) k)) [
          | inl after ↦
              let spent_all : c < suc d * k =
                omega (arith, over, mul_mono (suc d) (c / suc d + 1) k (ground (arith, after))) in
              ap is_neg (overspent c d k spent_all).1 ∙ sym after
          | inr before ↦
              let covered : suc d * k ≤ c =
                omega (arith, fits, mul_mono (suc d) k (c / suc d) (ground (arith, before))) in
              ap is_neg (spent c d k covered).1 ∙ sym before
        ]

    computed :
        (date : Date) (seconds : ℤ)
        → p.bn_from_number (p.difference_in_seconds date last_update_date) ≡ ok seconds
        → calculate_current_amount p balance (negsuc d) last_update_date date
          ≡ ok (balance +ℤ negsuc d *ℤ seconds)
    unfolding calculate_current_amount
    computed date seconds h =
        rw (h, laws.mul_lem (negsuc d) seconds) (ap ok (laws.add_lem balance (negsuc d *ℤ seconds)))

    -- Where `c` is left at the time `now` and the net flow is `-(d + 1)`, the depletion date is `c / (d + 1)`
    -- whole seconds after `now`; and of the amounts that are shown `k` seconds after `now`, those up to
    -- the depletion date are not negative and those after it are.
    pub depletion_exact :
        (calculate_depletion_date p balance (negsuc d) (at now) last_update_date
          ≡ ok (some (later_by (pos (c / suc d * 1000)) (at now))))
        × ((amount : ℤ) × (calculate_current_amount p balance
                (negsuc d)
                last_update_date
                (later_by (pos (k * 1000)) (at now))
              ≡ ok amount)
            × (is_neg amount ≡ ltb (c / suc d) k))
    unfolding calculate_depletion_date
    depletion_exact = (
      rw (computed (at now) n first, left_now, milliseconds c d, small) refl,
      (pos c +ℤ negsuc d *ℤ pos k, computed _ _ later ∙ ap ok left_later, sign_later),
    )
