-- ===== src/Components/Card/Depleted.antt =====
-- The balance of a card around the depletion date.
use superfluid_aragon_app.Prelude.{
  ℕ, ℤ, suc, pos, negsuc, ◌+ℤ◌, ◌*ℤ◌, ◌*◌, ◌/◌, ◌≡◌, refl, ◌∙◌, ltb, Bool, true, false, Option,
  some,
}
use superfluid_aragon_app.Js.{ok}
use superfluid_aragon_app.Packages.{Packages, BnLaws}
use superfluid_aragon_app.Helpers.Decimals.{Text}
use superfluid_aragon_app.Helpers.Time.{at}
use superfluid_aragon_app.Helpers.Amounts.{is_neg, later_by, calculate_depletion_date}
use superfluid_aragon_app.Helpers.Amounts.Depletion.{depletion_exact}
use superfluid_aragon_app.Hooks.Items.{BalanceItem}
use superfluid_aragon_app.Components.Card.{Shown, nothing_left, digits, split_amount, balance_shown}

abbrev pub is_nothing : Shown → Bool
is_nothing nothing_left = true
is_nothing (digits whole fraction) = false

module _ (p : Packages) (laws : BnLaws p) (format_token_amount : ℤ → Option ℕ → ℕ → Text) where
  is_nothing-split_amount :
      (decimals : Option ℕ) (n : ℕ) (amount : ℤ)
      → is_nothing (split_amount p format_token_amount decimals n amount) ≡ is_neg amount
  is_nothing-split_amount decimals n (pos a) = refl
  is_nothing-split_amount decimals n (negsuc a) = refl

  -- The card of a token whose net flow is `-(d + 1)`, with `c` left at the time `now`, shows digits up to its
  -- depletion date and 0 from the second after it on.
  pub card_runs_out :
      (item : BalanceItem) (d c k : ℕ) (now n : ℤ)
      → item.net_flow ≡ negsuc d
      → p.bn_from_number (p.difference_in_seconds (at now) item.last_update_date) ≡ ok n
      → item.amount +ℤ negsuc d *ℤ n ≡ pos c
      → p.bn_to_number (pos (c / suc d * 1000)) ≡ ok (pos (c / suc d * 1000))
      → p.bn_from_number
          (p.difference_in_seconds (later_by (pos (k * 1000)) (at now)) item.last_update_date)
        ≡ ok (n +ℤ pos k)
      → (calculate_depletion_date p item.amount item.net_flow (at now) item.last_update_date
          ≡ ok (some (later_by (pos (c / suc d * 1000)) (at now))))
        × ((shown : Shown) × (balance_shown p format_token_amount
                (later_by (pos (k * 1000)) (at now))
                item
              ≡ ok shown)
            × (is_nothing shown ≡ ltb (c / suc d) k))
  unfolding balance_shown
  card_runs_out item d c k now n outgoing first left_now small later =
      let (date, (amount, computed, sign)) =
        depletion_exact p laws item.amount d c k now n item.last_update_date first left_now small
          later in
      (
        rw outgoing date,
        (
          split_amount p format_token_amount item.decimals 6 amount,
          rw (outgoing, computed) refl,
          is_nothing-split_amount item.decimals 6 amount ∙ sign,
        ),
      )
