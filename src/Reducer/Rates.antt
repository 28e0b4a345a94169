-- ===== src/Reducer/Rates.antt =====
-- The rates of a Super Token are the sums over its open flows.
use superfluid_aragon_app.Prelude.{
  ℤ, pos, ◌+ℤ◌, String, ◌≡◌, refl, ap, ◌∙◌, Bool, true, false, not, ◌&&◌, List, [], ◌∷◌, str_eq,
  str_eq_iff, if◌then◌else◌, arith, +ℤ_assoc, +ℤ-zero, zero-+ℤ,
}
use superfluid_aragon_app.Js.{ok}
use superfluid_aragon_app.Packages.{Packages, BnLaws}
use superfluid_aragon_app.Helpers.Time.{Date}
use superfluid_aragon_app.Store.Data.{value, Flow, SuperToken}
use superfluid_aragon_app.Reducer.{
  InOutRates, rates_of, write_rates, add_to, calculate_in_out_rate, count_flow, in_out_rates,
  FormattedToken, format_token,
}

pub rates_of-write_rates :
    (k j : String) (r : ℤ × ℤ) (m : InOutRates)
    → rates_of j (write_rates k r m) ≡ (if str_eq k j then r else rates_of j m)
unfolding rates_of write_rates
rates_of-write_rates k j r [] = refl
rates_of-write_rates k j r ((i, s) ∷ m) =
    ground (arith, str_eq_iff k j, str_eq_iff i k, str_eq_iff i j, rates_of-write_rates k j r m)

-- The rate of an open flow of the address in the direction, and 0 for any other flow.
abbrev pub share : Bool → String → Flow → ℤ
share incoming key f =
    if not f.is_cancelled && str_eq f.super_token_address key
    then (if f.is_incoming
        then (if incoming then value f.flow_rate else pos 0)
        else (if incoming then pos 0 else value f.flow_rate))
    else pos 0

abbrev pub total : Bool → String → List Flow → ℤ
total incoming key [] = pos 0
total incoming key (f ∷ fs) = share incoming key f +ℤ total incoming key fs

module _ (p : Packages) (laws : BnLaws p) where
  -- What one flow does to the rates of an address.
  counted :
      (m : InOutRates) (f : Flow) (key : String)
      → rates_of key (count_flow p m f)
        ≡ ((rates_of key m).0 +ℤ share true key f, (rates_of key m).1 +ℤ share false key f)
  unfolding count_flow calculate_in_out_rate
  counted m f key = ground (
    arith,
    rates_of-write_rates f.super_token_address key
        (add_to p f.is_incoming (value f.flow_rate) (rates_of f.super_token_address m)) m,
    str_eq_iff f.super_token_address key,
    laws.add_lem (rates_of f.super_token_address m).0 (value f.flow_rate),
    laws.add_lem (rates_of f.super_token_address m).1 (value f.flow_rate),
    +ℤ-zero (rates_of key m).0,
    +ℤ-zero (rates_of key m).1,
  )

  totals :
      (m : InOutRates) (flows : List Flow) (key : String)
      → rates_of key (in_out_rates p m flows)
        ≡ ((rates_of key m).0 +ℤ total true key flows, (rates_of key m).1 +ℤ total false key flows)
  unfolding in_out_rates
  totals m [] key = ground (arith, +ℤ-zero (rates_of key m).0, +ℤ-zero (rates_of key m).1)
  totals m (f ∷ fs) key = ground (
    arith,
    totals (count_flow p m f) fs key,
    counted m f key,
    +ℤ_assoc (rates_of key m).0 (share true key f) (total true key fs),
    +ℤ_assoc (rates_of key m).1 (share false key f) (total false key fs),
  )

  format_token-rates_of :
      (now : Date) (rates : InOutRates) (token : SuperToken) {formatted : FormattedToken}
      → format_token p now rates token ≡ ok formatted
      → (formatted.inflow_rate ≡ (rates_of token.address rates).0)
        × (formatted.outflow_rate ≡ (rates_of token.address rates).1)
  unfolding format_token
  format_token-rates_of now rates token h = (ground arith, ground arith)

  -- A formatted Super Token's inflow is the sum of the rates of the open incoming flows whose token
  -- address is the same text, and its outflow that of the open outgoing ones.
  pub format_token-totals :
      (now : Date) (flows : List Flow) (token : SuperToken) {formatted : FormattedToken}
      → format_token p now (in_out_rates p [] flows) token ≡ ok formatted
      → (formatted.inflow_rate ≡ total true token.address flows)
        × (formatted.outflow_rate ≡ total false token.address flows)
  unfolding rates_of
  format_token-totals now flows token h =
      let (inflow, outflow) = format_token-rates_of now (in_out_rates p [] flows) token h in
      let sums = totals [] flows token.address in
      (
        inflow ∙ ap (λ r. r.0) sums ∙ zero-+ℤ (total true token.address flows),
        outflow ∙ ap (λ r. r.1) sums ∙ zero-+ℤ (total false token.address flows),
      )
