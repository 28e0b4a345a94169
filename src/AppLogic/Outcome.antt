-- ===== src/AppLogic/Outcome.antt =====
-- From the submission of a form to the transaction that is sent and the panel after it.
use superfluid_aragon_app.Prelude.{
  ℕ, suc, pos, ◌≡◌, refl, ap, ◌∙◌, String, Bool, true, false, ◌&&◌, not, some, List, [], ◌∷◌, All,
  get_elem?, if◌then◌else◌, arith, Bool-cases, inl, inr, Option, none,
}
use superfluid_aragon_app.Js.{Result, ok, is_ok}
use superfluid_aragon_app.Packages.{Packages}
use superfluid_aragon_app.Chain.{App, Chain, Contract}
use superfluid_aragon_app.Helpers.Decimals
use superfluid_aragon_app.Helpers.Decimals.{Text, to_decimals, from_decimals}
use superfluid_aragon_app.Helpers.Time.{Date}
use superfluid_aragon_app.Reducer.{FormattedToken, FormattedFlow}
use superfluid_aragon_app.Actions.{
  Call, Ran, deposit, deposit_action, upgrade, upgrade_by_eth, upgrade_operation, or_no_data,
}
use superfluid_aragon_app.Actions.Outcome.{
  flow_call, update_flow-calls, then_done-calls, then_done-done, Known, is_native,
  convert_tokens-calls,
}
use superfluid_aragon_app.Forms.Selector.{handle_drop_down_change}
use superfluid_aragon_app.Forms.Amounts.{
  decimals_of, AmountForm, Request, deposit_request, convert_request, submit_deposit,
  submit_upgrade, adjusted_amount, underlying_tokens,
}
use superfluid_aragon_app.Forms.Submission.{
  ready, deposit_and_downgrade_ask, upgrade_asks_super_token,
}
use superfluid_aragon_app.Forms.UpdateFlow.{
  Floats, FlowForm, FlowRequest, handle_submit, calculate_new_flow_rate, outgoing_selected, encoded,
  is_none,
}
use superfluid_aragon_app.Forms.UpdateFlow.Existing.{Readable, added_to, handle_submit-request}
use superfluid_aragon_app.Hooks.Panel.{
  Panel, request_close, request_transaction, transaction_settled, pass_time,
}
use superfluid_aragon_app.AppLogic.{run_transaction, run_flow_request, run_request}

-- The panel is closed exactly where the action calls `onDone`, and no longer waits.
run_transaction-closes :
    {P : Type 0} (empty : P) (ms : ℕ) (ran : Ran) (s : Panel P)
    → ((run_transaction empty ms ran s).visible ≡ (s.visible && not ran.done))
      × ((run_transaction empty ms ran s).wait_tx_panel ≡ false)
unfolding run_transaction request_close request_transaction transaction_settled pass_time
run_transaction-closes empty ms ran s = elim (Bool-cases ran.done) [
  | inl finished ↦ rw finished (ground arith, refl)
  | inr failed ↦ rw failed (ground arith, refl)
]

hidden : (b : Bool) → (b && false) ≡ false
hidden true = refl
hidden false = refl

module _ (answer : Call → Result (Unit {0})) (agent cfa : String) (p : Packages) {P : Type 0}
    (empty : P) where
  module _ {N : Type 0} (floats : Floats N) (encode_string : String → String) where
    -- The rate that was entered, added to that of the flow where there is one.
    abbrev pub summed_rate : Text → Option FormattedFlow → Text
    summed_rate entered none = entered
    summed_rate entered (some flow) = floats.to_text (
        floats.add
          (floats.of_text (from_decimals p (Decimals.bn flow.flow_rate) (Decimals.count 18) true))
          (floats.of_text entered))

    -- A form that was not opened to update a flow creates one where none is found.
    abbrev pub creates : Bool → Option FormattedFlow → Bool
    creates false none = true
    creates _ _ = false

    summed_rate-eq :
        (entered : Text) (flow : Option FormattedFlow)
        → calculate_new_flow_rate p floats flow entered ≡ summed_rate entered flow
    unfolding calculate_new_flow_rate
    summed_rate-eq entered none = refl
    summed_rate-eq entered (some flow) = refl

    creates-eq :
        (update : Bool) (flow : Option FormattedFlow)
        → (not update && is_none p floats encode_string flow) ≡ creates update flow
    creates-eq true none = refl
    creates-eq true (some flow) = refl
    creates-eq false none = refl
    creates-eq false (some flow) = refl

    -- A submission of the flow form that asks for a transaction sends one call, where there is a host. A
    -- form that was opened to update a flow updates it with the rate that was entered. Any other creates
    -- a flow where no open one fits the form, and otherwise updates that one with the sum of both rates.
    -- The rate that was entered is above 0, and the one that is sent is scaled to base units. Whether the
    -- call is accepted or rejected, the panel is then closed and waits no longer.
    pub submission_sends :
        (update : Bool) (now : Date) (account : String) (tokens : List FormattedToken)
        (flows : List FormattedFlow) (form : FlowForm) (host : Contract) (ms : ℕ) (s : Panel P)
        {form' : FlowForm} {request : FlowRequest}
        → All (Readable p floats form account) flows
        → p.is_address form.recipient ≡ true
        → p.is_address form.selected_token.address ≡ true
        → handle_submit p floats encode_string now agent account tokens flows update form
          ≡ ok (form', some request)
        → let existing = added_to p floats encode_string update form account flows in
          let ran = run_flow_request answer agent cfa (some host) request in
          let after = run_transaction empty ms ran s in
          (floats.at_most_zero (floats.of_text form.flow_rate) ≡ false)
          × (ran.calls
              ≡ flow_call agent cfa form.selected_token.address form.recipient
                  (to_decimals p
                    (Decimals.text (summed_rate form.flow_rate existing))
                    (decimals_of form.selected_token.data'.decimals)
                    true)
                  (or_no_data (encoded p floats encode_string form.description))
                  (outgoing_selected form)
                  (creates update existing)
                ∷ [])
          × (after.visible ≡ false)
          × (after.wait_tx_panel ≡ false)
    unfolding run_flow_request
    submission_sends update now account tokens flows form host ms s {form'} {request} h r t k =
        let existing = added_to p floats encode_string update form account flows in
        let (own, valid) =
          handle_submit-request p floats encode_string update now agent account tokens flows form h
            r t k in
        let sent =
          ap (run_flow_request answer agent cfa (some host)) own
          ∙ update_flow-calls answer agent cfa host _ _ _ _ _ _ in
        let (closed, waits) =
          run_transaction-closes empty ms (run_flow_request answer agent cfa (some host) request)
            s in
        let call = λ (rate : Text) (create : Bool).
          flow_call agent cfa form.selected_token.address form.recipient
            (to_decimals p (Decimals.text rate) (decimals_of form.selected_token.data'.decimals)
              true)
            (or_no_data (encoded p floats encode_string form.description)) (outgoing_selected form)
            create
          ∷ [] in
        (
          valid,
          ap (λ x. x.calls) sent
              ∙ ap (λ rate. call rate (not update && is_none p floats encode_string existing))
                  (summed_rate-eq form.flow_rate existing)
              ∙ ap (call (summed_rate form.flow_rate existing)) (creates-eq update existing),
          closed ∙ ap (λ x. s.visible && not x.done) sent ∙ hidden s.visible,
          waits,
        )

  module _ (at_most_zero : Text → Bool) (app : App) (chain : Chain) (network_id : ℕ) where
    abbrev run : Request → Ran
    run request = run_request answer agent cfa p app chain network_id request

    -- A deposit of a form that is ready sends one deposit of the amount that was entered, scaled to the base
    -- units of the selected token; the panel closes exactly when it is accepted, and waits no longer in
    -- either case.
    pub deposit_sends :
        (form : AmountForm) (ms : ℕ) (s : Panel P)
        → ready p at_most_zero form ≡ true
        → let value =
            to_decimals p
              (Decimals.text form.amount)
              (decimals_of form.selected_token.data'.decimals)
              true in
          let request = deposit_request form.selected_token.address value true in
          let call = deposit form.selected_token.address value true in
          let after = run_transaction empty ms (run request) s in
          (submit_deposit p at_most_zero form ≡ ok (form, some request))
          × ((run request).calls ≡ call ∷ [])
          × (after.visible ≡ (s.visible && not (is_ok (answer call))))
          × (after.wait_tx_panel ≡ false)
    unfolding run_request deposit_action
    deposit_sends form ms s r =
        let value = adjusted_amount p at_most_zero form in
        let call = deposit form.selected_token.address value true in
        let (closed, waits) =
          run_transaction-closes empty ms
            (run (deposit_request form.selected_token.address value true)) s in
        (
          (deposit_and_downgrade_ask p at_most_zero form).0 ∙ rw r refl,
          then_done-calls call (answer call),
          closed ∙ ap (λ b. s.visible && not b) (then_done-done call (answer call)),
          waits,
        )

    -- An upgrade of the `i`-th Super Token, whose underlying token was chosen in the drop-down, sends one
    -- call for that Super Token and the scaled amount, with the amount as value where it wraps the native
    -- currency and an approval of the underlying token where not. The panel closes exactly when the
    -- call is accepted.
    pub upgrade_sends :
        (tokens : List FormattedToken) (i : ℕ) (form : AmountForm) (ms : ℕ) (s : Panel P)
        {t : FormattedToken} {c : Contract} {underlying : String}
        → get_elem? tokens i ≡ some t
        → form.selected_token.index
          ≡ (handle_drop_down_change (underlying_tokens tokens) true true (pos (suc i))).1.index
        → ready p at_most_zero form ≡ true
        → Known answer agent cfa p app chain t.token.address network_id c underlying
        → let value =
            to_decimals p
              (Decimals.text form.amount)
              (decimals_of form.selected_token.data'.decimals)
              true in
          let request = convert_request upgrade_operation t.token.address value in
          let call =
            if is_native answer agent cfa p app chain t.token.address underlying network_id
            then upgrade_by_eth t.token.address value
            else upgrade t.token.address value underlying in
          let after = run_transaction empty ms (run request) s in
          (submit_upgrade p at_most_zero tokens form ≡ ok (form, some request))
          × ((run request).calls ≡ call ∷ [])
          × (after.visible ≡ (s.visible && not (is_ok (answer call))))
          × (after.wait_tx_panel ≡ false)
    unfolding run_request
    upgrade_sends tokens i form ms s {t} found index r known =
        let value = adjusted_amount p at_most_zero form in
        let request = convert_request upgrade_operation t.token.address value in
        let (sent, accepted, _, _, _, _) =
          convert_tokens-calls answer agent cfa p app chain value known in
        let (closed, waits) = run_transaction-closes empty ms (run request) s in
        (
          (upgrade_asks_super_token p at_most_zero tokens i form found index r).1,
          sent,
          closed ∙ ap (λ b. s.visible && not b) accepted,
          waits,
        )
