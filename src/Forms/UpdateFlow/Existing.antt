-- ===== src/Forms/UpdateFlow/Existing.antt =====
-- The open flow that a submission adds to, and what it asks for.
use superfluid_aragon_app.Prelude.{
  ℕ, suc, ◌≡◌, refl, ap, subst, sym, String, Bool, true, false, ◌&&◌, not, Option, none, some, List,
  [], ◌∷◌, All, find_index, if◌then◌else◌, arith, Bool-cases, inl, inr, find,
}
use mathlib.Core.Option
use superfluid_aragon_app.Js.{Result, ok, throw, ◌>>=◌}
use superfluid_aragon_app.Js.Search.{find_index_js-eq, Tests}
use superfluid_aragon_app.Packages.{Packages}
use superfluid_aragon_app.Helpers.Decimals
use superfluid_aragon_app.Helpers.Decimals.{Text, to_decimals}
use superfluid_aragon_app.Helpers.Time.{Date}
use superfluid_aragon_app.Helpers.Web3.{addresses_equal-eq-same, same, IsComparable}
use superfluid_aragon_app.Reducer.{FormattedToken, FormattedFlow}
use superfluid_aragon_app.Forms.Amounts.{decimals_of}
use superfluid_aragon_app.Forms.UpdateFlow.{
  Floats, FlowForm, FlowRequest, Message, RequiredDeposit, flow_found, outgoing_selected,
  is_existing, existing_flow, required_deposit, validate_fields, handle_submit, flow_request,
  submitted, is_none, calculate_new_flow_rate,
}

flow_found-find_index :
    (q : FormattedFlow → Bool) (flows : List FormattedFlow)
    → flow_found flows (find_index q flows) ≡ find q flows
flow_found-find_index q [] = refl
flow_found-find_index q (x ∷ xs) = elim (Bool-cases (q x)) [
  | inl hit ↦ rw hit refl
  | inr miss ↦ rw miss (after (find_index q xs) (flow_found-find_index q xs))
]
  where
    after :
        (i : Option ℕ)
        → flow_found xs i ≡ find q xs
        → flow_found (x ∷ xs) (Option.map suc i) ≡ find q xs
    after none h = h
    after (some i) h = h

module _ {N : Type 0} (p : Packages) (floats : Floats N) where
  -- The account at the other end of the flow.
  abbrev pub other_end : FlowForm → String → String
  other_end form connected_account =
      if outgoing_selected form then form.recipient else connected_account

  -- An open flow in the form's direction, with its token and its other end.
  abbrev pub fits : FlowForm → String → FormattedFlow → Bool
  fits form account flow =
      not flow.is_cancelled
      && (if outgoing_selected form then not flow.is_incoming else flow.is_incoming)
      && same p (some flow.entity) (some (other_end form account))
      && same p (some flow.super_token_address) (some form.selected_token.address)

  -- Both ends and both tokens can be compared.
  pub record Readable (form : FlowForm) (account : String) (flow : FormattedFlow) : Type 0 where
    pub entity : IsComparable p (some flow.entity)
    pub token : IsComparable p (some flow.super_token_address)
    pub end_comparable : IsComparable p (some (other_end form account))
    pub own_token : IsComparable p (some form.selected_token.address)

  is_existing-eq-fits :
      (form : FlowForm) (account : String) (flow : FormattedFlow)
      → Readable form account flow
      → is_existing p floats form account flow ≡ ok (fits form account flow)
  is_existing-eq-fits form account flow h = ground (
    arith,
    addresses_equal-eq-same p (some flow.entity) (some (other_end form account)) h.entity
        h.end_comparable,
    addresses_equal-eq-same p (some flow.super_token_address) (some form.selected_token.address)
        h.token h.own_token,
  )

  pub Tests-is_existing :
      (form : FlowForm) (account : String) (flows : List FormattedFlow)
      → All (Readable form account) flows
      → Tests (is_existing p floats form account) (fits form account) flows
  Tests-is_existing form account [] h = tt
  Tests-is_existing form account (f ∷ fs) h =
      (is_existing-eq-fits form account f h.0, Tests-is_existing form account fs h.1)

  existing_flow-eq-find :
      (form : FlowForm) (account : String) (flows : List FormattedFlow)
      → All (Readable form account) flows
      → p.is_address form.recipient ≡ true
      → p.is_address form.selected_token.address ≡ true
      → existing_flow p floats flows account false form ≡ ok (find (fits form account) flows)
  unfolding existing_flow
  existing_flow-eq-find form account flows h r t =
      rw (r, t, find_index_js-eq _ _ flows (Tests-is_existing form account flows h))
        (ap ok (flow_found-find_index (fits form account) flows))

  valid_rate :
      (now : Date) (agent : String) (tokens : List FormattedToken) (form : FlowForm)
      (d : RequiredDeposit N)
      → validate_fields p floats now agent tokens form d ≡ ok none
      → floats.at_most_zero (floats.of_text form.flow_rate) ≡ false
  unfolding validate_fields
  valid_rate now agent tokens form d h = ground arith

  module _ (encode_string : String → String) where
    -- The new rate of the flow that is found, or the form's own, in base units.
    abbrev pub total_rate : FlowForm → Option FormattedFlow → Text
    total_rate form existing =
        to_decimals p (Decimals.text (calculate_new_flow_rate p floats existing form.flow_rate))
          (decimals_of form.selected_token.data'.decimals) true

    abbrev asked : Result (FlowForm × Option FlowRequest) → Option FlowRequest
    asked (ok (form, request)) = request
    asked (throw e) = none

    -- The flow that a submission adds to: none where the form was opened to update a flow.
    abbrev pub added_to : Bool → FlowForm → String → List FormattedFlow → Option FormattedFlow
    added_to true form account flows = none
    added_to false form account flows = find (fits form account) flows

    existing_flow-eq-added_to :
        (update : Bool) (form : FlowForm) (account : String) (flows : List FormattedFlow)
        → All (Readable form account) flows
        → p.is_address form.recipient ≡ true
        → p.is_address form.selected_token.address ≡ true
        → existing_flow p floats flows account update form ≡ ok (added_to update form account flows)
    unfolding existing_flow
    existing_flow-eq-added_to true form account flows h r t = refl
    existing_flow-eq-added_to false form account flows h r t =
        existing_flow-eq-find form account flows h r t

    -- The request of a submission that asks for a transaction is that of the flow that it adds to.
    pub handle_submit-request :
        (update : Bool) (now : Date) (agent account : String) (tokens : List FormattedToken)
        (flows : List FormattedFlow) (form : FlowForm) {form' : FlowForm} {request : FlowRequest}
        → All (Readable form account) flows
        → p.is_address form.recipient ≡ true
        → p.is_address form.selected_token.address ≡ true
        → handle_submit p floats encode_string now agent account tokens flows update form
          ≡ ok (form', some request)
        → (request
            ≡ flow_request p floats encode_string form update (added_to update form account flows))
          × (floats.at_most_zero (floats.of_text form.flow_rate) ≡ false)
    unfolding handle_submit
    handle_submit-request update now agent account tokens flows form {form'} {request} h r t k =
        by_deposit (required_deposit p floats tokens form form.selected_token.index) (
          subst
            (λ e.
              (required_deposit p floats tokens form form.selected_token.index >>= λ d.
              e >>= λ existing. finish d existing)
              ≡ ok (form', some request))
            (existing_flow-eq-added_to update form account flows h r t) k)
      where
        existing : Option FormattedFlow
        existing = added_to update form account flows

        finish : RequiredDeposit N → Option FormattedFlow → Result (FlowForm × Option FlowRequest)
        finish d found = validate_fields p floats now agent tokens form d >>= λ error.
            ok (submitted p floats encode_string form update found error)

        Asks : Type 0
        Asks =
            (request ≡ flow_request p floats encode_string form update existing)
            × (floats.at_most_zero (floats.of_text form.flow_rate) ≡ false)

        by_error :
            (d : RequiredDeposit N) (e : Result (Option Message))
            → validate_fields p floats now agent tokens form d ≡ e
            → (e >>= λ error. ok (submitted p floats encode_string form update existing error))
              ≡ ok (form', some request)
            → Asks
        by_error d (throw e) v q = cc
        by_error d (ok (some m)) v q = cc (ap asked q)
        by_error d (ok none) v q =
            (Option.some-injective _ _ (sym (ap asked q)), valid_rate now agent tokens form d v)

        by_deposit :
            (d : Result (RequiredDeposit N))
            → (d >>= λ d'. ok existing >>= λ found. finish d' found) ≡ ok (form', some request)
            → Asks
        by_deposit (throw e) q = cc
        by_deposit (ok d) q = by_error d (validate_fields p floats now agent tokens form d) refl q

    -- A submission of a form that was not opened to update a flow, once it asks for a transaction, asks
    -- to create a flow exactly when no open flow has the form's direction, other end and token; where
    -- there is one, it asks to update it with the sum of both rates. The rate that was entered is
    -- above 0.
    pub handle_submit-asks :
        (now : Date) (agent account : String) (tokens : List FormattedToken)
        (flows : List FormattedFlow) (form : FlowForm) {form' : FlowForm} {request : FlowRequest}
        → All (Readable form account) flows
        → p.is_address form.recipient ≡ true
        → p.is_address form.selected_token.address ≡ true
        → handle_submit p floats encode_string now agent account tokens flows false form
          ≡ ok (form', some request)
        → let existing = find (fits form account) flows in
          (request.is_create ≡ is_none p floats encode_string existing)
          × (request.flow_rate ≡ total_rate form existing)
          × (request.token_address ≡ form.selected_token.address)
          × (request.is_outgoing ≡ outgoing_selected form)
          × (floats.at_most_zero (floats.of_text form.flow_rate) ≡ false)
    handle_submit-asks now agent account tokens flows form h r t k =
        let (own, valid) =
          handle_submit-request false now agent account tokens flows form h r t k in
        (
          ap (λ x. x.is_create) own,
          ap (λ x. x.flow_rate) own,
          ap (λ x. x.token_address) own,
          ap (λ x. x.is_outgoing) own,
          valid,
        )
