-- ===== src/Store/Flows/Redelivery.antt =====
-- An event that `updateFlows` of app/src/store/updaters.js is given twice, at one time.
use superfluid_aragon_app.Prelude.{
  ℕ, pos, String, ◌≡◌, refl, ap, ◌∙◌, Bool, true, false, some, List, [], ◌∷◌, ◌++◌, ltb_ℤ, All,
  arith, Bool-cases, inl, inr, keep_if, subst, sym,
}
use superfluid_aragon_app.Js.{ok, is_ok-eq, ok-injective}
use superfluid_aragon_app.Packages.{Packages, BnLaws}
use superfluid_aragon_app.Helpers.Web3.{same, IsComparable, same_refl}
use superfluid_aragon_app.Js.Upsert.{upsert}
use superfluid_aragon_app.Store.Data.{value, Flow, State, FlowUpdated}
use superfluid_aragon_app.Store.Flows.{describe, new_flow, advance_flow, update_flows}
use superfluid_aragon_app.Store.Flows.Refinement.{
  concerns, IsReadable, IsReadableEvent, flows_after, update_flows-eq-upsert,
}
use superfluid_aragon_app.Store.Flows.Unique.{IsSound, update_flows-IsSound}
use superfluid_aragon_app.Store.Flows.Accrual.{no_time, accumulated-eq-streamed}

module _ {ℓ} {A : Type ℓ} (q : A → Bool) (created : A) (advance : A → A)
    (new_hit : q created ≡ true) (new_fixed : advance created ≡ created)
    (old_hit : (x : A) → q x ≡ true → q (advance x) ≡ true)
    (old_fixed : (x : A) → advance (advance x) ≡ advance x) where
  upsert_idempotent :
      (xs : List A)
      → upsert q created advance (upsert q created advance xs) ≡ upsert q created advance xs
  upsert_idempotent [] = rw (new_hit, new_fixed) refl
  upsert_idempotent (x ∷ xs) = elim (Bool-cases (q x)) [
    | inl hit ↦ rw (hit, old_hit x hit, old_fixed x) refl
    | inr miss ↦ ground (arith, miss, upsert_idempotent xs)
  ]

module _ {ℓ} {A : Type ℓ} (q : A → Bool) (created : A) (advance : A → A) where
  upsert_unheld :
      (xs : List A) → keep_if q xs ≡ [] → upsert q created advance xs ≡ xs ++ created ∷ []
  upsert_unheld [] h = refl
  upsert_unheld (x ∷ xs) h = elim (Bool-cases (q x)) [
    | inl hit ↦ absurd (ground (arith, hit, h))
    | inr miss ↦ rw miss (ap (λ l. x ∷ l) (upsert_unheld xs (ground (arith, miss, h))))
  ]

  keep_if-upsert :
      (xs : List A) (x : A)
      → keep_if q xs ≡ x ∷ []
      → q (advance x) ≡ false
      → keep_if q (upsert q created advance xs) ≡ []
  keep_if-upsert [] x h k = absurd (nil_is_not_cons h)
    where
      nil_is_not_cons : {y : A} → [] ≡ y ∷ [] → ⊥
      nil_is_not_cons e = cc
  keep_if-upsert (y ∷ ys) x h k = elim (Bool-cases (q y)) [
    | inl hit ↦ ground (arith, hit, h, k)
    | inr miss ↦ ground (arith, miss, keep_if-upsert ys x (ground (arith, miss, h)) k)
  ]

module _ (p : Packages) where
  concerns-new_flow :
      (event : FlowUpdated) (t : ℕ) (incoming : Bool) (description : String)
      → IsReadableEvent p event
      → concerns p event (new_flow p event t incoming description) ≡ true
  unfolding concerns
  concerns-new_flow event t true description e =
      rw (same_refl p _ e.token, same_refl p _ e.sender) refl
  concerns-new_flow event t false description e =
      rw (same_refl p _ e.token, same_refl p _ e.receiver) refl

  concerns-advance_flow :
      (event : FlowUpdated) (t : ℕ) (description : String)
      → ltb_ℤ (pos 0) (value event.flow_rate) ≡ true
      → (f : Flow) → concerns p event f ≡ true
      → concerns p event (advance_flow p event t description f) ≡ true
  unfolding concerns advance_flow
  concerns-advance_flow event t description h f hit = ground (arith, h, hit)

module _ (p : Packages) (laws : BnLaws p) where
  advance_flow_twice :
      (event : FlowUpdated) (t : ℕ) (description : String) (f : Flow)
      → ltb_ℤ (pos 0) (value event.flow_rate) ≡ true
      → advance_flow p event t description (advance_flow p event t description f)
        ≡ advance_flow p event t description f
  unfolding advance_flow
  advance_flow_twice event t description f h = rw h (
      ap
        (λ a. record f {
          accumulated_amount = a;
          last_timestamp = t;
          flow_rate = event.flow_rate;
          description = description;
        })
        (accumulated-eq-streamed p laws _ t ∙ no_time p laws t _ _))

  new_flow_advanced :
      (event : FlowUpdated) (t : ℕ) (incoming : Bool) (description : String)
      → ltb_ℤ (pos 0) (value event.flow_rate) ≡ true
      → advance_flow p event t description (new_flow p event t incoming description)
        ≡ new_flow p event t incoming description
  unfolding advance_flow
  new_flow_advanced event t incoming description h = rw h (
      ap (λ a. record (new_flow p event t incoming description) { accumulated_amount = a })
        (accumulated-eq-streamed p laws _ t ∙ no_time p laws t _ _))

  -- On readable flows and a readable event with a rate above 0, `updateFlows` given the event a second
  -- time at the same timestamp, on the flows that it returned, returns them unchanged.
  pub update_flows_twice :
      (state : State) (event : FlowUpdated) (update_timestamp : ℕ)
      → IsReadableEvent p event
      → IsComparable p (some state.agent_address)
      → IsSound p state.flows
      → ltb_ℤ (pos 0) (value event.flow_rate) ≡ true
      → (flows : List Flow) × (update_flows p state event update_timestamp ≡ ok flows)
        × (update_flows p (record state { flows = flows }) event update_timestamp ≡ ok flows)
  update_flows_twice state event t e a h opens =
      let (description, d) = is_ok-eq (describe p event.user_data) e.data_text in
      let (flows, returned, sound) = update_flows-IsSound p state event t e a h in
      let first = update_flows-eq-upsert p state event t e a h.readable d in
      let after = flows_after p state event t description in
      let readable =
        subst (All (IsReadable p)) (ok-injective (sym returned ∙ first)) sound.readable in
      (
        after,
        first,
        update_flows-eq-upsert p (record state { flows = after }) event t e a readable d
            ∙ ap ok (
                upsert_idempotent _ _ _ (concerns-new_flow p event t _ description e)
                  (new_flow_advanced event t _ description opens)
                  (concerns-advance_flow p event t description opens)
                  (λ f. advance_flow_twice event t description f opens) state.flows),
      )

module _ (p : Packages) where
  concerns_ended :
      (event : FlowUpdated) (t : ℕ) (description : String) (f : Flow)
      → ltb_ℤ (pos 0) (value event.flow_rate) ≡ false
      → concerns p event (advance_flow p event t description f) ≡ false
  unfolding concerns advance_flow
  concerns_ended event t description f h = rw h refl

  -- On readable flows, of which one is open for a readable event with a rate that is not above 0,
  -- `updateFlows` given the event a second time at the same timestamp, on the flows that it returned,
  -- adds a flow to them that is open for the event and has its rate.
  pub end_twice_opens :
      (state : State) (event : FlowUpdated) (update_timestamp : ℕ) (flow : Flow)
      → IsReadableEvent p event
      → IsComparable p (some state.agent_address)
      → IsSound p state.flows
      → keep_if (concerns p event) state.flows ≡ flow ∷ []
      → ltb_ℤ (pos 0) (value event.flow_rate) ≡ false
      → (flows : List Flow) × (added : Flow) × (update_flows p state event update_timestamp
          ≡ ok flows)
        × (update_flows p (record state { flows = flows }) event update_timestamp
            ≡ ok (flows ++ added ∷ []))
        × (concerns p event added ≡ true)
        × (added.flow_rate ≡ event.flow_rate)
  end_twice_opens state event t flow e a h held ends =
      let (description, d) = is_ok-eq (describe p event.user_data) e.data_text in
      let (flows, returned, sound) = update_flows-IsSound p state event t e a h in
      let first = update_flows-eq-upsert p state event t e a h.readable d in
      let after = flows_after p state event t description in
      let readable =
        subst (All (IsReadable p)) (ok-injective (sym returned ∙ first)) sound.readable in
      let incoming = same p (some event.receiver) (some state.agent_address) in
      (
        after,
        new_flow p event t incoming description,
        first,
        update_flows-eq-upsert p (record state { flows = after }) event t e a readable d
            ∙ ap ok (
                upsert_unheld _ _ _ after (
                  keep_if-upsert _ _ _ state.flows flow held
                    (concerns_ended event t description flow ends))),
        concerns-new_flow p event t incoming description e,
        refl,
      )
