-- ===== src/Store/Flows/Accrual.antt =====
-- What a flow has streamed: the accumulated amount is the sum of each rate times the seconds that
-- it ran.
use superfluid_aragon_app.Prelude.{
  ℕ, ℤ, pos, String, ◌≡◌, ◌∙◌, sym, true, false, List, [], ◌∷◌, sub_ℕ, ltb_ℤ, arith, ◌+ℤ◌, ◌*ℤ◌,
  int_laws, All, +ℤ-zero, not, Bool-cases, inl, inr, refl, if◌then◌else◌,
}
use superfluid_aragon_app.Packages.{Packages, BnLaws}
use superfluid_aragon_app.Store.Data.{Amount, value, Flow, FlowUpdated}
use superfluid_aragon_app.Store.Flows.{calculate_new_accumulated_amount, advance_flow}

-- The amount that an open flow has streamed by the time `t`.
abbrev pub streamed_by : Flow → ℕ → ℤ
streamed_by f t = sub_ℕ t f.last_timestamp *ℤ value f.flow_rate +ℤ f.accumulated_amount

-- An update with a rate above 0, with the time of its block and its description.
abbrev pub Update : Type 0
Update = FlowUpdated × ℕ × String

abbrev pub IsOpening : Update → Type 0
IsOpening (event, t, description) = ltb_ℤ (pos 0) (value event.flow_rate) ≡ true

-- Each rate times the seconds until the next update.
abbrev pub integral : Amount → ℕ → List Update → ℤ
integral rate last [] = pos 0
integral rate last ((event, t, description) ∷ rest) =
    sub_ℕ t last *ℤ value rate +ℤ integral event.flow_rate t rest

module _ (p : Packages) where
  -- The flow after a history of updates that all concern it.
  unfoldable pub advance_all : Flow → List Update → Flow
  advance_all f [] = f
  advance_all f ((event, t, description) ∷ rest) =
      advance_all (advance_flow p event t description f) rest

module _ (p : Packages) (laws : BnLaws p) where
  pub accumulated-eq-streamed :
      (f : Flow) (t : ℕ) → calculate_new_accumulated_amount p f t ≡ streamed_by f t
  unfolding calculate_new_accumulated_amount
  accumulated-eq-streamed f t = cc (
    laws.mul_lem (sub_ℕ t f.last_timestamp) (value f.flow_rate),
    laws.add_lem (p.bn_mul (sub_ℕ t f.last_timestamp) (value f.flow_rate)) f.accumulated_amount,
  )

  accumulated-advance_flow :
      (event : FlowUpdated) (t : ℕ) (description : String) (f : Flow)
      → (advance_flow p event t description f).accumulated_amount ≡ streamed_by f t
  unfolding advance_flow
  accumulated-advance_flow event t description f = ground (arith, accumulated-eq-streamed f t)

  rate-advance_flow :
      (event : FlowUpdated) (t : ℕ) (description : String) (f : Flow)
      → ltb_ℤ (pos 0) (value event.flow_rate) ≡ true
      → (advance_flow p event t description f).flow_rate ≡ event.flow_rate
  unfolding advance_flow
  rate-advance_flow event t description f h = rw h

  last-advance_flow :
      (event : FlowUpdated) (t : ℕ) (description : String) (f : Flow)
      → (advance_flow p event t description f).last_timestamp ≡ t
  unfolding advance_flow
  last-advance_flow event t description f = ground arith

  regroup : (a b c : ℤ) → a +ℤ b +ℤ c ≡ b +ℤ (a +ℤ c)
  regroup a b c = omega int_laws

  -- After any updates with rates above 0, the accumulated amount has grown by the sum of each rate
  -- times the seconds that it ran.
  pub accumulated-advance_all :
      (f : Flow) (updates : List Update)
      → All IsOpening updates
      → (advance_all p f updates).accumulated_amount
        ≡ f.accumulated_amount +ℤ integral f.flow_rate f.last_timestamp updates
  unfolding advance_all
  accumulated-advance_all f [] h = sym (+ℤ-zero f.accumulated_amount)
  accumulated-advance_all f ((event, t, description) ∷ rest) h =
      accumulated-advance_all (advance_flow p event t description f) rest h.1
      ∙ rw
          (
            accumulated-advance_flow event t description f,
            rate-advance_flow event t description f h.0,
            last-advance_flow event t description f,
          )
          (regroup _ f.accumulated_amount _)

  pub no_time : (t : ℕ) (rate a : ℤ) → sub_ℕ t t *ℤ rate +ℤ a ≡ a
  unfolding ◌+ℤ◌ ◌*ℤ◌
  no_time t rate a = ground arith

  streamed_fresh :
      (event : FlowUpdated) (t : ℕ) (description : String) (f : Flow)
      → streamed_by (advance_flow p event t description f) t ≡ streamed_by f t
  streamed_fresh event t description f =
      rw (last-advance_flow event t description f)
        (no_time t _ _ ∙ accumulated-advance_flow event t description f)

  streamed_later :
      (event : FlowUpdated) (t later : ℕ) (description : String) (f : Flow)
      → streamed_by (advance_flow p event t description f) later
        ≡ sub_ℕ later t
            *ℤ (if ltb_ℤ (pos 0) (value event.flow_rate)
                then value event.flow_rate
                else value f.flow_rate)
          +ℤ streamed_by f t
  unfolding advance_flow
  streamed_later event t later description f =
      elim (Bool-cases (ltb_ℤ (pos 0) (value event.flow_rate))) [
        | inl opens ↦ rw (opens, accumulated-eq-streamed f t) refl
        | inr ends ↦ rw (ends, accumulated-eq-streamed f t) refl
      ]

  -- Nothing is lost or counted twice at an event: by any later time, a flow has streamed what it had
  -- streamed by the time of the event, and from there at the event's rate where that is above 0 and at
  -- its own where not; then, and only then, it is cancelled. The parties, the token, the direction and the creation time stay.
  pub advance_flow-continuous :
      (event : FlowUpdated) (t later : ℕ) (description : String) (f : Flow)
      → f.is_cancelled ≡ false
      → let new_rate =
          if ltb_ℤ (pos 0) (value event.flow_rate)
          then value event.flow_rate
          else value f.flow_rate in
        let g = advance_flow p event t description f in
        (streamed_by g t ≡ streamed_by f t)
        × (streamed_by g later ≡ sub_ℕ later t *ℤ new_rate +ℤ streamed_by f t)
        × (g.is_cancelled ≡ not (ltb_ℤ (pos 0) (value event.flow_rate)))
        × (g.entity ≡ f.entity)
        × (g.super_token_address ≡ f.super_token_address)
        × (g.is_incoming ≡ f.is_incoming)
        × (g.creation_timestamp ≡ f.creation_timestamp)
  unfolding advance_flow
  advance_flow-continuous event t later description f h = (
    streamed_fresh event t description f,
    streamed_later event t later description f,
    ground arith,
    ground arith,
    ground arith,
    ground arith,
    ground arith,
  )
