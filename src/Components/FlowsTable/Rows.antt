-- ===== src/Components/FlowsTable/Rows.antt =====
-- What a row of the table shows of a flow of the store.
use superfluid_aragon_app.Prelude.{
  ℕ, ℤ, pos, ◌+ℤ◌, ◌*ℤ◌, +ℤ_comm, sub_ℕ, String, Bool, true, false, ◌-ℤ◌, ◌≡◌, refl, ap, ◌∙◌, none,
  some, List, if◌then◌else◌, arith, Bool-cases, inl, inr, ◌*◌,
}
use superfluid_aragon_app.Js.{ok}
use superfluid_aragon_app.Packages.{Packages, BnLaws}
use superfluid_aragon_app.Helpers.Time.{Date, month, timestamp_to_date}
use superfluid_aragon_app.Helpers.Web3.{IsComparable, addresses_equal-eq-same, same}
use superfluid_aragon_app.Helpers.Amounts.{calculate_current_amount}
use superfluid_aragon_app.Store.Data.{value, Flow}
use superfluid_aragon_app.Store.Flows.Accrual.{streamed_by}
use superfluid_aragon_app.Reducer.{format_flow}
use superfluid_aragon_app.Components.FlowsTable.{
  TokenDetails, details_of, FlowRow, signed, total_so_far, render_entry,
}

-- What the flow has streamed by the time `t`: a closed one streams no more.
abbrev pub shown_total : Flow → ℕ → ℤ
shown_total flow t = if flow.is_cancelled then flow.accumulated_amount else streamed_by flow t

-- An incoming amount as it is, an outgoing one taken from 0.
abbrev pub by_direction : Bool → ℤ → ℤ
by_direction true amount = amount
by_direction false amount = pos 0 -ℤ amount

signed-eq :
    (is_incoming : Bool) (amount : ℤ) → signed is_incoming amount ≡ by_direction is_incoming amount
unfolding ◌-ℤ◌
signed-eq true amount = refl
signed-eq false amount = ground arith

module _ (p : Packages) (laws : BnLaws p) where
  -- The clock: `t` seconds at `now`, and a difference that bn.js takes.
  pub record Reads (now : Date) (t : ℕ) (flow : Flow) : Type 0 where
    pub seconds :
        p.difference_in_seconds now (timestamp_to_date (some flow.last_timestamp))
        ≡ some (sub_ℕ t flow.last_timestamp)
    pub taken :
        p.bn_from_number (some (sub_ℕ t flow.last_timestamp)) ≡ ok (sub_ℕ t flow.last_timestamp)

  mul_comm : (a b : ℤ) → a *ℤ b ≡ b *ℤ a
  unfolding ◌*ℤ◌
  mul_comm a b = ground arith

  current-eq-streamed :
      (now : Date) (t : ℕ) (flow : Flow)
      → Reads now t flow
      → calculate_current_amount p flow.accumulated_amount
          (value flow.flow_rate)
          (timestamp_to_date (some flow.last_timestamp))
          now
        ≡ ok (streamed_by flow t)
  unfolding calculate_current_amount
  current-eq-streamed now t flow r =
      rw (r.seconds, r.taken, laws.mul_lem, laws.add_lem)
        (ap ok (
          +ℤ_comm flow.accumulated_amount (value flow.flow_rate *ℤ sub_ℕ t flow.last_timestamp)
          ∙ ap (λ n. n +ℤ flow.accumulated_amount)
              (mul_comm (value flow.flow_rate) (sub_ℕ t flow.last_timestamp))))

  total-eq-shown :
      (now : Date) (t : ℕ) (flow : Flow)
      → Reads now t flow
      → total_so_far p now (format_flow p flow) ≡ ok (shown_total flow t)
  unfolding total_so_far format_flow
  total-eq-shown now t flow r = elim (Bool-cases flow.is_cancelled) [
    | inl shut ↦ simp shut refl
    | inr shown ↦ simp shown (current-eq-streamed now t flow r)
  ]

  abbrev shown_row : String → ℕ → Flow → TokenDetails → FlowRow
  shown_row account t flow shown = record {
    entity = flow.entity;
    connected_account = same p (some flow.entity) (some account);
    start_date = timestamp_to_date (some flow.creation_timestamp);
    end_date =
        if flow.is_cancelled then some (timestamp_to_date (some flow.last_timestamp)) else none;
    is_incoming = flow.is_incoming;
    token_address = flow.super_token_address;
    token_symbol = shown.symbol;
    decimals = shown.decimals;
    monthly_rate = signed flow.is_incoming (p.bn_mul (value flow.flow_rate) (pos month));
    total = signed flow.is_incoming (shown_total flow t);
  }

  -- A flow of the store whose token is in the list, at `t` seconds by the clock: its row shows what it has
  -- streamed, by then where it is open and in all where it is closed, and 30 days of its rate, both
  -- negated for an outgoing flow; the last date only where it is closed; and the symbol of its token.
  pub render_entry-shows :
      (details : List (String × TokenDetails)) (connected_account : String) (now : Date) (t : ℕ)
      (flow : Flow) {checksum : String} {shown : TokenDetails}
      → p.to_checksum_address flow.super_token_address ≡ ok checksum
      → details_of checksum details ≡ some shown
      → IsComparable p (some flow.entity)
      → IsComparable p (some connected_account)
      → Reads now t flow
      → (row : FlowRow) × (render_entry p details connected_account now (format_flow p flow)
          ≡ ok row)
        × (row.total ≡ by_direction flow.is_incoming (shown_total flow t))
        × (row.monthly_rate
            ≡ by_direction flow.is_incoming (value flow.flow_rate *ℤ pos (30 * 86400)))
        × (row.end_date ≡ (
            if flow.is_cancelled
            then some (timestamp_to_date (some flow.last_timestamp))
            else none))
        × (row.token_symbol ≡ shown.symbol)
        × (row.connected_account ≡ same p (some flow.entity) (some connected_account))
  unfolding render_entry format_flow
  render_entry-shows details account now t flow {shown = shown} c d e a r = (
    shown_row account t flow shown,
    rw
        (
          c,
          d,
          addresses_equal-eq-same p (some flow.entity) (some account) e a,
          total-eq-shown now t flow r,
        )
        refl,
    signed-eq flow.is_incoming (shown_total flow t),
    ap (signed flow.is_incoming) (laws.mul_lem (value flow.flow_rate) (pos month))
        ∙ signed-eq flow.is_incoming _,
    refl,
    refl,
    refl,
  )
