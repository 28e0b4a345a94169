-- ===== src/Hooks/Filters/Passing.antt =====
-- Which flows the table shows.
use superfluid_aragon_app.Prelude.{
  ℕ, zero, suc, ◌≡◌, ◌≢◌, refl, Bool, true, false, ◌&&◌, not, Option, none, some, List, [], ◌∷◌,
  map, get_elem?, All, keep_if, arith, inl, inr, ap, ◌⊎◌, if◌then◌else◌,
}
use superfluid_aragon_app.Js.{ok}
use superfluid_aragon_app.Js.Search.{filter_js-eq, Tests}
use superfluid_aragon_app.Packages.{Packages}
use superfluid_aragon_app.Helpers.Time.{Date}
use superfluid_aragon_app.Helpers.Web3.{addresses_equal-eq-same, same, IsComparable}
use superfluid_aragon_app.Store.Data.{SuperToken}
use superfluid_aragon_app.Reducer.{FormattedFlow}
use superfluid_aragon_app.Hooks.Filters.{
  flow_states, flow_types, open_flow, close_flow, incoming_flow, outgoing_flow, Filters,
  TokenOption, tokens_to_filter, excluded_by, state_of, Calendar, unselected_date_range,
  starts_after, ends_before, passes_token, includes, filtered_flows, handle_clear_filters,
  handle_flow_state_change, handle_flow_type_change, handle_token_change, page_effect, selection,
  same_index,
}

-- The effect changes nothing but the page.
page_effect-filters :
    (before after : Filters)
    → ((page_effect before after).selected_date_range ≡ after.selected_date_range)
      × ((page_effect before after).selected_flow_state ≡ after.selected_flow_state)
      × ((page_effect before after).selected_flow_type ≡ after.selected_flow_type)
      × ((page_effect before after).selected_token ≡ after.selected_token)
unfolding page_effect
page_effect-filters before after = (ground arith, ground arith, ground arith, ground arith)

page_effect-page :
    (before after : Filters)
    → (same_index before.selected_flow_type after.selected_flow_type ≡ false)
      ⊎ (same_index before.selected_token after.selected_token ≡ false)
    → (page_effect before after).page ≡ 0
unfolding page_effect
page_effect-page before after h = ground arith

same_index-same : (i : Option ℕ) → same_index i i ≡ true
same_index-same none = refl
same_index-same (some i) = ground arith

same_index-other : (i j : Option ℕ) → i ≢ j → same_index j i ≡ false
same_index-other none none h = elim (h refl) [ ]
same_index-other none (some j) h = refl
same_index-other (some i) none h = refl
same_index-other (some i) (some j) h = ground (arith, i_is_not_j)
  where
    i_is_not_j : i ≢ j
    i_is_not_j e = h (ap some e)

module _ (p : Packages) (calendar : Calendar) where
  -- The flow is of the selected token, the one before the index in the list without "All tokens".
  abbrev pub of_token : List SuperToken → Option ℕ → FormattedFlow → Bool
  of_token tokens none flow = true
  of_token tokens (some zero) flow = true
  of_token tokens (some (suc i)) flow = elim (get_elem? tokens i) [
    | none ↦ false
    | some token ↦ same p (some flow.super_token_address) (some token.address)
  ]

  -- The first item of a drop-down selects nothing, the second one the open or incoming flows, and the
  -- third one the closed or outgoing ones.
  abbrev pub of_state : Option ℕ → Bool → Bool
  of_state none is_cancelled = true
  of_state (some (suc zero)) is_cancelled = not is_cancelled
  of_state (some (suc (suc zero))) is_cancelled = is_cancelled
  of_state (some _) is_cancelled = false

  abbrev pub of_type : Option ℕ → Bool → Bool
  of_type none is_incoming = true
  of_type (some (suc zero)) is_incoming = is_incoming
  of_type (some (suc (suc zero))) is_incoming = not is_incoming
  of_type (some _) is_incoming = false

  -- Created on the first day of the range or later, and on the last one or before.
  abbrev pub from_day : Option Date → Date → Bool
  from_day none created = true
  from_day (some start) created = not (calendar.is_before created (calendar.start_of_day start))

  abbrev pub to_day : Option Date → Date → Bool
  to_day none created = true
  to_day (some end) created = not (calendar.is_after created (calendar.end_of_day end))

  -- The five filters, each on its own.
  abbrev pub passes : List SuperToken → Filters → FormattedFlow → Bool
  passes tokens s flow =
      of_state s.selected_flow_state flow.is_cancelled
      && of_type s.selected_flow_type flow.is_incoming
      && from_day s.selected_date_range.start flow.creation_date
      && to_day s.selected_date_range.end flow.creation_date
      && of_token tokens s.selected_token flow

  -- A selected token is one of the list, with an address that can be compared.
  abbrev pub Selectable : List SuperToken → Option ℕ → Type 0
  Selectable tokens none = Unit
  Selectable tokens (some zero) = Unit
  Selectable tokens (some (suc i)) =
      (token : SuperToken) × (get_elem? tokens i ≡ some token) × IsComparable p (some token.address)

  abbrev option_of : SuperToken → TokenOption
  option_of t = record { address = some t.address; symbol = t.symbol }

  get_elem?-map :
      (tokens : List SuperToken) (i : ℕ) {token : SuperToken}
      → get_elem? tokens i ≡ some token
      → get_elem? (map option_of tokens) i ≡ some (option_of token)
  get_elem?-map [] i h = cc
  get_elem?-map (x ∷ xs) zero h = cc
  get_elem?-map (x ∷ xs) (suc i) h = get_elem?-map xs i h

  passes_token-eq :
      (tokens : List SuperToken) (selected : Option ℕ) (flow : FormattedFlow)
      → Selectable tokens selected
      → IsComparable p (some flow.super_token_address)
      → passes_token p calendar (tokens_to_filter tokens) selected flow
        ≡ ok (of_token tokens selected flow)
  unfolding passes_token tokens_to_filter
  passes_token-eq tokens none flow h k = refl
  passes_token-eq tokens (some zero) flow h k = refl
  passes_token-eq tokens (some (suc i)) flow (token, found, comparable) k = ground (
    arith,
    get_elem?-map tokens i found,
    found,
    addresses_equal-eq-same p (some flow.super_token_address) (some token.address) k comparable,
  )

  of_state-eq :
      (selected : Option ℕ) (is_cancelled : Bool)
      → not (excluded_by flow_states selected (if is_cancelled then close_flow else open_flow))
        ≡ of_state selected is_cancelled
  of_state-eq none c = refl
  of_state-eq (some zero) true = refl
  of_state-eq (some zero) false = refl
  of_state-eq (some (suc zero)) true = refl
  of_state-eq (some (suc zero)) false = refl
  of_state-eq (some (suc (suc zero))) true = refl
  of_state-eq (some (suc (suc zero))) false = refl
  of_state-eq (some (suc (suc (suc i)))) c = refl

  of_type-eq :
      (selected : Option ℕ) (is_incoming : Bool)
      → not (excluded_by flow_types selected (if is_incoming then incoming_flow else outgoing_flow))
        ≡ of_type selected is_incoming
  of_type-eq none c = refl
  of_type-eq (some zero) true = refl
  of_type-eq (some zero) false = refl
  of_type-eq (some (suc zero)) true = refl
  of_type-eq (some (suc zero)) false = refl
  of_type-eq (some (suc (suc zero))) true = refl
  of_type-eq (some (suc (suc zero))) false = refl
  of_type-eq (some (suc (suc (suc i)))) c = refl

  from_day-eq :
      (start : Option Date) (created : Date)
      → not (starts_after p calendar start created) ≡ from_day start created
  from_day-eq none created = refl
  from_day-eq (some start) created = refl

  to_day-eq :
      (end : Option Date) (created : Date)
      → not (ends_before p calendar end created) ≡ to_day end created
  to_day-eq none created = refl
  to_day-eq (some end) created = refl

  includes-eq :
      (tokens : List SuperToken) (s : Filters) (flow : FormattedFlow)
      → Selectable tokens s.selected_token
      → IsComparable p (some flow.super_token_address)
      → includes p calendar (tokens_to_filter tokens) s flow ≡ ok (passes tokens s flow)
  unfolding includes
  includes-eq tokens s flow h k = ground (
    arith,
    passes_token-eq tokens s.selected_token flow h k,
    of_state-eq s.selected_flow_state flow.is_cancelled,
    of_type-eq s.selected_flow_type flow.is_incoming,
    from_day-eq s.selected_date_range.start flow.creation_date,
    to_day-eq s.selected_date_range.end flow.creation_date,
  )

  -- The table shows, in their order, the flows that pass each of the five filters: open or closed,
  -- incoming or outgoing, created from the first day of the range on and up to its last, and of the
  -- selected token, where a selected token is one of the list and the
  -- addresses can be compared.
  pub filtered_flows-eq :
      (tokens : List SuperToken) (s : Filters) (flows : List FormattedFlow)
      → Selectable tokens s.selected_token
      → All (λ flow. IsComparable p (some flow.super_token_address)) flows
      → filtered_flows p calendar tokens s flows ≡ ok (keep_if (passes tokens s) flows)
  unfolding filtered_flows
  filtered_flows-eq tokens s flows h k =
      filter_js-eq (includes p calendar (tokens_to_filter tokens) s) (passes tokens s) flows
        (tests flows k)
    where
      tests :
          (flows : List FormattedFlow)
          → All (λ flow. IsComparable p (some flow.super_token_address)) flows
          → Tests (includes p calendar (tokens_to_filter tokens) s) (passes tokens s) flows
      tests [] k = tt
      tests (f ∷ fs) k = (includes-eq tokens s f h k.0, tests fs k.1)

  includes_cleared :
      (tokens : List SuperToken) (s : Filters) (flow : FormattedFlow)
      → includes p calendar (tokens_to_filter tokens) (handle_clear_filters s) flow
        ≡ ok (not (excluded_by flow_states s.selected_flow_state (state_of flow)))
  unfolding includes passes_token handle_clear_filters
  includes_cleared tokens s flow =
      let (range, state, type, token) = page_effect-filters s (record s {
        selected_flow_type = none;
        selected_token = none;
        selected_date_range = unselected_date_range;
      }) in
      rw (range, state, type, token) (ground arith)

  -- Clearing the filters leaves the one on the flow's state: whatever was selected, the table then
  -- shows the flows in the selected state, not all of them.
  pub clear_keeps_flow_state :
      (tokens : List SuperToken) (s : Filters) (flows : List FormattedFlow)
      → filtered_flows p calendar tokens (handle_clear_filters s) flows
        ≡ ok (keep_if (λ f. not (excluded_by flow_states s.selected_flow_state (state_of f))) flows)
  unfolding filtered_flows
  clear_keeps_flow_state tokens s flows =
      filter_js-eq (includes p calendar (tokens_to_filter tokens) (handle_clear_filters s))
        (λ f. not (excluded_by flow_states s.selected_flow_state (state_of f))) flows (tests flows)
    where
      tests :
          (flows : List FormattedFlow)
          → Tests
              (includes p calendar (tokens_to_filter tokens) (handle_clear_filters s))
              (λ f. not (excluded_by flow_states s.selected_flow_state (state_of f)))
              flows
      tests [] = tt
      tests (f ∷ fs) = (includes_cleared tokens s f, tests fs)

-- Selecting another type or another token of the flows goes to the first page; selecting another state
-- stays on the page, whether the table still has it or not.
pub page_after_selection :
    (s : Filters) (state type token : ℕ)
    → selection type ≢ s.selected_flow_type
    → selection token ≢ s.selected_token
    → ((handle_flow_state_change state s).page ≡ s.page)
      × ((handle_flow_type_change type s).page ≡ 0)
      × ((handle_token_change token s).page ≡ 0)
unfolding handle_flow_state_change handle_flow_type_change handle_token_change
page_after_selection s state type token h k = (
  rw (same_index-same s.selected_flow_type, same_index-same s.selected_token) (ground arith),
  page_effect-page s (record s { selected_flow_type = selection type })
      (inl (same_index-other _ _ h)),
  page_effect-page s (record s { selected_token = selection token }) (inr (same_index-other _ _ k)),
)
