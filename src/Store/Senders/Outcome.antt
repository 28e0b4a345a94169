-- ===== src/Store/Senders/Outcome.antt =====
-- `updateSendersSuperTokens` where the contract of the token is in the cache and its balance is
-- answered: what each account's entry is afterwards.
use superfluid_aragon_app.Prelude.{
  ℕ, String, ◌≡◌, refl, ap, subst, sym, ◌∙◌, Bool, true, false, not, ◌||◌, Option, none, some, List,
  [], ◌∷◌, ◌++◌, str_eq, str_eq_iff, if◌then◌else◌, All, arith, keep_if, Bool-cases, inl, inr,
  str_eq_refl, pos, negsuc, zero, suc, ◌⊎◌,
}
use superfluid_aragon_app.Js.{ok}
use superfluid_aragon_app.Js.Exec.{Exec, ◌>>=◌, pure, pure_returns, lift_ok}
use superfluid_aragon_app.Js.Search.{filter_js-eq, Tests}
use superfluid_aragon_app.Packages.{Packages}
use superfluid_aragon_app.Chain.{Contract, Chain}
use superfluid_aragon_app.Helpers.Web3.{same, same_refl, IsComparable, addresses_equal-eq-same}
use superfluid_aragon_app.Store.Data.{Amount, text, number, SenderToken, State, FlowUpdated}
use superfluid_aragon_app.Store.Tokens.{Cache, cached, get_super_token_contract}
use superfluid_aragon_app.Store.Senders.{
  Senders, entry_of, assign, differs_from_zero, new_super_token_entry, other_token, write_sender,
  update_senders_super_tokens,
}

pub entry_of-assign :
    (k j : String) (v : List SenderToken) (m : Senders)
    → entry_of j (assign k v m) ≡ (if str_eq k j then some v else entry_of j m)
unfolding entry_of assign
entry_of-assign k j v [] = refl
entry_of-assign k j v ((i, w) ∷ m) =
    ground (arith, str_eq_iff k j, str_eq_iff i k, str_eq_iff i j, entry_of-assign k j v m)

-- An entry that stands already is the one that is read.
entry_of_self :
    (k j : String) (m : Senders) {v : List SenderToken}
    → entry_of k m ≡ some v
    → entry_of j m ≡ (if str_eq k j then some v else entry_of j m)
entry_of_self k j m {v} h = elim (Bool-cases (str_eq k j)) [
  | inl e ↦ rw e (subst (λ i. entry_of i m ≡ some v) ((str_eq_iff k j).0 e) h)
  | inr e ↦ rw e
]

-- The number 0, and no text.
abbrev pub is_number_zero : Amount → Bool
is_number_zero (number (pos zero)) = true
is_number_zero _ = false

pub zero_cases :
    (a : Amount)
    → ((differs_from_zero a ≡ true) × (is_number_zero a ≡ false))
      ⊎ ((differs_from_zero a ≡ false) × (is_number_zero a ≡ true))
zero_cases (text n) = inl (refl, refl)
zero_cases (number (pos zero)) = inr (refl, refl)
zero_cases (number (pos (suc n))) = inl (ground arith, refl)
zero_cases (number (negsuc n)) = inl (refl, refl)

module _ (p : Packages) where
  abbrev pub is_other : String → SenderToken → Bool
  is_other token t = not (same p (some t.address) (some token))

  abbrev pub ComparableEntries : List SenderToken → Type 0
  ComparableEntries = All (λ t. IsComparable p (some t.address))

  abbrev pub sender_entry : FlowUpdated → ℕ → Amount → SenderToken
  sender_entry event t balance = record {
    address = event.token;
    balance = balance;
    net_flow = event.total_sender_flow_rate;
    last_update_timestamp = t;
  }

  -- The sender's entry after an incoming event.
  abbrev pub entries_after : FlowUpdated → ℕ → Amount → Option (List SenderToken) → List SenderToken
  entries_after event t balance none = sender_entry event t balance ∷ []
  entries_after event t balance (some entries) =
      if is_number_zero event.total_sender_flow_rate
      then entries
      else keep_if (is_other event.token) entries ++ sender_entry event t balance ∷ []

  -- The list has an entry of the token.
  abbrev pub has_token : String → List SenderToken → Bool
  has_token token [] = false
  has_token token (x ∷ xs) = same p (some x.address) (some token) || has_token token xs

module _ (p : Packages) (chain : Chain) where
  Tests-other_token :
      (token : String) (entries : List SenderToken)
      → IsComparable p (some token)
      → ComparableEntries p entries
      → Tests (other_token p chain token) (is_other p token) entries
  Tests-other_token token [] c h = tt
  Tests-other_token token (x ∷ xs) c h = (
    ground (arith, addresses_equal-eq-same p (some x.address) (some token) h.0 c),
    Tests-other_token token xs c h.1,
  )

  module _ (event : FlowUpdated) (t : ℕ) (c : Contract) (balance : Amount) (cache : Cache)
      (known : cached event.token cache ≡ some c)
      (answered : chain.balance_of c event.sender ≡ ok balance)
      (readable : IsComparable p (some event.token)) where
    entry_returned :
        (new_super_token_entry p chain event.sender event.token event.total_sender_flow_rate t
          cache).0
        ≡ ok (sender_entry p event t balance)
    unfolding new_super_token_entry get_super_token_contract ◌>>=◌
    entry_returned = ground (arith, known, answered)

    -- What the sender's write returns, and every account's entry in it.
    abbrev Written : Senders → Option (List SenderToken) → Exec Cache Senders → Type 0
    Written senders old m =
        (after : Senders) × ((m cache).0 ≡ ok after)
        × ((j : String)
            → entry_of j after ≡ (
                if str_eq event.sender j
                then some (entries_after p event t balance old)
                else entry_of j senders))

    assigned :
        (senders : Senders) (build : SenderToken → List SenderToken)
        → ((new_super_token_entry p chain event.sender event.token event.total_sender_flow_rate t
              >>= λ entry. pure (assign event.sender (build entry) senders))
            cache).0
          ≡ ok (assign event.sender (build (sender_entry p event t balance)) senders)
    unfolding ◌>>=◌
    assigned senders build = rw entry_returned

    write_sender-Written :
        (senders : Senders) (old : Option (List SenderToken))
        → entry_of event.sender senders ≡ old
        → ((entries : List SenderToken) → old ≡ some entries → ComparableEntries p entries)
        → Written senders old (write_sender p chain event t senders old)
    unfolding write_sender
    write_sender-Written senders none e h = (
      assign event.sender (sender_entry p event t balance ∷ []) senders,
      assigned senders (λ entry. entry ∷ []),
      λ j. entry_of-assign event.sender j _ senders,
    )
    write_sender-Written senders (some entries) e h =
        let others = keep_if (is_other p event.token) entries in
        let walked =
          filter_js-eq (other_token p chain event.token) (is_other p event.token) entries
            (Tests-other_token event.token entries readable (h entries refl)) in
        elim (zero_cases event.total_sender_flow_rate) [
          | inl nonzero ↦
              rw (walked, lift_ok, nonzero.0, nonzero.1)
                (
                  assign event.sender (others ++ sender_entry p event t balance ∷ []) senders,
                  assigned senders (λ entry. others ++ entry ∷ []),
                  λ j. entry_of-assign event.sender j _ senders,
                )
          | inr zero_number ↦
              rw (walked, lift_ok, zero_number.0, zero_number.1)
                (senders, pure_returns senders cache, λ j. entry_of_self event.sender j senders e)
        ]

    -- On an event whose receiver is the agent, once the contract of the token is remembered and the
    -- sender's balance is answered, the update returns. The sender's entry is then the other tokens
    -- and the event's, or the old entry where the total rate is the number 0, and every other
    -- account keeps its own.
    pub update_senders-Written :
        (state : State)
        → same p (some state.agent_address) (some event.receiver) ≡ true
        → IsComparable p (some state.agent_address)
        → IsComparable p (some event.receiver)
        → ((entries : List SenderToken)
            → entry_of event.sender state.senders_super_tokens ≡ some entries
            → ComparableEntries p entries)
        → Written state.senders_super_tokens
            (entry_of event.sender state.senders_super_tokens)
            (update_senders_super_tokens p chain state event t)
    unfolding update_senders_super_tokens
    update_senders-Written state incoming a r h =
        rw
          (
            addresses_equal-eq-same p (some state.agent_address) (some event.receiver) a r,
            incoming,
            lift_ok,
          )
          (write_sender-Written state.senders_super_tokens _ refl h)

    has_token-append :
        (xs : List SenderToken) (x : SenderToken)
        → same p (some x.address) (some event.token) ≡ true
        → has_token p event.token (xs ++ x ∷ []) ≡ true
    has_token-append [] x h = rw h
    has_token-append (y ∷ ys) x h = ground (arith, has_token-append ys x h)

    has_token-entries_after :
        (entries : List SenderToken)
        → has_token p event.token entries ≡ true
        → has_token p event.token (entries_after p event t balance (some entries)) ≡ true
    has_token-entries_after entries h = elim (zero_cases event.total_sender_flow_rate) [
      | inl nonzero ↦ rw nonzero.1 (
          has_token-append (keep_if (is_other p event.token) entries)
            (sender_entry p event t balance) (same_refl p (some event.token) readable))
      | inr zero_number ↦ rw zero_number.1 h
    ]

    -- An account that streamed a token keeps an entry of it after each incoming event of that token,
    -- also after one whose total rate is 0, which ends the last stream: no entry is ever removed.
    pub sender_entry_stays :
        (state : State) (entries : List SenderToken)
        → same p (some state.agent_address) (some event.receiver) ≡ true
        → IsComparable p (some state.agent_address)
        → IsComparable p (some event.receiver)
        → entry_of event.sender state.senders_super_tokens ≡ some entries
        → ComparableEntries p entries
        → has_token p event.token entries ≡ true
        → (after : Senders) × (left : List SenderToken) × ((update_senders_super_tokens p chain
              state event t cache).0
            ≡ ok after)
          × (entry_of event.sender after ≡ some left)
          × (has_token p event.token left ≡ true)
    sender_entry_stays state entries incoming a r e h token =
        let (after, returned, reads) =
          update_senders-Written state incoming a r
            (λ found e'. subst (ComparableEntries p) (some-injective (sym e ∙ e')) h) in
        (
          after,
          entries_after p event t balance (some entries),
          returned,
          reads event.sender
              ∙ rw (str_eq_refl event.sender)
                  (ap (λ o. some (entries_after p event t balance o)) e),
          has_token-entries_after entries token,
        )
      where
        some-injective : {x y : List SenderToken} → some x ≡ some y → x ≡ y
        some-injective q = cc
