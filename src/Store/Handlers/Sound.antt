-- ===== src/Store/Handlers/Sound.antt =====
-- `handleFlowUpdated` where the chain answers: it returns, every part of the state is what its own
-- update makes of it, and the state stays well formed.
use superfluid_aragon_app.Prelude.{
  ℕ, String, ◌≡◌, refl, ap, subst, sym, ◌∙◌, Bool, true, false, ◌||◌, Option, none, some, List, [],
  ◌∷◌, str_eq, str_eq_refl, if◌then◌else◌, All-append, arith, keep_if, Bool-cases, inl, inr, ◌⊎◌,
  ◌&&◌,
}
use superfluid_aragon_app.Js.{ok}
use superfluid_aragon_app.Js.Exec.{Exec, pure, lift_ok, bind_step, bind_returns, pure_returns}
use superfluid_aragon_app.Packages.{Packages}
use superfluid_aragon_app.Chain.{App, Chain, Contract}
use superfluid_aragon_app.Helpers.Web3.{same, IsComparable, addresses_equal-eq-same}
use superfluid_aragon_app.Store.Data.{Amount, SuperToken, SenderToken, State, FlowUpdated}
use superfluid_aragon_app.Store.Flows.{update_flows}
use superfluid_aragon_app.Store.Flows.Refinement.{IsReadableEvent}
use superfluid_aragon_app.Store.Flows.Unique.{IsSound, update_flows-IsSound}
use superfluid_aragon_app.Store.Tokens.{Cache, cached, remember, Settings}
use superfluid_aragon_app.Store.Tokens.Outcome.{
  Answers, tokens_after, IsSoundTokens, update_super_tokens-eq-upsert, tokens_after-IsSound,
}
use superfluid_aragon_app.Store.Senders.{Senders, entry_of, update_senders_super_tokens}
use superfluid_aragon_app.Store.Senders.Outcome.{
  ComparableEntries, entries_after, sender_entry, is_other, update_senders-Written, zero_cases,
}
use superfluid_aragon_app.Store.Handlers.{is_agent_sender, record_flow, handle_flow_updated}

module _ (p : Packages) where
  abbrev pub SoundSenders : Senders → Type 0
  SoundSenders senders =
      (k : String) (entries : List SenderToken)
      → entry_of k senders ≡ some entries
      → ComparableEntries p entries

  -- A state that the handlers can go on from, with the tokens that it holds.
  pub record IsSoundState (tokens : List SuperToken) (state : State) : Type 0 where
    pub agent : IsComparable p (some state.agent_address)
    pub flows : IsSound p state.flows
    pub held : state.super_tokens ≡ some tokens
    pub tokens_sound : IsSoundTokens p tokens
    pub senders : SoundSenders state.senders_super_tokens

  keep_if-Comparable :
      (q : SenderToken → Bool) (entries : List SenderToken)
      → ComparableEntries p entries
      → ComparableEntries p (keep_if q entries)
  keep_if-Comparable q [] h = tt
  keep_if-Comparable q (x ∷ xs) h = elim (Bool-cases (q x)) [
    | inl e ↦ rw e (h.0, keep_if-Comparable q xs h.1)
    | inr e ↦ rw e (keep_if-Comparable q xs h.1)
  ]

  entries_after-Comparable :
      (event : FlowUpdated) (t : ℕ) (balance : Amount) (old : Option (List SenderToken))
      → IsComparable p (some event.token)
      → ((entries : List SenderToken) → old ≡ some entries → ComparableEntries p entries)
      → ComparableEntries p (entries_after p event t balance old)
  entries_after-Comparable event t balance none r h = (r, tt)
  entries_after-Comparable event t balance (some entries) r h =
      elim (zero_cases event.total_sender_flow_rate) [
        | inl nonzero ↦ rw nonzero.1 (
            All-append (λ x. IsComparable p (some x.address))
              (keep_if (is_other p event.token) entries) (sender_entry p event t balance ∷ [])
              (keep_if-Comparable (is_other p event.token) entries (h entries refl)) (r, tt))
        | inr zero_number ↦ rw zero_number.1 (h entries refl)
      ]

  module _ (app : App) (chain : Chain) (settings : Settings) where
    -- What the handling of the event waits for: the time of its block, what its token needs, and
    -- the sender's balance.
    pub record FlowAnswers (state : State) (event : FlowUpdated) (tokens : List SuperToken)
        (cache : Cache) (t : ℕ) (c : Contract) (balance sender_balance : Amount) (new : SuperToken)
        : Type 0 where
      pub timed : chain.block_timestamp event.block_number ≡ ok t
      pub token_answers :
          Answers p app chain settings state.agent_address event.token tokens cache c balance new
      pub sender_answered : chain.balance_of c event.sender ≡ ok sender_balance

    -- The total rate that becomes the token's net flow: the agent's side of the event.
    abbrev pub agent_rate : State → FlowUpdated → Amount
    agent_rate state event =
        if same p (some state.agent_address) (some event.sender)
        then event.total_sender_flow_rate
        else event.total_receiver_flow_rate

    -- The entries of an account after the event: those of its sender, where the agent receives, get the
    -- one of the event's token, with the balance that is read, and those of any other account stay.
    abbrev pub senders_after : State → FlowUpdated → ℕ → Amount → String → Option (List SenderToken)
    senders_after state event t sender_balance account =
        if same p (some state.agent_address) (some event.receiver) && str_eq event.sender account
        then some (
            entries_after p event t sender_balance
              (entry_of event.sender state.senders_super_tokens))
        else entry_of account state.senders_super_tokens

    -- What `m` returns is a well-formed state whose tokens, flows and senders are updated by the event.
    abbrev pub Records :
        State
        → FlowUpdated
        → List SuperToken
        → Cache
        → ℕ
        → Amount
        → Amount
        → SuperToken
        → Exec Cache State
        → State
        → Type 0
    Records state event tokens cache t balance sender_balance new m next =
        let written =
          tokens_after p event.token t (some (agent_rate state event)) balance new tokens in
        ((m cache).0 ≡ ok next)
        × (next.super_tokens ≡ some written)
        × (update_flows p state event t ≡ ok next.flows)
        × ((account : String)
            → entry_of account next.senders_super_tokens
              ≡ senders_after state event t sender_balance account)
        × IsSoundState written next

    cached-remember :
        (key : String) (c : Contract) (cache : Cache) → cached key (remember key c cache) ≡ some c
    cached-remember key c cache = rw (str_eq_refl key)

    module _ {state : State} {event : FlowUpdated} {tokens : List SuperToken} {cache : Cache}
        {t : ℕ} {c : Contract} {balance sender_balance : Amount} {new : SuperToken}
        (answers : FlowAnswers state event tokens cache t c balance sender_balance new)
        (readable : IsReadableEvent p event) (sound : IsSoundState tokens state) where
      abbrev SendersWritten : Senders → Type 0
      SendersWritten after =
          ((update_senders_super_tokens p chain state event t (remember event.token c cache)).0
            ≡ ok after)
          × ((account : String)
              → entry_of account after ≡ senders_after state event t sender_balance account)
          × SoundSenders after

      incoming_senders :
          same p (some state.agent_address) (some event.receiver) ≡ true
          → (after : Senders) × SendersWritten after
      incoming_senders incoming =
          let (after, returned, reads) =
            update_senders-Written p chain event t c sender_balance (remember event.token c cache)
              (cached-remember event.token c cache) answers.sender_answered readable.token state
              incoming sound.agent readable.receiver (sound.senders event.sender) in
          (
            after,
            (
              returned,
              λ account. rw incoming (reads account),
              λ k entries e.
                  by_key k entries (Bool-cases (str_eq event.sender k)) (sym (reads k) ∙ e),
            ),
          )
        where
          old : Option (List SenderToken)
          old = entry_of event.sender state.senders_super_tokens

          by_key :
              (k : String) (entries : List SenderToken)
              → (str_eq event.sender k ≡ true) ⊎ (str_eq event.sender k ≡ false)
              → (if str_eq event.sender k
                  then some (entries_after p event t sender_balance old)
                  else entry_of k state.senders_super_tokens)
                ≡ some entries
              → ComparableEntries p entries
          by_key k entries (inl own) e = subst (ComparableEntries p) (cc (own, e)) (
              entries_after-Comparable event t sender_balance old readable.token
                (sound.senders event.sender))
          by_key k entries (inr foreign) e = sound.senders k entries (rw foreign at e)

      outgoing_senders :
          same p (some state.agent_address) (some event.receiver) ≡ false
          → SendersWritten state.senders_super_tokens
      unfolding update_senders_super_tokens
      outgoing_senders outgoing = (
        rw
            (
              addresses_equal-eq-same p (some state.agent_address) (some event.receiver) sound.agent
                  readable.receiver,
              outgoing,
              lift_ok,
            )
            (pure_returns state.senders_super_tokens (remember event.token c cache)),
        λ account. rw outgoing refl,
        sound.senders,
      )

      senders_written : (after : Senders) × SendersWritten after
      senders_written =
          elim (Bool-cases (same p (some state.agent_address) (some event.receiver))) [
            | inl incoming ↦ incoming_senders incoming
            | inr outgoing ↦ (state.senders_super_tokens, outgoing_senders outgoing)
          ]

      recorded :
          (next : State) × Records state event tokens cache t balance sender_balance new
            (record_flow p app chain settings state event)
            next
      unfolding record_flow
      recorded =
          let (after, senders) = senders_written in
          let (senders_returned, senders_read, senders_sound) = senders in
          let (flows, flows_returned, flows_sound) =
            update_flows-IsSound p state event t readable sound.agent sound.flows in
          let written =
            tokens_after p event.token t (some (agent_rate state event)) balance new tokens in
          (
            record state {
              super_tokens = some written;
              flows = flows;
              senders_super_tokens = after;
            },
            (
              rw
                  (
                    answers.timed,
                    lift_ok,
                    addresses_equal-eq-same p (some state.agent_address) (some event.sender)
                        sound.agent readable.sender,
                    lift_ok,
                  )
                  (ap (λ r. r.0)
                      (bind_step _ _ cache (
                        update_super_tokens-eq-upsert p app chain settings t
                          (some (agent_rate state event)) answers.token_answers readable.token
                          sound.tokens_sound.comparable state refl sound.held))
                    ∙ bind_returns _ _ (remember event.token c cache) senders_returned
                        (rw (flows_returned, lift_ok) (pure_returns _ _))),
              refl,
              flows_returned,
              senders_read,
              record {
                agent = sound.agent;
                flows = flows_sound;
                held = refl;
                tokens_sound =
                    tokens_after-IsSound p event.token t (some (agent_rate state event)) balance new
                      tokens readable.token answers.token_answers.addressed sound.tokens_sound;
                senders = senders_sound;
              },
            ),
          )

      is_agent_sender-eq :
          is_agent_sender p app chain settings state.agent_address event.sender event.receiver
          ≡ ok (
              same p (some state.agent_address) (some event.sender)
              || same p (some state.agent_address) (some event.receiver))
      unfolding is_agent_sender
      is_agent_sender-eq = ground (
        arith,
        addresses_equal-eq-same p (some state.agent_address) (some event.sender) sound.agent
            readable.sender,
        addresses_equal-eq-same p (some state.agent_address) (some event.receiver) sound.agent
            readable.receiver,
      )

      -- On a well-formed state, an event that the agent sends or receives and that can be read is
      -- handled without a throw once the chain answers: the tokens are those of one walk, with the
      -- agent's total rate as the net flow of the event's token, the flows are those of
      -- `updateFlows`, the sender's entries get the event's token where the agent receives and those of
      -- any other account stay, and the new state is well formed. The sender's balance is read at the
      -- contract that the update of the tokens has stored.
      pub handle_flow_updated-IsSound :
          (same p (some state.agent_address) (some event.sender)
              || same p (some state.agent_address) (some event.receiver))
            ≡ true
          → (next : State) × Records state event tokens cache t balance sender_balance new
              (handle_flow_updated p app chain settings state event)
              next
      unfolding handle_flow_updated
      handle_flow_updated-IsSound concerned = rw (is_agent_sender-eq, concerned, lift_ok) recorded

      -- An event of other accounts leaves the state and the cache as they are.
      pub handle_flow_updated_foreign :
          (same p (some state.agent_address) (some event.sender)
              || same p (some state.agent_address) (some event.receiver))
            ≡ false
          → handle_flow_updated p app chain settings state event cache ≡ (ok state, cache)
      unfolding handle_flow_updated pure
      handle_flow_updated_foreign foreign = rw (is_agent_sender-eq, foreign, lift_ok)
