-- ===== src/Store/Handlers/History.antt =====
-- The states that a history of events leads to.
use superfluid_aragon_app.Prelude.{
  ℕ, ◌≡◌, refl, ap, subst, sym, ◌∙◌, true, false, ◌||◌, none, some, List, Bool-cases, inl, inr,
}
use mathlib.Core.Option
use superfluid_aragon_app.Js.{Result, ok, ok-injective}
use superfluid_aragon_app.Js.Exec.{lift_ok, bind_step, pure_returns}
use superfluid_aragon_app.Packages.{Packages}
use superfluid_aragon_app.Chain.{App, Chain, Contract}
use superfluid_aragon_app.Helpers.Web3.{IsComparable, same}
use superfluid_aragon_app.Store.Data.{Amount, SuperToken, State, FlowUpdated}
use superfluid_aragon_app.Store.Flows.Refinement.{IsReadableEvent}
use superfluid_aragon_app.Store.Tokens.{Cache, Settings}
use superfluid_aragon_app.Store.Tokens.Outcome.{
  tokens_after, tokens_after-IsSound, Answers, update_super_tokens-eq-upsert,
}
use superfluid_aragon_app.Store.Handlers.{
  Event, VaultEvent, flow_updated, vault_transfer, vault_deposit, sync_status_syncing,
  external_subscription_synced, other, reduce, handle_vault_event, handle_flow_updated,
}
use superfluid_aragon_app.Store.Handlers.Sound.{
  IsSoundState, FlowAnswers, handle_flow_updated-IsSound, handle_flow_updated_foreign,
}

module _ (p : Packages) (app : App) (settings : Settings) where
  -- The calls that an event waits for are answered; events of the client wait for none.
  pub data Answered (chain : Chain) (state : State) (tokens : List SuperToken) (cache : Cache)
      : Event → Type 0 where
    flow_answered :
        {event : FlowUpdated} {t : ℕ} {c : Contract} {balance sender_balance : Amount}
        {new : SuperToken}
        → IsReadableEvent p event
        → FlowAnswers p app chain settings state event tokens cache t c balance sender_balance new
        → Answered chain state tokens cache (flow_updated event)
    transfer_answered :
        {event : VaultEvent} {t : ℕ} {c : Contract} {balance : Amount} {new : SuperToken}
        → IsComparable p (some event.token)
        → chain.block_timestamp event.block_number ≡ ok t
        → Answers p app chain settings state.agent_address event.token tokens cache c balance new
        → Answered chain state tokens cache (vault_transfer event)
    deposit_answered :
        {event : VaultEvent} {t : ℕ} {c : Contract} {balance : Amount} {new : SuperToken}
        → IsComparable p (some event.token)
        → chain.block_timestamp event.block_number ≡ ok t
        → Answers p app chain settings state.agent_address event.token tokens cache c balance new
        → Answered chain state tokens cache (vault_deposit event)
    syncing : {to : ℕ} → Answered chain state tokens cache (sync_status_syncing to)
    synced : Answered chain state tokens cache external_subscription_synced
    unknown : Answered chain state tokens cache other

  -- The run returns a well-formed state.
  pub record SoundAfter (result : Result State) : Type 0 where
    pub next : State
    pub tokens : List SuperToken
    pub returned : result ≡ ok next
    pub sound : IsSoundState p tokens next

  module _ {chain : Chain} {state : State} {tokens : List SuperToken} {cache : Cache}
      (sound : IsSoundState p tokens state) where
    vault_event-SoundAfter :
        (event : VaultEvent) {t : ℕ} {c : Contract} {balance : Amount} {new : SuperToken}
        → IsComparable p (some event.token)
        → chain.block_timestamp event.block_number ≡ ok t
        → Answers p app chain settings state.agent_address event.token tokens cache c balance new
        → SoundAfter (handle_vault_event p app chain settings state event cache).0
    unfolding handle_vault_event
    vault_event-SoundAfter event {t} {c} {balance} {new} readable timed answers =
        let written = tokens_after p event.token t none balance new tokens in
        record {
          next = record state { super_tokens = some written };
          tokens = written;
          returned =
              rw (timed, lift_ok)
                (ap (λ r. r.0)
                    (bind_step _ _ cache (
                      update_super_tokens-eq-upsert p app chain settings t none answers readable
                        sound.tokens_sound.comparable state refl sound.held))
                  ∙ pure_returns _ _);
          sound = record {
            agent = sound.agent;
            flows = sound.flows;
            held = refl;
            tokens_sound =
                tokens_after-IsSound p event.token t none balance new tokens readable
                  answers.addressed sound.tokens_sound;
            senders = sound.senders;
          };
        }

    flow_event-SoundAfter :
        (event : FlowUpdated) {t : ℕ} {c : Contract} {balance sender_balance : Amount}
        {new : SuperToken}
        → IsReadableEvent p event
        → FlowAnswers p app chain settings state event tokens cache t c balance sender_balance new
        → SoundAfter (handle_flow_updated p app chain settings state event cache).0
    flow_event-SoundAfter event readable answers =
        elim (Bool-cases (
          same p (some state.agent_address) (some event.sender)
          || same p (some state.agent_address) (some event.receiver))) [
            | inl concerned ↦
                let (next, (returned, written, flows, senders, sound')) =
                  handle_flow_updated-IsSound p app chain settings answers readable sound
                    concerned in
                record { next = next; tokens = _; returned = returned; sound = sound' }
            | inr foreign ↦ record {
              next = state;
              tokens = tokens;
              returned =
                  ap (λ r. r.0)
                    (handle_flow_updated_foreign p app chain settings answers readable sound
                      foreign);
              sound = sound;
            }
          ]

    reduce-SoundAfter :
        (event : Event)
        → Answered chain state tokens cache event
        → SoundAfter (reduce p app chain settings state event cache).0
    unfolding reduce
    reduce-SoundAfter _ (flow_answered readable answers) = flow_event-SoundAfter _ readable answers
    reduce-SoundAfter _ (transfer_answered readable timed answers) =
        vault_event-SoundAfter _ readable timed answers
    reduce-SoundAfter _ (deposit_answered readable timed answers) =
        vault_event-SoundAfter _ readable timed answers
    reduce-SoundAfter _ (syncing {to}) = record {
      next = record state { is_syncing = true; cached_block_number = some to };
      tokens = tokens;
      returned = pure_returns _ cache;
      sound = record {
        agent = sound.agent;
        flows = sound.flows;
        held = sound.held;
        tokens_sound = sound.tokens_sound;
        senders = sound.senders;
      };
    }
    reduce-SoundAfter _ synced = record {
      next = record state { is_syncing = false };
      tokens = tokens;
      returned = pure_returns _ cache;
      sound = record {
        agent = sound.agent;
        flows = sound.flows;
        held = sound.held;
        tokens_sound = sound.tokens_sound;
        senders = sound.senders;
      };
    }
    reduce-SoundAfter _ unknown = record {
      next = state;
      tokens = tokens;
      returned = pure_returns _ cache;
      sound = sound;
    }

  -- The states that the reducer reaches from a first one, each event with the chain and the cache of
  -- contracts at its time.
  pub data Reaches (first : State) : State → Type 0 where
    begins : Reaches first first
    steps :
        {state next : State} (chain : Chain) (tokens : List SuperToken) (cache : Cache)
        (event : Event)
        → Reaches first state
        → state.super_tokens ≡ some tokens
        → Answered chain state tokens cache event
        → (reduce p app chain settings state event cache).0 ≡ ok next
        → Reaches first next

  -- Every state that the reducer reaches from a well-formed one by events whose calls are answered is
  -- well formed: its tokens and its open flows are unique, and all that it holds can be compared again.
  pub Reaches-IsSound :
      (first : State) (tokens : List SuperToken) (last : State)
      → IsSoundState p tokens first
      → Reaches first last
      → (tokens' : List SuperToken) × IsSoundState p tokens' last
  Reaches-IsSound first tokens _ sound begins = (tokens, sound)
  Reaches-IsSound first tokens last sound
        (steps {state} chain tokens' cache event before held answered returned) =
      let (tokens'', sound'') = Reaches-IsSound first tokens state sound before in
      let same_tokens = Option.some-injective _ _ (sym sound''.held ∙ held) in
      let after =
        reduce-SoundAfter (subst (λ l. IsSoundState p l state) same_tokens sound'') event
          answered in
      (
        after.tokens,
        subst (IsSoundState p after.tokens) (ok-injective (sym after.returned ∙ returned))
            after.sound,
      )
