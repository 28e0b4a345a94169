-- ===== src/Sync/Streams/Status.antt =====
-- What a run of the reducer makes of `isSyncing`.
use superfluid_aragon_app.Prelude.{
  ◌≡◌, refl, ap, ◌∙◌, if◌then◌else◌, Bool, true, false, List, [], ◌∷◌, ◌++◌,
}
use superfluid_aragon_app.Js.{ok}
use superfluid_aragon_app.Js.Exec.{pure, Ends, Ends-pure, Ends-any, Ends-bind}
use superfluid_aragon_app.Packages.{Packages}
use superfluid_aragon_app.Chain.{App, Chain}
use superfluid_aragon_app.Store.Data.{State, FlowUpdated}
use superfluid_aragon_app.Store.Tokens.{Cache, Settings}
use superfluid_aragon_app.Store.Handlers.{
  Event, VaultEvent, flow_updated, vault_transfer, vault_deposit, sync_status_syncing,
  external_subscription_synced, other, record_flow, handle_flow_updated, handle_vault_event, reduce,
}

abbrev pub syncing_after : Event → Bool → Bool
syncing_after (sync_status_syncing to) before = true
syncing_after external_subscription_synced before = false
syncing_after _ before = before

abbrev pub syncing_after_all : List Event → Bool → Bool
syncing_after_all [] before = before
syncing_after_all (e ∷ es) before = syncing_after_all es (syncing_after e before)

pub syncing_after_all-append :
    (xs ys : List Event) (b : Bool)
    → syncing_after_all (xs ++ ys) b ≡ syncing_after_all ys (syncing_after_all xs b)
syncing_after_all-append [] ys b = refl
syncing_after_all-append (x ∷ xs) ys b = syncing_after_all-append xs ys (syncing_after x b)

module _ (p : Packages) (app : App) (settings : Settings) where
  -- The reducer returns after each event, on the chain and the cache of its time.
  pub data Runs : State → List Event → State → Type 0 where
    ended : {s : State} → Runs s [] s
    handled :
        {s next last : State} {e : Event} {es : List Event} (chain : Chain) (cache : Cache)
        → (reduce p app chain settings s e cache).0 ≡ ok next
        → Runs next es last
        → Runs s (e ∷ es) last

  module _ (chain : Chain) where
    abbrev Keeps : State → State → Type 0
    Keeps s next = next.is_syncing ≡ s.is_syncing

    record_flow-Keeps :
        (s : State) (event : FlowUpdated)
        → Ends (Keeps s) (record_flow p app chain settings s event)
    unfolding record_flow
    record_flow-Keeps s event = Ends-bind _ _ (Ends-any _) λ t q.
        Ends-bind _ _ (Ends-any _) λ sends q. Ends-bind _ _ (Ends-any _) λ tokens q.
          Ends-bind _ _ (Ends-any _)
            λ senders q. Ends-bind _ _ (Ends-any _) λ flows q. Ends-pure _ refl

    flow_updated-Keeps :
        (s : State) (event : FlowUpdated)
        → Ends (Keeps s) (handle_flow_updated p app chain settings s event)
    unfolding handle_flow_updated
    flow_updated-Keeps s event = Ends-bind _ _ (Ends-any _) λ concerned q. by_concern concerned
      where
        by_concern :
            (b : Bool)
            → Ends (Keeps s) (if b then record_flow p app chain settings s event else pure s)
        by_concern true = record_flow-Keeps s event
        by_concern false = Ends-pure _ refl

    vault_event-Keeps :
        (s : State) (event : VaultEvent)
        → Ends (Keeps s) (handle_vault_event p app chain settings s event)
    unfolding handle_vault_event
    vault_event-Keeps s event =
        Ends-bind _ _ (Ends-any _) λ t q. Ends-bind _ _ (Ends-any _) λ tokens q. Ends-pure _ refl

    reduce-syncing :
        (s : State) (e : Event)
        → Ends
            (λ next. next.is_syncing ≡ syncing_after e s.is_syncing)
            (reduce p app chain settings s e)
    unfolding reduce
    reduce-syncing s (flow_updated event) = flow_updated-Keeps s event
    reduce-syncing s (vault_transfer event) = vault_event-Keeps s event
    reduce-syncing s (vault_deposit event) = vault_event-Keeps s event
    reduce-syncing s (sync_status_syncing to) = Ends-pure _ refl
    reduce-syncing s external_subscription_synced = Ends-pure _ refl
    reduce-syncing s other = Ends-pure _ refl

  pub Runs-syncing :
      {s last : State} {es : List Event}
      → Runs s es last
      → last.is_syncing ≡ syncing_after_all es s.is_syncing
  Runs-syncing ended = refl
  Runs-syncing (handled {s} {e = e} {es} chain cache h r) =
      Runs-syncing r ∙ ap (syncing_after_all es) ((reduce-syncing chain s e).returned cache h)
