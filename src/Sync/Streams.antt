-- ===== src/Sync/Streams.antt =====
-- `subscribeToExternals` of app/src/store/helpers.js: the streams of past and new events of the agent and
-- of the CFA contract, one after the other, and the triggers that they become. A trigger is dispatched by
-- its name, as in app/src/script.js.
pub mod Status
pub mod Quiet
pub mod Completion
use superfluid_aragon_app.Prelude.{
  ℕ, ℤ, String, Bool, true, false, ◌||◌, Option, none, some, List, [], ◌∷◌, ◌++◌, str_eq,
  if◌then◌else◌,
}
use superfluid_aragon_app.Store.Data.{FlowUpdated}
use superfluid_aragon_app.Store.Handlers.{
  VaultEvent, Event, flow_updated, vault_transfer, vault_deposit, sync_status_syncing,
  external_subscription_synced, other,
}
use superfluid_aragon_app.Sync.Blocks.{BlockRange, Ranges}

abbrev pub external_subscription_syncing_name : String
external_subscription_syncing_name = "EXTERNAL_SUBSCRIPTION_SYNCING"

abbrev pub external_subscription_cached_name : String
external_subscription_cached_name = "EXTERNAL_SUBSCRIPTION_CACHED"

abbrev pub external_subscription_synced_name : String
external_subscription_synced_name = "EXTERNAL_SUBSCRIPTION_SYNCED"

-- An event as a stream emits it; the values are the host's.
pub record Emission (V : Type 0) : Type 0 where
  pub event : Option String
  pub return_values : Option V
  pub address : Option String
  pub block_number : Option ℕ

-- What `app.emitTrigger` is given.
pub record Trigger (V : Type 0) : Type 0 where
  pub event : String
  pub return_values : V
  pub address : Option String
  pub block_number : Option ℕ

-- A query for past events: it gives them at once, or fails.
pub data Query (A : Type 0) : Type 0 where
  answered : List A → Query A
  rejected : Query A

module _ {A : Type 0} where
  -- The items of two streams in an order in which they may arrive.
  pub data Merge : List A → List A → List A → Type 0 where
    nothing : Merge [] [] []
    from_first : {x : A} {xs ys zs : List A} → Merge xs ys zs → Merge (x ∷ xs) ys (x ∷ zs)
    from_second : {y : A} {xs ys zs : List A} → Merge xs ys zs → Merge xs (y ∷ ys) (y ∷ zs)

  -- `merge(...)`: what several queries emit, and whether one of them has failed, which ends the stream.
  pub data Emits : List (Query A) → Bool → List A → Type 0 where
    no_queries : Emits [] false []
    joined :
        {xs ys zs : List A} {qs : List (Query A)} {failed : Bool}
        → Emits qs failed ys
        → Merge xs ys zs
        → Emits (answered xs ∷ qs) failed zs
    refused :
        {ys : List A} {qs : List (Query A)} {failed : Bool}
        → Emits qs failed ys
        → Emits (rejected ∷ qs) true ys
    too_late :
        {xs ys : List A} {qs : List (Query A)} → Emits qs true ys → Emits (answered xs ∷ qs) true ys

-- The host's event objects: how a range becomes values, and what the reducer reads of them.
pub record Values (V : Type 0) : Type 0 where
  pub of_range : BlockRange → V
  pub flow : Trigger V → FlowUpdated
  pub vault : Trigger V → VaultEvent
  pub to : Trigger V → ℕ
  -- `events.SYNC_STATUS_SYNCING` of @aragon/api
  pub sync_status_syncing_name : String

module _ {V : Type 0} (values : Values V) where
  -- An event of the app itself.
  abbrev pub own_event : String → BlockRange → Emission V
  own_event name range = record {
    event = some name;
    return_values = some (values.of_range range);
    address = none;
    block_number = none;
  }

  -- `!event || !event.length || !returnValues`
  abbrev pub trigger_of : Option String → Option V → Option String → Option ℕ → Option (Trigger V)
  trigger_of none v address block_number = none
  trigger_of (some name) none address block_number = none
  trigger_of (some name) (some v) address block_number =
      if str_eq name ""
      then none
      else some (record {
        event = name;
        return_values = v;
        address = address;
        block_number = block_number;
      })

  abbrev pub to_trigger : Emission V → Option (Trigger V)
  to_trigger e = trigger_of e.event e.return_values e.address e.block_number

  unfoldable pub event_of : Trigger V → Event
  event_of t =
      if str_eq t.event "FlowUpdated"
      then flow_updated (values.flow t)
      else if str_eq t.event "VaultTransfer"
      then vault_transfer (values.vault t)
      else if str_eq t.event "VaultDeposit"
      then vault_deposit (values.vault t)
      else if str_eq t.event values.sync_status_syncing_name
      then sync_status_syncing (values.to t)
      else if str_eq t.event external_subscription_synced_name
      then external_subscription_synced
      else other

  abbrev pub received : Option (Trigger V) → List Event → List Event
  received none rest = rest
  received (some t) rest = event_of t ∷ rest

  -- The events that the store receives.
  abbrev pub events_of : List (Emission V) → List Event
  events_of [] = []
  events_of (e ∷ es) = received (to_trigger e) (events_of es)

  -- `concat(...)`: the next stream starts where the one before it has completed; a stream that fails is
  -- the last one, since the subscription has no handler for an error.
  pub data Delivers (ranges : Ranges) (cached recent current : List (Query (Emission V)))
      : List (Emission V) → Type 0 where
    all_streams :
        {xs ys zs : List (Emission V)} {failed : Bool}
        → Emits cached false xs
        → Emits recent false ys
        → Emits current failed zs
        → Delivers ranges cached recent current (
            own_event external_subscription_syncing_name ranges.cached_past
            ∷ (xs
                ++ (own_event external_subscription_cached_name ranges.cached_past
                    ∷ (ys
                        ++ (own_event external_subscription_synced_name ranges.recent_past ∷ zs)))))
    recent_failed :
        {xs ys : List (Emission V)}
        → Emits cached false xs
        → Emits recent true ys
        → Delivers ranges cached recent current (
            own_event external_subscription_syncing_name ranges.cached_past
            ∷ (xs ++ (own_event external_subscription_cached_name ranges.cached_past ∷ ys)))
    cached_failed :
        {xs : List (Emission V)}
        → Emits cached true xs
        → Delivers ranges cached recent current
            (own_event external_subscription_syncing_name ranges.cached_past ∷ xs)
