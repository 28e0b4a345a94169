-- ===== src/Sync/Streams/Quiet.antt =====
-- What the emitted events do to the syncing state: those of the contracts nothing, those of the app itself
-- what their names say.
use superfluid_aragon_app.Prelude.{
  ℕ, String, ◌≡◌, refl, ap, ◌∙◌, Bool, true, false, ◌||◌, Option, none, some, List, [], ◌∷◌, ◌++◌,
  All, str_eq, arith, Bool-cases, inl, inr,
}
use superfluid_aragon_app.Store.Handlers.{Event, other, external_subscription_synced}
use superfluid_aragon_app.Sync.Blocks.{BlockRange}
use superfluid_aragon_app.Sync.Streams.{
  external_subscription_syncing_name, external_subscription_cached_name,
  external_subscription_synced_name, Emission, Trigger, Query, answered, rejected, Merge, nothing,
  from_first, from_second, Emits, no_queries, joined, refused, too_late, Values, own_event,
  to_trigger, event_of, events_of, trigger_of, received,
}
use superfluid_aragon_app.Sync.Streams.Status.{
  syncing_after, syncing_after_all, syncing_after_all-append,
}

module _ {A : Type 0} where
  abbrev pub has_rejected : List (Query A) → Bool
  has_rejected [] = false
  has_rejected (answered xs ∷ qs) = has_rejected qs
  has_rejected (rejected ∷ qs) = true

  -- A merge fails exactly where a query does.
  pub Emits-failed :
      {qs : List (Query A)} {failed : Bool} {xs : List A}
      → Emits qs failed xs
      → failed ≡ has_rejected qs
  Emits-failed no_queries = refl
  Emits-failed (joined e m) = Emits-failed e
  Emits-failed (refused e) = refl
  Emits-failed (too_late e) = Emits-failed e

  abbrev pub AllAnswers : (A → Type 0) → List (Query A) → Type 0
  AllAnswers P [] = Unit
  AllAnswers P (answered xs ∷ qs) = All P xs × AllAnswers P qs
  AllAnswers P (rejected ∷ qs) = AllAnswers P qs

  All-Merge : (P : A → Type 0) {xs ys zs : List A} → Merge xs ys zs → All P xs → All P ys → All P zs
  All-Merge P nothing h k = tt
  All-Merge P (from_first m) h k = (h.0, All-Merge P m h.1 k)
  All-Merge P (from_second m) h k = (k.0, All-Merge P m h k.1)

  pub All-Emits :
      (P : A → Type 0) {qs : List (Query A)} {failed : Bool} {xs : List A}
      → Emits qs failed xs
      → AllAnswers P qs
      → All P xs
  All-Emits P no_queries h = tt
  All-Emits P (joined e m) h = All-Merge P m h.0 (All-Emits P e h.1)
  All-Emits P (refused e) h = All-Emits P e h
  All-Emits P (too_late e) h = All-Emits P e h.1

module _ {V : Type 0} (values : Values V) where
  -- The client's own name is none of the subscription's.
  pub record IsApart : Type 0 where
    pub from_syncing :
        str_eq external_subscription_syncing_name values.sync_status_syncing_name ≡ false
    pub from_cached :
        str_eq external_subscription_cached_name values.sync_status_syncing_name ≡ false
    pub from_synced :
        str_eq external_subscription_synced_name values.sync_status_syncing_name ≡ false

  abbrev pub is_sync_name : Option String → Bool
  is_sync_name none = false
  is_sync_name (some name) =
      str_eq name values.sync_status_syncing_name || str_eq name external_subscription_synced_name

  -- An event whose name is none of those that change the syncing state.
  abbrev pub IsContractEvent : Emission V → Type 0
  IsContractEvent e = is_sync_name e.event ≡ false

  received-append :
      (t : Option (Trigger V)) (xs ys : List Event)
      → received values t (xs ++ ys) ≡ received values t xs ++ ys
  received-append none xs ys = refl
  received-append (some t) xs ys = refl

  events_of-append :
      (xs ys : List (Emission V))
      → events_of values (xs ++ ys) ≡ events_of values xs ++ events_of values ys
  events_of-append [] ys = refl
  events_of-append (x ∷ xs) ys =
      ap (received values (to_trigger values x)) (events_of-append xs ys)
      ∙ received-append (to_trigger values x) (events_of values xs) (events_of values ys)

  quiet_trigger :
      (name : String) (v : V) (address : Option String) (block_number : Option ℕ) (b : Bool)
      → is_sync_name (some name) ≡ false
      → syncing_after
          (event_of values (record {
            event = name;
            return_values = v;
            address = address;
            block_number = block_number;
          }))
          b
        ≡ b
  unfolding event_of
  quiet_trigger name v address block_number b h = ground (arith, h)

  quiet_received :
      (event : Option String) (v : Option V) (address : Option String) (block_number : Option ℕ)
      (rest : List Event) (b : Bool)
      → is_sync_name event ≡ false
      → syncing_after_all (received values (trigger_of values event v address block_number) rest) b
        ≡ syncing_after_all rest b
  quiet_received none v address block_number rest b h = refl
  quiet_received (some name) none address block_number rest b h = refl
  quiet_received (some name) (some v) address block_number rest b h =
      elim (Bool-cases (str_eq name "")) [
        | inl empty ↦ rw empty refl
        | inr named ↦
            rw named (ap (syncing_after_all rest) (quiet_trigger name v address block_number b h))
      ]

  pub contract_events-quiet :
      (es : List (Emission V)) (b : Bool)
      → All IsContractEvent es
      → syncing_after_all (events_of values es) b ≡ b
  contract_events-quiet [] b h = refl
  contract_events-quiet (e ∷ es) b h =
      quiet_received e.event e.return_values e.address e.block_number (events_of values es) b h.0
      ∙ contract_events-quiet es b h.1

  pub quiet-append :
      (xs ys : List (Emission V)) (b : Bool)
      → All IsContractEvent xs
      → syncing_after_all (events_of values (xs ++ ys)) b
        ≡ syncing_after_all (events_of values ys) b
  quiet-append xs ys b h =
      ap (λ es. syncing_after_all es b) (events_of-append xs ys)
      ∙ syncing_after_all-append (events_of values xs) (events_of values ys) b
      ∙ ap (syncing_after_all (events_of values ys)) (contract_events-quiet xs b h)

  abbrev own_trigger : String → BlockRange → Trigger V
  own_trigger name r = record {
    event = name;
    return_values = values.of_range r;
    address = none;
    block_number = none;
  }

  module _ (apart : IsApart) where
    syncing_event :
        (r : BlockRange)
        → event_of values (own_trigger external_subscription_syncing_name r) ≡ other
    unfolding event_of
    syncing_event r = rw apart.from_syncing refl

    cached_event :
        (r : BlockRange) → event_of values (own_trigger external_subscription_cached_name r) ≡ other
    unfolding event_of
    cached_event r = rw apart.from_cached refl

    synced_event :
        (r : BlockRange)
        → event_of values (own_trigger external_subscription_synced_name r)
          ≡ external_subscription_synced
    unfolding event_of
    synced_event r = rw apart.from_synced refl

    pub own_syncing :
        (r : BlockRange) (es : List (Emission V)) (b : Bool)
        → syncing_after_all
            (events_of values (own_event values external_subscription_syncing_name r ∷ es))
            b
          ≡ syncing_after_all (events_of values es) b
    own_syncing r es b =
        ap (λ e. syncing_after_all (events_of values es) (syncing_after e b)) (syncing_event r)

    pub own_cached :
        (r : BlockRange) (es : List (Emission V)) (b : Bool)
        → syncing_after_all
            (events_of values (own_event values external_subscription_cached_name r ∷ es))
            b
          ≡ syncing_after_all (events_of values es) b
    own_cached r es b =
        ap (λ e. syncing_after_all (events_of values es) (syncing_after e b)) (cached_event r)

    pub own_synced :
        (r : BlockRange) (es : List (Emission V)) (b : Bool)
        → syncing_after_all
            (events_of values (own_event values external_subscription_synced_name r ∷ es))
            b
          ≡ syncing_after_all (events_of values es) false
    own_synced r es b =
        ap (λ e. syncing_after_all (events_of values es) (syncing_after e b)) (synced_event r)
