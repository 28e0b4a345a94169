-- ===== src/Sync/Streams/Completion.antt =====
-- When the streams of `subscribeToExternals` bring the app out of its syncing state, and when they do not.
use superfluid_aragon_app.Prelude.{◌≡◌, ◌∙◌, Bool, true, false, ◌||◌, List, ◌∷◌, ◌++◌, arith}
use superfluid_aragon_app.Packages.{Packages}
use superfluid_aragon_app.Chain.{App}
use superfluid_aragon_app.Store.Data.{State}
use superfluid_aragon_app.Store.Tokens.{Settings}
use superfluid_aragon_app.Sync.Blocks.{Ranges}
use superfluid_aragon_app.Sync.Streams.{
  external_subscription_cached_name, external_subscription_synced_name, Emission, Query, Emits,
  Values, own_event, events_of, Delivers, all_streams, recent_failed, cached_failed,
}
use superfluid_aragon_app.Sync.Streams.Status.{syncing_after_all, Runs, Runs-syncing}
use superfluid_aragon_app.Sync.Streams.Quiet.{
  has_rejected, Emits-failed, AllAnswers, All-Emits, IsApart, IsContractEvent,
  contract_events-quiet, quiet-append, own_syncing, own_cached, own_synced,
}

module _ {A : Type 0} {qs : List (Query A)} {xs : List A} where
  not_failed : Emits qs true xs → has_rejected qs ≡ false → ⊥
  not_failed e h = true_is_not_false (Emits-failed e ∙ h)
    where
      true_is_not_false : true ≡ false → ⊥
      true_is_not_false k = cc

module _ {V : Type 0} (values : Values V) (apart : IsApart values) (ranges : Ranges)
    {cached recent current : List (Query (Emission V))} where
  synced_state :
      {out : List (Emission V)} (before : Bool)
      → Delivers values ranges cached recent current out
      → has_rejected cached ≡ false
      → has_rejected recent ≡ false
      → AllAnswers (IsContractEvent values) cached
      → AllAnswers (IsContractEvent values) recent
      → AllAnswers (IsContractEvent values) current
      → syncing_after_all (events_of values out) before ≡ false
  synced_state before (all_streams {xs} {ys} {zs} a b c) ha hb qa qb qc =
      let live = own_event values external_subscription_synced_name ranges.recent_past ∷ zs in
      let rest =
        own_event values external_subscription_cached_name ranges.cached_past ∷ (ys ++ live) in
      own_syncing values apart ranges.cached_past (xs ++ rest) before
      ∙ quiet-append values xs rest before (All-Emits _ a qa)
      ∙ own_cached values apart ranges.cached_past (ys ++ live) before
      ∙ quiet-append values ys live before (All-Emits _ b qb)
      ∙ own_synced values apart ranges.recent_past zs before
      ∙ contract_events-quiet values zs false (All-Emits _ c qc)
  synced_state before (recent_failed a b) ha hb qa qb qc = absurd (not_failed b hb)
  synced_state before (cached_failed a) ha hb qa qb qc = absurd (not_failed a ha)

  unsynced_state :
      {out : List (Emission V)} (before : Bool)
      → Delivers values ranges cached recent current out
      → (has_rejected cached || has_rejected recent) ≡ true
      → AllAnswers (IsContractEvent values) cached
      → AllAnswers (IsContractEvent values) recent
      → syncing_after_all (events_of values out) before ≡ before
  unsynced_state before (all_streams a b c) h qa qb =
      absurd (ground (arith, h, Emits-failed a, Emits-failed b))
  unsynced_state before (recent_failed {xs} {ys} a b) h qa qb =
      let rest = own_event values external_subscription_cached_name ranges.cached_past ∷ ys in
      own_syncing values apart ranges.cached_past (xs ++ rest) before
      ∙ quiet-append values xs rest before (All-Emits _ a qa)
      ∙ own_cached values apart ranges.cached_past ys before
      ∙ contract_events-quiet values ys before (All-Emits _ b qb)
  unsynced_state before (cached_failed {xs} a) h qa qb =
      own_syncing values apart ranges.cached_past xs before
      ∙ contract_events-quiet values xs before (All-Emits _ a qa)

  module _ (p : Packages) (app : App) (settings : Settings) where
    -- Where every query for past events is answered and no contract's event has the name of a sync event,
    -- the streams, merged in any order, leave the app not syncing: any run of the reducer over all that
    -- they deliver ends in a state whose `isSyncing` is false.
    pub syncing_ends :
        {state last : State} {out : List (Emission V)}
        → Delivers values ranges cached recent current out
        → has_rejected cached ≡ false
        → has_rejected recent ≡ false
        → AllAnswers (IsContractEvent values) cached
        → AllAnswers (IsContractEvent values) recent
        → AllAnswers (IsContractEvent values) current
        → Runs p app settings state (events_of values out) last
        → last.is_syncing ≡ false
    syncing_ends {state} d ha hb qa qb qc run =
        Runs-syncing p app settings run ∙ synced_state state.is_syncing d ha hb qa qb qc

    -- Where a query for past events is rejected and no contract's event has the name of a sync event, an
    -- app that is syncing stays so: nothing that the streams deliver ends it.
    pub syncing_never_ends :
        {state last : State} {out : List (Emission V)}
        → Delivers values ranges cached recent current out
        → (has_rejected cached || has_rejected recent) ≡ true
        → AllAnswers (IsContractEvent values) cached
        → AllAnswers (IsContractEvent values) recent
        → state.is_syncing ≡ true
        → Runs p app settings state (events_of values out) last
        → last.is_syncing ≡ true
    syncing_never_ends {state} d h qa qb s run =
        Runs-syncing p app settings run ∙ unsynced_state state.is_syncing d h qa qb ∙ s
