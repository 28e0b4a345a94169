-- ===== src/Tests/StreamTests.antt =====
-- The streams of events at concrete inputs.
use superfluid_aragon_app.Prelude.{ℕ, ◌≡◌, refl, true, false, none, some, List, [], ◌∷◌}
use superfluid_aragon_app.Js.Exec.{pure}
use superfluid_aragon_app.Store.Data.{State}
use superfluid_aragon_app.Store.Handlers.{reduce, other, external_subscription_synced}
use superfluid_aragon_app.Sync.Blocks.{Ranges, block_ranges}
use superfluid_aragon_app.Sync.Streams.{
  Emission, Query, answered, rejected, nothing, from_first, no_queries, joined, refused, Values,
  Delivers, own_event, external_subscription_syncing_name, external_subscription_cached_name,
  external_subscription_synced_name, event_of, all_streams, cached_failed,
}
use superfluid_aragon_app.Sync.Streams.Status.{Runs, ended, handled}
use superfluid_aragon_app.Sync.Streams.Quiet.{IsApart}
use superfluid_aragon_app.Sync.Streams.Completion.{syncing_ends, syncing_never_ends}
use superfluid_aragon_app.Tests.Samples.{packages, app, chain, settings, sample_state, carol_ends}

abbrev values : Values ℕ
values = record {
  of_range = λ r. 0;
  flow = λ t. carol_ends;
  vault = λ t. record { token = "token"; block_number = 1 };
  to = λ t. 0;
  sync_status_syncing_name = "SYNC_STATUS_SYNCING";
}

values-IsApart : IsApart values
values-IsApart = record { from_syncing = refl; from_cached = refl; from_synced = refl }

-- An event of the agent that the reducer does not know.
abbrev execution : Emission ℕ
execution = record {
  event = some "Execute";
  return_values = some 1;
  address = some "agent";
  block_number = some 3;
}

abbrev one_answer : List (Query (Emission ℕ))
one_answer = answered (execution ∷ []) ∷ []

abbrev syncing_state : State
syncing_state = record sample_state { is_syncing = true }

abbrev synced_state : State
synced_state = record sample_state { is_syncing = false }

abbrev ranges : Ranges
ranges = block_ranges none 7 5

abbrev delivered : List (Emission ℕ)
delivered =
    own_event values external_subscription_syncing_name ranges.cached_past
    ∷ execution
    ∷ own_event values external_subscription_cached_name ranges.cached_past
    ∷ own_event values external_subscription_synced_name ranges.recent_past
    ∷ []

delivery : Delivers values ranges one_answer [] [] delivered
delivery = all_streams (joined no_queries (from_first nothing)) no_queries no_queries

sync_run :
    Runs packages app settings syncing_state
      (other ∷ other ∷ other ∷ external_subscription_synced ∷ [])
      synced_state
unfolding reduce pure
sync_run = handled {next = syncing_state} chain [] refl (
    handled {next = syncing_state} chain [] refl (
      handled {next = syncing_state} chain [] refl
        (handled {next = synced_state} chain [] refl ended)))

syncing_ends_example : synced_state.is_syncing ≡ false
unfolding event_of
syncing_ends_example =
    syncing_ends values values-IsApart ranges {recent = []} packages app settings delivery refl refl
      ((refl, tt), tt) tt tt sync_run

-- The other query is refused.
abbrev cut_off : List (Emission ℕ)
cut_off = own_event values external_subscription_syncing_name ranges.cached_past ∷ execution ∷ []

cut_delivery : Delivers values ranges (rejected ∷ one_answer) [] [] cut_off
cut_delivery = cached_failed (refused (joined no_queries (from_first nothing)))

cut_run : Runs packages app settings syncing_state (other ∷ other ∷ []) syncing_state
unfolding reduce pure
cut_run =
    handled {next = syncing_state} chain [] refl
      (handled {next = syncing_state} chain [] refl ended)

syncing_never_ends_example : syncing_state.is_syncing ≡ true
unfolding event_of
syncing_never_ends_example =
    syncing_never_ends values values-IsApart ranges {recent = []} packages app settings cut_delivery
      refl ((refl, tt), tt) tt refl cut_run
