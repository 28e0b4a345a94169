-- ===== src/Tests/FlowTests.antt =====
-- The theorems about events of streams at the sample state.
use superfluid_aragon_app.Prelude.{pos, ◌≡◌, refl, true, none, List, [], ◌∷◌, ◌++◌, All}
use superfluid_aragon_app.Js.{ok}
use superfluid_aragon_app.Helpers.Web3.{checksum, same}
use superfluid_aragon_app.Store.Data.{text, Flow}
use superfluid_aragon_app.Store.Flows.{update_flows}
use superfluid_aragon_app.Store.Flows.Refinement.{concerns}
use superfluid_aragon_app.Store.Flows.Redelivery.{update_flows_twice, end_twice_opens}
use superfluid_aragon_app.Store.Flows.OpenRates.{Stream, open_rate, IsForeign, belongs}
use superfluid_aragon_app.Store.Flows.OpenRates.Outcome.{update_flows-open_rate}
use superfluid_aragon_app.Tests.Samples.{
  carol_ends-IsReadableEvent, carol_raises-IsReadableEvent, sample_flows-IsSound, packages,
  packages_laws, carols_flow, sample_state, carol_ends, carol_raises,
}

update_flows_twice_example :
    (flows : List Flow) × (update_flows packages sample_state carol_raises 110 ≡ ok flows)
    × (update_flows packages (record sample_state { flows = flows }) carol_raises 110 ≡ ok flows)
unfolding checksum
update_flows_twice_example =
    update_flows_twice packages packages_laws sample_state carol_raises 110
      carol_raises-IsReadableEvent refl sample_flows-IsSound refl

end_twice_opens_example :
    (flows : List Flow) × (added : Flow) × (update_flows packages sample_state carol_ends 110
      ≡ ok flows)
    × (update_flows packages (record sample_state { flows = flows }) carol_ends 110
        ≡ ok (flows ++ added ∷ []))
    × (concerns packages carol_ends added ≡ true)
    × (added.flow_rate ≡ text (pos 0))
unfolding checksum concerns same
end_twice_opens_example =
    end_twice_opens packages sample_state carol_ends 110 carols_flow carol_ends-IsReadableEvent refl
      sample_flows-IsSound refl refl

abbrev carols_stream : Stream
carols_stream = record { is_incoming = true; entity = "carol"; token = "token" }

update_flows-open_rate_example :
    (flows : List Flow) × (update_flows packages sample_state carol_ends 110 ≡ ok flows)
    × All (IsForeign packages "agent") flows
    × (open_rate packages flows carols_stream ≡ none)
unfolding checksum same belongs open_rate
update_flows-open_rate_example =
    update_flows-open_rate packages sample_state carol_ends 110 carols_stream
      carol_ends-IsReadableEvent refl sample_flows-IsSound (refl, tt)
      (record { near = refl; far = refl })
