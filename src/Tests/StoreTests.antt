-- ===== src/Tests/StoreTests.antt =====
-- The store's theorems at the sample state.
use superfluid_aragon_app.Prelude.{
  pos, String, ◌≡◌, refl, true, false, ◌+ℤ◌, none, some, List, [], ◌∷◌, str_eq, Bool-cases, inl,
  inr, ◌⊎◌, subst, if◌then◌else◌, ◌*ℤ◌,
}
use superfluid_aragon_app.Js.{ok}
use superfluid_aragon_app.Chain.{at}
use superfluid_aragon_app.Helpers.Web3.{checksum, same}
use superfluid_aragon_app.Store.Data.{text, Flow, State, SenderToken}
use superfluid_aragon_app.Store.Flows.{advance_flow, update_flows}
use superfluid_aragon_app.Store.Flows.Refinement.{flows_after, update_flows-eq-upsert}
use superfluid_aragon_app.Store.Flows.Unique.{IsSound, update_flows-IsSound}
use superfluid_aragon_app.Store.Flows.Accrual.{
  streamed_by, integral, advance_all, accumulated-advance_all, advance_flow-continuous,
}
use superfluid_aragon_app.Store.Senders.{Senders, entry_of, update_senders_super_tokens}
use superfluid_aragon_app.Store.Senders.Outcome.{ComparableEntries, has_token, sender_entry_stays}
use superfluid_aragon_app.Store.Handlers.{handle_flow_updated}
use superfluid_aragon_app.Store.Handlers.Sound.{
  IsSoundState, FlowAnswers, Records, handle_flow_updated-IsSound,
}
use superfluid_aragon_app.Store.Handlers.History.{Reaches-IsSound, steps, begins, deposit_answered}
use superfluid_aragon_app.Store.Handlers.{reduce, handle_vault_event, vault_deposit}
use superfluid_aragon_app.Store.Data.{SuperToken}
use superfluid_aragon_app.Js.Exec.{◌>>=◌}
use superfluid_aragon_app.Js.Search.{find_index_js}
use superfluid_aragon_app.Store.Tokens.{update_super_tokens}
use superfluid_aragon_app.Helpers.Web3.{addresses_equal}
use superfluid_aragon_app.Tests.Samples.{
  carol_ends-IsReadableEvent, sample_flows-IsSound, packages, packages_laws, app, chain, settings,
  carols_flow, held_token, carols_entry, sample_state, carol_ends, carol_raises,
}

update_flows-eq-upsert_example :
    update_flows packages sample_state carol_ends 110
    ≡ ok (flows_after packages sample_state carol_ends 110 "")
unfolding checksum
update_flows-eq-upsert_example =
    update_flows-eq-upsert packages sample_state carol_ends 110 carol_ends-IsReadableEvent refl
      sample_flows-IsSound.readable refl

update_flows-IsSound_example :
    (flows : List Flow) × (update_flows packages sample_state carol_ends 110 ≡ ok flows)
    × IsSound packages flows
unfolding checksum
update_flows-IsSound_example =
    update_flows-IsSound packages sample_state carol_ends 110 carol_ends-IsReadableEvent refl
      sample_flows-IsSound

accumulated-advance_all_example :
    (advance_all packages carols_flow ((carol_raises, 110, "") ∷ [])).accumulated_amount
    ≡ pos 10 +ℤ integral carols_flow.flow_rate 100 ((carol_raises, 110, "") ∷ [])
accumulated-advance_all_example =
    accumulated-advance_all packages packages_laws carols_flow ((carol_raises, 110, "") ∷ [])
      (refl, tt)

advance_flow-continuous_example :
    let g = advance_flow packages carol_raises 110 "" carols_flow in
    (streamed_by g 110 ≡ streamed_by carols_flow 110)
    × (streamed_by g 120 ≡ pos 10 *ℤ pos 5 +ℤ streamed_by carols_flow 110)
    × (g.is_cancelled ≡ false)
    × (g.entity ≡ "carol")
    × (g.super_token_address ≡ "token")
    × (g.is_incoming ≡ true)
    × (g.creation_timestamp ≡ 90)
advance_flow-continuous_example =
    advance_flow-continuous packages packages_laws carol_raises 110 120 "" carols_flow refl

sender_entry_stays_example :
    (after : Senders) × (left : List SenderToken) × ((update_senders_super_tokens packages chain
        sample_state carol_ends 110
        (("token", at "token") ∷ [])).0
      ≡ ok after)
    × (entry_of "carol" after ≡ some left)
    × (has_token packages "token" left ≡ true)
unfolding checksum same entry_of
sender_entry_stays_example =
    sender_entry_stays packages chain carol_ends 110 (at "token") (text (pos 500))
      (("token", at "token") ∷ []) refl refl refl sample_state (carols_entry ∷ []) refl refl refl
      refl (refl, tt) refl

carols_entries_comparable :
    (k : String) (entries : List SenderToken)
    → entry_of k sample_state.senders_super_tokens ≡ some entries
    → ComparableEntries packages entries
unfolding entry_of checksum
carols_entries_comparable k entries e = by_key (Bool-cases (str_eq "carol" k)) e
  where
    by_key :
        (str_eq "carol" k ≡ true) ⊎ (str_eq "carol" k ≡ false)
        → (if str_eq "carol" k then some (carols_entry ∷ []) else none) ≡ some entries
        → ComparableEntries packages entries
    by_key (inl own) h =
        subst (ComparableEntries packages) {x = carols_entry ∷ []} (cc (own, h)) (refl, tt)
    by_key (inr foreign) h = cc (foreign, h)

sample_state-IsSoundState : IsSoundState packages (held_token ∷ []) sample_state
unfolding checksum
sample_state-IsSoundState = record {
  agent = refl;
  flows = sample_flows-IsSound;
  held = refl;
  tokens_sound = record { comparable = (refl, tt); unique = (tt, tt) };
  senders = carols_entries_comparable;
}

sample_answers :
    FlowAnswers packages app chain settings sample_state carol_ends
      (held_token ∷ [])
      []
      110
      (at "token")
      (text (pos 500))
      (text (pos 500))
      held_token
unfolding checksum same
sample_answers = record {
  timed = refl;
  token_answers = record {
    obtained = refl;
    addressed = refl;
    answered = refl;
    created = λ absent. cc absent;
  };
  sender_answered = refl;
}

handle_flow_updated-IsSound_example :
    (next : State) × Records packages app chain settings sample_state carol_ends
      (held_token ∷ [])
      []
      110
      (text (pos 500))
      (text (pos 500))
      held_token
      (handle_flow_updated packages app chain settings sample_state carol_ends)
      next
unfolding checksum same
handle_flow_updated-IsSound_example =
    handle_flow_updated-IsSound packages app chain settings sample_answers
      carol_ends-IsReadableEvent sample_state-IsSoundState refl

-- The state after a deposit in block 8.
abbrev deposited_state : State
deposited_state = record sample_state {
  super_tokens =
      some (record held_token { balance = text (pos 500); last_update_timestamp = some 8 } ∷ []);
}

Reaches-IsSound_example : (tokens : List SuperToken) × IsSoundState packages tokens deposited_state
unfolding reduce handle_vault_event update_super_tokens checksum find_index_js addresses_equal ◌>>=◌
Reaches-IsSound_example =
    Reaches-IsSound packages app settings sample_state (held_token ∷ []) deposited_state
      sample_state-IsSoundState
      (steps chain (held_token ∷ []) []
        (vault_deposit (record { token = "token"; block_number = 8 })) begins refl
        (deposit_answered refl refl sample_answers.token_answers) refl)
