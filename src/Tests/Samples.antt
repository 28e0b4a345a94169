-- ===== src/Tests/Samples.antt =====
-- Packages, a chain and a state to run the model on.
use superfluid_aragon_app.Prelude.{
  sub_ℕ, suc, pos, negsuc, refl, true, false, none, some, [], ◌∷◌, str_eq, if◌then◌else◌, ◌+ℤ◌,
  ◌*ℤ◌, ◌/◌, ◌-◌, Option, String, ℤ,
}
use superfluid_aragon_app.Helpers.Time.{Date}
use superfluid_aragon_app.Js.{defined, ok, throw, failure}
use superfluid_aragon_app.Packages.{Packages, BnLaws}
use superfluid_aragon_app.Chain.{App, Chain, at}
use superfluid_aragon_app.Store.Data.{text, Flow, SuperToken, SenderToken, State, FlowUpdated}
use superfluid_aragon_app.Helpers.Web3.{checksum}
use superfluid_aragon_app.Store.Flows.Refinement.{IsReadableEvent}
use superfluid_aragon_app.Store.Flows.Unique.{IsSound}
use superfluid_aragon_app.Store.Tokens.{Settings}

abbrev seconds_between : Date → Date → Option ℤ
seconds_between (Date.at (pos a)) (Date.at (pos b)) = some (pos ((a - b) / 1000))
seconds_between _ _ = none

abbrev by_text : String → Option String → ℤ
by_text a none = negsuc 0
by_text a (some b) = if str_eq a b then pos 0 else pos 1

-- A division that cuts towards 0.
abbrev pub quotient : ℤ → ℤ → ℤ
quotient (pos a) (pos b) = pos (a / b)
quotient (negsuc a) (pos b) = sub_ℕ 0 (suc a / b)
quotient (pos a) (negsuc b) = sub_ℕ 0 (a / suc b)
quotient (negsuc a) (negsuc b) = pos (suc a / suc b)

abbrev pub packages : Packages
packages = record {
  to_checksum_address = λ a. if str_eq a "nobody" then throw (failure 1) else ok a;
  is_address = λ a. if str_eq a "nobody" then false else true;
  decode_string = λ s. ok s;
  bn_add = λ a b. a +ℤ b;
  bn_mul = λ a b. a *ℤ b;
  bn_div = λ a b. quotient a b;
  bn_to_number = λ n. ok n;
  bn_from_number = λ n. defined n;
  difference_in_seconds = λ a b. seconds_between a b;
  bn_to_text = λ n. [];
  to_fixed = λ s n. s;
  to_lower_case = λ s. s;
  to_upper_case = λ s. s;
  locale_compare = λ a b. by_text a b;
}

pub packages_laws : BnLaws packages
packages_laws = record { add_lem = λ a b. refl; mul_lem = λ a b. refl; div_lem = λ a b. refl }

abbrev pub app : App
app = record { external = λ a. ok (at a) }

abbrev pub chain : Chain
chain = record {
  block_timestamp = λ n. ok n;
  balance_of = λ c holder. ok (text (pos 500));
  balance = λ holder. ok (text (pos 7));
  decimals = λ c. ok (some 18);
  name = λ c. ok (some "Token");
  symbol = λ c. ok (some "TKN");
  underlying_token = λ c. ok "under";
  host = λ c. ok "host";
  liquidation_period = λ h t. ok (text (pos 3600));
}

-- A chain whose balances cannot be read.
abbrev pub broken_chain : Chain
broken_chain = record chain { balance_of = λ c holder. throw (failure 2) }

abbrev pub settings : Settings
settings = record {
  network = record { id = 137; type = "main" };
  cfa_address = "cfa";
  governance_address = "governance";
  host_address = "host";
  token_list = [];
}

-- A stream of 3 units a second from the account "carol" to the agent.
abbrev pub carols_flow : Flow
carols_flow = record {
  is_cancelled = false;
  is_incoming = true;
  entity = "carol";
  super_token_address = "token";
  accumulated_amount = pos 10;
  creation_timestamp = 90;
  last_timestamp = 100;
  flow_rate = text (pos 3);
  description = "rent";
}

abbrev pub held_token : SuperToken
held_token = record {
  address = "token";
  decimals = some 18;
  liquidation_period_seconds = text (pos 3600);
  name = some "Token";
  symbol = some "TKN";
  underlying_token = record { address = "under"; name = none; decimals = none; symbol = none };
  logo_uri = none;
  mainnet_token_equivalent_address = none;
  balance = text (pos 40);
  net_flow = text (pos 3);
  last_update_timestamp = some 100;
}

abbrev pub carols_entry : SenderToken
carols_entry = record {
  address = "token";
  balance = text (pos 60);
  net_flow = text (negsuc 2);
  last_update_timestamp = 100;
}

abbrev pub sample_state : State
sample_state = record {
  agent_address = "agent";
  cfa_address = "cfa";
  host_address = "host";
  super_tokens = some (held_token ∷ []);
  flows = carols_flow ∷ [];
  senders_super_tokens = ("carol", carols_entry ∷ []) ∷ [];
  initial_block = 5;
  cached_block_number = none;
  is_syncing = false;
}

-- The stream ends at time 110.
abbrev pub carol_ends : FlowUpdated
carol_ends = record {
  block_number = 110;
  sender = "carol";
  receiver = "agent";
  token = "token";
  flow_rate = text (pos 0);
  total_sender_flow_rate = text (pos 0);
  total_receiver_flow_rate = text (pos 0);
  user_data = none;
}

-- The rate rises to 5.
abbrev pub carol_raises : FlowUpdated
carol_raises = record carol_ends {
  flow_rate = text (pos 5);
  total_sender_flow_rate = text (negsuc 4);
}

pub carol_ends-IsReadableEvent : IsReadableEvent packages carol_ends
unfolding checksum
carol_ends-IsReadableEvent = record {
  sender = refl;
  receiver = refl;
  token = refl;
  data_text = refl;
}

pub carol_raises-IsReadableEvent : IsReadableEvent packages carol_raises
unfolding checksum
carol_raises-IsReadableEvent = record {
  sender = refl;
  receiver = refl;
  token = refl;
  data_text = refl;
}

pub sample_flows-IsSound : IsSound packages sample_state.flows
unfolding checksum
sample_flows-IsSound = record {
  readable = (record { entity = refl; token = refl }, tt);
  unique = (tt, tt);
}
