-- ===== src/Store/Data.antt =====
-- The store's shape (app/src/script.js, app/src/store/updaters.js): the cached state and the event
-- that changes it.
use superfluid_aragon_app.Prelude.{ℕ, ℤ, String, Bool, Option, List}

-- An integer of an event or of a call: a decimal text, or a JavaScript number.
pub data Amount : Type 0 where
  text : ℤ → Amount
  number : ℤ → Amount

-- What `new BN(x)` and a comparison with a number read.
abbrev pub value : Amount → ℤ
value (text n) = n
value (number n) = n

-- An item of `state.flows`.
pub record Flow : Type 0 where
  pub is_cancelled : Bool
  pub is_incoming : Bool
  pub entity : String
  pub super_token_address : String
  pub accumulated_amount : ℤ
  pub creation_timestamp : ℕ
  pub last_timestamp : ℕ
  pub flow_rate : Amount
  pub description : String

pub record UnderlyingToken : Type 0 where
  pub address : String
  pub name : Option String
  pub decimals : Option ℕ
  pub symbol : Option String

-- An item of `state.superTokens`.
pub record SuperToken : Type 0 where
  pub address : String
  pub decimals : Option ℕ
  pub liquidation_period_seconds : Amount
  pub name : Option String
  pub symbol : Option String
  pub underlying_token : UnderlyingToken
  pub logo_uri : Option String
  pub mainnet_token_equivalent_address : Option String
  pub balance : Amount
  pub net_flow : Amount
  pub last_update_timestamp : Option ℕ

-- An item of `state.sendersSuperTokens[sender]`.
pub record SenderToken : Type 0 where
  pub address : String
  pub balance : Amount
  pub net_flow : Amount
  pub last_update_timestamp : ℕ

-- `super_tokens` is `none` where the state holds `undefined`.
pub record State : Type 0 where
  pub agent_address : String
  pub cfa_address : String
  pub host_address : String
  pub super_tokens : Option (List SuperToken)
  pub flows : List Flow
  pub senders_super_tokens : List (String × List SenderToken)
  pub initial_block : ℕ
  pub cached_block_number : Option ℕ
  pub is_syncing : Bool

-- The values of a `FlowUpdated` event of the CFA contract.
pub record FlowUpdated : Type 0 where
  pub block_number : ℕ
  pub sender : String
  pub receiver : String
  pub token : String
  pub flow_rate : Amount
  pub total_sender_flow_rate : Amount
  pub total_receiver_flow_rate : Amount
  pub user_data : Option String
