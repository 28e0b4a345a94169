-- ===== src/Chain.antt =====
-- What the app asks of the Aragon API and of the chain: a contract at an address, a block, and the
-- views of the tokens and of the protocol's contracts. Each answer may be a rejection.
use superfluid_aragon_app.Prelude.{ℕ, String, Option}
use superfluid_aragon_app.Js.{Result}
use superfluid_aragon_app.Store.Data.{Amount}

-- The handle that `app.external(address, abi)` returns.
pub data Contract : Type 0 where
  at : String → Contract

pub record App : Type 0 where
  pub external : String → Result Contract

pub record Chain : Type 0 where
  pub block_timestamp : ℕ → Result ℕ
  pub balance_of : Contract → String → Result Amount
  pub balance : String → Result Amount
  pub decimals : Contract → Result (Option ℕ)
  pub name : Contract → Result (Option String)
  pub symbol : Contract → Result (Option String)
  pub underlying_token : Contract → Result String
  pub host : Contract → Result String
  pub liquidation_period : String → String → Result Amount
