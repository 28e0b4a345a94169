-- ===== src/Startup/Restart.antt =====
-- What the start keeps of a cached state.
use superfluid_aragon_app.Prelude.{◌+◌, ◌≤◌, ◌<◌, ◌⊎◌, ◌↔◌, ℕ, String, ◌≡◌, true}
use superfluid_aragon_app.Packages.{Packages}
use superfluid_aragon_app.Chain.{App, Chain}
use superfluid_aragon_app.Store.Data.{State}
use superfluid_aragon_app.Store.Tokens.{Settings}
use superfluid_aragon_app.Startup.{Started, subscriptions}
use superfluid_aragon_app.Sync.Blocks.{Asked}

-- Everything but the Super Tokens is the same.
pub record Keeps (before after : State) : Type 0 where
  pub flows : after.flows ≡ before.flows
  pub senders : after.senders_super_tokens ≡ before.senders_super_tokens
  pub agent : after.agent_address ≡ before.agent_address
  pub initial_block : after.initial_block ≡ before.initial_block
  pub cached_block : after.cached_block_number ≡ before.cached_block_number
  pub syncing : after.is_syncing ≡ before.is_syncing

module _ (p : Packages) (app : App) (chain : Chain) (settings : Settings) where
  -- What a restart returns, with the cached block, the current one and any other block: the state that
  -- was cached, syncing again, with everything but its Super Tokens; the same subscriptions; and that
  -- the other block is asked for exactly where it comes after the cached one or is one of the last.
  pub record Resumes (agent : String) (cached : State) (cached_block current_block k : ℕ)
      (started : Started) : Type 0 where
    pub state : Keeps (record cached { is_syncing = true }) started.state
    pub listens : started.listens ≡ subscriptions p app chain settings agent
    pub asks : Asked started.ranges k ↔ ((cached_block < k) ⊎ (current_block ≤ k + 100))
