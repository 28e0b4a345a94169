-- ===== src/Sync.antt =====
-- How the background script follows the chain (app/src/store/helpers.js): the retries of its start,
-- and the subscriptions to the agent and to the CFA contract.
pub mod Retry
pub mod Blocks
pub mod Streams
