-- ===== src/Store.antt =====
-- app/src/store and app/src/script.js: the cached state of the app and the events that change it.
pub mod Data
pub mod Flows
pub mod Tokens
pub mod Senders
pub mod Handlers
