-- ===== src/Helpers.antt =====
-- app/src/helpers: the functions that the store and the panels share.
pub mod Web3
pub mod Network
pub mod Token
pub mod Time
pub mod Amounts
pub mod Decimals
pub mod Conversion
