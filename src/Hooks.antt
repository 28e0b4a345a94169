-- ===== src/Hooks.antt =====
-- The state that the app's React hooks keep: app/src/hooks/usePanelState.js, useFilteredFlows.js,
-- useConvertRates.js and useSuperTokenItems.js, and app/src/providers/IdentityManager.js.
pub mod Panel
pub mod Filters
pub mod Rates
pub mod Items
pub mod Identity
