-- ===== src/Forms.antt =====
-- The forms of the side panels (app/src/components/SidePanels): what each keeps, checks and asks for.
pub mod Selector
pub mod Amounts
pub mod Submission
pub mod UpdateFlow
pub mod DepositPreset
pub mod FlowRate
