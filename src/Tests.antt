-- ===== src/Tests.antt =====
-- Sample data, and the theorems at concrete inputs.
mod Samples
mod StoreTests
mod FlowTests
mod TableTests
mod SyncTests
mod StreamTests
mod HelperTests
mod PanelTests
mod HookTests
mod StartupTests
mod FormTests
mod LogicTests
