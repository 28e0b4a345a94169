-- ===== src/Components.antt =====
-- What the components of app/src/components compute.
pub mod Carousel
pub mod FlowsTable
pub mod Warnings
pub mod Card
pub mod AutoComplete
