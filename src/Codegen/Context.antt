-- ===== src/Codegen/Context.antt =====
-- codegen/context.ts, the class `Context`: how the types of a crate are used.
pub mod TryFrom
pub mod Pages
pub mod Items
pub mod Monitors
pub mod RequestContent
pub mod Formats
pub mod Populate
pub mod Marking
pub mod Fuel
pub mod Consistent
pub mod Total
