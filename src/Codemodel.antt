-- ===== src/Codemodel.antt =====
-- packages/typespec-rust/src/codemodel: the tree of Rust items that the emitter prints.
pub mod Crate
pub mod Construct
pub mod Kinds
pub mod Types
pub mod Objects
pub mod Parameters
pub mod Client
