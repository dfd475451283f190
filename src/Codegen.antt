-- ===== src/Codegen.antt =====
-- packages/typespec-rust/src/codegen: the text of the emitted crate.
pub mod Paths
pub mod UseTree
pub mod Use
pub mod Indentation
pub mod Emission
pub mod Blocks
pub mod Declaration
pub mod UniqueName
pub mod Visibility
pub mod Manifest
pub mod ModFiles
pub mod Context
pub mod Docs
pub mod HeaderTraits
pub mod Module
pub mod Enums
pub mod Generator
pub mod Encodings
