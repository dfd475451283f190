-- ===== src/Utils.antt =====
-- packages/typespec-rust/src/utils/utils.ts.
pub mod Imports
pub mod SnakeCase
pub mod Unwrap
