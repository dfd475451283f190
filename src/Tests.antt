-- ===== src/Tests.antt =====
-- Runs of the models at concrete inputs, some of them from packages/typespec-rust/test.
mod Fixtures
mod Statements
mod Declarations
mod Blocks
mod Bodies
mod Manifests
mod Headers
mod Docs
mod Enums
mod Reading
mod Files
mod Pages
mod Names
mod HeaderBodies
