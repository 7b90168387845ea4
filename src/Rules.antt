-- ===== src/Rules.antt =====
-- crates/hamsy-core/src/rule.rs: the rule model, its compilation, the matchers and the two phases.
pub mod Model
pub mod Externals
pub mod Headers
pub mod Captures
pub mod Compile
pub mod Matching
pub mod Bodies
pub mod RequestActions
pub mod Request
pub mod Response
pub mod Samples
pub mod Tests
