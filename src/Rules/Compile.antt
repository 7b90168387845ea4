-- ===== src/Rules/Compile.antt =====
-- `StatusMatcher`, `CompiledEntry`, `compile_rule` and `RuleSet::new`.
pub mod Status
pub mod Entry
pub mod Sort
pub mod Set
pub mod Order
pub mod Laws
