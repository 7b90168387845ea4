-- ===== src/JsonPatch.antt =====
-- crates/hamsy-core/src/rule.rs, the JSON patch operations of rules: paths, `json_get_mut`,
-- `json_set`, `json_remove`, `json_merge`, `json_append` and the loop of `apply_json_ops`.
-- A map of serde_json is an association list: no operation here observes the order of its keys,
-- which is left to the serialiser.
pub mod Value
pub mod Path
pub mod Ops
pub mod Members
pub mod Laws
pub mod Writes
pub mod RoundTrip
pub mod Tests
