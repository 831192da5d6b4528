-- ===== src/Sources.antt =====
-- src/sources/mod.rs and the sources that it names: what a provider says of itself.
pub mod Registry
pub mod Provider
