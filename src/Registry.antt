-- ===== src/Registry.antt =====
-- The configuration and the nodes in every history of the chain (programs/solmesh/src/lib.rs).
pub mod Untouched
pub mod Edges
pub mod Credits
pub mod Writers
pub mod Instructions
pub mod Histories
pub mod Lives
