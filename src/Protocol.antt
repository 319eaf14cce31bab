-- ===== src/Protocol.antt =====
-- The life of a session: the state machine of README.md, what each instruction of
-- programs/solmesh/src/lib.rs does to it, and what holds of it in every history.
pub mod Edges
pub mod Payouts
pub mod Disputes
pub mod Refunds
pub mod Openings
pub mod Others
pub mod Instructions
pub mod Histories
pub mod Lives
pub mod Replay
pub mod Consent
pub mod Refusals
pub mod Promises
pub mod Settlements
pub mod Exits
pub mod Ends
pub mod Newest
