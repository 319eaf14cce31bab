-- ===== src/Examples.antt =====
-- A concrete chain and concrete runs on it, at which the theorems of the other modules are applied.
pub mod Chain
pub mod Data
pub mod Runs
mod Histories
mod Registries
mod Vaults
pub mod TokenPayouts
mod Messages
mod Payments
pub mod Clients
mod TokenSettlements
mod Endings
mod Relays
mod Newest
mod TokenEndings
mod Deployment
