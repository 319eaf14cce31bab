-- ===== src/Vault.antt =====
-- The escrow of a token session (programs/solmesh/src/instructions/spl.rs and token.rs): the
-- associated token account of its mint and of the session's vault authority.
pub mod Draws
pub mod Payments
pub mod Pays
pub mod Openings
pub mod Untouched
pub mod Instructions
pub mod Histories
pub mod Lives
pub mod Expired
pub mod Elsewhere
pub mod Payable
pub mod Named
pub mod Payouts
pub mod Settlements
pub mod Newest
pub mod Exits
pub mod Deployed
pub mod Isolation
use sol_mesh.Base.{ℕ}
use sol_mesh.Runtime.{Chain}
use sol_mesh.Spl.{vault_seeds}

-- `vault_authority` and `vault_token` of `struct OpenSessionSpl`.
abbrev pub authority_of : Chain → ℕ → ℕ
authority_of ch session = (ch.find_program_address (vault_seeds session)).0

abbrev pub vault_of : Chain → ℕ → ℕ → ℕ
vault_of ch mint session = ch.associated_token mint (authority_of ch session)

-- The canonical bump of the vault authority.
abbrev pub bump_of : Chain → ℕ → ℕ
bump_of ch session = (ch.find_program_address (vault_seeds session)).1
