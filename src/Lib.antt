-- ===== src/Lib.antt =====
-- SolMesh: a marketplace of compute nodes on Solana, paid by state channels. A consumer locks a
-- deposit in a session account; provider and consumer sign ever newer states off the chain; the
-- program pays out the newest state that is posted to it.
--
-- The parts and their files (paths from the repository's root):
--   Base         numbers, lists, maps and the integers of Rust; no code of the repository
--   Errors       programs/solmesh/src/errors.rs, and the results of the handlers
--   Constants    programs/solmesh/src/constants.rs
--   State        programs/solmesh/src/state/mod.rs: the accounts Config, Node and Session
--   Message      crates/solmesh-state/src/lib.rs: the state that is signed, and its bytes;
--                Message/Client is the coding in client/src/state.ts, and Message/Idl the
--                description for clients
--   Runtime      the chain: accounts, transaction, and the calls of Solana, Anchor, the token program
--                and mpl-core, which are the parameter `Chain`; Runtime/Laws has what is used of them
--   Ed25519      programs/solmesh/src/crypto/ed25519.rs: the search for the precompile's instruction
--   Shared       programs/solmesh/src/instructions/shared.rs and token.rs
--   Accounts     the account constraints that the instructions share
--   Settle       programs/solmesh/src/instructions/settle.rs
--   Dispute      programs/solmesh/src/instructions/dispute.rs
--   Lifecycle    programs/solmesh/src/instructions/lifecycle.rs
--   Spl          programs/solmesh/src/instructions/spl.rs: the same with the escrow in tokens
--   Core         programs/solmesh/src/cpi/core.rs
--   Admin        programs/solmesh/src/instructions/initialize_config.rs and admin.rs
--   Open         programs/solmesh/src/instructions/register_node.rs and open_session.rs
--   Program      programs/solmesh/src/lib.rs: the twenty instructions, and histories of the chain
--   Protocol     the diagram of README.md, and what holds in every history; Protocol/Consent is
--                about the signatures that a payout needs
--   Vault        the token accounts of the vault authorities, in every history
--   Channel      the program as its parties see it: channels, and the moves of one channel
--   Registry     configurations and nodes, in every history
--   Client       what the parties' own code does: client/src/state.ts (signing, and the precompile's
--                instructions), sdk.ts (addresses and transactions; Client/Calls and Client/Tokens
--                too) and relay.ts (Client/Relay), and what becomes of its transactions in the program
--   Examples     a concrete chain, and runs on it
--
-- How the code is modelled. An instruction is a function from the chain (`World`), the transaction
-- and the keys of its accounts to a new chain or an error. It stands in two parts, as in the source:
-- the constraints of the `#[derive(Accounts)]` struct (`load_…`), then the handler, whose tests keep
-- their order; an account is written back only where the struct says `mut` or `init`. A failed
-- instruction changes nothing, since transactions are atomic. A public key is the number that its 32
-- bytes spell. `u64` and `u32` are numbers with the bounds of the checked and saturating operations
-- written out; `i64` is ℤ. Errors that Anchor and the runtime raise are constructors of `Error`; which
-- of two failing constraints Anchor reports first is left open.
--
-- A history (`Reach`) is any sequence of instructions that go through and of anything that other
-- programs do, except to write the program's accounts, to take lamports out of its sessions or to
-- take tokens out of accounts that an address of the program owns. Token accounts that an address
-- of the program owns are taken to have no delegate, since the program approves none, and addresses
-- to be collision-free (`IsTokenChain`). The mint's authority may freeze any token account, and a
-- transfer out of or into a frozen one fails; where a payment is proved to go through, its accounts
-- are not frozen, and it is taken to go through if the owner signs, both accounts are of one mint,
-- it is covered and does not overflow (`IsTokenPayer`), as the token program documents. The
-- libraries that the client calls are the parameter `Library`; `IsLibrary` has what is used of
-- them: integers little-endian, the layout of an ed25519 instruction, and that they derive the
-- addresses that the program derives. What the client sends is seen by the program as the list of
-- instructions and the signers of its transaction (`executed_at`); that the instructions before the
-- program's succeed, the precompile's among them, is up to the signatures. Where the client throws,
-- for a number of a state out of the range of `u64` or `i64`, its functions return `none`.
--
-- The relay is a state and a step for each event of a socket; `run` is a series of them.
-- Client/Delivery/History tells what is to be sent from the events alone.
--
-- The loop over instructions in ed25519.rs is recursion on the number that are left. Decimal printing
-- (Base/Decimal, for `to_string` of Rust's standard library) has twenty digits of fuel, enough for a
-- `u64`. The program has no other loop.
--
-- Not modelled: the client's reading of accounts and its sending of transactions, the web
-- application and the tests; compute budgets, account sizes and the rent rule; mpl-core, the token
-- program and the precompile themselves, which are parameters.
pub mod Base
pub mod Errors
pub mod Constants
pub mod State
pub mod Message
pub mod Runtime
pub mod Ed25519
pub mod Shared
pub mod Accounts
pub mod Settle
pub mod Dispute
pub mod Lifecycle
pub mod Core
pub mod Admin
pub mod Open
pub mod Spl
pub mod Program
pub mod Protocol
pub mod Vault
pub mod Channel
pub mod Client
pub mod Registry
pub mod Examples
