-- ===== src/Client.antt =====
-- client/src: what the parties' own code does. This file is the rest of state.ts and the libraries that
-- the client calls, which are the parameter `Library`; Client/Sdk,
-- Client/Calls and Client/Tokens are sdk.ts.
pub mod Sdk
pub mod Calls
pub mod Tokens
pub mod Vouching
pub mod Settling
pub mod Closing
pub mod SettlingSpl
pub mod Opening
pub mod Relay
pub mod Delivery
use sol_mesh.Base.{Option, some, ℕ, Bool, List, [], ◌∷◌}
use sol_mesh.Base.Words.{le_bytes}
use sol_mesh.Message.{◌>>=◌, StateUpdate, new}
use sol_mesh.Message.Client.{ClientState, serialize_state}
use sol_mesh.Runtime.{Instruction}
use sol_mesh.Shared.{key_bytes}
use sol_mesh.Program.{Call}

-- tweetnacl, web3.js, spl-token, and the instruction encoder of Anchor's client.
pub record Library : Type 0 where
  -- `nacl.sign.detached` and `nacl.sign.detached.verify`
  pub sign_detached : List ℕ → List ℕ → List ℕ
  pub verify_detached : List ℕ → List ℕ → List ℕ → Bool
  -- `Ed25519Program.createInstructionWithPublicKey` of key, message and signature
  pub ed25519_instruction : List ℕ → List ℕ → List ℕ → Instruction
  -- `ComputeBudgetProgram.setComputeUnitLimit`
  pub compute_unit_limit : ℕ → Instruction
  -- `PublicKey.findProgramAddressSync`, for the program's id
  pub find_program_address : List (List ℕ) → ℕ × ℕ
  -- `getAssociatedTokenAddressSync` of mint and owner
  pub associated_token : ℕ → ℕ → ℕ
  -- the wallet of the provider that `.rpc()` sends with, which pays and signs too
  pub wallet : ℕ
  -- `program.methods.….accounts(…).instruction()`
  pub instruction_of : Call → Instruction

-- `toAnchorArg`
abbrev pub to_anchor_arg : ClientState → StateUpdate
to_anchor_arg s =
    new (le_bytes 32 s.session) s.nonce s.owed_to_provider s.units_consumed s.timestamp

module _ (lib : Library) where
  -- `signState`, `verifyStateSig`: `none` where they throw.
  unfoldable pub sign_state : List ℕ → ClientState → Option (List ℕ)
  sign_state secret s = do msg ← serialize_state s; some (lib.sign_detached msg secret)

  unfoldable pub verify_state_sig : ℕ → ClientState → List ℕ → Option Bool
  verify_state_sig pk s sig = do
    msg ← serialize_state s
    some (lib.verify_detached msg sig (key_bytes pk))

  -- `ed25519VerifyIx`
  unfoldable pub ed25519_verify_ix : ℕ → List ℕ → List ℕ → Instruction
  ed25519_verify_ix pk msg sig = lib.ed25519_instruction (key_bytes pk) msg sig

  -- `cosignIxs` of a state, and of key and signature of provider and consumer: first of the message
  -- that they signed, and then of the state, where it throws if the state has no bytes.
  unfoldable pub cosign_message : List ℕ → ℕ × List ℕ → ℕ × List ℕ → List Instruction
  cosign_message msg (provider, provider_sig) (consumer, consumer_sig) =
      ed25519_verify_ix provider msg provider_sig ∷ ed25519_verify_ix consumer msg consumer_sig ∷ []

  unfoldable pub cosign_ixs : ClientState → ℕ × List ℕ → ℕ × List ℕ → Option (List Instruction)
  cosign_ixs s provider consumer = do
    msg ← serialize_state s
    some (cosign_message msg provider consumer)
