-- ===== src/Shared.antt =====
-- programs/solmesh/src/instructions/shared.rs and token.rs: what the settlement instructions share.
pub mod Fees
pub mod Cosigned
pub mod Transfer
use sol_mesh.Base.{
  true, false, ℕ, ◌+◌, ◌*◌, ◌/◌, ◌%◌, ◌^◌, min, List, [], ◌∷◌, Option, none, some, ◌==◌, ltb, leb,
  bytes_eq, update, if◌then◌else◌,
}
use sol_mesh.Base.Words.{u64_mod, le_bytes, checked_add, checked_sub}
use sol_mesh.Errors.{
  Result, ok, err, ◌>>=◌, ◌>>◌, require, ok_or, domain_mismatch, signer_mismatch,
  owed_exceeds_deposit, owed_decreased, math_overflow, account_borrow_failed, program_failed,
  constraint_seeds,
}
use sol_mesh.Constants.{bps_denominator, rep_base_reward, rep_unit_scale, rep_max_bonus, vault_seed}
use sol_mesh.State.{Session}
use sol_mesh.Message.{StateUpdate, has_valid_domain, state_domain, to_message_bytes}
use sol_mesh.Runtime.{Chain, Sysvar, Lamports, Tokens}
use sol_mesh.Ed25519.{verify_ed25519_signature}

-- `Pubkey::to_bytes`, for a key as the number that its bytes spell.
unfoldable pub key_bytes : ℕ → List ℕ
key_bytes key = le_bytes 32 key

unfoldable pub verify_cosigned_state :
    Chain → Session → ℕ → StateUpdate → Sysvar → Result (Unit {0})
verify_cosigned_state ch session session_key state ix_sysvar = do
  require (has_valid_domain state) domain_mismatch
  require (bytes_eq state.domain state_domain) domain_mismatch
  require (bytes_eq state.session (key_bytes session_key)) signer_mismatch
  require (leb state.owed_to_provider session.deposited) owed_exceeds_deposit
  require (leb session.settled_to_provider state.owed_to_provider) owed_decreased
  let msg = to_message_bytes ch.borsh state
  verify_ed25519_signature ix_sysvar (key_bytes session.provider) msg
  verify_ed25519_signature ix_sysvar (key_bytes session.consumer) msg

-- An account that is both `from` and `to` is one `RefCell`, and its second borrow fails.
unfoldable pub pda_transfer_lamports : ℕ → ℕ → ℕ → Lamports → Result Lamports
pda_transfer_lamports from to amount m = if amount == 0 then ok m else do
  require (if from == to then false else true) account_borrow_failed
  from_l ← ok_or (checked_sub (m from) amount) math_overflow
  to_l ← ok_or (checked_add (m to) amount) math_overflow
  ok (update (update m from from_l) to to_l)

-- The two payments out of the escrow that every settlement makes: the provider's, and the fee.
unfoldable pub pay_provider : ℕ → ℕ → ℕ → ℕ → ℕ → Lamports → Result Lamports
pay_provider session provider fee_vault provider_amount fee m = do
  m1 ← pda_transfer_lamports session provider provider_amount m
  pda_transfer_lamports session fee_vault fee m1

-- The product is a `u128`, the quotient is cut to a `u64`.
unfoldable pub fee_for : ℕ → ℕ → Result ℕ
fee_for payout fee_bps =
    if ltb (payout * fee_bps) (2 ^ 128)
    then ok (payout * fee_bps / bps_denominator % u64_mod)
    else err math_overflow

unfoldable pub reputation_reward : ℕ → ℕ
reputation_reward units = rep_base_reward + min (units / rep_unit_scale) rep_max_bonus

-- token.rs. The vault authority signs for the transfer if the seeds derive it.
unfoldable pub transfer_from_vault : Chain → ℕ → ℕ → ℕ → ℕ → ℕ → ℕ → Tokens → Result Tokens
transfer_from_vault ch vault_token dest vault_authority session_key vault_bump amount m =
    if amount == 0 then ok m else do
      signer ←
          ok_or (ch.program_address (vault_seed ∷ key_bytes session_key ∷ (vault_bump ∷ []) ∷ []))
            constraint_seeds
      require (signer == vault_authority) program_failed
      ok_or (ch.token_transfer vault_token dest vault_authority amount m) program_failed
