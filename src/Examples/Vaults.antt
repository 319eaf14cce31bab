-- ===== src/Examples/Vaults.antt =====
-- The theorems on vaults, at a token session and its settlement.
use sol_mesh.Base.{
  ◌∙◌, false, ap, ℕ, ◌≡◌, refl, subst₂, sym, ◌==◌, ==→eq, Bool-cases, inl, inr, true, some,
  bytes_eq, arith,
}
use sol_mesh.Errors.{ok}
use sol_mesh.State.{expired, Session, opened, settled}
use sol_mesh.Runtime.{World, TokenAccount}
use sol_mesh.Runtime.Laws.{Keeps}
use sol_mesh.Program.{Call, dispatch, Reach, here, next, instruction, others}
use sol_mesh.Spl.{
  pay_provider_spl, apply_state_spl, load_settle_spl, SettleSpl, settle_session_spl, run_settle_spl,
}
use sol_mesh.Vault.{authority_of, vault_of}
use sol_mesh.Vault.Histories.{IsCovered, IsCoveredWorld}
use sol_mesh.Vault.Lives.{Reach-locked}
use sol_mesh.Vault.Isolation.{IsolatesOne, dispatch_isolates}
use sol_mesh.Lifecycle.{ExpireSession, load_expire, expire_handler, expire_session}
use sol_mesh.Vault.Expired.{expired_locks}
use sol_mesh.Vault.Elsewhere.{settled_elsewhere}
use sol_mesh.Base.Words.{le_bytes, of_le_bytes}
use sol_mesh.Base.{slice, ap, subst}
use sol_mesh.Message.{to_message_bytes}
use sol_mesh.Ed25519.{
  byte_at, u16_at, read_u16, check_ed25519_data, is_bound_at, scan, verify_ed25519_signature,
}
use sol_mesh.Shared.{
  pda_transfer_lamports, verify_cosigned_state, key_bytes, fee_for, reputation_reward,
  transfer_from_vault,
}
use sol_mesh.Accounts.{load_config, load_node, load_session}
use sol_mesh.Settle.{settled_session}
use sol_mesh.Examples.Histories.{IsFunded, world-IsSound, gift}
use sol_mesh.Examples.Chain.{chain, chain-IsChain, chain-IsTokenChain, tx-IsSigned}
use sol_mesh.Examples.Data.{tokens, session_with, tx, spl_keys, world}
use sol_mesh.Examples.Runs.{st3, value}

abbrev pub token_session : Session
token_session = session_with (some 20) 2 opened 0 0

abbrev closed_session : Session
closed_session = session_with (some 20) 2 settled 0 0

pub token_session-IsSound : IsFunded token_session
unfolding bytes_eq
token_session-IsSound = record {
  at_address = refl;
  within_deposit = omega arith;
  pending_within = λ c. ground arith;
  solvent = λ native live. ground arith;
}

closed_session-IsSound : IsFunded closed_session
unfolding bytes_eq
closed_session-IsSound = record {
  at_address = refl;
  within_deposit = omega arith;
  pending_within = λ c. ground arith;
  solvent = λ native live. ground arith;
}

-- What stands in the vault before.
abbrev pub vault_account : TokenAccount
vault_account = record { mint = 20; owner = 3001; amount = 950; frozen = false }

pub vault_address : vault_of chain 20 1001 ≡ 6021
unfolding bytes_eq key_bytes le_bytes of_le_bytes
vault_address = refl

pub authority_address : authority_of chain 1001 ≡ 3001
unfolding bytes_eq key_bytes le_bytes of_le_bytes
authority_address = refl

pub token_session-IsCovered : IsCovered chain tokens 1001 20 token_session
token_session-IsCovered = record {
  account = vault_account;
  at_vault = ap tokens vault_address;
  owned = sym authority_address;
  of_mint = refl;
  with_bump = refl;
  covers = omega arith;
}

pub world-IsCoveredWorld :
    (s : Session)
    → s.mint ≡ some 20
    → IsCovered chain tokens 1001 20 s
    → IsCoveredWorld chain (world s)
world-IsCoveredWorld s in_mint covered key mint t read at_mint live =
    elim (Bool-cases (key == 1001)) [
      | inl place ↦
          let same : s ≡ t = ground arith in
          let of_mint : 20 ≡ mint =
            ground (arith, sym in_mint ∙ ap (λ (u : Session). u.mint) same ∙ at_mint) in
          subst₂ (λ (k : ℕ) (u : Session). IsCovered chain tokens k mint u)
            (sym (==→eq key 1001 place)) same
            (subst (λ (m : ℕ). IsCovered chain tokens 1001 m s) of_mint covered)
      | inr apart ↦ absurd (ground arith)
    ]

abbrev world3 : World
world3 =
    value (world token_session)
      (run_settle_spl chain (tx 90 st3) (world token_session) spl_keys st3 true)

checkpoint_run :
    run_settle_spl chain (tx 90 st3) (world token_session) spl_keys st3 true ≡ ok world3
unfolding run_settle_spl load_settle_spl load_config load_node load_session apply_state_spl
    pay_provider_spl transfer_from_vault fee_for reputation_reward verify_cosigned_state
    to_message_bytes byte_at u16_at read_u16 check_ed25519_data is_bound_at scan
    verify_ed25519_signature key_bytes bytes_eq slice le_bytes of_le_bytes
checkpoint_run = refl

checkpoint_dispatch :
    dispatch chain (tx 90 st3) (Call.checkpoint_settle_spl spl_keys st3) (world token_session)
    ≡ ok world3
unfolding dispatch sol_mesh.Spl.checkpoint_settle_spl
checkpoint_dispatch = checkpoint_run

checkpointed : Reach chain (world token_session) world3
checkpointed = next here (
    instruction (tx 90 st3) (Call.checkpoint_settle_spl spl_keys st3)
      (tx-IsSigned (tx 90 st3) (λ j. refl)) checkpoint_dispatch)

world3_session : world3.sessions 1001 ≡ some (settled_session true token_session st3)
unfolding run_settle_spl load_settle_spl load_config load_node load_session apply_state_spl
    pay_provider_spl transfer_from_vault fee_for reputation_reward verify_cosigned_state
    to_message_bytes byte_at u16_at read_u16 check_ed25519_data is_bound_at scan
    verify_ed25519_signature key_bytes bytes_eq slice le_bytes of_le_bytes
world3_session = refl

-- A settlement out of another account.
abbrev elsewhere_keys : SettleSpl
elsewhere_keys = record spl_keys {
  vault_token = 30;
  provider_token = 31;
  consumer_token = 32;
  fee_token = 33;
}

abbrev settled_world : World
settled_world =
    value (world token_session)
      (run_settle_spl chain (tx 90 st3) (world token_session) elsewhere_keys st3 false)

settle_run :
    run_settle_spl chain (tx 90 st3) (world token_session) elsewhere_keys st3 false
    ≡ ok settled_world
unfolding run_settle_spl load_settle_spl load_config load_node load_session apply_state_spl
    pay_provider_spl transfer_from_vault fee_for reputation_reward verify_cosigned_state
    to_message_bytes byte_at u16_at read_u16 check_ed25519_data is_bound_at scan
    verify_ed25519_signature key_bytes bytes_eq slice le_bytes of_le_bytes
settle_run = refl

settle_dispatch :
    dispatch chain (tx 90 st3) (Call.settle_session_spl elsewhere_keys st3) (world token_session)
    ≡ ok settled_world
unfolding dispatch settle_session_spl
settle_dispatch = settle_run

settled_elsewhere_example :
    (s : Session) × (settled_world.sessions 1001 ≡ some s)
    × (s.status ≡ settled)
    × Keeps settled_world.tokens 6021 vault_account
settled_elsewhere_example =
    settled_elsewhere chain (tx 90 st3) (world token_session) elsewhere_keys st3 6021 vault_account
      chain-IsChain chain-IsTokenChain (tx-IsSigned (tx 90 st3) (λ j. refl))
      (world-IsSound token_session token_session-IsSound) settle_dispatch (omega arith) refl
      (sym authority_address) here

Reach-locked_example : Keeps tokens 6021 vault_account
Reach-locked_example =
    Reach-locked chain {w = world closed_session} 1001 6021 closed_session vault_account
      chain-IsChain chain-IsTokenChain (world-IsSound closed_session closed_session-IsSound)
      (next here (
        others gift tokens (λ key s e. omega arith)
          (λ j a seeds e derived. (a, e, ground arith, omega arith))))
      refl (λ live. ground arith) refl (sym authority_address)

dispatch_isolates_example : IsolatesOne chain (world token_session) world3
dispatch_isolates_example =
    dispatch_isolates chain (tx 90 st3) (Call.checkpoint_settle_spl spl_keys st3)
      (world token_session) chain-IsChain chain-IsTokenChain (tx-IsSigned (tx 90 st3) (λ j. refl))
      (world-IsSound token_session token_session-IsSound) checkpoint_dispatch

-- The token session is expired in lamports.
abbrev expire_keys : ExpireSession
expire_keys = record { config = 1003; session = 1001; consumer = 12; cranker = 13 }

abbrev expired_world : World
expired_world =
    value (world token_session)
      (expire_session chain (tx 5001 st3) (world token_session) expire_keys)

expire_dispatch :
    dispatch chain (tx 5001 st3) (Call.expire_session expire_keys) (world token_session)
    ≡ ok expired_world
unfolding dispatch expire_session load_expire load_config load_session expire_handler
    pda_transfer_lamports bytes_eq
expire_dispatch = refl

expired_locks_example :
    (token_session.status ≡ opened)
    × (expired_world.sessions 1001 ≡ some (record token_session { status = expired }))
    × Keeps expired_world.tokens 6021 vault_account
expired_locks_example =
    expired_locks chain (tx 5001 st3) (world token_session) expire_keys token_session 6021
      vault_account chain-IsChain chain-IsTokenChain (tx-IsSigned (tx 5001 st3) (λ j. refl))
      (world-IsSound token_session token_session-IsSound) expire_dispatch refl refl
      (sym authority_address) here
