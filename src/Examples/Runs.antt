-- ===== src/Examples/Runs.antt =====
-- Runs of the instructions on the concrete chain.
use sol_mesh.Base.{◌≡◌, refl, true, some, bytes_eq, slice}
use sol_mesh.Base.Int.{checked_add_i64, ◌+ℤ◌}
use sol_mesh.Base.Words.{le_bytes, of_le_bytes}
use sol_mesh.Errors.{ok, err, Result}
use sol_mesh.State.{Session, Node}
use sol_mesh.Runtime.{World, Lamports, Tokens}
use sol_mesh.Message.{StateUpdate, to_message_bytes}
use sol_mesh.Ed25519.{
  byte_at, u16_at, read_u16, check_ed25519_data, is_bound_at, scan, verify_ed25519_signature,
}
use sol_mesh.Shared.{
  verify_cosigned_state, key_bytes, fee_for, pay_provider, pda_transfer_lamports, reputation_reward,
  transfer_from_vault,
}
use sol_mesh.Accounts.{Loaded, load_config, load_node, load_session}
use sol_mesh.Settle.{apply_state, run_settle, load_settle, checkpoint_settle}
use sol_mesh.Dispute.{initiate_handler, challenge_handler, finalize_handler}
use sol_mesh.Spl.{apply_state_spl, finalize_handler_spl, pay_provider_spl}
use sol_mesh.Spl.Twins.{with_mint}
use sol_mesh.Program.{Call, dispatch}
use sol_mesh.Examples.Chain.{chain}
use sol_mesh.Examples.Data.{
  state, open_native, tx, sysvar, config, node, lamports, tokens, settle_keys, close_keys, spl_keys,
  world,
}

abbrev pub st3 : StateUpdate
st3 = state 3 400 8

abbrev pub st4 : StateUpdate
st4 = state 4 600 11

-- Each proof below computes both sides.
abbrev pub value {ℓ} : {A : Type ℓ} → A → Result A → A
value a (ok b) = b
value a (err e) = a

pub st3_signed : verify_cosigned_state chain open_native 1001 st3 (sysvar st3) ≡ ok tt
unfolding verify_cosigned_state to_message_bytes byte_at u16_at read_u16 check_ed25519_data
    is_bound_at scan verify_ed25519_signature key_bytes bytes_eq slice le_bytes
st3_signed = refl

pub st3_vouched :
    verify_ed25519_signature (sysvar st3) (key_bytes 11) (to_message_bytes chain.borsh st3) ≡ ok tt
unfolding to_message_bytes byte_at u16_at read_u16 check_ed25519_data is_bound_at scan
    verify_ed25519_signature key_bytes bytes_eq slice le_bytes
st3_vouched = refl

abbrev pub loaded : Session → Loaded
loaded s = record { config = config; node = node; session = s }

abbrev pub world3 : World
world3 =
    value (world open_native)
      (run_settle chain (tx 90 st3) (world open_native) settle_keys st3 true)

pub checkpoint_run :
    run_settle chain (tx 90 st3) (world open_native) settle_keys st3 true ≡ ok world3
unfolding run_settle load_settle load_config load_node load_session apply_state fee_for pay_provider
    pda_transfer_lamports reputation_reward verify_cosigned_state to_message_bytes byte_at u16_at
    read_u16 check_ed25519_data is_bound_at scan verify_ed25519_signature key_bytes bytes_eq slice
    le_bytes
checkpoint_run = refl

pub checkpoint_dispatch :
    dispatch chain (tx 90 st3) (Call.checkpoint_settle settle_keys st3) (world open_native)
    ≡ ok world3
unfolding dispatch checkpoint_settle
checkpoint_dispatch = checkpoint_run

-- Closed with `st3` at 90, challenged with `st4` at 100, paid out at 3691.
abbrev pub closed3 : Session
closed3 = value open_native (initiate_handler chain (tx 90 st3) close_keys config open_native st3)

pub initiate_run : initiate_handler chain (tx 90 st3) close_keys config open_native st3 ≡ ok closed3
unfolding initiate_handler checked_add_i64 ◌+ℤ◌ verify_cosigned_state to_message_bytes byte_at
    u16_at read_u16 check_ed25519_data is_bound_at scan verify_ed25519_signature key_bytes bytes_eq
    slice le_bytes
initiate_run = refl

abbrev pub closed4 : Session
closed4 = value open_native (challenge_handler chain (tx 100 st4) close_keys closed3 st4)

pub challenge_run : challenge_handler chain (tx 100 st4) close_keys closed3 st4 ≡ ok closed4
unfolding initiate_handler challenge_handler checked_add_i64 ◌+ℤ◌ verify_cosigned_state
    to_message_bytes byte_at u16_at read_u16 check_ed25519_data is_bound_at scan
    verify_ed25519_signature key_bytes bytes_eq slice le_bytes
challenge_run = refl

-- Node, session and lamports at the end of a run.
abbrev pub Out : Type 0 → Type 0
Out A = Node × Session × A

abbrev pub no_out : Out Lamports
no_out = (node, open_native, lamports)

abbrev pub no_out_spl : Out Tokens
no_out_spl = (node, open_native, tokens)

abbrev pub paid4 : Out Lamports
paid4 = value no_out (finalize_handler (tx 3691 st4) settle_keys (loaded closed4) lamports)

pub finalize_run :
    finalize_handler (tx 3691 st4) settle_keys (loaded closed4) lamports
    ≡ ok (paid4.0, paid4.1, paid4.2)
unfolding initiate_handler challenge_handler finalize_handler checked_add_i64 ◌+ℤ◌ fee_for
    pay_provider pda_transfer_lamports reputation_reward verify_cosigned_state to_message_bytes
    byte_at u16_at read_u16 check_ed25519_data is_bound_at scan verify_ed25519_signature key_bytes
    bytes_eq slice le_bytes
finalize_run = refl

abbrev pub checkpoint3 : Out Lamports
checkpoint3 =
    value no_out (apply_state chain (tx 90 st3) settle_keys (loaded open_native) lamports st3 true)

pub apply_run :
    apply_state chain (tx 90 st3) settle_keys (loaded open_native) lamports st3 true
    ≡ ok (checkpoint3.0, checkpoint3.1, checkpoint3.2)
unfolding apply_state fee_for pay_provider pda_transfer_lamports reputation_reward
    verify_cosigned_state to_message_bytes byte_at u16_at read_u16 check_ed25519_data is_bound_at
    scan verify_ed25519_signature key_bytes bytes_eq slice le_bytes
apply_run = refl

-- After the checkpoint, closed with `st4`, and paid out.
abbrev pub reclosed4 : Session
reclosed4 =
    value open_native (initiate_handler chain (tx 90 st4) close_keys config checkpoint3.1 st4)

pub reinitiate_run :
    initiate_handler chain (tx 90 st4) close_keys config checkpoint3.1 st4 ≡ ok reclosed4
unfolding apply_state initiate_handler checked_add_i64 ◌+ℤ◌ fee_for pay_provider
    pda_transfer_lamports reputation_reward verify_cosigned_state to_message_bytes byte_at u16_at
    read_u16 check_ed25519_data is_bound_at scan verify_ed25519_signature key_bytes bytes_eq slice
    le_bytes
reinitiate_run = refl

abbrev pub disputed : Loaded
disputed = record { config = config; node = checkpoint3.0; session = reclosed4 }

abbrev pub repaid4 : Out Lamports
repaid4 = value no_out (finalize_handler (tx 3691 st4) settle_keys disputed lamports)

pub refinalize_run :
    finalize_handler (tx 3691 st4) settle_keys disputed lamports
    ≡ ok (repaid4.0, repaid4.1, repaid4.2)
unfolding apply_state initiate_handler finalize_handler checked_add_i64 ◌+ℤ◌ fee_for pay_provider
    pda_transfer_lamports reputation_reward verify_cosigned_state to_message_bytes byte_at u16_at
    read_u16 check_ed25519_data is_bound_at scan verify_ed25519_signature key_bytes bytes_eq slice
    le_bytes
refinalize_run = refl

-- The same checkpoint and payout in tokens.
abbrev pub checkpoint3_spl : Out Tokens
checkpoint3_spl = value no_out_spl (
    apply_state_spl chain (tx 90 st3) spl_keys (with_mint (some 20) (loaded open_native)) tokens st3
      true)

pub apply_spl_run :
    apply_state_spl chain
      (tx 90 st3)
      spl_keys
      (with_mint (some 20) (loaded open_native))
      tokens
      st3
      true
    ≡ ok (checkpoint3_spl.0, checkpoint3_spl.1, checkpoint3_spl.2)
unfolding apply_state_spl pay_provider_spl transfer_from_vault fee_for pay_provider
    pda_transfer_lamports reputation_reward verify_cosigned_state to_message_bytes byte_at u16_at
    read_u16 check_ed25519_data is_bound_at scan verify_ed25519_signature key_bytes bytes_eq slice
    le_bytes of_le_bytes
apply_spl_run = refl

abbrev pub paid4_spl : Out Tokens
paid4_spl = value no_out_spl (
    finalize_handler_spl chain (tx 3691 st4) spl_keys (with_mint (some 20) (loaded closed4)) tokens)

pub finalize_spl_run :
    finalize_handler_spl chain (tx 3691 st4) spl_keys (with_mint (some 20) (loaded closed4)) tokens
    ≡ ok (paid4_spl.0, paid4_spl.1, paid4_spl.2)
unfolding initiate_handler challenge_handler finalize_handler_spl pay_provider_spl
    transfer_from_vault checked_add_i64 ◌+ℤ◌ fee_for pay_provider pda_transfer_lamports
    reputation_reward verify_cosigned_state to_message_bytes byte_at u16_at read_u16
    check_ed25519_data is_bound_at scan verify_ed25519_signature key_bytes bytes_eq slice le_bytes
    of_le_bytes
finalize_spl_run = refl
