-- ===== src/Settle.antt =====
-- programs/solmesh/src/instructions/settle.rs: final settlement and checkpoints of a session whose
-- escrow is held in lamports.
pub mod Effects
pub mod Pays
pub mod Payable
use sol_mesh.Base.{ℕ, Bool, true, false, ◌==◌, ltb, some, is_none, update, if◌then◌else◌}
use sol_mesh.Base.Words.{checked_add, checked_sub, saturating_sub, saturating_add_u32}
use sol_mesh.Errors.{
  Result, ok, ◌>>=◌, ◌>>◌, require, ok_or, session_not_open, spl_unsupported, stale_nonce,
  owed_decreased, math_overflow, account_not_signer, constraint_has_one, constraint_address,
}
use sol_mesh.State.{Node, Session, opened, settled, status_eq}
use sol_mesh.Message.{StateUpdate}
use sol_mesh.Runtime.{Chain, Tx, World, Lamports}
use sol_mesh.Accounts.{Loaded, load_config, load_node, load_session}
use sol_mesh.Shared.{
  pay_provider, verify_cosigned_state, pda_transfer_lamports, fee_for, reputation_reward,
}

-- The keys of the accounts that the instruction is given (`struct Settle`). The addresses of the
-- sysvar and of the system program are fixed, and their accounts carry no data of the model.
pub record Settle : Type 0 where
  pub config : ℕ
  pub node : ℕ
  pub session : ℕ
  pub provider : ℕ
  pub consumer : ℕ
  pub asset : ℕ
  pub fee_vault : ℕ
  pub payer : ℕ
  pub mpl_core_program : ℕ

-- The constraints of `struct Settle`.
unfoldable pub load_settle : Chain → Tx → World → Settle → Result Loaded
load_settle ch tx w k = do
  c ← load_config ch w k.config
  n ← load_node ch w k.node
  s ← load_session ch w k.session
  require (s.node == k.node) constraint_has_one
  require (s.provider == k.provider) constraint_has_one
  require (s.consumer == k.consumer) constraint_has_one
  require (k.asset == n.asset) constraint_address
  require (k.fee_vault == c.fee_vault) constraint_address
  require (tx.is_signer k.payer) account_not_signer
  require (k.mpl_core_program == c.mpl_core_program) constraint_address
  ok (record { config = c; node = n; session = s })

-- The refund, which only the final settlement makes.
abbrev pub refund_unless : Bool → Session → StateUpdate → Settle → Lamports → Result Lamports
refund_unless true s state k m = ok m
refund_unless false s state k m = do
  remainder ← ok_or (checked_sub s.deposited state.owed_to_provider) math_overflow
  pda_transfer_lamports k.session k.consumer remainder m

-- What `apply_state` writes to the session.
abbrev pub settled_session : Bool → Session → StateUpdate → Session
settled_session is_checkpoint s state = record s {
  settled_to_provider = state.owed_to_provider;
  last_nonce = state.nonce;
  pending_units = state.units_consumed;
  status = if is_checkpoint then s.status else settled;
}

-- The node and session that the instruction writes back, and the lamports.
unfoldable pub apply_state :
    Chain
    → Tx
    → Settle
    → Loaded
    → Lamports
    → StateUpdate
    → Bool
    → Result (Node × Session × Lamports)
apply_state ch tx k l m state is_checkpoint = do
  let s = l.session
  let n = l.node
  require (status_eq s.status opened) session_not_open
  require (is_none s.mint) spl_unsupported
  require (ltb s.last_nonce state.nonce) stale_nonce
  verify_cosigned_state ch s k.session state tx.sysvar
  payout_delta ← ok_or (checked_sub state.owed_to_provider s.settled_to_provider) owed_decreased
  fee ← fee_for payout_delta l.config.fee_bps
  provider_amount ← ok_or (checked_sub payout_delta fee) math_overflow
  new_units ←
      ok_or (checked_add n.total_units (saturating_sub state.units_consumed s.pending_units))
        math_overflow
  let new_rep = saturating_add_u32 n.reputation (reputation_reward state.units_consumed)
  m2 ← pay_provider k.session k.provider k.fee_vault provider_amount fee m
  m3 ← refund_unless is_checkpoint s state k m2
  total_settled ← ok_or (checked_add n.total_settled provider_amount) math_overflow
  ok (
    record n { reputation = new_rep; total_units = new_units; total_settled = total_settled },
    settled_session is_checkpoint s state,
    m3,
  )

-- `node` and `session` are `mut`, so they are written back; `config` is not.
unfoldable pub run_settle : Chain → Tx → World → Settle → StateUpdate → Bool → Result World
run_settle ch tx w k state is_checkpoint = do
  l ← load_settle ch tx w k
  (n, s, m) ← apply_state ch tx k l w.lamports state is_checkpoint
  ok (record w {
    nodes = update w.nodes k.node (some n);
    sessions = update w.sessions k.session (some s);
    lamports = m;
  })

unfoldable pub settle_session : Chain → Tx → World → Settle → StateUpdate → Result World
settle_session ch tx w k state = run_settle ch tx w k state false

unfoldable pub checkpoint_settle : Chain → Tx → World → Settle → StateUpdate → Result World
checkpoint_settle ch tx w k state = run_settle ch tx w k state true
