-- ===== src/Dispute.antt =====
-- programs/solmesh/src/instructions/dispute.rs: the unilateral close, its challenges, and the
-- payout once the challenge window has passed.
pub mod Effects
pub mod Window
pub mod Payable
pub mod Units
use sol_mesh.Base.{ℕ, ◌==◌, ◌||◌, ltb, some, update}
use sol_mesh.Base.Int.{ltb_ℤ, leb_ℤ, checked_add_i64}
use sol_mesh.Base.Words.{checked_add, checked_sub, saturating_add_u32}
use sol_mesh.Errors.{
  Result, ok, ◌>>=◌, ◌>>◌, require, ok_or, unauthorized, session_not_open, session_not_closing,
  stale_nonce, nonce_not_increasing, challenge_window_open, challenge_window_closed, owed_decreased,
  math_overflow, account_not_signer, constraint_has_one,
}
use sol_mesh.State.{Config, Node, Session, opened, closing, settled, status_eq}
use sol_mesh.Message.{StateUpdate}
use sol_mesh.Runtime.{Chain, Tx, World, Lamports}
use sol_mesh.Shared.{
  verify_cosigned_state, pda_transfer_lamports, pay_provider, fee_for, reputation_reward,
}
use sol_mesh.Accounts.{Loaded, load_config, load_session}
use sol_mesh.Settle.{Settle, load_settle}

-- The keys of `struct UnilateralClose`.
pub record UnilateralClose : Type 0 where
  pub config : ℕ
  pub session : ℕ
  pub provider : ℕ
  pub consumer : ℕ
  pub caller : ℕ

unfoldable pub load_unilateral : Chain → Tx → World → UnilateralClose → Result (Config × Session)
load_unilateral ch tx w k = do
  c ← load_config ch w k.config
  s ← load_session ch w k.session
  require (s.provider == k.provider) constraint_has_one
  require (s.consumer == k.consumer) constraint_has_one
  require (tx.is_signer k.caller) account_not_signer
  ok (c, s)

-- The session that the first posted state leaves.
unfoldable pub initiate_handler :
    Chain → Tx → UnilateralClose → Config → Session → StateUpdate → Result Session
initiate_handler ch tx k c s state = do
  require (k.caller == s.provider || k.caller == s.consumer) unauthorized
  require (status_eq s.status opened) session_not_open
  require (ltb s.last_nonce state.nonce) stale_nonce
  verify_cosigned_state ch s k.session state tx.sysvar
  deadline ← ok_or (checked_add_i64 tx.now c.challenge_window_secs) math_overflow
  ok (record s {
    status = closing;
    last_nonce = state.nonce;
    pending_payout = state.owed_to_provider;
    pending_units = state.units_consumed;
    challenge_deadline = deadline;
  })

unfoldable pub challenge_handler :
    Chain → Tx → UnilateralClose → Session → StateUpdate → Result Session
challenge_handler ch tx k s state = do
  require (status_eq s.status closing) session_not_closing
  require (leb_ℤ tx.now s.challenge_deadline) challenge_window_closed
  require (ltb s.last_nonce state.nonce) nonce_not_increasing
  verify_cosigned_state ch s k.session state tx.sysvar
  ok (record s {
    last_nonce = state.nonce;
    pending_payout = state.owed_to_provider;
    pending_units = state.units_consumed;
  })

unfoldable pub initiate_unilateral_close :
    Chain → Tx → World → UnilateralClose → StateUpdate → Result World
initiate_unilateral_close ch tx w k state = do
  (c, s) ← load_unilateral ch tx w k
  s' ← initiate_handler ch tx k c s state
  ok (record w { sessions = update w.sessions k.session (some s') })

unfoldable pub challenge : Chain → Tx → World → UnilateralClose → StateUpdate → Result World
challenge ch tx w k state = do
  (c, s) ← load_unilateral ch tx w k
  s' ← challenge_handler ch tx k s state
  ok (record w { sessions = update w.sessions k.session (some s') })

-- `struct FinalizeClose` has the accounts and constraints of `struct Settle`, without the sysvar.
abbrev pub FinalizeClose : Type 0
FinalizeClose = Settle

-- What `finalize_handler` writes to the session.
abbrev pub finalized_session : Session → Session
finalized_session s = record s { settled_to_provider = s.pending_payout; status = settled }

unfoldable pub finalize_handler :
    Tx → FinalizeClose → Loaded → Lamports → Result (Node × Session × Lamports)
finalize_handler tx k l m = do
  let s = l.session
  let n = l.node
  require (status_eq s.status closing) session_not_closing
  require (ltb_ℤ s.challenge_deadline tx.now) challenge_window_open
  let owed = s.pending_payout
  let units = s.pending_units
  payout_delta ← ok_or (checked_sub owed s.settled_to_provider) owed_decreased
  fee ← fee_for payout_delta l.config.fee_bps
  provider_amount ← ok_or (checked_sub payout_delta fee) math_overflow
  m2 ← pay_provider k.session k.provider k.fee_vault provider_amount fee m
  new_units ← ok_or (checked_add n.total_units units) math_overflow
  let new_rep = saturating_add_u32 n.reputation (reputation_reward units)
  total_settled ← ok_or (checked_add n.total_settled provider_amount) math_overflow
  remainder ← ok_or (checked_sub s.deposited owed) math_overflow
  m3 ← pda_transfer_lamports k.session k.consumer remainder m2
  ok (
    record n { reputation = new_rep; total_units = new_units; total_settled = total_settled },
    finalized_session s,
    m3,
  )

unfoldable pub finalize_close : Chain → Tx → World → FinalizeClose → Result World
finalize_close ch tx w k = do
  l ← load_settle ch tx w k
  (n, s, m) ← finalize_handler tx k l w.lamports
  ok (record w {
    nodes = update w.nodes k.node (some n);
    sessions = update w.sessions k.session (some s);
    lamports = m;
  })
