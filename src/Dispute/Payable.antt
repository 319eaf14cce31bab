-- ===== src/Dispute/Payable.antt =====
-- That a payout after the window goes through (`finalize_handler` of dispute.rs).
use sol_mesh.Base.{ℕ, ◌+◌, ◌-◌, ◌*◌, ◌/◌, ◌≤◌, ◌≡◌, ◌≢◌, arith}
use sol_mesh.Base.Int.{◌<ℤ◌}
use sol_mesh.Base.Words.{IsU64, saturating_add_u32}
use sol_mesh.Errors.{ok}
use sol_mesh.Constants.{max_fee_bps}
use sol_mesh.State.{Node, closing}
use sol_mesh.Runtime.{Tx, Lamports}
use sol_mesh.Accounts.{Loaded}
use sol_mesh.Shared.{reputation_reward, fee_for, pay_provider, pda_transfer_lamports}
use sol_mesh.Shared.Fees.{fee_for_exact, fee_for_bounds}
use sol_mesh.Shared.Transfer.{moved, pay_provider_ok, pay_provider-balance, pda_transfer_ok}
use sol_mesh.Dispute.{FinalizeClose, finalize_handler, finalized_session}

-- Room in the accounts that are paid: no balance or counter overflows by this payout.
pub record HasRoom (k : FinalizeClose) (l : Loaded) (m : Lamports) : Type 0 where
  pub provider_room : IsU64 (m k.provider + l.session.deposited)
  pub vault_room : IsU64 (m k.fee_vault + l.session.deposited)
  pub consumer_room : IsU64 (m k.consumer + (l.session.deposited + l.session.deposited))
  pub units_room : IsU64 (l.node.total_units + l.session.pending_units)
  pub settled_room : IsU64 (l.node.total_settled + l.session.deposited)
  pub provider_apart : k.session ≢ k.provider
  pub vault_apart : k.session ≢ k.fee_vault
  pub consumer_apart : k.session ≢ k.consumer

-- The node after a payout on which a fee was charged.
abbrev pub credited : Loaded → ℕ → Node
credited l fee = record l.node {
  reputation = saturating_add_u32 l.node.reputation (reputation_reward l.session.pending_units);
  total_units = l.node.total_units + l.session.pending_units;
  total_settled =
      l.node.total_settled + (l.session.pending_payout - l.session.settled_to_provider - fee);
}

finalize_handler-eq :
    (tx : Tx) (k : FinalizeClose) (l : Loaded) (m : Lamports) (fee : ℕ) (m2 m3 : Lamports)
    → let delta = l.session.pending_payout - l.session.settled_to_provider in
      l.session.status ≡ closing
      → l.session.challenge_deadline <ℤ tx.now
      → l.session.settled_to_provider ≤ l.session.pending_payout
      → l.session.pending_payout ≤ l.session.deposited
      → fee ≤ delta
      → IsU64 (l.node.total_units + l.session.pending_units)
      → IsU64 (l.node.total_settled + (delta - fee))
      → fee_for delta l.config.fee_bps ≡ ok fee
      → pay_provider k.session k.provider k.fee_vault (delta - fee) fee m ≡ ok m2
      → pda_transfer_lamports k.session k.consumer
          (l.session.deposited - l.session.pending_payout)
          m2
        ≡ ok m3
      → finalize_handler tx k l m ≡ ok (credited l fee, finalized_session l.session, m3)
unfolding finalize_handler
finalize_handler-eq tx k l m fee m2 m3 status over lo hi le units total charged paid refunded =
    ground arith

-- Once the window is over, the payout of a closing session goes through, if the session holds its
-- unsettled deposit, its pending payout lies between what was settled and the deposit, the fee rate
-- is within its bound, the paid accounts are other accounts than the session, and nothing overflows.
pub finalize_goes_through :
    (tx : Tx) (k : FinalizeClose) (l : Loaded) (m : Lamports)
    → l.session.status ≡ closing
    → l.session.challenge_deadline <ℤ tx.now
    → l.session.settled_to_provider ≤ l.session.pending_payout
    → l.session.pending_payout ≤ l.session.deposited
    → l.session.deposited ≤ m k.session + l.session.settled_to_provider
    → l.config.fee_bps ≤ max_fee_bps
    → HasRoom k l m
    → (n : Node) × (m' : Lamports) × (finalize_handler tx k l m
        ≡ ok (n, finalized_session l.session, m'))
finalize_goes_through tx k l m status over lo hi solvent cap room =
    let delta = l.session.pending_payout - l.session.settled_to_provider in
    let fee = delta * l.config.fee_bps / 10000 in
    let rest = l.session.deposited - l.session.pending_payout in
    let m2 = moved k.session k.fee_vault fee (moved k.session k.provider (delta - fee) m) in
    let small : IsU64 delta = omega (arith, room.settled_room) in
    let charged = fee_for_exact delta l.config.fee_bps small cap in
    let bound = fee_for_bounds delta l.config.fee_bps small cap charged in
    let paid =
      pay_provider_ok k.session k.provider k.fee_vault (delta - fee) fee m room.provider_apart
        room.vault_apart (omega arith) (omega (arith, room.provider_room))
        (omega (arith, room.vault_room)) in
    let b =
      pay_provider-balance k.session k.provider k.fee_vault (delta - fee) fee m k.session paid in
    let c =
      pay_provider-balance k.session k.provider k.fee_vault (delta - fee) fee m k.consumer paid in
    let refunded =
      pda_transfer_ok k.session k.consumer rest m2 room.consumer_apart (ground (arith, b))
        (ground (arith, c, room.consumer_room)) in
    (
      credited l fee,
      moved k.session k.consumer rest m2,
      finalize_handler-eq tx k l m fee m2 (moved k.session k.consumer rest m2) status over lo hi
          (omega (arith, bound)) room.units_room (omega (arith, room.settled_room)) charged paid
          refunded,
    )
