-- ===== src/Settle/Payable.antt =====
-- That a settlement or a checkpoint goes through (`apply_state` of settle.rs).
use sol_mesh.Base.{ℕ, ◌+◌, ◌-◌, ◌*◌, ◌/◌, ◌≤◌, ◌<◌, ◌≡◌, ◌≢◌, Bool, true, false, none, arith}
use sol_mesh.Base.Words.{IsU64, saturating_add_u32, saturating_sub}
use sol_mesh.Errors.{ok}
use sol_mesh.Constants.{max_fee_bps}
use sol_mesh.State.{Node, opened, Session}
use sol_mesh.Message.{StateUpdate}
use sol_mesh.Runtime.{Chain, Tx, Lamports}
use sol_mesh.Accounts.{Loaded}
use sol_mesh.Shared.{reputation_reward, fee_for, pay_provider, verify_cosigned_state}
use sol_mesh.Shared.Cosigned.{verify-IsCosigned}
use sol_mesh.Shared.Fees.{fee_for_exact, fee_for_bounds}
use sol_mesh.Shared.Transfer.{moved, pay_provider_ok, pay_provider-balance, pda_transfer_ok}
use sol_mesh.Settle.{Settle, apply_state, refund_unless, settled_session}

-- Room in the accounts that are paid: no balance or counter overflows by this settlement.
pub record HasRoom (k : Settle) (l : Loaded) (state : StateUpdate) (m : Lamports) : Type 0 where
  pub provider_room : IsU64 (m k.provider + l.session.deposited)
  pub vault_room : IsU64 (m k.fee_vault + l.session.deposited)
  pub consumer_room : IsU64 (m k.consumer + (l.session.deposited + l.session.deposited))
  pub units_room : IsU64 (l.node.total_units + state.units_consumed)
  pub settled_room : IsU64 (l.node.total_settled + l.session.deposited)
  pub provider_apart : k.session ≢ k.provider
  pub vault_apart : k.session ≢ k.fee_vault
  pub consumer_apart : k.session ≢ k.consumer

-- The node after a settlement on which a fee was charged.
abbrev pub credited : Loaded → StateUpdate → ℕ → Node
credited l state fee = record l.node {
  reputation = saturating_add_u32 l.node.reputation (reputation_reward state.units_consumed);
  total_units = l.node.total_units + saturating_sub state.units_consumed l.session.pending_units;
  total_settled =
      l.node.total_settled + (state.owed_to_provider - l.session.settled_to_provider - fee);
}

apply_state-eq :
    (ch : Chain) (tx : Tx) (k : Settle) (l : Loaded) (m : Lamports) (state : StateUpdate)
    (cp : Bool) (fee : ℕ) (m2 m3 : Lamports)
    → let delta = state.owed_to_provider - l.session.settled_to_provider in
      l.session.status ≡ opened
      → l.session.mint ≡ none
      → l.session.last_nonce < state.nonce
      → verify_cosigned_state ch l.session k.session state tx.sysvar ≡ ok tt
      → l.session.settled_to_provider ≤ state.owed_to_provider
      → fee ≤ delta
      → IsU64 (l.node.total_units + saturating_sub state.units_consumed l.session.pending_units)
      → IsU64 (l.node.total_settled + (delta - fee))
      → fee_for delta l.config.fee_bps ≡ ok fee
      → pay_provider k.session k.provider k.fee_vault (delta - fee) fee m ≡ ok m2
      → refund_unless cp l.session state k m2 ≡ ok m3
      → apply_state ch tx k l m state cp
        ≡ ok (credited l state fee, settled_session cp l.session state, m3)
unfolding apply_state
apply_state-eq ch tx k l m state cp fee m2 m3 status native fresh signed lo le units total charged
      paid refunded =
    ground arith

-- The refund goes through where the session holds it.
refund_goes_through :
    (cp : Bool) (s : Session) (state : StateUpdate) (k : Settle) (m : Lamports)
    → state.owed_to_provider ≤ s.deposited
    → k.session ≢ k.consumer
    → s.deposited - state.owed_to_provider ≤ m k.session
    → IsU64 (m k.consumer + (s.deposited - state.owed_to_provider))
    → (m' : Lamports) × (refund_unless cp s state k m ≡ ok m')
refund_goes_through true s state k m hi apart cover room = (m, ground arith)
refund_goes_through false s state k m hi apart cover room = (
  moved k.session k.consumer (s.deposited - state.owed_to_provider) m,
  ground (
    arith,
    pda_transfer_ok k.session k.consumer (s.deposited - state.owed_to_provider) m apart cover room,
  ),
)

-- A state that both parties have signed goes through, if the session is open, in lamports and holds its
-- unsettled deposit, the state is newer, the fee rate is within its bound, the paid accounts are
-- other accounts than the session, and nothing overflows.
pub apply_state_goes_through :
    (ch : Chain) (tx : Tx) (k : Settle) (l : Loaded) (m : Lamports) (state : StateUpdate)
    (cp : Bool)
    → l.session.status ≡ opened
    → l.session.mint ≡ none
    → l.session.last_nonce < state.nonce
    → verify_cosigned_state ch l.session k.session state tx.sysvar ≡ ok tt
    → l.session.deposited ≤ m k.session + l.session.settled_to_provider
    → l.config.fee_bps ≤ max_fee_bps
    → HasRoom k l state m
    → (n : Node) × (m' : Lamports) × (apply_state ch tx k l m state cp
        ≡ ok (n, settled_session cp l.session state, m'))
apply_state_goes_through ch tx k l m state cp status native fresh signed solvent cap room =
    let c = verify-IsCosigned ch l.session k.session state tx.sysvar signed in
    let delta = state.owed_to_provider - l.session.settled_to_provider in
    let fee = delta * l.config.fee_bps / 10000 in
    let m2 = moved k.session k.fee_vault fee (moved k.session k.provider (delta - fee) m) in
    let small : IsU64 delta = omega (arith, room.settled_room, c.covered) in
    let charged = fee_for_exact delta l.config.fee_bps small cap in
    let bound = fee_for_bounds delta l.config.fee_bps small cap charged in
    let paid =
      pay_provider_ok k.session k.provider k.fee_vault (delta - fee) fee m room.provider_apart
        room.vault_apart (omega (arith, c.covered, bound))
        (omega (arith, room.provider_room, c.covered))
        (omega (arith, room.vault_room, c.covered, bound)) in
    let b =
      pay_provider-balance k.session k.provider k.fee_vault (delta - fee) fee m k.session paid in
    let d =
      pay_provider-balance k.session k.provider k.fee_vault (delta - fee) fee m k.consumer paid in
    let (m3, refunded) =
      refund_goes_through cp l.session state k m2 c.covered room.consumer_apart
        (ground (arith, b, c.covered, c.not_decreased, bound))
        (ground (arith, d, room.consumer_room, c.covered)) in
    (
      credited l state fee,
      m3,
      apply_state-eq ch tx k l m state cp fee m2 m3 status native fresh signed c.not_decreased
          (omega (arith, bound)) (ground (arith, room.units_room))
          (omega (arith, room.settled_room, c.covered)) charged paid refunded,
    )
