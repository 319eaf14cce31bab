-- ===== src/Settle/Effects.antt =====
-- What a settlement or a checkpoint that goes through has done
-- (`apply_state` of programs/solmesh/src/instructions/settle.rs).
use sol_mesh.Base.{some, ℕ, ◌+◌, ◌-◌, ◌≤◌, ◌<◌, ◌≡◌, Bool, true, false, inl, inr, none, arith}
use sol_mesh.Errors.{ok, Result-cases}
use sol_mesh.State.{Node, Session, opened}
use sol_mesh.Message.{StateUpdate}
use sol_mesh.Runtime.{Chain, Tx, World, Lamports}
use sol_mesh.Accounts.{load_config, load_node, load_session, Loaded}
use sol_mesh.Shared.{verify_cosigned_state, fee_for, pay_provider}
use sol_mesh.Shared.Cosigned.{IsCosigned, verify-IsCosigned}
use sol_mesh.Shared.Transfer.{amount_if, pda_transfer-balance, pay_provider-balance}
use sol_mesh.Settle.{load_settle, Settle, refund_unless, settled_session, apply_state}

-- The consumer's refund: all that is not owed, and nothing at a checkpoint.
abbrev pub refund_of : Bool → Session → StateUpdate → ℕ
refund_of true s state = 0
refund_of false s state = s.deposited - state.owed_to_provider

refund_unless-balance :
    (is_checkpoint : Bool) (s : Session) (state : StateUpdate) (k : Settle) (m : Lamports)
    {m' : Lamports} (j : ℕ)
    → refund_unless is_checkpoint s state k m ≡ ok m'
    → let refund = refund_of is_checkpoint s state in
      m' j + amount_if j k.session refund ≡ m j + amount_if j k.consumer refund
refund_unless-balance true s state k m j h = ground arith
refund_unless-balance false s state k m {m'} j h = ground (
  arith,
  pda_transfer-balance k.session k.consumer (s.deposited - state.owed_to_provider) m {m' = m'} j,
)

module _ (ch : Chain) (tx : Tx) (k : Settle) (l : Loaded) (m : Lamports) (state : StateUpdate)
    (is_checkpoint : Bool) where
  -- The state that was accepted, and what it moved.
  pub record Settles (n : Node) (s : Session) (m' : Lamports) : Type 0 where
    pub was_open : l.session.status ≡ opened
    pub native : l.session.mint ≡ none
    pub fresh : l.session.last_nonce < state.nonce
    pub cosigned : IsCosigned ch l.session k.session state tx.sysvar
    pub fee : ℕ
    pub fee_charged :
        fee_for (state.owed_to_provider - l.session.settled_to_provider) l.config.fee_bps ≡ ok fee
    pub fee_covered : fee ≤ state.owed_to_provider - l.session.settled_to_provider
    pub session_after : s ≡ settled_session is_checkpoint l.session state
    pub provider_paid :
        n.total_settled + fee + l.session.settled_to_provider
        ≡ l.node.total_settled + state.owed_to_provider
    pub balances :
        (j : ℕ)
        → m' j
            + amount_if j k.session (
                state.owed_to_provider
                - l.session.settled_to_provider
                + refund_of is_checkpoint l.session state)
          ≡ m j
            + amount_if j k.provider (state.owed_to_provider - l.session.settled_to_provider - fee)
            + amount_if j k.fee_vault fee
            + amount_if j k.consumer (refund_of is_checkpoint l.session state)

  pub apply_state-Settles :
      {n : Node} {s : Session} {m' : Lamports}
      → apply_state ch tx k l m state is_checkpoint ≡ ok (n, s, m')
      → Settles n s m'
  unfolding apply_state
  apply_state-Settles {m'} h = elim (Result-cases (fee_for delta l.config.fee_bps)) [
    | inl (e, failed) ↦ absurd (ground arith)
    | inr (fee, charged) ↦
        elim (Result-cases (pay_provider k.session k.provider k.fee_vault (delta - fee) fee m)) [
          | inl (e, failed) ↦ absurd (ground arith)
          | inr (m2, paid) ↦
              elim (Result-cases (verify_cosigned_state ch l.session k.session state tx.sysvar)) [
                | inl (e, failed) ↦ absurd (ground arith)
                | inr (u, signed) ↦ record {
                  was_open = ground arith;
                  native = ground arith;
                  fresh = ground arith;
                  cosigned = verify-IsCosigned ch l.session k.session state tx.sysvar signed;
                  fee = fee;
                  fee_charged = charged;
                  fee_covered = ground arith;
                  session_after = ground arith;
                  provider_paid = ground arith;
                  balances = λ j. ground (
                    arith,
                    pay_provider-balance k.session k.provider k.fee_vault (delta - fee) fee m j
                        paid,
                    refund_unless-balance is_checkpoint l.session state k m2 {m' = m'} j,
                  );
                }
              ]
        ]
  ]
    where
      delta : ℕ
      delta = state.owed_to_provider - l.session.settled_to_provider

-- What the account constraints of a settlement have established.
pub record IsLoaded (w : World) (k : Settle) (l : Loaded) : Type 0 where
  pub config_read : w.configs k.config ≡ some l.config
  pub node_read : w.nodes k.node ≡ some l.node
  pub session_read : w.sessions k.session ≡ some l.session
  pub same_node : l.session.node ≡ k.node
  pub same_provider : l.session.provider ≡ k.provider
  pub same_consumer : l.session.consumer ≡ k.consumer
  pub same_vault : k.fee_vault ≡ l.config.fee_vault

pub load_settle-IsLoaded :
    (ch : Chain) (tx : Tx) (w : World) (k : Settle) {l : Loaded}
    → load_settle ch tx w k ≡ ok l
    → IsLoaded w k l
unfolding load_settle load_config load_node load_session
load_settle-IsLoaded ch tx w k h = ground arith
