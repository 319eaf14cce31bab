-- ===== src/Spl/Effects.antt =====
-- What a token settlement or payout that goes through has done to node and session
-- (`apply_state_spl` and `finalize_close_spl_handler` of programs/solmesh/src/instructions/spl.rs).
use sol_mesh.Base.{◌≤◌, ◌<◌, ◌≡◌, ◌≢◌, Bool, none, some, arith}
use sol_mesh.Base.Int.{◌<ℤ◌}
use sol_mesh.Errors.{ok}
use sol_mesh.State.{Node, Session, opened, closing}
use sol_mesh.Message.{StateUpdate}
use sol_mesh.Runtime.{Chain, Tx, World, Tokens}
use sol_mesh.Accounts.{Loaded, load_config, load_node, load_session}
use sol_mesh.Shared.Cosigned.{IsCosigned, verify-IsCosigned}
use sol_mesh.Settle.{settled_session}
use sol_mesh.Dispute.{finalized_session}
use sol_mesh.Spl.{SettleSpl, load_settle_spl, apply_state_spl, finalize_handler_spl}

pub load_settle_spl-eq :
    (ch : Chain) (tx : Tx) (w : World) (k : SettleSpl) {l : Loaded}
    → load_settle_spl ch tx w k ≡ ok l
    → w.sessions k.session ≡ some l.session
unfolding load_settle_spl load_config load_node load_session
load_settle_spl-eq ch tx w k h = ground arith

module _ (ch : Chain) (tx : Tx) (k : SettleSpl) (l : Loaded) (m : Tokens) where
  -- The state that was accepted.
  pub record SettlesSpl (state : StateUpdate) (is_checkpoint : Bool) (n : Node) (s : Session)
      : Type 0 where
    pub was_open : l.session.status ≡ opened
    pub in_tokens : l.session.mint ≢ none
    pub fresh : l.session.last_nonce < state.nonce
    pub cosigned : IsCosigned ch l.session k.session state tx.sysvar
    pub session_after : s ≡ settled_session is_checkpoint l.session state

  pub apply_state_spl-SettlesSpl :
      (state : StateUpdate) (is_checkpoint : Bool) {n : Node} {s : Session} {m' : Tokens}
      → apply_state_spl ch tx k l m state is_checkpoint ≡ ok (n, s, m')
      → SettlesSpl state is_checkpoint n s
  unfolding apply_state_spl
  apply_state_spl-SettlesSpl state is_checkpoint h = record {
    was_open = ground arith;
    in_tokens = ground arith;
    fresh = ground arith;
    cosigned = verify-IsCosigned ch l.session k.session state tx.sysvar (ground arith);
    session_after = ground arith;
  }

  -- The payout of the pending state.
  pub record FinalizesSpl (n : Node) (s : Session) : Type 0 where
    pub was_closing : l.session.status ≡ closing
    pub in_tokens : l.session.mint ≢ none
    pub over : l.session.challenge_deadline <ℤ tx.now
    pub not_decreased : l.session.settled_to_provider ≤ l.session.pending_payout
    pub covered : l.session.pending_payout ≤ l.session.deposited
    pub session_after : s ≡ finalized_session l.session

  pub finalize_spl-FinalizesSpl :
      {n : Node} {s : Session} {m' : Tokens}
      → finalize_handler_spl ch tx k l m ≡ ok (n, s, m')
      → FinalizesSpl n s
  unfolding finalize_handler_spl
  finalize_spl-FinalizesSpl h = ground arith
