-- ===== src/Dispute/Effects.antt =====
-- What a unilateral close, a challenge and a payout that go through have done
-- (programs/solmesh/src/instructions/dispute.rs).
use sol_mesh.Base.{Option-cases, some, ℕ, ◌+◌, ◌-◌, ◌≤◌, ◌<◌, ◌≡◌, ◌⊎◌, inl, inr, arith}
use sol_mesh.Base.Int.{ℤ, ◌<ℤ◌, ◌≤ℤ◌, checked_add_i64}
use sol_mesh.Errors.{ok, Result-cases}
use sol_mesh.State.{Config, Node, Session, opened, closing}
use sol_mesh.Message.{StateUpdate}
use sol_mesh.Runtime.{Chain, Tx, World, Lamports}
use sol_mesh.Accounts.{Loaded, load_config, load_session}
use sol_mesh.Shared.{fee_for, pay_provider}
use sol_mesh.Shared.Cosigned.{IsCosigned, verify-IsCosigned}
use sol_mesh.Shared.Transfer.{amount_if, pda_transfer-balance, pay_provider-balance}
use sol_mesh.Dispute.{
  UnilateralClose, FinalizeClose, load_unilateral, initiate_handler, challenge_handler,
  finalize_handler, finalized_session,
}

pub load_unilateral-eq :
    (ch : Chain) (tx : Tx) (w : World) (k : UnilateralClose) {c : Config} {s : Session}
    → load_unilateral ch tx w k ≡ ok (c, s)
    → w.sessions k.session ≡ some s
unfolding load_unilateral load_config load_session
load_unilateral-eq ch tx w k h = ground arith

module _ (ch : Chain) (tx : Tx) (k : UnilateralClose) (c : Config) (s : Session)
    (state : StateUpdate) where
  -- The first posted state was better than the last, came from a party, and starts the window.
  pub record Initiates (s' : Session) : Type 0 where
    pub by_party : (k.caller ≡ s.provider) ⊎ (k.caller ≡ s.consumer)
    pub was_open : s.status ≡ opened
    pub fresh : s.last_nonce < state.nonce
    pub cosigned : IsCosigned ch s k.session state tx.sysvar
    pub deadline : ℤ
    pub deadline_set : checked_add_i64 tx.now c.challenge_window_secs ≡ some deadline
    pub session_after : s' ≡ record s {
      status = closing;
      last_nonce = state.nonce;
      pending_payout = state.owed_to_provider;
      pending_units = state.units_consumed;
      challenge_deadline = deadline;
    }

  -- A better state was posted within the window.
  pub record Challenges (s' : Session) : Type 0 where
    pub was_closing : s.status ≡ closing
    pub in_time : tx.now ≤ℤ s.challenge_deadline
    pub fresh : s.last_nonce < state.nonce
    pub cosigned : IsCosigned ch s k.session state tx.sysvar
    pub session_after : s' ≡ record s {
      last_nonce = state.nonce;
      pending_payout = state.owed_to_provider;
      pending_units = state.units_consumed;
    }

  pub initiate-Initiates :
      {s' : Session} → initiate_handler ch tx k c s state ≡ ok s' → Initiates s'
  unfolding initiate_handler
  initiate-Initiates h = elim (Option-cases (checked_add_i64 tx.now c.challenge_window_secs)) [
    | inl failed ↦ absurd (ground arith)
    | inr (deadline, set) ↦ record {
      by_party = ground arith;
      was_open = ground arith;
      fresh = ground arith;
      cosigned = verify-IsCosigned ch s k.session state tx.sysvar (ground arith);
      deadline = deadline;
      deadline_set = set;
      session_after = ground arith;
    }
  ]

  pub challenge-Challenges :
      {s' : Session} → challenge_handler ch tx k s state ≡ ok s' → Challenges s'
  unfolding challenge_handler
  challenge-Challenges h = record {
    was_closing = ground arith;
    in_time = ground arith;
    fresh = ground arith;
    cosigned = verify-IsCosigned ch s k.session state tx.sysvar (ground arith);
    session_after = ground arith;
  }

module _ (tx : Tx) (k : FinalizeClose) (l : Loaded) (m : Lamports) where
  -- The payout of the pending state.
  pub record Finalizes (n : Node) (s : Session) (m' : Lamports) : Type 0 where
    pub was_closing : l.session.status ≡ closing
    pub over : l.session.challenge_deadline <ℤ tx.now
    pub not_decreased : l.session.settled_to_provider ≤ l.session.pending_payout
    pub covered : l.session.pending_payout ≤ l.session.deposited
    pub fee : ℕ
    pub fee_charged :
        fee_for (l.session.pending_payout - l.session.settled_to_provider) l.config.fee_bps ≡ ok fee
    pub fee_covered : fee ≤ l.session.pending_payout - l.session.settled_to_provider
    pub session_after : s ≡ finalized_session l.session
    pub units_counted : n.total_units ≡ l.node.total_units + l.session.pending_units
    pub provider_paid :
        n.total_settled + fee + l.session.settled_to_provider
        ≡ l.node.total_settled + l.session.pending_payout
    pub balances :
        (j : ℕ)
        → m' j + amount_if j k.session (l.session.deposited - l.session.settled_to_provider)
          ≡ m j
            + amount_if j k.provider
                (l.session.pending_payout - l.session.settled_to_provider - fee)
            + amount_if j k.fee_vault fee
            + amount_if j k.consumer (l.session.deposited - l.session.pending_payout)

  pub finalize-Finalizes :
      {n : Node} {s : Session} {m' : Lamports}
      → finalize_handler tx k l m ≡ ok (n, s, m')
      → Finalizes n s m'
  unfolding finalize_handler
  finalize-Finalizes {m'} h = elim (Result-cases (fee_for delta l.config.fee_bps)) [
    | inl (e, failed) ↦ absurd (ground arith)
    | inr (fee, charged) ↦
        elim (Result-cases (pay_provider k.session k.provider k.fee_vault (delta - fee) fee m)) [
          | inl (e, failed) ↦ absurd (ground arith)
          | inr (m2, paid) ↦ record {
            was_closing = ground arith;
            over = ground arith;
            not_decreased = ground arith;
            covered = ground arith;
            fee = fee;
            fee_charged = charged;
            fee_covered = ground arith;
            session_after = ground arith;
            units_counted = ground arith;
            provider_paid = ground arith;
            balances = λ j. ground (
              arith,
              pay_provider-balance k.session k.provider k.fee_vault (delta - fee) fee m j paid,
              pda_transfer-balance k.session k.consumer
                  (l.session.deposited - l.session.pending_payout) m2 {m' = m'} j,
            );
          }
        ]
  ]
    where
      delta : ℕ
      delta = l.session.pending_payout - l.session.settled_to_provider
