-- ===== src/Protocol/Payouts.antt =====
-- Settlement, checkpoint and payout after a dispute as edges of the state machine
-- (settle.rs, `finalize_handler` of dispute.rs, and their twins in spl.rs).
use sol_mesh.Base.{◌≤◌, ◌<◌, ◌≡◌, refl, subst, inl, inr, Bool, true, false, some, update, arith}
use sol_mesh.Errors.{ok, Result-cases}
use sol_mesh.State.{Node, Session, opened}
use sol_mesh.Message.{StateUpdate}
use sol_mesh.Runtime.{Chain, Tx, World, Lamports, Tokens}
use sol_mesh.Accounts.{Loaded}
use sol_mesh.Settle.{Settle, load_settle, settled_session, apply_state, run_settle}
use sol_mesh.Settle.Effects.{Settles, apply_state-Settles, load_settle-IsLoaded}
use sol_mesh.Spl.{
  SettleSpl, FinalizeCloseSpl, load_settle_spl, apply_state_spl, run_settle_spl, store_spl,
  finalize_handler_spl, finalize_close_spl,
}
use sol_mesh.Spl.Effects.{
  load_settle_spl-eq, SettlesSpl, FinalizesSpl, apply_state_spl-SettlesSpl,
  finalize_spl-FinalizesSpl,
}
use sol_mesh.Dispute.{FinalizeClose, finalize_handler, finalize_close}
use sol_mesh.Dispute.Effects.{Finalizes, finalize-Finalizes}
use sol_mesh.Protocol.Edges.{Edge, checkpoint, settle, finalize, Writes, WritesAt}

accepted-Edge :
    (is_checkpoint : Bool) (s : Session) (state : StateUpdate)
    → s.status ≡ opened
    → s.last_nonce < state.nonce
    → s.settled_to_provider ≤ state.owed_to_provider
    → state.owed_to_provider ≤ s.deposited
    → Edge s (settled_session is_checkpoint s state)
accepted-Edge true s state o n lo hi = checkpoint o o n lo hi
accepted-Edge false s state o n lo hi = settle o refl n lo hi

-- What a payout in lamports stores.
abbrev stored_settlement : World → Settle → Node → Session → Lamports → World
stored_settlement w k n s m = record w {
  nodes = update w.nodes k.node (some n);
  sessions = update w.sessions k.session (some s);
  lamports = m;
}

module _ (ch : Chain) (tx : Tx) (w : World) (k : Settle) (state : StateUpdate)
    (is_checkpoint : Bool) where
  settlement-Writes :
      (l : Loaded) (n : Node) (s : Session) (m : Lamports)
      → w.sessions k.session ≡ some l.session
      → Settles ch tx k l w.lamports state is_checkpoint n s m
      → Writes w (stored_settlement w k n s m) k.session l.session s
  settlement-Writes l n s m read h = record {
    loaded = read;
    stored = refl;
    same_terms = rw h.session_after refl;
    edge = rw h.session_after (
        accepted-Edge is_checkpoint l.session state h.was_open h.fresh h.cosigned.not_decreased
          h.cosigned.covered);
    kept = λ j ne. ground (arith, h.balances j);
    escrow = λ live. ground (arith, h.balances k.session, h.cosigned);
  }

  pub run_settle-WritesAt :
      {w' : World} → run_settle ch tx w k state is_checkpoint ≡ ok w' → WritesAt w w' k.session
  unfolding run_settle
  run_settle-WritesAt {w'} h = elim (Result-cases (load_settle ch tx w k)) [
    | inl (e, failed) ↦ absurd (ground arith)
    | inr (l, read) ↦ elim (Result-cases (apply_state ch tx k l w.lamports state is_checkpoint)) [
      | inl (e, failed) ↦ absurd (ground arith)
      | inr ((n, s, m), applied) ↦
          subst (λ (v : World). WritesAt w v k.session) {x = stored_settlement w k n s m}
            (ground arith)
            (
              l.session,
              s,
              (settlement-Writes l n s m (load_settle-IsLoaded ch tx w k read).session_read
                  (apply_state-Settles ch tx k l w.lamports state is_checkpoint applied)),
            )
    ]
  ]

module _ (ch : Chain) (tx : Tx) (w : World) (k : SettleSpl) (state : StateUpdate)
    (is_checkpoint : Bool) where
  pub run_settle_spl-WritesAt :
      {w' : World} → run_settle_spl ch tx w k state is_checkpoint ≡ ok w' → WritesAt w w' k.session
  unfolding run_settle_spl
  run_settle_spl-WritesAt {w'} h = elim (Result-cases (load_settle_spl ch tx w k)) [
    | inl (e, failed) ↦ absurd (ground arith)
    | inr (l, read) ↦ elim (Result-cases (apply_state_spl ch tx k l w.tokens state is_checkpoint)) [
      | inl (e, failed) ↦ absurd (ground arith)
      | inr ((n, s, m), applied) ↦
          subst (λ (v : World). WritesAt w v k.session) {x = store_spl w k (n, s, m)} (ground arith)
            (
              l.session,
              s,
              (after l n s m (load_settle_spl-eq ch tx w k read)
                  (apply_state_spl-SettlesSpl ch tx k l w.tokens state is_checkpoint applied)),
            )
    ]
  ]
    where
      after :
          (l : Loaded) (n : Node) (s : Session) (m : Tokens)
          → w.sessions k.session ≡ some l.session
          → SettlesSpl ch tx k l w.tokens state is_checkpoint n s
          → Writes w (store_spl w k (n, s, m)) k.session l.session s
      after l n s m read a = record {
        loaded = read;
        stored = refl;
        same_terms = rw a.session_after refl;
        edge = rw a.session_after (
            accepted-Edge is_checkpoint l.session state a.was_open a.fresh a.cosigned.not_decreased
              a.cosigned.covered);
        kept = λ j ne. omega arith;
        escrow = λ live. ground (arith, a.cosigned);
      }

module _ (ch : Chain) (tx : Tx) (w : World) (k : FinalizeClose) where
  pub finalize_close-WritesAt :
      {w' : World} → finalize_close ch tx w k ≡ ok w' → WritesAt w w' k.session
  unfolding finalize_close
  finalize_close-WritesAt {w'} h = elim (Result-cases (load_settle ch tx w k)) [
    | inl (e, failed) ↦ absurd (ground arith)
    | inr (l, read) ↦ elim (Result-cases (finalize_handler tx k l w.lamports)) [
      | inl (e, failed) ↦ absurd (ground arith)
      | inr ((n, s, m), applied) ↦
          subst (λ (v : World). WritesAt w v k.session) {x = stored_settlement w k n s m}
            (ground arith)
            (
              l.session,
              s,
              (after l n s m (load_settle-IsLoaded ch tx w k read).session_read
                  (finalize-Finalizes tx k l w.lamports applied)),
            )
    ]
  ]
    where
      after :
          (l : Loaded) (n : Node) (s : Session) (m : Lamports)
          → w.sessions k.session ≡ some l.session
          → Finalizes tx k l w.lamports n s m
          → Writes w (stored_settlement w k n s m) k.session l.session s
      after l n s m read a = record {
        loaded = read;
        stored = refl;
        same_terms = rw a.session_after refl;
        edge = rw a.session_after (finalize a.was_closing refl refl refl a.not_decreased a.covered);
        kept = λ j ne. ground (arith, a.balances j);
        escrow = λ live. ground (arith, a.session_after);
      }

module _ (ch : Chain) (tx : Tx) (w : World) (k : FinalizeCloseSpl) where
  pub finalize_close_spl-WritesAt :
      {w' : World} → finalize_close_spl ch tx w k ≡ ok w' → WritesAt w w' k.session
  unfolding finalize_close_spl
  finalize_close_spl-WritesAt {w'} h = elim (Result-cases (load_settle_spl ch tx w k)) [
    | inl (e, failed) ↦ absurd (ground arith)
    | inr (l, read) ↦ elim (Result-cases (finalize_handler_spl ch tx k l w.tokens)) [
      | inl (e, failed) ↦ absurd (ground arith)
      | inr ((n, s, m), applied) ↦
          subst (λ (v : World). WritesAt w v k.session) {x = store_spl w k (n, s, m)} (ground arith)
            (
              l.session,
              s,
              (after l n s m (load_settle_spl-eq ch tx w k read)
                  (finalize_spl-FinalizesSpl ch tx k l w.tokens applied)),
            )
    ]
  ]
    where
      after :
          (l : Loaded) (n : Node) (s : Session) (m : Tokens)
          → w.sessions k.session ≡ some l.session
          → FinalizesSpl ch tx k l w.tokens n s
          → Writes w (store_spl w k (n, s, m)) k.session l.session s
      after l n s m read a = record {
        loaded = read;
        stored = refl;
        same_terms = rw a.session_after refl;
        edge = rw a.session_after (finalize a.was_closing refl refl refl a.not_decreased a.covered);
        kept = λ j ne. omega arith;
        escrow = λ live. ground (arith, a.session_after);
      }
