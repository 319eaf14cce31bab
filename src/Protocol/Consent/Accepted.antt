-- ===== src/Protocol/Consent/Accepted.antt =====
-- The instructions that post a state: what they have checked, and what they promise.
use sol_mesh.Base.{ℕ, ◌≡◌, ◌<◌, ap, ◌∙◌, inl, inr, Bool, true, false, some, update, arith}
use sol_mesh.Errors.{ok, Result-cases}
use sol_mesh.State.{Session, opened}
use sol_mesh.Message.{StateUpdate}
use sol_mesh.Runtime.{Chain, Tx, World}
use sol_mesh.Shared.Cosigned.{IsCosigned}
use sol_mesh.Settle.{Settle, load_settle, apply_state, run_settle, settled_session}
use sol_mesh.Settle.Effects.{apply_state-Settles, load_settle-IsLoaded}
use sol_mesh.Spl.{SettleSpl, load_settle_spl, apply_state_spl, run_settle_spl}
use sol_mesh.Spl.Effects.{load_settle_spl-eq, apply_state_spl-SettlesSpl}
use sol_mesh.Dispute.{
  UnilateralClose, load_unilateral, initiate_handler, challenge_handler, initiate_unilateral_close,
  challenge,
}
use sol_mesh.Dispute.Effects.{load_unilateral-eq, initiate-Initiates, challenge-Challenges}
use sol_mesh.Protocol.Histories.{promised}

-- Both parties of the session at `key` have signed the state, which is newer than all before; the
-- session promises what it owes, and remembers its nonce.
pub record Accepts (ch : Chain) (tx : Tx) (w w' : World) (key : ℕ) (state : StateUpdate)
    : Type 0 where
  pub before : Session
  pub after : Session
  pub loaded : w.sessions key ≡ some before
  pub stored : w'.sessions ≡ update w.sessions key (some after)
  pub cosigned : IsCosigned ch before key state tx.sysvar
  pub fresh : before.last_nonce < state.nonce
  pub promises : promised after ≡ state.owed_to_provider
  pub remembers : after.last_nonce ≡ state.nonce

settled_session-promised :
    (is_checkpoint : Bool) (s : Session) (state : StateUpdate)
    → s.status ≡ opened
    → (promised (settled_session is_checkpoint s state) ≡ state.owed_to_provider)
      × ((settled_session is_checkpoint s state).last_nonce ≡ state.nonce)
settled_session-promised true s state o = ground arith
settled_session-promised false s state o = ground arith

module _ (ch : Chain) (tx : Tx) (w : World) (state : StateUpdate) {w' : World} where
  pub run_settle-Accepts :
      (k : Settle) (cp : Bool)
      → run_settle ch tx w k state cp ≡ ok w'
      → Accepts ch tx w w' k.session state
  unfolding run_settle
  run_settle-Accepts k cp h = elim (Result-cases (load_settle ch tx w k)) [
    | inl (e, failed) ↦ absurd (ground arith)
    | inr (l, loaded) ↦ elim (Result-cases (apply_state ch tx k l w.lamports state cp)) [
      | inl (e, failed) ↦ absurd (ground arith)
      | inr ((n, s', m), applied) ↦
          let a = apply_state-Settles ch tx k l w.lamports state cp applied in
          let (owed, nonce) = settled_session-promised cp l.session state a.was_open in
          record {
            before = l.session;
            after = s';
            loaded = (load_settle-IsLoaded ch tx w k loaded).session_read;
            stored = ground arith;
            cosigned = a.cosigned;
            fresh = a.fresh;
            promises = ap promised a.session_after ∙ owed;
            remembers = ap (λ (t : Session). t.last_nonce) a.session_after ∙ nonce;
          }
    ]
  ]

  pub run_settle_spl-Accepts :
      (k : SettleSpl) (cp : Bool)
      → run_settle_spl ch tx w k state cp ≡ ok w'
      → Accepts ch tx w w' k.session state
  unfolding run_settle_spl
  run_settle_spl-Accepts k cp h = elim (Result-cases (load_settle_spl ch tx w k)) [
    | inl (e, failed) ↦ absurd (ground arith)
    | inr (l, loaded) ↦ elim (Result-cases (apply_state_spl ch tx k l w.tokens state cp)) [
      | inl (e, failed) ↦ absurd (ground arith)
      | inr ((n, s', m), applied) ↦
          let a = apply_state_spl-SettlesSpl ch tx k l w.tokens state cp applied in
          let (owed, nonce) = settled_session-promised cp l.session state a.was_open in
          record {
            before = l.session;
            after = s';
            loaded = load_settle_spl-eq ch tx w k loaded;
            stored = ground arith;
            cosigned = a.cosigned;
            fresh = a.fresh;
            promises = ap promised a.session_after ∙ owed;
            remembers = ap (λ (t : Session). t.last_nonce) a.session_after ∙ nonce;
          }
    ]
  ]

  pub initiate-Accepts :
      (k : UnilateralClose)
      → initiate_unilateral_close ch tx w k state ≡ ok w'
      → Accepts ch tx w w' k.session state
  unfolding initiate_unilateral_close
  initiate-Accepts k h = elim (Result-cases (load_unilateral ch tx w k)) [
    | inl (e, failed) ↦ absurd (ground arith)
    | inr ((c, s), loaded) ↦ elim (Result-cases (initiate_handler ch tx k c s state)) [
      | inl (e, failed) ↦ absurd (ground arith)
      | inr (s', applied) ↦
          let a = initiate-Initiates ch tx k c s state applied in
          record {
            before = s;
            after = s';
            loaded = load_unilateral-eq ch tx w k loaded;
            stored = ground arith;
            cosigned = a.cosigned;
            fresh = a.fresh;
            promises = ap promised a.session_after;
            remembers = ap (λ (t : Session). t.last_nonce) a.session_after;
          }
    ]
  ]

  pub challenge-Accepts :
      (k : UnilateralClose) → challenge ch tx w k state ≡ ok w' → Accepts ch tx w w' k.session state
  unfolding challenge
  challenge-Accepts k h = elim (Result-cases (load_unilateral ch tx w k)) [
    | inl (e, failed) ↦ absurd (ground arith)
    | inr ((c, s), loaded) ↦ elim (Result-cases (challenge_handler ch tx k s state)) [
      | inl (e, failed) ↦ absurd (ground arith)
      | inr (s', applied) ↦
          let a = challenge-Challenges ch tx k c s state applied in
          record {
            before = s;
            after = s';
            loaded = load_unilateral-eq ch tx w k loaded;
            stored = ground arith;
            cosigned = a.cosigned;
            fresh = a.fresh;
            promises = ground (arith, a.session_after, a.was_closing);
            remembers = ap (λ (t : Session). t.last_nonce) a.session_after;
          }
    ]
  ]
