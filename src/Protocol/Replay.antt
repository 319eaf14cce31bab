-- ===== src/Protocol/Replay.antt =====
-- A co-signed state serves once: what a session has accepted can never be posted again.
use sol_mesh.Base.{ℕ, ◌≤◌, ◌<◌, ◌≡◌, ◌≢◌, inl, inr, Bool, true, false, some, arith}
use sol_mesh.Errors.{ok, Result-cases}
use sol_mesh.State.{Session}
use sol_mesh.Message.{StateUpdate}
use sol_mesh.Runtime.{Chain, Tx, World}
use sol_mesh.Runtime.Laws.{IsChain}
use sol_mesh.Program.{Call, dispatch, Reach}
use sol_mesh.Settle.{
  Settle, load_settle, apply_state, run_settle, settle_session, checkpoint_settle,
}
use sol_mesh.Settle.Effects.{apply_state-Settles, load_settle-IsLoaded}
use sol_mesh.Spl.{
  SettleSpl, load_settle_spl, apply_state_spl, run_settle_spl, settle_session_spl,
  checkpoint_settle_spl,
}
use sol_mesh.Spl.Effects.{load_settle_spl-eq, apply_state_spl-SettlesSpl}
use sol_mesh.Dispute.{
  UnilateralClose, load_unilateral, initiate_handler, challenge_handler, initiate_unilateral_close,
  challenge,
}
use sol_mesh.Dispute.Effects.{load_unilateral-eq, initiate-Initiates, challenge-Challenges}
use sol_mesh.Protocol.Histories.{IsSoundWorld}
use sol_mesh.Protocol.Lives.{Reach-Grows}

-- The six instructions that take a state, the session that each is given, and the state.
pub data Posts : Call → ℕ → StateUpdate → Type 0 where
  settles : (k : Settle) (st : StateUpdate) → Posts (Call.settle_session k st) k.session st
  checkpoints : (k : Settle) (st : StateUpdate) → Posts (Call.checkpoint_settle k st) k.session st
  initiates :
      (k : UnilateralClose) (st : StateUpdate)
      → Posts (Call.initiate_unilateral_close k st) k.session st
  challenges : (k : UnilateralClose) (st : StateUpdate) → Posts (Call.challenge k st) k.session st
  settles_spl :
      (k : SettleSpl) (st : StateUpdate) → Posts (Call.settle_session_spl k st) k.session st
  checkpoints_spl :
      (k : SettleSpl) (st : StateUpdate) → Posts (Call.checkpoint_settle_spl k st) k.session st

module _ (ch : Chain) (tx : Tx) (w : World) (state : StateUpdate) (s : Session) where
  run_settle-fresh :
      (k : Settle) (cp : Bool) {w' : World}
      → w.sessions k.session ≡ some s
      → run_settle ch tx w k state cp ≡ ok w'
      → s.last_nonce < state.nonce
  unfolding run_settle
  run_settle-fresh k cp read h = elim (Result-cases (load_settle ch tx w k)) [
    | inl (e, failed) ↦ absurd (ground arith)
    | inr (l, loaded) ↦ elim (Result-cases (apply_state ch tx k l w.lamports state cp)) [
      | inl (e, failed) ↦ absurd (ground arith)
      | inr ((n, s', m), applied) ↦ ground (
        arith,
        (apply_state-Settles ch tx k l w.lamports state cp applied).fresh,
        (load_settle-IsLoaded ch tx w k loaded).session_read,
      )
    ]
  ]

  run_settle_spl-fresh :
      (k : SettleSpl) (cp : Bool) {w' : World}
      → w.sessions k.session ≡ some s
      → run_settle_spl ch tx w k state cp ≡ ok w'
      → s.last_nonce < state.nonce
  unfolding run_settle_spl
  run_settle_spl-fresh k cp read h = elim (Result-cases (load_settle_spl ch tx w k)) [
    | inl (e, failed) ↦ absurd (ground arith)
    | inr (l, loaded) ↦ elim (Result-cases (apply_state_spl ch tx k l w.tokens state cp)) [
      | inl (e, failed) ↦ absurd (ground arith)
      | inr ((n, s', m), applied) ↦ ground (
        arith,
        (apply_state_spl-SettlesSpl ch tx k l w.tokens state cp applied).fresh,
        load_settle_spl-eq ch tx w k loaded,
      )
    ]
  ]

  initiate-fresh :
      (k : UnilateralClose) {w' : World}
      → w.sessions k.session ≡ some s
      → initiate_unilateral_close ch tx w k state ≡ ok w'
      → s.last_nonce < state.nonce
  unfolding initiate_unilateral_close
  initiate-fresh k read h = elim (Result-cases (load_unilateral ch tx w k)) [
    | inl (e, failed) ↦ absurd (ground arith)
    | inr ((c, t), loaded) ↦ elim (Result-cases (initiate_handler ch tx k c t state)) [
      | inl (e, failed) ↦ absurd (ground arith)
      | inr (t', applied) ↦ ground (
        arith,
        (initiate-Initiates ch tx k c t state applied).fresh,
        load_unilateral-eq ch tx w k loaded,
      )
    ]
  ]

  challenge-fresh :
      (k : UnilateralClose) {w' : World}
      → w.sessions k.session ≡ some s
      → challenge ch tx w k state ≡ ok w'
      → s.last_nonce < state.nonce
  unfolding challenge
  challenge-fresh k read h = elim (Result-cases (load_unilateral ch tx w k)) [
    | inl (e, failed) ↦ absurd (ground arith)
    | inr ((c, t), loaded) ↦ elim (Result-cases (challenge_handler ch tx k t state)) [
      | inl (e, failed) ↦ absurd (ground arith)
      | inr (t', applied) ↦ ground (
        arith,
        (challenge-Challenges ch tx k c t state applied).fresh,
        load_unilateral-eq ch tx w k loaded,
      )
    ]
  ]

-- A state that an instruction accepts is newer than all that its session has accepted.
Posts-fresh :
    (ch : Chain) (tx : Tx) (w : World) {w' : World} {call : Call} {key : ℕ} {state : StateUpdate}
    (s : Session)
    → Posts call key state
    → w.sessions key ≡ some s
    → dispatch ch tx call w ≡ ok w'
    → s.last_nonce < state.nonce
unfolding dispatch settle_session checkpoint_settle settle_session_spl checkpoint_settle_spl
Posts-fresh ch tx w s (settles k st) read h = run_settle-fresh ch tx w st s k false read h
Posts-fresh ch tx w s (checkpoints k st) read h = run_settle-fresh ch tx w st s k true read h
Posts-fresh ch tx w s (initiates k st) read h = initiate-fresh ch tx w st s k read h
Posts-fresh ch tx w s (challenges k st) read h = challenge-fresh ch tx w st s k read h
Posts-fresh ch tx w s (settles_spl k st) read h = run_settle_spl-fresh ch tx w st s k false read h
Posts-fresh ch tx w s (checkpoints_spl k st) read h =
    run_settle_spl-fresh ch tx w st s k true read h

-- On a chain that meets its documentation, from a state in which all sessions are sound: once a
-- session has a nonce, then after any history no instruction that posts a state to that session
-- goes through with that nonce or a smaller one.
pub replay_refused :
    (ch : Chain) (tx : Tx) {w w' w'' : World} {call : Call} (key : ℕ) (state : StateUpdate)
    (s : Session)
    → IsChain ch
    → IsSoundWorld ch w
    → w.sessions key ≡ some s
    → state.nonce ≤ s.last_nonce
    → Reach ch w w'
    → Posts call key state
    → dispatch ch tx call w' ≢ ok w''
replay_refused ch tx {w' = w'} key state s laws sound read old r posts h =
    let (s', at_s', g) = Reach-Grows ch key s laws sound r read in
    let fresh = Posts-fresh ch tx w' s' posts at_s' h in omega (arith, g.nonce_grows)
