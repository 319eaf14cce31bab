-- ===== src/Registry/Untouched.antt =====
-- The instructions that write neither a configuration nor a node.
use sol_mesh.Base.{ℕ, ◌≡◌, arith}
use sol_mesh.Errors.{ok}
use sol_mesh.Message.{StateUpdate}
use sol_mesh.Runtime.{Chain, Tx, World}
use sol_mesh.Dispute.{UnilateralClose, initiate_unilateral_close, challenge}
use sol_mesh.Lifecycle.{CancelSession, ExpireSession, cancel_session, expire_session}
use sol_mesh.Admin.{WithdrawFees, withdraw_fees}
use sol_mesh.Open.{OpenSession, Terms, open_session}
use sol_mesh.Spl.{OpenSessionSpl, open_session_spl}
use sol_mesh.Spl.Lifecycle.{LifecycleSpl, cancel_session_spl, expire_session_spl}

-- Neither map changes.
abbrev pub SameRegistry : World → World → Type 0
SameRegistry w w' = (w'.configs ≡ w.configs) × (w'.nodes ≡ w.nodes)

module _ (ch : Chain) (tx : Tx) (w : World) {w' : World} where
  pub initiate-SameRegistry :
      (k : UnilateralClose) (state : StateUpdate)
      → initiate_unilateral_close ch tx w k state ≡ ok w'
      → SameRegistry w w'
  unfolding initiate_unilateral_close
  initiate-SameRegistry k state h = ground arith

  pub challenge-SameRegistry :
      (k : UnilateralClose) (state : StateUpdate)
      → challenge ch tx w k state ≡ ok w'
      → SameRegistry w w'
  unfolding challenge
  challenge-SameRegistry k state h = ground arith

  pub cancel-SameRegistry :
      (k : CancelSession) → cancel_session ch tx w k ≡ ok w' → SameRegistry w w'
  unfolding cancel_session
  cancel-SameRegistry k h = ground arith

  pub expire-SameRegistry :
      (k : ExpireSession) → expire_session ch tx w k ≡ ok w' → SameRegistry w w'
  unfolding expire_session
  expire-SameRegistry k h = ground arith

  pub cancel_spl-SameRegistry :
      (k : LifecycleSpl) → cancel_session_spl ch tx w k ≡ ok w' → SameRegistry w w'
  unfolding cancel_session_spl
  cancel_spl-SameRegistry k h = ground arith

  pub expire_spl-SameRegistry :
      (k : LifecycleSpl) → expire_session_spl ch tx w k ≡ ok w' → SameRegistry w w'
  unfolding expire_session_spl
  expire_spl-SameRegistry k h = ground arith

  pub withdraw_fees-SameRegistry :
      (k : WithdrawFees) (amount : ℕ) → withdraw_fees ch tx w k amount ≡ ok w' → SameRegistry w w'
  unfolding withdraw_fees
  withdraw_fees-SameRegistry k amount h = ground arith

  pub open_session-SameRegistry :
      (k : OpenSession) (t : Terms) → open_session ch tx w k t ≡ ok w' → SameRegistry w w'
  unfolding open_session
  open_session-SameRegistry k t h = ground arith

  pub open_session_spl-SameRegistry :
      (k : OpenSessionSpl) (t : Terms) → open_session_spl ch tx w k t ≡ ok w' → SameRegistry w w'
  unfolding open_session_spl
  open_session_spl-SameRegistry k t h = ground arith
