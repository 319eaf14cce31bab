-- ===== src/Vault/Untouched.antt =====
-- The instructions that move no tokens.
use sol_mesh.Base.{ℕ, ◌≡◌, Bool, Option, none, some, List, arith}
use sol_mesh.Base.Int.{ℤ}
use sol_mesh.Errors.{ok}
use sol_mesh.State.{Session}
use sol_mesh.Message.{StateUpdate}
use sol_mesh.Runtime.{Chain, Tx, World}
use sol_mesh.Settle.{Settle, run_settle}
use sol_mesh.Dispute.{
  UnilateralClose, FinalizeClose, initiate_unilateral_close, challenge, finalize_close,
}
use sol_mesh.Lifecycle.{CancelSession, ExpireSession, cancel_session, expire_session}
use sol_mesh.Core.{create_node_asset, set_reputation}
use sol_mesh.Admin.{
  InitializeConfig, AdminConfig, WithdrawFees, UpdateNodeMeta, initialize_config, update_config,
  set_paused, withdraw_fees, update_node_meta,
}
use sol_mesh.Open.{
  RegisterNode, OpenSession, Terms, register_node, open_session, open_session_handler, new_session,
}

-- Neither sessions nor tokens change.
abbrev pub Still : World → World → Type 0
Still w w' = (w'.sessions ≡ w.sessions) × (w'.tokens ≡ w.tokens)

module _ (ch : Chain) (tx : Tx) (w : World) {w' : World} where
  pub run_settle-tokens :
      (k : Settle) (state : StateUpdate) (cp : Bool)
      → run_settle ch tx w k state cp ≡ ok w'
      → w'.tokens ≡ w.tokens
  unfolding run_settle
  run_settle-tokens k state cp h = ground arith

  pub finalize_close-tokens :
      (k : FinalizeClose) → finalize_close ch tx w k ≡ ok w' → w'.tokens ≡ w.tokens
  unfolding finalize_close
  finalize_close-tokens k h = ground arith

  pub initiate-tokens :
      (k : UnilateralClose) (state : StateUpdate)
      → initiate_unilateral_close ch tx w k state ≡ ok w'
      → w'.tokens ≡ w.tokens
  unfolding initiate_unilateral_close
  initiate-tokens k state h = ground arith

  pub challenge-tokens :
      (k : UnilateralClose) (state : StateUpdate)
      → challenge ch tx w k state ≡ ok w'
      → w'.tokens ≡ w.tokens
  unfolding challenge
  challenge-tokens k state h = ground arith

  pub cancel-tokens : (k : CancelSession) → cancel_session ch tx w k ≡ ok w' → w'.tokens ≡ w.tokens
  unfolding cancel_session
  cancel-tokens k h = ground arith

  pub expire-tokens : (k : ExpireSession) → expire_session ch tx w k ≡ ok w' → w'.tokens ≡ w.tokens
  unfolding expire_session
  expire-tokens k h = ground arith

  -- A session that is opened in lamports has no mint.
  pub open_session-native :
      (k : OpenSession) (t : Terms)
      → open_session ch tx w k t ≡ ok w'
      → (w'.tokens ≡ w.tokens) × ((s : Session) → w'.sessions k.session ≡ some s → s.mint ≡ none)
  unfolding open_session open_session_handler new_session
  open_session-native k t h = (ground arith, λ s at. ground arith)

  pub initialize_config-Still :
      (k : InitializeConfig) (fee : ℕ) (window : ℤ) (core : ℕ)
      → initialize_config ch tx w k fee window core ≡ ok w'
      → Still w w'
  unfolding initialize_config
  initialize_config-Still k fee window core h = ground arith

  pub update_config-Still :
      (k : AdminConfig) (fee : Option ℕ) (window : Option ℤ)
      → update_config ch tx w k fee window ≡ ok w'
      → Still w w'
  unfolding update_config
  update_config-Still k fee window h = ground arith

  pub set_paused-Still : (k : AdminConfig) (p : Bool) → set_paused ch tx w k p ≡ ok w' → Still w w'
  unfolding set_paused
  set_paused-Still k p h = ground arith

  pub withdraw_fees-Still :
      (k : WithdrawFees) (amount : ℕ) → withdraw_fees ch tx w k amount ≡ ok w' → Still w w'
  unfolding withdraw_fees
  withdraw_fees-Still k amount h = ground arith

  pub register_node-Still :
      (k : RegisterNode) (name uri : List ℕ) (capacity : ℕ) (geo : List ℕ) (rep : ℕ)
      → register_node ch tx w k name uri capacity geo rep ≡ ok w'
      → Still w w'
  unfolding register_node create_node_asset
  register_node-Still k name uri capacity geo rep h = ground arith

  pub update_node_meta-Still :
      (k : UpdateNodeMeta) (capacity : Option ℕ) (geo : Option (List ℕ)) (active : Option Bool)
      → update_node_meta ch tx w k capacity geo active ≡ ok w'
      → Still w w'
  unfolding update_node_meta set_reputation
  update_node_meta-Still k capacity geo active h = ground arith
