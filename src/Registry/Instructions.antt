-- ===== src/Registry/Instructions.antt =====
-- Every instruction of programs/solmesh/src/lib.rs by its effect on configurations and nodes.
use sol_mesh.Base.{◌≡◌, true, false}
use sol_mesh.Errors.{ok}
use sol_mesh.Runtime.{Chain, Tx, World}
use sol_mesh.Runtime.Laws.{IsChain}
use sol_mesh.Program.{Call, dispatch}
use sol_mesh.Settle.{settle_session, checkpoint_settle}
use sol_mesh.Spl.{settle_session_spl, checkpoint_settle_spl}
use sol_mesh.Registry.Edges.{ConfigEffect, NodeEffect}
use sol_mesh.Registry.Untouched.{
  SameRegistry, initiate-SameRegistry, challenge-SameRegistry, cancel-SameRegistry,
  expire-SameRegistry, cancel_spl-SameRegistry, expire_spl-SameRegistry, withdraw_fees-SameRegistry,
  open_session-SameRegistry, open_session_spl-SameRegistry,
}
use sol_mesh.Registry.Credits.{
  Credits, run_settle-Credits, run_settle_spl-Credits, finalize_close-Credits,
  finalize_close_spl-Credits,
}
use sol_mesh.Registry.Writers.{
  initialize_config-Effects, update_config-Effects, set_paused-Effects, register_node-Effects,
  update_node_meta-Effects,
}

abbrev pub Effects : Chain → Tx → World → World → Type 0
Effects ch tx w w' = ConfigEffect ch tx w w' × NodeEffect ch tx w w'

module _ (ch : Chain) (tx : Tx) (w : World) {w' : World} where
  untouched : SameRegistry w w' → Effects ch tx w w'
  untouched (configs, nodes) = (ConfigEffect.same configs, NodeEffect.same nodes)

  paid : Credits ch tx w w' → Effects ch tx w w'
  paid (configs, nodes) = (ConfigEffect.same configs, nodes)

  pub dispatch-Effects :
      (call : Call) → IsChain ch → dispatch ch tx call w ≡ ok w' → Effects ch tx w w'
  unfolding dispatch settle_session checkpoint_settle settle_session_spl checkpoint_settle_spl
  dispatch-Effects (Call.initialize_config k f c m) laws h =
      initialize_config-Effects ch tx w k f c m laws h
  dispatch-Effects (Call.register_node k n u c g r) laws h =
      register_node-Effects ch tx w k n u c g r laws h
  dispatch-Effects (Call.open_session k t) laws h =
      untouched (open_session-SameRegistry ch tx w k t h)
  dispatch-Effects (Call.checkpoint_settle k s) laws h =
      paid (run_settle-Credits ch tx w k s true h)
  dispatch-Effects (Call.settle_session k s) laws h = paid (run_settle-Credits ch tx w k s false h)
  dispatch-Effects (Call.initiate_unilateral_close k s) laws h =
      untouched (initiate-SameRegistry ch tx w k s h)
  dispatch-Effects (Call.challenge k s) laws h = untouched (challenge-SameRegistry ch tx w k s h)
  dispatch-Effects (Call.finalize_close k) laws h = paid (finalize_close-Credits ch tx w k h)
  dispatch-Effects (Call.cancel_session k) laws h = untouched (cancel-SameRegistry ch tx w k h)
  dispatch-Effects (Call.expire_session k) laws h = untouched (expire-SameRegistry ch tx w k h)
  dispatch-Effects (Call.update_config k f c) laws h = update_config-Effects ch tx w k f c h
  dispatch-Effects (Call.set_paused k p) laws h = set_paused-Effects ch tx w k p h
  dispatch-Effects (Call.withdraw_fees k a) laws h =
      untouched (withdraw_fees-SameRegistry ch tx w k a h)
  dispatch-Effects (Call.update_node_meta k c g a) laws h =
      update_node_meta-Effects ch tx w k c g a h
  dispatch-Effects (Call.open_session_spl k t) laws h =
      untouched (open_session_spl-SameRegistry ch tx w k t h)
  dispatch-Effects (Call.checkpoint_settle_spl k s) laws h =
      paid (run_settle_spl-Credits ch tx w k s true h)
  dispatch-Effects (Call.settle_session_spl k s) laws h =
      paid (run_settle_spl-Credits ch tx w k s false h)
  dispatch-Effects (Call.finalize_close_spl k) laws h =
      paid (finalize_close_spl-Credits ch tx w k h)
  dispatch-Effects (Call.cancel_session_spl k) laws h =
      untouched (cancel_spl-SameRegistry ch tx w k h)
  dispatch-Effects (Call.expire_session_spl k) laws h =
      untouched (expire_spl-SameRegistry ch tx w k h)
