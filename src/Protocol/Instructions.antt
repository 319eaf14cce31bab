-- ===== src/Protocol/Instructions.antt =====
-- Every instruction of programs/solmesh/src/lib.rs as one of the three effects on the sessions.
use sol_mesh.Base.{ℕ, ◌≡◌, true, false}
use sol_mesh.Errors.{ok}
use sol_mesh.Runtime.{Chain, Tx, World}
use sol_mesh.Runtime.Laws.{IsChain, IsSigned}
use sol_mesh.Program.{Call, dispatch}
use sol_mesh.Protocol.Edges.{Effect, WritesAt, CreatesAt, writes, creates}
use sol_mesh.Protocol.Payouts.{
  run_settle-WritesAt, run_settle_spl-WritesAt, finalize_close-WritesAt,
  finalize_close_spl-WritesAt,
}
use sol_mesh.Protocol.Disputes.{initiate-WritesAt, challenge-WritesAt}
use sol_mesh.Protocol.Refunds.{
  cancel-WritesAt, expire-WritesAt, cancel_spl-WritesAt, expire_spl-WritesAt,
}
use sol_mesh.Protocol.Openings.{AtAddress, open_session-CreatesAt, open_session_spl-CreatesAt}
use sol_mesh.Protocol.Others.{
  initialize_config-Effect, register_node-Effect, update_config-Effect, set_paused-Effect,
  withdraw_fees-Effect, update_node_meta-Effect,
}
use sol_mesh.Settle.{settle_session, checkpoint_settle}
use sol_mesh.Spl.{settle_session_spl, checkpoint_settle_spl}

written : {ch : Chain} {w w' : World} {key : ℕ} → WritesAt w w' key → Effect ch w w'
written {key} (s, s', x) = writes key s s' x

created : {ch : Chain} {w w' : World} {key : ℕ} → CreatesAt ch w w' key → Effect ch w w'
created {key} (s, x) = creates key s x

-- Every instruction that goes through has one of the three effects.
pub dispatch-Effect :
    (ch : Chain)
    → IsChain ch
    → (tx : Tx) → IsSigned ch tx
    → (call : Call) (w : World) → AtAddress ch w
    → {w' : World} → dispatch ch tx call w ≡ ok w'
    → Effect ch w w'
unfolding dispatch settle_session checkpoint_settle settle_session_spl checkpoint_settle_spl
dispatch-Effect ch laws tx sg (Call.initialize_config k f c m) w at h =
    initialize_config-Effect ch laws tx sg w at k f c m h
dispatch-Effect ch laws tx sg (Call.register_node k n u c g r) w at h =
    register_node-Effect ch laws tx sg w at k n u c g r h
dispatch-Effect ch laws tx sg (Call.open_session k t) w at h =
    created (open_session-CreatesAt ch laws tx sg w at k t h)
dispatch-Effect ch laws tx sg (Call.checkpoint_settle k s) w at h =
    written (run_settle-WritesAt ch tx w k s true h)
dispatch-Effect ch laws tx sg (Call.settle_session k s) w at h =
    written (run_settle-WritesAt ch tx w k s false h)
dispatch-Effect ch laws tx sg (Call.initiate_unilateral_close k s) w at h =
    written (initiate-WritesAt ch tx w k s h)
dispatch-Effect ch laws tx sg (Call.challenge k s) w at h =
    written (challenge-WritesAt ch tx w k s h)
dispatch-Effect ch laws tx sg (Call.finalize_close k) w at h =
    written (finalize_close-WritesAt ch tx w k h)
dispatch-Effect ch laws tx sg (Call.cancel_session k) w at h = written (cancel-WritesAt ch tx w k h)
dispatch-Effect ch laws tx sg (Call.expire_session k) w at h = written (expire-WritesAt ch tx w k h)
dispatch-Effect ch laws tx sg (Call.update_config k f c) w at h =
    update_config-Effect ch laws tx sg w at k f c h
dispatch-Effect ch laws tx sg (Call.set_paused k p) w at h =
    set_paused-Effect ch laws tx sg w at k p h
dispatch-Effect ch laws tx sg (Call.withdraw_fees k a) w at h =
    withdraw_fees-Effect ch laws tx sg w at k a h
dispatch-Effect ch laws tx sg (Call.update_node_meta k c g a) w at h =
    update_node_meta-Effect ch laws tx sg w at k c g a h
dispatch-Effect ch laws tx sg (Call.open_session_spl k t) w at h =
    created (open_session_spl-CreatesAt ch laws tx sg w at k t h)
dispatch-Effect ch laws tx sg (Call.checkpoint_settle_spl k s) w at h =
    written (run_settle_spl-WritesAt ch tx w k s true h)
dispatch-Effect ch laws tx sg (Call.settle_session_spl k s) w at h =
    written (run_settle_spl-WritesAt ch tx w k s false h)
dispatch-Effect ch laws tx sg (Call.finalize_close_spl k) w at h =
    written (finalize_close_spl-WritesAt ch tx w k h)
dispatch-Effect ch laws tx sg (Call.cancel_session_spl k) w at h =
    written (cancel_spl-WritesAt ch tx w k h)
dispatch-Effect ch laws tx sg (Call.expire_session_spl k) w at h =
    written (expire_spl-WritesAt ch tx w k h)
