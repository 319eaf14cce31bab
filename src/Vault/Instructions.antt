-- ===== src/Vault/Instructions.antt =====
-- Every instruction of programs/solmesh/src/lib.rs by its effect on sessions and token accounts.
use sol_mesh.Base.{ℕ, ◌≡◌, true, false, none, some}
use sol_mesh.Errors.{ok}
use sol_mesh.State.{Session}
use sol_mesh.Runtime.{Chain, Tx, World}
use sol_mesh.Runtime.Laws.{IsChain, IsTokenChain, IsSigned}
use sol_mesh.Program.{Call, dispatch}
use sol_mesh.Settle.{settle_session, checkpoint_settle}
use sol_mesh.Spl.{settle_session_spl, checkpoint_settle_spl}
use sol_mesh.Protocol.Edges.{WritesAt, CreatesAt}
use sol_mesh.Protocol.Openings.{AtAddress, open_session-CreatesAt}
use sol_mesh.Protocol.Payouts.{run_settle-WritesAt, finalize_close-WritesAt}
use sol_mesh.Protocol.Disputes.{initiate-WritesAt, challenge-WritesAt}
use sol_mesh.Protocol.Refunds.{cancel-WritesAt, expire-WritesAt}
use sol_mesh.Vault.Pays.{
  Pays, run_settle_spl-Pays, finalize_close_spl-Pays, cancel_session_spl-Pays,
  expire_session_spl-Pays,
}
use sol_mesh.Vault.Openings.{Funds, open_session_spl-Funds}
use sol_mesh.Vault.Untouched.{
  run_settle-tokens, finalize_close-tokens, initiate-tokens, challenge-tokens, cancel-tokens,
  expire-tokens, open_session-native, initialize_config-Still, update_config-Still,
  set_paused-Still, withdraw_fees-Still, register_node-Still, update_node_meta-Still,
}

-- A session pays out of its vault, or is written without it; one is opened with a vault, or without;
-- or neither sessions nor tokens change.
pub data TokenEffect (ch : Chain) (w w' : World) : Type 0 where
  pays : (key : ℕ) → Pays ch w w' key → TokenEffect ch w w'
  writes : (key : ℕ) → WritesAt w w' key → w'.tokens ≡ w.tokens → TokenEffect ch w w'
  funds : (key : ℕ) → Funds ch w w' key → TokenEffect ch w w'
  opens :
      (key : ℕ)
      → CreatesAt ch w w' key
      → w'.tokens ≡ w.tokens
      → ((s : Session) → w'.sessions key ≡ some s → s.mint ≡ none)
      → TokenEffect ch w w'
  keeps : w'.sessions ≡ w.sessions → w'.tokens ≡ w.tokens → TokenEffect ch w w'

module _ (ch : Chain) (laws : IsChain ch) (token_laws : IsTokenChain ch) (tx : Tx)
    (signed : IsSigned ch tx) (w : World) (at : AtAddress ch w) {w' : World} where
  still : (w'.sessions ≡ w.sessions) × (w'.tokens ≡ w.tokens) → TokenEffect ch w w'
  still (sessions, tokens) = keeps sessions tokens

  pub dispatch-TokenEffect : (call : Call) → dispatch ch tx call w ≡ ok w' → TokenEffect ch w w'
  unfolding dispatch settle_session checkpoint_settle settle_session_spl checkpoint_settle_spl
  dispatch-TokenEffect (Call.initialize_config k f c m) h =
      still (initialize_config-Still ch tx w k f c m h)
  dispatch-TokenEffect (Call.register_node k n u c g r) h =
      still (register_node-Still ch tx w k n u c g r h)
  dispatch-TokenEffect (Call.open_session k t) h =
      let (tokens, native) = open_session-native ch tx w k t h in
      opens k.session (open_session-CreatesAt ch laws tx signed w at k t h) tokens native
  dispatch-TokenEffect (Call.checkpoint_settle k s) h =
      writes k.session (run_settle-WritesAt ch tx w k s true h)
        (run_settle-tokens ch tx w k s true h)
  dispatch-TokenEffect (Call.settle_session k s) h =
      writes k.session (run_settle-WritesAt ch tx w k s false h)
        (run_settle-tokens ch tx w k s false h)
  dispatch-TokenEffect (Call.initiate_unilateral_close k s) h =
      writes k.session (initiate-WritesAt ch tx w k s h) (initiate-tokens ch tx w k s h)
  dispatch-TokenEffect (Call.challenge k s) h =
      writes k.session (challenge-WritesAt ch tx w k s h) (challenge-tokens ch tx w k s h)
  dispatch-TokenEffect (Call.finalize_close k) h =
      writes k.session (finalize_close-WritesAt ch tx w k h) (finalize_close-tokens ch tx w k h)
  dispatch-TokenEffect (Call.cancel_session k) h =
      writes k.session (cancel-WritesAt ch tx w k h) (cancel-tokens ch tx w k h)
  dispatch-TokenEffect (Call.expire_session k) h =
      writes k.session (expire-WritesAt ch tx w k h) (expire-tokens ch tx w k h)
  dispatch-TokenEffect (Call.update_config k f c) h = still (update_config-Still ch tx w k f c h)
  dispatch-TokenEffect (Call.set_paused k p) h = still (set_paused-Still ch tx w k p h)
  dispatch-TokenEffect (Call.withdraw_fees k a) h = still (withdraw_fees-Still ch tx w k a h)
  dispatch-TokenEffect (Call.update_node_meta k c g a) h =
      still (update_node_meta-Still ch tx w k c g a h)
  dispatch-TokenEffect (Call.open_session_spl k t) h =
      funds k.session (open_session_spl-Funds ch laws token_laws tx signed w at k t h)
  dispatch-TokenEffect (Call.checkpoint_settle_spl k s) h =
      pays k.session (run_settle_spl-Pays ch token_laws tx w k s true h)
  dispatch-TokenEffect (Call.settle_session_spl k s) h =
      pays k.session (run_settle_spl-Pays ch token_laws tx w k s false h)
  dispatch-TokenEffect (Call.finalize_close_spl k) h =
      pays k.session (finalize_close_spl-Pays ch token_laws tx w k h)
  dispatch-TokenEffect (Call.cancel_session_spl k) h =
      pays k.session (cancel_session_spl-Pays ch token_laws tx w k h)
  dispatch-TokenEffect (Call.expire_session_spl k) h =
      pays k.session (expire_session_spl-Pays ch token_laws tx w k h)
