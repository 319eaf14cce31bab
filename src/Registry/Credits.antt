-- ===== src/Registry/Credits.antt =====
-- The payouts, which credit a node and write no configuration (settle.rs, dispute.rs and spl.rs).
use sol_mesh.Base.{◌≡◌, inl, inr, Bool, some, arith}
use sol_mesh.Errors.{ok, Result-cases}
use sol_mesh.State.{Node, Session}
use sol_mesh.Message.{StateUpdate}
use sol_mesh.Runtime.{Chain, Tx, World, Lamports, Tokens}
use sol_mesh.Accounts.{Loaded, load_config, load_node, load_session}
use sol_mesh.Settle.{Settle, load_settle, apply_state, run_settle}
use sol_mesh.Settle.Effects.{load_settle-IsLoaded}
use sol_mesh.Dispute.{FinalizeClose, finalize_handler, finalize_close}
use sol_mesh.Spl.{
  SettleSpl, FinalizeCloseSpl, load_settle_spl, apply_state_spl, finalize_handler_spl,
  run_settle_spl, finalize_close_spl,
}
use sol_mesh.Registry.Edges.{NodeEdge, NodeEffect, credited, edited}

module _ (ch : Chain) (tx : Tx) (l : Loaded) where
  apply_state-NodeEdge :
      (k : Settle) (m : Lamports) (state : StateUpdate) (is_checkpoint : Bool) {n : Node}
      {s : Session} {m' : Lamports}
      → apply_state ch tx k l m state is_checkpoint ≡ ok (n, s, m')
      → NodeEdge tx l.node n
  unfolding apply_state
  apply_state-NodeEdge k m state is_checkpoint h =
      credited (ground arith) (ground arith) (ground arith) (ground arith)

  finalize-NodeEdge :
      (k : FinalizeClose) (m : Lamports) {n : Node} {s : Session} {m' : Lamports}
      → finalize_handler tx k l m ≡ ok (n, s, m')
      → NodeEdge tx l.node n
  unfolding finalize_handler
  finalize-NodeEdge k m h = credited (ground arith) (ground arith) (ground arith) (ground arith)

  apply_state_spl-NodeEdge :
      (k : SettleSpl) (m : Tokens) (state : StateUpdate) (is_checkpoint : Bool) {n : Node}
      {s : Session} {m' : Tokens}
      → apply_state_spl ch tx k l m state is_checkpoint ≡ ok (n, s, m')
      → NodeEdge tx l.node n
  unfolding apply_state_spl
  apply_state_spl-NodeEdge k m state is_checkpoint h =
      credited (ground arith) (ground arith) (ground arith) (ground arith)

  finalize_spl-NodeEdge :
      (k : FinalizeCloseSpl) (m : Tokens) {n : Node} {s : Session} {m' : Tokens}
      → finalize_handler_spl ch tx k l m ≡ ok (n, s, m')
      → NodeEdge tx l.node n
  unfolding finalize_handler_spl
  finalize_spl-NodeEdge k m h = credited (ground arith) (ground arith) (ground arith) (ground arith)

-- No payout writes a configuration, and each credits the node that it was given.
abbrev pub Credits : Chain → Tx → World → World → Type 0
Credits ch tx w w' = (w'.configs ≡ w.configs) × NodeEffect ch tx w w'

load_settle_spl-node :
    (ch : Chain) (tx : Tx) (w : World) (k : SettleSpl) {l : Loaded}
    → load_settle_spl ch tx w k ≡ ok l
    → w.nodes k.node ≡ some l.node
unfolding load_settle_spl load_config load_node load_session
load_settle_spl-node ch tx w k h = ground arith

module _ (ch : Chain) (tx : Tx) (w : World) {w' : World} where
  pub run_settle-Credits :
      (k : Settle) (state : StateUpdate) (is_checkpoint : Bool)
      → run_settle ch tx w k state is_checkpoint ≡ ok w'
      → Credits ch tx w w'
  unfolding run_settle
  run_settle-Credits k state is_checkpoint h = elim (Result-cases (load_settle ch tx w k)) [
    | inl (e, failed) ↦ absurd (ground arith)
    | inr (l, read) ↦ elim (Result-cases (apply_state ch tx k l w.lamports state is_checkpoint)) [
      | inl (e, failed) ↦ absurd (ground arith)
      | inr ((n, s, m), applied) ↦ (
        ground arith,
        edited k.node l.node n (load_settle-IsLoaded ch tx w k read).node_read (ground arith)
            (apply_state-NodeEdge ch tx l k w.lamports state is_checkpoint applied),
      )
    ]
  ]

  pub finalize_close-Credits :
      (k : FinalizeClose) → finalize_close ch tx w k ≡ ok w' → Credits ch tx w w'
  unfolding finalize_close
  finalize_close-Credits k h = elim (Result-cases (load_settle ch tx w k)) [
    | inl (e, failed) ↦ absurd (ground arith)
    | inr (l, read) ↦ elim (Result-cases (finalize_handler tx k l w.lamports)) [
      | inl (e, failed) ↦ absurd (ground arith)
      | inr ((n, s, m), applied) ↦ (
        ground arith,
        edited k.node l.node n (load_settle-IsLoaded ch tx w k read).node_read (ground arith)
            (finalize-NodeEdge ch tx l k w.lamports applied),
      )
    ]
  ]

  pub run_settle_spl-Credits :
      (k : SettleSpl) (state : StateUpdate) (is_checkpoint : Bool)
      → run_settle_spl ch tx w k state is_checkpoint ≡ ok w'
      → Credits ch tx w w'
  unfolding run_settle_spl
  run_settle_spl-Credits k state is_checkpoint h = elim (Result-cases (load_settle_spl ch tx w k)) [
    | inl (e, failed) ↦ absurd (ground arith)
    | inr (l, read) ↦ elim (Result-cases (apply_state_spl ch tx k l w.tokens state is_checkpoint)) [
      | inl (e, failed) ↦ absurd (ground arith)
      | inr ((n, s, m), applied) ↦ (
        ground arith,
        edited k.node l.node n (load_settle_spl-node ch tx w k read) (ground arith)
            (apply_state_spl-NodeEdge ch tx l k w.tokens state is_checkpoint applied),
      )
    ]
  ]

  pub finalize_close_spl-Credits :
      (k : FinalizeCloseSpl) → finalize_close_spl ch tx w k ≡ ok w' → Credits ch tx w w'
  unfolding finalize_close_spl
  finalize_close_spl-Credits k h = elim (Result-cases (load_settle_spl ch tx w k)) [
    | inl (e, failed) ↦ absurd (ground arith)
    | inr (l, read) ↦ elim (Result-cases (finalize_handler_spl ch tx k l w.tokens)) [
      | inl (e, failed) ↦ absurd (ground arith)
      | inr ((n, s, m), applied) ↦ (
        ground arith,
        edited k.node l.node n (load_settle_spl-node ch tx w k read) (ground arith)
            (finalize_spl-NodeEdge ch tx l k w.tokens applied),
      )
    ]
  ]
