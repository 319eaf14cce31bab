-- ===== src/Dispute/Units.antt =====
-- How the units of a disputed session are counted (settle.rs and dispute.rs).
use sol_mesh.Base.{ap, ◌+◌, ◌-◌, ◌≡◌, true, arith}
use sol_mesh.Errors.{ok}
use sol_mesh.State.{Config, Node, Session}
use sol_mesh.Message.{StateUpdate}
use sol_mesh.Runtime.{Chain, Tx, Lamports}
use sol_mesh.Accounts.{Loaded}
use sol_mesh.Settle.{Settle, apply_state}
use sol_mesh.Dispute.{UnilateralClose, FinalizeClose, initiate_handler, finalize_handler}
use sol_mesh.Dispute.Effects.{initiate-Initiates, finalize-Finalizes}

apply_state-units :
    (ch : Chain) (tx : Tx) (k : Settle) (l : Loaded) (m : Lamports) (state : StateUpdate) {n : Node}
    {s : Session} {m' : Lamports}
    → apply_state ch tx k l m state true ≡ ok (n, s, m')
    → n.total_units ≡ l.node.total_units + (state.units_consumed - l.session.pending_units)
unfolding apply_state
apply_state-units ch tx k l m state h = ground arith

-- Where a checkpoint of a session without counted units, a unilateral close of what it leaves, and
-- the payout go through: the node is credited with the units of the checkpoint and also with all
-- units of the later state.
pub disputed_units :
    (ch : Chain) (tx1 tx2 tx3 : Tx) (k : Settle) (u : UnilateralClose) (f : FinalizeClose)
    (l : Loaded) (m m2 : Lamports) (c : Config) (st1 st2 : StateUpdate) {n1 n2 : Node}
    {s1 s2 s3 : Session} {m1 m3 : Lamports}
    → l.session.pending_units ≡ 0
    → apply_state ch tx1 k l m st1 true ≡ ok (n1, s1, m1)
    → initiate_handler ch tx2 u c s1 st2 ≡ ok s2
    → finalize_handler tx3 f (record { config = c; node = n1; session = s2 }) m2 ≡ ok (n2, s3, m3)
    → n2.total_units ≡ l.node.total_units + st1.units_consumed + st2.units_consumed
disputed_units ch tx1 tx2 tx3 k u f l m m2 c st1 st2 {n1} {s1 = s1} {s2 = s2} fresh h1 h2 h3 =
    let a = apply_state-units ch tx1 k l m st1 h1 in
    let b = initiate-Initiates ch tx2 u c s1 st2 h2 in
    let d = finalize-Finalizes tx3 f (record { config = c; node = n1; session = s2 }) m2 h3 in
    omega (arith, a, d.units_counted, ap (λ (s : Session). s.pending_units) b.session_after)
