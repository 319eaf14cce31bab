-- ===== src/Dispute/Window.antt =====
-- The challenge window, and what is paid after it (programs/solmesh/src/instructions/dispute.rs).
use sol_mesh.Base.{◌<◌, ◌≡◌, ◌≢◌, ap, ◌∙◌, arith}
use sol_mesh.Base.Int.{checked_add_i64-eq, ◌+ℤ◌, ◌<ℤ◌, ◌≤ℤ◌}
use sol_mesh.Errors.{ok}
use sol_mesh.State.{Config, Node, Session}
use sol_mesh.Message.{StateUpdate}
use sol_mesh.Runtime.{Chain, Tx, Lamports}
use sol_mesh.Accounts.{Loaded}
use sol_mesh.Dispute.{
  UnilateralClose, FinalizeClose, initiate_handler, challenge_handler, finalize_handler,
}
use sol_mesh.Dispute.Effects.{initiate-Initiates, challenge-Challenges, finalize-Finalizes}

-- At a time at which a challenge of a session goes through, with any state, no payout of the same
-- session does.
pub challenge_or_finalize :
    (ch : Chain) (tx : Tx) (k : UnilateralClose) (f : FinalizeClose) (l : Loaded) (m : Lamports)
    (state : StateUpdate) {s : Session} {out : Node × Session × Lamports}
    → challenge_handler ch tx k l.session state ≡ ok s
    → finalize_handler tx f l m ≢ ok out
challenge_or_finalize ch tx k f l m state h g =
    let c = challenge-Challenges ch tx k l.config l.session state h in
    let d = finalize-Finalizes tx f l m g in omega (arith, c.in_time, d.over)

-- Where a unilateral close, a challenge of the session it leaves, and a payout of the session that
-- the challenge leaves go through: the nonce of the challenge is the larger, the amount settled is
-- that of the challenge, the challenge came within the window after the close, and the payout
-- later than the window.
pub challenged_payout :
    (ch : Chain) (tx1 tx2 tx3 : Tx) (k1 k2 : UnilateralClose) (f : FinalizeClose) (c : Config)
    (s : Session) (st1 st2 : StateUpdate) (l : Loaded) (m : Lamports) {s1 s2 s3 : Session}
    {n : Node} {m' : Lamports}
    → initiate_handler ch tx1 k1 c s st1 ≡ ok s1
    → challenge_handler ch tx2 k2 s1 st2 ≡ ok s2
    → l.session ≡ s2
    → finalize_handler tx3 f l m ≡ ok (n, s3, m')
    → (st1.nonce < st2.nonce)
      × (s3.settled_to_provider ≡ st2.owed_to_provider)
      × (tx1.now +ℤ c.challenge_window_secs <ℤ tx3.now)
      × (tx2.now ≤ℤ tx1.now +ℤ c.challenge_window_secs)
challenged_payout ch tx1 tx2 tx3 k1 k2 f c s st1 st2 l m {s1} {s2} {s3} h1 h2 e h3 =
    let a = initiate-Initiates ch tx1 k1 c s st1 h1 in
    let b = challenge-Challenges ch tx2 k2 c _ st2 h2 in
    let d = finalize-Finalizes tx3 f l m h3 in
    let set = checked_add_i64-eq tx1.now c.challenge_window_secs a.deadline_set in
    let start : s1.challenge_deadline ≡ tx1.now +ℤ c.challenge_window_secs =
      ap (λ (t : Session). t.challenge_deadline) a.session_after ∙ set in
    let end : l.session.challenge_deadline ≡ tx1.now +ℤ c.challenge_window_secs =
      ap (λ (t : Session). t.challenge_deadline) (e ∙ b.session_after) ∙ start in
    let paid : s3.settled_to_provider ≡ st2.owed_to_provider =
      ap (λ (t : Session). t.settled_to_provider) d.session_after
      ∙ ap (λ (t : Session). t.pending_payout) (e ∙ b.session_after) in
    let posted = ap (λ (t : Session). t.last_nonce) a.session_after in
    (omega (arith, b.fresh, posted), paid, rw (← end) d.over, rw (← start) b.in_time)
