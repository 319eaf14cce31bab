-- ===== src/Protocol/Promises.antt =====
-- That a promised payout is made (`finalize_handler` of programs/solmesh/src/instructions/dispute.rs).
use sol_mesh.Base.{◌≤◌, ◌≡◌, inr, none, some}
use sol_mesh.Base.Int.{◌<ℤ◌}
use sol_mesh.Errors.{ok}
use sol_mesh.Constants.{max_fee_bps}
use sol_mesh.State.{Node, closing}
use sol_mesh.Runtime.{Chain, Tx, World, Lamports}
use sol_mesh.Runtime.Laws.{IsChain}
use sol_mesh.Accounts.{Loaded}
use sol_mesh.Dispute.{FinalizeClose, finalize_handler, finalized_session}
use sol_mesh.Dispute.Payable.{HasRoom, finalize_goes_through}
use sol_mesh.Program.{Reach}
use sol_mesh.Protocol.Histories.{IsSoundWorld, Reach-IsSoundWorld}

-- On a chain that meets its documentation, after any history from a state in which all sessions
-- are sound: once the window of a closing session in lamports is over, the payout handler
-- succeeds, if the fee rate is within its bound, the paid accounts are other accounts than the
-- session, and no balance or counter overflows.
pub promise_paid :
    (ch : Chain) (tx : Tx) {w w' : World} (k : FinalizeClose) (l : Loaded)
    → IsChain ch
    → IsSoundWorld ch w
    → Reach ch w w'
    → w'.sessions k.session ≡ some l.session
    → l.session.mint ≡ none
    → l.session.status ≡ closing
    → l.session.challenge_deadline <ℤ tx.now
    → l.config.fee_bps ≤ max_fee_bps
    → HasRoom k l w'.lamports
    → (n : Node) × (m : Lamports) × (finalize_handler tx k l w'.lamports
        ≡ ok (n, finalized_session l.session, m))
promise_paid ch tx {w' = w'} k l laws sound r read native status over cap room =
    let h = Reach-IsSoundWorld ch laws r sound k.session l.session read in
    let (lo, hi) = h.pending_within status in
    finalize_goes_through tx k l w'.lamports status over lo hi (h.solvent native (inr status)) cap
      room
