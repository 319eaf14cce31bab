-- ===== src/Lifecycle/Refunds.antt =====
-- When an expired session is refunded (programs/solmesh/src/instructions/lifecycle.rs).
use sol_mesh.Base.{◌+◌, ◌-◌, ◌≤◌, ◌≡◌, ◌≢◌, arith}
use sol_mesh.Base.Int.{◌<ℤ◌}
use sol_mesh.Base.Words.{IsU64}
use sol_mesh.Errors.{ok}
use sol_mesh.State.{Session, opened, expired}
use sol_mesh.Runtime.{Tx, Lamports}
use sol_mesh.Shared.Transfer.{moved, pda_transfer_ok}
use sol_mesh.Lifecycle.{ExpireSession, expire_handler}

-- An open session past its expiry, of any mint, is refunded in lamports and marked expired, if no
-- more is settled than deposited, the consumer is another account than the session, the session's
-- account holds the refund, and the consumer's balance does not overflow.
pub expire_goes_through :
    (tx : Tx) (k : ExpireSession) (s : Session) (m : Lamports)
    → s.status ≡ opened
    → s.expiry <ℤ tx.now
    → s.settled_to_provider ≤ s.deposited
    → k.session ≢ k.consumer
    → s.deposited - s.settled_to_provider ≤ m k.session
    → IsU64 (m k.consumer + (s.deposited - s.settled_to_provider))
    → expire_handler tx k s m
      ≡ ok (
        record s { status = expired },
        moved k.session k.consumer (s.deposited - s.settled_to_provider) m,
      )
unfolding expire_handler
expire_goes_through tx k s m status over lo apart cover room =
    ground (arith, pda_transfer_ok k.session k.consumer (s.deposited - s.settled_to_provider) m)
