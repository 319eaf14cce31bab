-- ===== src/Program.antt =====
-- programs/solmesh/src/lib.rs: the instructions of the program, and histories of them.
use sol_mesh.Base.{ℕ, Bool, ◌≡◌, ◌≤◌, List, Option, some}
use sol_mesh.Base.Int.{ℤ}
use sol_mesh.Errors.{Result, ok}
use sol_mesh.State.{Session}
use sol_mesh.Message.{StateUpdate}
use sol_mesh.Runtime.{TokenAccount, Chain, Tx, World, Lamports, Tokens}
use sol_mesh.Runtime.Laws.{IsSigned, Keeps}
use sol_mesh.Settle.{Settle}
use sol_mesh.Settle
use sol_mesh.Dispute.{UnilateralClose, FinalizeClose}
use sol_mesh.Dispute
use sol_mesh.Lifecycle.{CancelSession, ExpireSession}
use sol_mesh.Lifecycle
use sol_mesh.Admin.{InitializeConfig, AdminConfig, WithdrawFees, UpdateNodeMeta}
use sol_mesh.Admin
use sol_mesh.Open.{RegisterNode, OpenSession, Terms}
use sol_mesh.Open
use sol_mesh.Spl.{OpenSessionSpl, SettleSpl, FinalizeCloseSpl}
use sol_mesh.Spl
use sol_mesh.Spl.Lifecycle.{LifecycleSpl}
use sol_mesh.Spl.Lifecycle as SplLifecycle

-- An instruction with its accounts and arguments, in the order of `mod solmesh`.
pub data Call : Type 0 where
  initialize_config : InitializeConfig → ℕ → ℤ → ℕ → Call
  register_node : RegisterNode → List ℕ → List ℕ → ℕ → List ℕ → ℕ → Call
  open_session : OpenSession → Terms → Call
  checkpoint_settle settle_session : Settle → StateUpdate → Call
  initiate_unilateral_close challenge : UnilateralClose → StateUpdate → Call
  finalize_close : FinalizeClose → Call
  cancel_session : CancelSession → Call
  expire_session : ExpireSession → Call
  update_config : AdminConfig → Option ℕ → Option ℤ → Call
  set_paused : AdminConfig → Bool → Call
  withdraw_fees : WithdrawFees → ℕ → Call
  update_node_meta : UpdateNodeMeta → Option ℕ → Option (List ℕ) → Option Bool → Call
  open_session_spl : OpenSessionSpl → Terms → Call
  checkpoint_settle_spl settle_session_spl : SettleSpl → StateUpdate → Call
  finalize_close_spl : FinalizeCloseSpl → Call
  cancel_session_spl expire_session_spl : LifecycleSpl → Call

-- `#[program] mod solmesh`
unfoldable pub dispatch : Chain → Tx → Call → World → Result World
dispatch ch tx (initialize_config k f c m) w = Admin.initialize_config ch tx w k f c m
dispatch ch tx (register_node k n u c g r) w = Open.register_node ch tx w k n u c g r
dispatch ch tx (open_session k t) w = Open.open_session ch tx w k t
dispatch ch tx (checkpoint_settle k s) w = Settle.checkpoint_settle ch tx w k s
dispatch ch tx (settle_session k s) w = Settle.settle_session ch tx w k s
dispatch ch tx (initiate_unilateral_close k s) w = Dispute.initiate_unilateral_close ch tx w k s
dispatch ch tx (challenge k s) w = Dispute.challenge ch tx w k s
dispatch ch tx (finalize_close k) w = Dispute.finalize_close ch tx w k
dispatch ch tx (cancel_session k) w = Lifecycle.cancel_session ch tx w k
dispatch ch tx (expire_session k) w = Lifecycle.expire_session ch tx w k
dispatch ch tx (update_config k f c) w = Admin.update_config ch tx w k f c
dispatch ch tx (set_paused k p) w = Admin.set_paused ch tx w k p
dispatch ch tx (withdraw_fees k a) w = Admin.withdraw_fees ch tx w k a
dispatch ch tx (update_node_meta k c g a) w = Admin.update_node_meta ch tx w k c g a
dispatch ch tx (open_session_spl k t) w = Spl.open_session_spl ch tx w k t
dispatch ch tx (checkpoint_settle_spl k s) w = Spl.checkpoint_settle_spl ch tx w k s
dispatch ch tx (settle_session_spl k s) w = Spl.settle_session_spl ch tx w k s
dispatch ch tx (finalize_close_spl k) w = Spl.finalize_close_spl ch tx w k
dispatch ch tx (cancel_session_spl k) w = SplLifecycle.cancel_session_spl ch tx w k
dispatch ch tx (expire_session_spl k) w = SplLifecycle.expire_session_spl ch tx w k

-- What happens on the chain: an instruction of the program that goes through (one that fails changes
-- nothing), or anything that others do. They cannot write the program's accounts, nor take lamports
-- out of them, nor take tokens out of an account that an address of the program owns.
pub data Step (ch : Chain) (w : World) : World → Type 0 where
  instruction :
      (tx : Tx) (call : Call) {w' : World}
      → IsSigned ch tx
      → dispatch ch tx call w ≡ ok w'
      → Step ch w w'
  others :
      (m : Lamports) (tokens : Tokens)
      → ((key : ℕ) (s : Session) → w.sessions key ≡ some s → w.lamports key ≤ m key)
      → ((j : ℕ) (a : TokenAccount) (seeds : List (List ℕ))
          → w.tokens j ≡ some a
          → ch.program_address seeds ≡ some a.owner
          → Keeps tokens j a)
      → Step ch w (record w { lamports = m; tokens = tokens })

pub data Reach (ch : Chain) (w : World) : World → Type 0 where
  here : Reach ch w w
  next : {v u : World} → Reach ch w v → Step ch v u → Reach ch w u
