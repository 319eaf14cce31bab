-- ===== src/Lifecycle.antt =====
-- programs/solmesh/src/instructions/lifecycle.rs: cancellation and expiry, with a refund in lamports.
pub mod Refunds
use sol_mesh.Base.{ℕ, ◌==◌, some, update}
use sol_mesh.Base.Int.{ltb_ℤ}
use sol_mesh.Base.Words.{checked_sub}
use sol_mesh.Errors.{
  Result, ok, ◌>>=◌, ◌>>◌, require, ok_or, session_not_open, session_has_usage, session_not_expired,
  math_overflow, account_not_signer, constraint_has_one,
}
use sol_mesh.State.{Session, opened, cancelled, expired, status_eq}
use sol_mesh.Runtime.{Chain, Tx, World, Lamports}
use sol_mesh.Shared.{pda_transfer_lamports}
use sol_mesh.Accounts.{load_config, load_session}

-- The keys of `struct CancelSession`, whose consumer signs.
pub record CancelSession : Type 0 where
  pub config : ℕ
  pub session : ℕ
  pub consumer : ℕ

-- The keys of `struct ExpireSession`, which anyone may sign.
pub record ExpireSession : Type 0 where
  pub config : ℕ
  pub session : ℕ
  pub consumer : ℕ
  pub cranker : ℕ

unfoldable pub load_cancel : Chain → Tx → World → CancelSession → Result Session
load_cancel ch tx w k = do
  c ← load_config ch w k.config
  s ← load_session ch w k.session
  require (s.consumer == k.consumer) constraint_has_one
  require (tx.is_signer k.consumer) account_not_signer
  ok s

unfoldable pub load_expire : Chain → Tx → World → ExpireSession → Result Session
load_expire ch tx w k = do
  c ← load_config ch w k.config
  s ← load_session ch w k.session
  require (s.consumer == k.consumer) constraint_has_one
  require (tx.is_signer k.cranker) account_not_signer
  ok s

unfoldable pub cancel_handler : CancelSession → Session → Lamports → Result (Session × Lamports)
cancel_handler k s m = do
  require (status_eq s.status opened) session_not_open
  require (s.last_nonce == 0) session_has_usage
  remainder ← ok_or (checked_sub s.deposited s.settled_to_provider) math_overflow
  m' ← pda_transfer_lamports k.session k.consumer remainder m
  ok (record s { status = cancelled }, m')

unfoldable pub expire_handler :
    Tx → ExpireSession → Session → Lamports → Result (Session × Lamports)
expire_handler tx k s m = do
  require (status_eq s.status opened) session_not_open
  require (ltb_ℤ s.expiry tx.now) session_not_expired
  remainder ← ok_or (checked_sub s.deposited s.settled_to_provider) math_overflow
  m' ← pda_transfer_lamports k.session k.consumer remainder m
  ok (record s { status = expired }, m')

unfoldable pub cancel_session : Chain → Tx → World → CancelSession → Result World
cancel_session ch tx w k = do
  s ← load_cancel ch tx w k
  (s', m) ← cancel_handler k s w.lamports
  ok (record w { sessions = update w.sessions k.session (some s'); lamports = m })

unfoldable pub expire_session : Chain → Tx → World → ExpireSession → Result World
expire_session ch tx w k = do
  s ← load_expire ch tx w k
  (s', m) ← expire_handler tx k s w.lamports
  ok (record w { sessions = update w.sessions k.session (some s'); lamports = m })
