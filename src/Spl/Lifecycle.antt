-- ===== src/Spl/Lifecycle.antt =====
-- Cancellation and expiry of a token session (programs/solmesh/src/instructions/spl.rs).
use sol_mesh.Base.{ℕ, ◌==◌, some, is_some, update}
use sol_mesh.Base.Int.{ltb_ℤ}
use sol_mesh.Base.Words.{checked_sub}
use sol_mesh.Errors.{
  Result, ok, ◌>>=◌, ◌>>◌, require, ok_or, unauthorized, session_not_open, session_has_usage,
  session_not_expired, math_overflow, spl_unsupported, account_not_signer, constraint_seeds,
  constraint_has_one,
}
use sol_mesh.State.{Session, opened, cancelled, expired, status_eq}
use sol_mesh.Runtime.{Chain, Tx, World, Tokens, is_canonical_address}
use sol_mesh.Shared.{transfer_from_vault}
use sol_mesh.Accounts.{load_config, load_session}
use sol_mesh.Spl.{load_token, vault_seeds}

-- The keys of `struct LifecycleSpl`.
pub record LifecycleSpl : Type 0 where
  pub config : ℕ
  pub session : ℕ
  pub consumer : ℕ
  pub vault_authority : ℕ
  pub vault_token : ℕ
  pub consumer_token : ℕ
  pub signer : ℕ

unfoldable pub load_lifecycle_spl : Chain → Tx → World → LifecycleSpl → Result Session
load_lifecycle_spl ch tx w k = do
  c ← load_config ch w k.config
  s ← load_session ch w k.session
  require (s.consumer == k.consumer) constraint_has_one
  require (is_canonical_address ch (vault_seeds k.session) k.vault_authority) constraint_seeds
  vault ← load_token w k.vault_token
  to_consumer ← load_token w k.consumer_token
  require (to_consumer.owner == k.consumer) unauthorized
  require (tx.is_signer k.signer) account_not_signer
  ok s

-- The whole unsettled rest goes to the consumer's token account.
abbrev pub refund_spl : Chain → LifecycleSpl → Session → Tokens → Result Tokens
refund_spl ch k s m = do
  remainder ← ok_or (checked_sub s.deposited s.settled_to_provider) math_overflow
  transfer_from_vault ch k.vault_token k.consumer_token k.vault_authority k.session s.vault_bump
      remainder m

unfoldable pub cancel_handler_spl :
    Chain → LifecycleSpl → Session → Tokens → Result (Session × Tokens)
cancel_handler_spl ch k s m = do
  require (status_eq s.status opened) session_not_open
  require (is_some s.mint) spl_unsupported
  require (s.last_nonce == 0) session_has_usage
  require (k.signer == s.consumer) unauthorized
  m' ← refund_spl ch k s m
  ok (record s { status = cancelled }, m')

unfoldable pub expire_handler_spl :
    Chain → Tx → LifecycleSpl → Session → Tokens → Result (Session × Tokens)
expire_handler_spl ch tx k s m = do
  require (status_eq s.status opened) session_not_open
  require (is_some s.mint) spl_unsupported
  require (ltb_ℤ s.expiry tx.now) session_not_expired
  m' ← refund_spl ch k s m
  ok (record s { status = expired }, m')

unfoldable pub cancel_session_spl : Chain → Tx → World → LifecycleSpl → Result World
cancel_session_spl ch tx w k = do
  s ← load_lifecycle_spl ch tx w k
  (s', m) ← cancel_handler_spl ch k s w.tokens
  ok (record w { sessions = update w.sessions k.session (some s'); tokens = m })

unfoldable pub expire_session_spl : Chain → Tx → World → LifecycleSpl → Result World
expire_session_spl ch tx w k = do
  s ← load_lifecycle_spl ch tx w k
  (s', m) ← expire_handler_spl ch tx k s w.tokens
  ok (record w { sessions = update w.sessions k.session (some s'); tokens = m })
