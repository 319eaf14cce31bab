-- ===== src/Spl.antt =====
-- programs/solmesh/src/instructions/spl.rs: sessions whose escrow is a token account.
pub mod Lifecycle
pub mod Effects
pub mod Twins
use sol_mesh.Base.{
  ℕ, Bool, true, false, ◌==◌, ltb, List, [], ◌∷◌, Option, none, some, is_some, update,
}
use sol_mesh.Base.Int.{ltb_ℤ}
use sol_mesh.Base.Words.{checked_add, checked_sub, saturating_sub, saturating_add_u32}
use sol_mesh.Errors.{
  Result, ok, err, ◌>>=◌, ◌>>◌, require, ok_or, unauthorized, owed_decreased, stale_nonce,
  session_not_open, session_not_closing, challenge_window_open, session_not_expired,
  session_has_usage, math_overflow, spl_unsupported, account_not_initialized,
  account_already_in_use, account_not_signer, constraint_seeds, constraint_has_one,
  constraint_address, program_failed, node_inactive,
}
use sol_mesh.Constants.{vault_seed}
use sol_mesh.State.{Config, Node, Session, opened, closing, cancelled, expired, status_eq}
use sol_mesh.Message.{StateUpdate}
use sol_mesh.Runtime.{
  Chain, Tx, World, Tokens, TokenAccount, session_account, token_account, is_unused,
  is_canonical_address,
}
use sol_mesh.Shared.{
  key_bytes, verify_cosigned_state, fee_for, reputation_reward, transfer_from_vault,
}
use sol_mesh.Accounts.{Loaded, load_config, load_node, load_session, session_seeds}
use sol_mesh.Open.{Terms, check_terms, new_session, count_session}
use sol_mesh.Settle.{settled_session}
use sol_mesh.Dispute.{finalized_session}

-- `Account<TokenAccount>`
abbrev pub load_token : World → ℕ → Result TokenAccount
load_token w key = ok_or (w.tokens key) account_not_initialized

abbrev pub vault_seeds : ℕ → List (List ℕ)
vault_seeds session = vault_seed ∷ key_bytes session ∷ []

-- The keys of `struct OpenSessionSpl`.
pub record OpenSessionSpl : Type 0 where
  pub config : ℕ
  pub node : ℕ
  pub session : ℕ
  pub mint : ℕ
  pub consumer_token : ℕ
  pub vault_authority : ℕ
  pub vault_token : ℕ
  pub consumer : ℕ

-- The associated token account that `init` creates.
abbrev pub empty_vault : ℕ → ℕ → TokenAccount
empty_vault mint authority = record { mint = mint; owner = authority; amount = 0; frozen = false }

-- The node is not declared `mut`: the handler's count of sessions is not written back.
unfoldable pub open_session_spl : Chain → Tx → World → OpenSessionSpl → Terms → Result World
open_session_spl ch tx w k t = do
  c ← load_config ch w k.config
  n ← load_node ch w k.node
  from ← load_token w k.consumer_token
  require (tx.is_signer k.consumer) account_not_signer
  require n.active node_inactive
  let seeds = session_seeds k.node k.consumer t.session_seed
  require (is_canonical_address ch seeds k.session) constraint_seeds
  require (is_unused w k.session) account_already_in_use
  m1 ← ok_or (ch.create_account session_account k.consumer k.session w.lamports) program_failed
  require (ch.is_mint k.mint) account_not_initialized
  require (from.mint == k.mint) spl_unsupported
  require (from.owner == k.consumer) unauthorized
  require (is_canonical_address ch (vault_seeds k.session) k.vault_authority) constraint_seeds
  require (k.vault_token == ch.associated_token k.mint k.vault_authority) constraint_address
  require (is_unused w k.vault_token) account_already_in_use
  m2 ← ok_or (ch.create_account token_account k.consumer k.vault_token m1) program_failed
  check_terms c t
  tokens ←
      ok_or
        (ch.token_transfer k.consumer_token k.vault_token k.consumer t.amount
          (update w.tokens k.vault_token (some (empty_vault k.mint k.vault_authority))))
        program_failed
  s ←
      new_session tx t k.node n k.consumer (some k.mint)
        (ch.find_program_address (vault_seeds k.session)).1 (ch.find_program_address seeds).1
  n' ← count_session n
  ok (record w { sessions = update w.sessions k.session (some s); lamports = m2; tokens = tokens })

-- The keys of `struct SettleSpl`; `struct FinalizeCloseSpl` has the same, without the sysvar.
pub record SettleSpl : Type 0 where
  pub config : ℕ
  pub node : ℕ
  pub session : ℕ
  pub provider : ℕ
  pub consumer : ℕ
  pub asset : ℕ
  pub vault_authority : ℕ
  pub vault_token : ℕ
  pub provider_token : ℕ
  pub consumer_token : ℕ
  pub fee_token : ℕ
  pub payer : ℕ
  pub mpl_core_program : ℕ

abbrev pub FinalizeCloseSpl : Type 0
FinalizeCloseSpl = SettleSpl

-- No constraint ties `vault_token` or a mint to the session.
unfoldable pub load_settle_spl : Chain → Tx → World → SettleSpl → Result Loaded
load_settle_spl ch tx w k = do
  c ← load_config ch w k.config
  n ← load_node ch w k.node
  s ← load_session ch w k.session
  require (s.node == k.node) constraint_has_one
  require (s.provider == k.provider) constraint_has_one
  require (s.consumer == k.consumer) constraint_has_one
  require (k.asset == n.asset) constraint_address
  require (is_canonical_address ch (vault_seeds k.session) k.vault_authority) constraint_seeds
  vault ← load_token w k.vault_token
  to_provider ← load_token w k.provider_token
  require (to_provider.owner == k.provider) unauthorized
  to_consumer ← load_token w k.consumer_token
  require (to_consumer.owner == k.consumer) unauthorized
  to_fees ← load_token w k.fee_token
  require (to_fees.owner == c.fee_vault) unauthorized
  require (tx.is_signer k.payer) account_not_signer
  require (k.mpl_core_program == c.mpl_core_program) constraint_address
  ok (record { config = c; node = n; session = s })

-- A payment out of the vault named in the instruction.
abbrev pub vault_pays : Chain → SettleSpl → Session → ℕ → ℕ → Tokens → Result Tokens
vault_pays ch k s dest amount m =
    transfer_from_vault ch k.vault_token dest k.vault_authority k.session s.vault_bump amount m

-- The two payments that every settlement makes.
unfoldable pub pay_provider_spl : Chain → SettleSpl → Session → ℕ → ℕ → Tokens → Result Tokens
pay_provider_spl ch k s provider_amount fee m = do
  m1 ← vault_pays ch k s k.provider_token provider_amount m
  vault_pays ch k s k.fee_token fee m1

abbrev pub refund_unless_spl :
    Bool → Chain → SettleSpl → Session → StateUpdate → Tokens → Result Tokens
refund_unless_spl true ch k s state m = ok m
refund_unless_spl false ch k s state m = do
  remainder ← ok_or (checked_sub s.deposited state.owed_to_provider) math_overflow
  vault_pays ch k s k.consumer_token remainder m

unfoldable pub apply_state_spl :
    Chain → Tx → SettleSpl → Loaded → Tokens → StateUpdate → Bool → Result (Node × Session × Tokens)
apply_state_spl ch tx k l m state is_checkpoint = do
  let s = l.session
  let n = l.node
  require (status_eq s.status opened) session_not_open
  require (is_some s.mint) spl_unsupported
  require (ltb s.last_nonce state.nonce) stale_nonce
  verify_cosigned_state ch s k.session state tx.sysvar
  payout_delta ← ok_or (checked_sub state.owed_to_provider s.settled_to_provider) owed_decreased
  fee ← fee_for payout_delta l.config.fee_bps
  provider_amount ← ok_or (checked_sub payout_delta fee) math_overflow
  m2 ← pay_provider_spl ch k s provider_amount fee m
  new_units ←
      ok_or (checked_add n.total_units (saturating_sub state.units_consumed s.pending_units))
        math_overflow
  let new_rep = saturating_add_u32 n.reputation (reputation_reward state.units_consumed)
  m3 ← refund_unless_spl is_checkpoint ch k s state m2
  total_settled ← ok_or (checked_add n.total_settled provider_amount) math_overflow
  ok (
    record n { reputation = new_rep; total_units = new_units; total_settled = total_settled },
    settled_session is_checkpoint s state,
    m3,
  )

-- What a payout writes back: node, session and token balances.
abbrev pub store_spl : World → SettleSpl → Node × Session × Tokens → World
store_spl w k (n, s, m) = record w {
  nodes = update w.nodes k.node (some n);
  sessions = update w.sessions k.session (some s);
  tokens = m;
}

unfoldable pub run_settle_spl : Chain → Tx → World → SettleSpl → StateUpdate → Bool → Result World
run_settle_spl ch tx w k state is_checkpoint = do
  l ← load_settle_spl ch tx w k
  out ← apply_state_spl ch tx k l w.tokens state is_checkpoint
  ok (store_spl w k out)

unfoldable pub settle_session_spl : Chain → Tx → World → SettleSpl → StateUpdate → Result World
settle_session_spl ch tx w k state = run_settle_spl ch tx w k state false

unfoldable pub checkpoint_settle_spl : Chain → Tx → World → SettleSpl → StateUpdate → Result World
checkpoint_settle_spl ch tx w k state = run_settle_spl ch tx w k state true

unfoldable pub finalize_handler_spl :
    Chain → Tx → FinalizeCloseSpl → Loaded → Tokens → Result (Node × Session × Tokens)
finalize_handler_spl ch tx k l m = do
  let s = l.session
  let n = l.node
  require (status_eq s.status closing) session_not_closing
  require (is_some s.mint) spl_unsupported
  require (ltb_ℤ s.challenge_deadline tx.now) challenge_window_open
  let owed = s.pending_payout
  let units = s.pending_units
  payout_delta ← ok_or (checked_sub owed s.settled_to_provider) owed_decreased
  fee ← fee_for payout_delta l.config.fee_bps
  provider_amount ← ok_or (checked_sub payout_delta fee) math_overflow
  m2 ← pay_provider_spl ch k s provider_amount fee m
  new_units ← ok_or (checked_add n.total_units units) math_overflow
  let new_rep = saturating_add_u32 n.reputation (reputation_reward units)
  remainder ← ok_or (checked_sub s.deposited owed) math_overflow
  m3 ← vault_pays ch k s k.consumer_token remainder m2
  total_settled ← ok_or (checked_add n.total_settled provider_amount) math_overflow
  ok (
    record n { reputation = new_rep; total_units = new_units; total_settled = total_settled },
    finalized_session s,
    m3,
  )

unfoldable pub finalize_close_spl : Chain → Tx → World → FinalizeCloseSpl → Result World
finalize_close_spl ch tx w k = do
  l ← load_settle_spl ch tx w k
  out ← finalize_handler_spl ch tx k l w.tokens
  ok (store_spl w k out)
