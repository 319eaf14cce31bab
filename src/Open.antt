-- ===== src/Open.antt =====
-- programs/solmesh/src/instructions/register_node.rs and open_session.rs: a provider's node, and a
-- consumer's session with its lamports in escrow.
pub mod Uncounted
pub mod Opens
use sol_mesh.Base.{
  ℕ, true, not, ◌==◌, ◌&&◌, ltb, leb, List, [], ◌∷◌, ◌++◌, Option, none, some, length, update,
}
use sol_mesh.Base.Int.{ℤ, pos, leb_ℤ, checked_add_i64}
use sol_mesh.Base.Words.{checked_add}
use sol_mesh.Errors.{
  Result, ok, ◌>>=◌, ◌>>◌, require, ok_or, node_inactive, paused, amount_zero, bad_duration,
  string_too_long, math_overflow, account_not_signer, account_already_in_use, constraint_seeds,
  constraint_address, program_failed,
}
use sol_mesh.Constants.{max_string, min_duration_secs, max_duration_secs}
use sol_mesh.State.{Config, Node, Session, opened}
use sol_mesh.Runtime.{
  Chain, Tx, World, Lamports, node_account, session_account, is_unused, is_canonical_address,
}
use sol_mesh.Accounts.{load_config, load_node, node_seeds, session_seeds}
use sol_mesh.Core.{create_node_asset}

-- The keys of `struct RegisterNode`.
pub record RegisterNode : Type 0 where
  pub config : ℕ
  pub node : ℕ
  pub asset : ℕ
  pub provider : ℕ
  pub mpl_core_program : ℕ

unfoldable pub register_node :
    Chain → Tx → World → RegisterNode → List ℕ → List ℕ → ℕ → List ℕ → ℕ → Result World
register_node ch tx w k name uri capacity geo init_reputation = do
  c ← load_config ch w k.config
  require (tx.is_signer k.asset) account_not_signer
  require (tx.is_signer k.provider) account_not_signer
  require (is_canonical_address ch (node_seeds k.asset) k.node) constraint_seeds
  require (is_unused w k.node) account_already_in_use
  m ← ok_or (ch.create_account node_account k.provider k.node w.lamports) program_failed
  require (k.mpl_core_program == c.mpl_core_program) constraint_address
  require (not c.paused) paused
  require (leb (length name) max_string && leb (length geo) max_string && leb (length uri) 200)
      string_too_long
  require (ltb 0 capacity) amount_zero
  let bump = (ch.find_program_address (node_seeds k.asset)).1
  w' ←
      create_node_asset ch k.asset k.provider k.provider k.node name uri capacity geo
        init_reputation (node_seeds k.asset ++ ((bump ∷ []) ∷ [])) (record w { lamports = m })
  ok (record w' {
    nodes = update w'.nodes k.node (
        some (record {
          asset = k.asset;
          provider = k.provider;
          capacity = capacity;
          geo = geo;
          reputation = init_reputation;
          total_units = 0;
          total_sessions = 0;
          total_settled = 0;
          active = true;
          bump = bump;
        }));
  })

-- The keys of `struct OpenSession`.
pub record OpenSession : Type 0 where
  pub config : ℕ
  pub node : ℕ
  pub session : ℕ
  pub consumer : ℕ

-- The arguments of both instructions that open a session.
pub record Terms : Type 0 where
  pub session_seed : ℕ
  pub amount : ℕ
  pub duration_secs : ℤ
  pub rate_per_unit : ℕ

-- The checks that stand first in both handlers.
unfoldable pub check_terms : Config → Terms → Result (Unit {0})
check_terms c t = do
  require (not c.paused) paused
  require (ltb 0 t.amount) amount_zero
  require (leb_ℤ min_duration_secs t.duration_secs && leb_ℤ t.duration_secs max_duration_secs)
      bad_duration

-- The session that both handlers fill in: node, consumer, mint, the bumps of vault and session, and
-- the expiry.
abbrev pub fresh_session : Tx → Terms → ℕ → Node → ℕ → Option ℕ → ℕ → ℕ → ℤ → Session
fresh_session tx t node n consumer mint vault_bump bump expiry = record {
  node = node;
  asset = n.asset;
  provider = n.provider;
  consumer = consumer;
  mint = mint;
  deposited = t.amount;
  settled_to_provider = 0;
  last_nonce = 0;
  rate_per_unit = t.rate_per_unit;
  opened_at = tx.now;
  expiry = expiry;
  status = opened;
  challenge_deadline = pos 0;
  pending_payout = 0;
  pending_units = 0;
  session_seed = t.session_seed;
  vault_bump = vault_bump;
  bump = bump;
}

unfoldable pub new_session : Tx → Terms → ℕ → Node → ℕ → Option ℕ → ℕ → ℕ → Result Session
new_session tx t node n consumer mint vault_bump bump = do
  expiry ← ok_or (checked_add_i64 tx.now t.duration_secs) math_overflow
  ok (fresh_session tx t node n consumer mint vault_bump bump expiry)

-- `node.total_sessions + 1`, in the handler's copy of the node.
unfoldable pub count_session : Node → Result Node
count_session n = do
  total ← ok_or (checked_add n.total_sessions 1) math_overflow
  ok (record n { total_sessions = total })

unfoldable pub open_session_handler :
    Chain
    → Tx
    → OpenSession
    → Config
    → Node
    → ℕ
    → Terms
    → Lamports
    → Result (Session × Node × Lamports)
open_session_handler ch tx k c n bump t m = do
  check_terms c t
  m' ← ok_or (ch.system_transfer k.consumer k.session t.amount m) program_failed
  s ← new_session tx t k.node n k.consumer none 0 bump
  n' ← count_session n
  ok (s, n', m')

-- The account `node` is not declared `mut`, so Anchor writes only the session back.
unfoldable pub open_session : Chain → Tx → World → OpenSession → Terms → Result World
open_session ch tx w k t = do
  c ← load_config ch w k.config
  n ← load_node ch w k.node
  require (tx.is_signer k.consumer) account_not_signer
  require n.active node_inactive
  let seeds = session_seeds k.node k.consumer t.session_seed
  require (is_canonical_address ch seeds k.session) constraint_seeds
  require (is_unused w k.session) account_already_in_use
  m ← ok_or (ch.create_account session_account k.consumer k.session w.lamports) program_failed
  (s, n', m') ← open_session_handler ch tx k c n (ch.find_program_address seeds).1 t m
  ok (record w { sessions = update w.sessions k.session (some s); lamports = m' })
