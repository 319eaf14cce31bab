-- ===== src/Admin.antt =====
-- programs/solmesh/src/instructions/initialize_config.rs and admin.rs: the configuration, the
-- withdrawal of fees, and the provider's changes to a node.
pub mod Bounds
use sol_mesh.Base.{
  ◌++◌, ℕ, Bool, false, ◌==◌, ltb, leb, List, [], ◌∷◌, Option, none, some, get_or, length, update,
}
use sol_mesh.Base.Int.{ℤ, pos, ltb_ℤ}
use sol_mesh.Errors.{
  Result, ok, ◌>>=◌, ◌>>◌, require, ok_or, fee_too_high, bad_duration, unauthorized, amount_zero,
  string_too_long, account_not_signer, account_already_in_use, constraint_seeds, constraint_address,
  program_failed,
}
use sol_mesh.Constants.{config_seed, fee_vault_seed, max_fee_bps, max_string}
use sol_mesh.State.{Config, Node}
use sol_mesh.Runtime.{Chain, Tx, World, config_account, is_unused, is_canonical_address}
use sol_mesh.Accounts.{load_config, load_node, node_seeds}
use sol_mesh.Core.{set_reputation}

-- The keys of `struct InitializeConfig`.
pub record InitializeConfig : Type 0 where
  pub config : ℕ
  pub fee_vault : ℕ
  pub authority : ℕ

unfoldable pub initialize_config : Chain → Tx → World → InitializeConfig → ℕ → ℤ → ℕ → Result World
initialize_config ch tx w k fee_bps challenge_window_secs mpl_core_program = do
  require (tx.is_signer k.authority) account_not_signer
  require (is_canonical_address ch (config_seed ∷ []) k.config) constraint_seeds
  require (is_unused w k.config) account_already_in_use
  m ← ok_or (ch.create_account config_account k.authority k.config w.lamports) program_failed
  require (is_canonical_address ch (fee_vault_seed ∷ []) k.fee_vault) constraint_seeds
  require (leb fee_bps max_fee_bps) fee_too_high
  require (ltb_ℤ (pos 0) challenge_window_secs) bad_duration
  ok (record w {
    lamports = m;
    configs = update w.configs k.config (
        some (record {
          authority = k.authority;
          fee_bps = fee_bps;
          fee_vault = k.fee_vault;
          challenge_window_secs = challenge_window_secs;
          mpl_core_program = mpl_core_program;
          paused = false;
          bump = (ch.find_program_address (config_seed ∷ [])).1;
        }));
  })

-- The keys of `struct AdminConfig`.
pub record AdminConfig : Type 0 where
  pub config : ℕ
  pub authority : ℕ

unfoldable pub load_admin : Chain → Tx → World → AdminConfig → Result Config
load_admin ch tx w k = do
  c ← load_config ch w k.config
  require (tx.is_signer k.authority) account_not_signer
  require (c.authority == k.authority) unauthorized
  ok c

-- `if let Some(f) = fee_bps { require!(…); c.fee_bps = f; }`, and so for the window.
set_fee_bps : Option ℕ → Config → Result Config
set_fee_bps none c = ok c
set_fee_bps (some f) c = do require (leb f max_fee_bps) fee_too_high; ok (record c { fee_bps = f })

set_challenge_window : Option ℤ → Config → Result Config
set_challenge_window none c = ok c
set_challenge_window (some w) c = do
  require (ltb_ℤ (pos 0) w) bad_duration
  ok (record c { challenge_window_secs = w })

unfoldable pub update_config_handler : Option ℕ → Option ℤ → Config → Result Config
unfolding set_fee_bps set_challenge_window
update_config_handler fee_bps challenge_window_secs c = do
  c' ← set_fee_bps fee_bps c
  set_challenge_window challenge_window_secs c'

unfoldable pub update_config : Chain → Tx → World → AdminConfig → Option ℕ → Option ℤ → Result World
update_config ch tx w k fee_bps challenge_window_secs = do
  c ← load_admin ch tx w k
  c' ← update_config_handler fee_bps challenge_window_secs c
  ok (record w { configs = update w.configs k.config (some c') })

unfoldable pub set_paused : Chain → Tx → World → AdminConfig → Bool → Result World
set_paused ch tx w k paused = do
  c ← load_admin ch tx w k
  ok (record w { configs = update w.configs k.config (some (record c { paused = paused })) })

-- The keys of `struct WithdrawFees`.
pub record WithdrawFees : Type 0 where
  pub config : ℕ
  pub fee_vault : ℕ
  pub authority : ℕ
  pub destination : ℕ

unfoldable pub withdraw_fees : Chain → Tx → World → WithdrawFees → ℕ → Result World
withdraw_fees ch tx w k amount = do
  c ← load_admin ch tx w (record { config = k.config; authority = k.authority })
  require (is_canonical_address ch (fee_vault_seed ∷ []) k.fee_vault) constraint_seeds
  m ← ok_or (ch.system_transfer k.fee_vault k.destination amount w.lamports) program_failed
  ok (record w { lamports = m })

-- The keys of `struct UpdateNodeMeta`.
pub record UpdateNodeMeta : Type 0 where
  pub config : ℕ
  pub node : ℕ
  pub asset : ℕ
  pub payer : ℕ
  pub provider : ℕ
  pub mpl_core_program : ℕ

unfoldable pub load_node_meta : Chain → Tx → World → UpdateNodeMeta → Result Node
load_node_meta ch tx w k = do
  c ← load_config ch w k.config
  n ← load_node ch w k.node
  require (tx.is_signer k.payer) account_not_signer
  require (tx.is_signer k.provider) account_not_signer
  require (n.provider == k.provider) unauthorized
  require (k.asset == n.asset) constraint_address
  require (k.mpl_core_program == c.mpl_core_program) constraint_address
  ok n

-- The three optional changes, in their order.
set_capacity : Option ℕ → Node → Result Node
set_capacity none n = ok n
set_capacity (some c) n = do require (ltb 0 c) amount_zero; ok (record n { capacity = c })

set_geo : Option (List ℕ) → Node → Result Node
set_geo none n = ok n
set_geo (some g) n = do
  require (leb (length g) max_string) string_too_long
  ok (record n { geo = g })

unfoldable pub edit_node : Option ℕ → Option (List ℕ) → Option Bool → Node → Result Node
unfolding set_capacity set_geo
edit_node capacity geo active n = do
  n1 ← set_capacity capacity n
  n2 ← set_geo geo n1
  ok (record n2 { active = get_or active n2.active })

unfoldable pub update_node_meta :
    Chain → Tx → World → UpdateNodeMeta → Option ℕ → Option (List ℕ) → Option Bool → Result World
update_node_meta ch tx w k capacity geo active = do
  n ← load_node_meta ch tx w k
  n' ← edit_node capacity geo active n
  let seeds = node_seeds n'.asset
  w' ←
      set_reputation ch k.asset k.payer k.node n'.capacity n'.geo n'.reputation n'.total_units
        (seeds ++ ((n'.bump ∷ []) ∷ [])) w
  ok (record w' { nodes = update w'.nodes k.node (some n') })
