-- ===== src/Open/Opens.antt =====
-- When a session in lamports can be opened (programs/solmesh/src/instructions/open_session.rs).
use sol_mesh.Base.{◌+◌, ◌<◌, ◌≡◌, true, false, none, some, update, arith}
use sol_mesh.Base.Int.{ℤ, ◌≤ℤ◌, checked_add_i64}
use sol_mesh.Base.Words.{IsU64}
use sol_mesh.Constants.{min_duration_secs, max_duration_secs}
use sol_mesh.Errors.{ok}
use sol_mesh.State.{Config, Node}
use sol_mesh.Runtime.{Chain, Tx, World, Lamports, session_account, is_unused}
use sol_mesh.Accounts.{load_config, load_node, session_seeds}
use sol_mesh.Open.{
  OpenSession, Terms, check_terms, fresh_session, new_session, count_session, open_session_handler,
  open_session,
}
use sol_mesh.Registry.Histories.{IsRegistry}

-- What the terms and the accounts must meet: nothing is paused, the node is active, the amount is
-- positive, the duration within its bounds, the address free, and rent and deposit can be paid.
pub record IsOpenable (ch : Chain) (tx : Tx) (w : World) (k : OpenSession) (t : Terms) (c : Config)
    (n : Node) (expiry : ℤ) (m1 m2 : Lamports) : Type 0 where
  pub config_read : w.configs k.config ≡ some c
  pub node_read : w.nodes k.node ≡ some n
  pub by_consumer : tx.is_signer k.consumer ≡ true
  pub is_active : n.active ≡ true
  pub running : c.paused ≡ false
  pub positive : 0 < t.amount
  pub long_enough : min_duration_secs ≤ℤ t.duration_secs
  pub short_enough : t.duration_secs ≤ℤ max_duration_secs
  pub free : is_unused w k.session ≡ true
  pub rent_paid : ch.create_account session_account k.consumer k.session w.lamports ≡ some m1
  pub deposited : ch.system_transfer k.consumer k.session t.amount m1 ≡ some m2
  pub ends : checked_add_i64 tx.now t.duration_secs ≡ some expiry
  pub countable : IsU64 (n.total_sessions + 1)

check_terms_ok :
    (c : Config) (t : Terms)
    → c.paused ≡ false
    → 0 < t.amount
    → min_duration_secs ≤ℤ t.duration_secs
    → t.duration_secs ≤ℤ max_duration_secs
    → check_terms c t ≡ ok tt
unfolding check_terms
check_terms_ok c t running positive long_enough short_enough = ground arith

-- The session is opened at its canonical address.
pub open_goes_through :
    (ch : Chain) (tx : Tx) (w : World) (k : OpenSession) (t : Terms) (c : Config) (n : Node)
    (expiry : ℤ) (m1 m2 : Lamports)
    → let (key, bump) = ch.find_program_address (session_seeds k.node k.consumer t.session_seed) in
      IsRegistry ch w
      → key ≡ k.session
      → IsOpenable ch tx w k t c n expiry m1 m2
      → open_session ch tx w k t
        ≡ ok (record w {
          sessions =
              update w.sessions k.session
                (some (fresh_session tx t k.node n k.consumer none 0 bump expiry));
          lamports = m2;
        })
unfolding open_session open_session_handler new_session count_session load_config load_node
open_goes_through ch tx w k t c n expiry m1 m2 registry canonical can =
    let at_config = (registry.configs_at k.config c can.config_read).at_address in
    let at_node = registry.nodes_at k.node n can.node_read in
    let terms = check_terms_ok c t can.running can.positive can.long_enough can.short_enough in
    ground (arith, at_config, at_node, terms, can, can.free)
