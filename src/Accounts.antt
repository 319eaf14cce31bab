-- ===== src/Accounts.antt =====
-- The account constraints that the `#[derive(Accounts)]` structs of
-- programs/solmesh/src/instructions/ share: a program account is read, and its key must be the
-- address that its seeds and its stored bump derive.
use sol_mesh.Base.{ℕ, List, [], ◌∷◌}
use sol_mesh.Base.Words.{le_bytes}
use sol_mesh.Errors.{
  Result, ok, ◌>>=◌, ◌>>◌, require, ok_or, account_not_initialized, constraint_seeds,
}
use sol_mesh.Constants.{config_seed, node_seed, session_seed}
use sol_mesh.State.{Config, Node, Session}
use sol_mesh.Runtime.{Chain, World, is_program_address}
use sol_mesh.Shared.{key_bytes}

-- The seeds of a node and of a session.
abbrev pub node_seeds : ℕ → List (List ℕ)
node_seeds asset = node_seed ∷ key_bytes asset ∷ []

abbrev pub session_seeds : ℕ → ℕ → ℕ → List (List ℕ)
session_seeds node consumer seed =
    session_seed ∷ key_bytes node ∷ key_bytes consumer ∷ le_bytes 8 seed ∷ []

-- The program accounts that a settlement works on, read and checked.
pub record Loaded : Type 0 where
  pub config : Config
  pub node : Node
  pub session : Session

module _ (ch : Chain) (w : World) (key : ℕ) where
  unfoldable pub load_config : Result Config
  load_config = do
    c ← ok_or (w.configs key) account_not_initialized
    require (is_program_address ch (config_seed ∷ []) c.bump key) constraint_seeds
    ok c

  unfoldable pub load_node : Result Node
  load_node = do
    n ← ok_or (w.nodes key) account_not_initialized
    require (is_program_address ch (node_seeds n.asset) n.bump key) constraint_seeds
    ok n

  unfoldable pub load_session : Result Session
  load_session = do
    s ← ok_or (w.sessions key) account_not_initialized
    require (is_program_address ch (session_seeds s.node s.consumer s.session_seed) s.bump key)
        constraint_seeds
    ok s
