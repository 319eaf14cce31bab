-- ===== src/Registry/Edges.antt =====
-- What an instruction may do to a configuration and to a node.
use sol_mesh.Base.Words.{u32_max}
use sol_mesh.Base.{min, ℕ, ◌≤◌, ◌≡◌, ◌∷◌, [], ◌++◌, true, none, some, update}
use sol_mesh.Constants.{config_seed}
use sol_mesh.State.{Config, Node}
use sol_mesh.Runtime.{Chain, Tx, World}
use sol_mesh.Accounts.{node_seeds}
use sol_mesh.Admin.Bounds.{IsConfig}

-- A change of a configuration: signed by its authority, within the bounds, and of nothing but the
-- fee, the window and the pause.
pub record ConfigEdge (tx : Tx) (c c' : Config) : Type 0 where
  pub by_authority : tx.is_signer c.authority ≡ true
  pub same_terms : c' ≡ record c {
    fee_bps = c'.fee_bps;
    challenge_window_secs = c'.challenge_window_secs;
    paused = c'.paused;
  }
  pub bounds_kept : IsConfig c → IsConfig c'

pub data ConfigEffect (ch : Chain) (tx : Tx) (w w' : World) : Type 0 where
  same : w'.configs ≡ w.configs → ConfigEffect ch tx w w'
  edited :
      (key : ℕ) (c c' : Config)
      → w.configs key ≡ some c
      → w'.configs ≡ update w.configs key (some c')
      → ConfigEdge tx c c'
      → ConfigEffect ch tx w w'
  initialized :
      (key : ℕ) (c : Config)
      → w.configs key ≡ none
      → w'.configs ≡ update w.configs key (some c)
      → ch.program_address ((config_seed ∷ []) ++ ((c.bump ∷ []) ∷ [])) ≡ some key
      → IsConfig c
      → ConfigEffect ch tx w w'

-- A change of a node: a payout credits it with units, earnings and reputation, or its provider
-- signs for another description. All else stays, the count of sessions included.
pub data NodeEdge (tx : Tx) (n n' : Node) : Type 0 where
  credited :
      n' ≡ record n {
        reputation = n'.reputation;
        total_units = n'.total_units;
        total_settled = n'.total_settled;
      }
      → n.total_units ≤ n'.total_units
      → n.total_settled ≤ n'.total_settled
      → min n.reputation u32_max ≤ n'.reputation
      → NodeEdge tx n n'
  described :
      tx.is_signer n.provider ≡ true
      → n' ≡ record n { capacity = n'.capacity; geo = n'.geo; active = n'.active }
      → NodeEdge tx n n'

pub data NodeEffect (ch : Chain) (tx : Tx) (w w' : World) : Type 0 where
  same : w'.nodes ≡ w.nodes → NodeEffect ch tx w w'
  edited :
      (key : ℕ) (n n' : Node)
      → w.nodes key ≡ some n
      → w'.nodes ≡ update w.nodes key (some n')
      → NodeEdge tx n n'
      → NodeEffect ch tx w w'
  registered :
      (key : ℕ) (n : Node)
      → w.nodes key ≡ none
      → w'.nodes ≡ update w.nodes key (some n)
      → ch.program_address (node_seeds n.asset ++ ((n.bump ∷ []) ∷ [])) ≡ some key
      → NodeEffect ch tx w w'
