-- ===== src/Vault/Deployed.antt =====
-- The program since its deployment (programs/solmesh/src/lib.rs): nothing is assumed of its accounts but that
-- there were none.
use sol_mesh.Base.{ℕ, ◌≡◌, none, arith}
use sol_mesh.Runtime.{Chain, World}
use sol_mesh.Runtime.Laws.{IsChain, IsTokenChain}
use sol_mesh.Program.{Reach}
use sol_mesh.Protocol.Histories.{IsSoundWorld, Reach-IsSoundWorld}
use sol_mesh.Registry.Histories.{IsRegistry, Reach-IsRegistry}
use sol_mesh.Vault.Histories.{IsCoveredWorld, Reach-IsCovered}

-- The program has no accounts yet.
pub record IsUndeployed (w : World) : Type 0 where
  pub no_config : (key : ℕ) → w.configs key ≡ none
  pub no_node : (key : ℕ) → w.nodes key ≡ none
  pub no_session : (key : ℕ) → w.sessions key ≡ none

-- The accounts of the program are as they must be: sessions, configurations and nodes, and vaults.
pub record IsWellFormed (ch : Chain) (w : World) : Type 0 where
  pub sound : IsSoundWorld ch w
  pub registered : IsRegistry ch w
  pub covered : IsCoveredWorld ch w

module _ (ch : Chain) (w : World) (h : IsUndeployed w) where
  undeployed-IsWellFormed : IsWellFormed ch w
  undeployed-IsWellFormed = record {
    sound = λ key s e. absurd (ground (arith, h.no_session key));
    registered = record {
      configs_at = λ key c e. absurd (ground (arith, h.no_config key));
      nodes_at = λ key n e. absurd (ground (arith, h.no_node key));
    };
    covered = λ key mint s e in_mint live. absurd (ground (arith, h.no_session key));
  }

-- On a chain and a token program that meet their documentation, in every history of the program
-- since its deployment, whatever instructions run and whatever else happens: every session stands at
-- its address, has settled no more than its deposit, promises between that and the deposit, and
-- holds what is not settled while it is live, in its account or in its own vault; and every
-- configuration and node stands at its address, with the fee and the window within their bounds.
pub since_deployment :
    (ch : Chain) {w w' : World}
    → IsChain ch
    → IsTokenChain ch
    → IsUndeployed w
    → Reach ch w w'
    → IsWellFormed ch w'
since_deployment ch {w} laws token_laws none_yet r =
    let before = undeployed-IsWellFormed ch w none_yet in
    record {
      sound = Reach-IsSoundWorld ch laws r before.sound;
      registered = Reach-IsRegistry ch laws r before.registered;
      covered = λ key mint s e in_mint live.
          Reach-IsCovered ch laws token_laws r before.sound before.covered key mint s e in_mint
            live;
    }
