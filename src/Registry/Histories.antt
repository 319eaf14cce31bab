-- ===== src/Registry/Histories.antt =====
-- Configurations and nodes in every history.
use sol_mesh.Base.{
  subst₂, update-cases, ℕ, ◌≡◌, ◌∙◌, sym, ap, inl, inr, [], ◌∷◌, ◌++◌, Option, some,
}
use sol_mesh.Constants.{config_seed}
use sol_mesh.State.{Config, Node}
use sol_mesh.Runtime.{Chain, Tx, World}
use sol_mesh.Runtime.Laws.{IsChain}
use sol_mesh.Accounts.{node_seeds}
use sol_mesh.Admin.Bounds.{IsConfig}
use sol_mesh.Program.{Step, Reach, instruction, others, here, next}
use sol_mesh.Registry.Edges.{ConfigEffect, NodeEdge, NodeEffect, credited, described}
use sol_mesh.Registry.Instructions.{dispatch-Effects}

-- What holds of the configuration at `key`: its bounds, and its address.
pub record IsConfigAt (ch : Chain) (key : ℕ) (c : Config) : Type 0 where
  pub bounds : IsConfig c
  pub at_address : ch.program_address ((config_seed ∷ []) ++ ((c.bump ∷ []) ∷ [])) ≡ some key

-- What holds of the node at `key`: its address.
abbrev pub IsNodeAt : Chain → ℕ → Node → Type 0
IsNodeAt ch key n = ch.program_address (node_seeds n.asset ++ ((n.bump ∷ []) ∷ [])) ≡ some key

pub record IsRegistry (ch : Chain) (w : World) : Type 0 where
  pub configs_at : (key : ℕ) (c : Config) → w.configs key ≡ some c → IsConfigAt ch key c
  pub nodes_at : (key : ℕ) (n : Node) → w.nodes key ≡ some n → IsNodeAt ch key n

module _ (ch : Chain) (tx : Tx) (w w' : World) where
  configs-IsConfigAt :
      ConfigEffect ch tx w w'
      → ((key : ℕ) (c : Config) → w.configs key ≡ some c → IsConfigAt ch key c)
      → (key : ℕ) (c : Config) → w'.configs key ≡ some c
      → IsConfigAt ch key c
  configs-IsConfigAt (ConfigEffect.same e) h key c read =
      h key c (sym (ap (λ (m : ℕ → Option Config). m key) e) ∙ read)
  configs-IsConfigAt (ConfigEffect.edited k c c' at_c e x) h key d read =
      elim (update-cases w.configs w'.configs k c' e key d read) [
        | inl (place, same) ↦
            let old = h k c at_c in
            subst₂ (IsConfigAt ch) (sym place) same (record {
              bounds = x.bounds_kept old.bounds;
              at_address = rw x.same_terms old.at_address;
            })
        | inr (apart, old) ↦ h key d old
      ]
  configs-IsConfigAt (ConfigEffect.initialized k c unused e derived bounds) h key d read =
      elim (update-cases w.configs w'.configs k c e key d read) [
        | inl (place, same) ↦
            subst₂ (IsConfigAt ch) (sym place) same
              (record { bounds = bounds; at_address = derived })
        | inr (apart, old) ↦ h key d old
      ]

  NodeEdge-IsNodeAt :
      (key : ℕ) (n n' : Node) → NodeEdge tx n n' → IsNodeAt ch key n → IsNodeAt ch key n'
  NodeEdge-IsNodeAt key n n' (credited e _ _ _) h = rw e h
  NodeEdge-IsNodeAt key n n' (described _ e) h = rw e h

  nodes-IsNodeAt :
      NodeEffect ch tx w w'
      → ((key : ℕ) (n : Node) → w.nodes key ≡ some n → IsNodeAt ch key n)
      → (key : ℕ) (n : Node) → w'.nodes key ≡ some n
      → IsNodeAt ch key n
  nodes-IsNodeAt (NodeEffect.same e) h key n read =
      h key n (sym (ap (λ (m : ℕ → Option Node). m key) e) ∙ read)
  nodes-IsNodeAt (NodeEffect.edited k n n' at_n e x) h key d read =
      elim (update-cases w.nodes w'.nodes k n' e key d read) [
        | inl (place, same) ↦
            subst₂ (IsNodeAt ch) (sym place) same (NodeEdge-IsNodeAt k n n' x (h k n at_n))
        | inr (apart, old) ↦ h key d old
      ]
  nodes-IsNodeAt (NodeEffect.registered k n unused e derived) h key d read =
      elim (update-cases w.nodes w'.nodes k n e key d read) [
        | inl (place, same) ↦ subst₂ (IsNodeAt ch) (sym place) same derived
        | inr (apart, old) ↦ h key d old
      ]

pub Step-IsRegistry :
    (ch : Chain) {w w' : World} → IsChain ch → Step ch w w' → IsRegistry ch w → IsRegistry ch w'
Step-IsRegistry ch {w} {w'} laws (instruction tx call signed done) h =
    let (configs, nodes) = dispatch-Effects ch tx w call laws done in
    record {
      configs_at = configs-IsConfigAt ch tx w w' configs h.configs_at;
      nodes_at = nodes-IsNodeAt ch tx w w' nodes h.nodes_at;
    }
Step-IsRegistry ch laws (others m tokens kept owned) h = record {
  configs_at = h.configs_at;
  nodes_at = h.nodes_at;
}

pub Reach-IsRegistry :
    (ch : Chain) {w w' : World} → IsChain ch → Reach ch w w' → IsRegistry ch w → IsRegistry ch w'
Reach-IsRegistry ch laws here h = h
Reach-IsRegistry ch laws (next r step) h =
    Step-IsRegistry ch laws step (Reach-IsRegistry ch laws r h)
