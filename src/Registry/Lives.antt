-- ===== src/Registry/Lives.antt =====
-- What becomes of a configuration and of a node through a history, and who may change them.
use sol_mesh.Base.{
  ℕ, ◌≤◌, ◌≡◌, ◌∙◌, sym, ap, refl, subst, inl, inr, Option, false, some, update-old, arith,
}
use sol_mesh.Base.Int.{pos, ◌<ℤ◌}
use sol_mesh.Constants.{max_fee_bps}
use sol_mesh.Errors.{ok}
use sol_mesh.State.{Config, Node}
use sol_mesh.Runtime.{Chain, Tx, World}
use sol_mesh.Runtime.Laws.{IsChain}
use sol_mesh.Program.{Call, dispatch, Step, Reach, instruction, others, here, next}
use sol_mesh.Registry.Edges.{ConfigEffect, NodeEdge, NodeEffect, credited, described}
use sol_mesh.Registry.Instructions.{dispatch-Effects}
use sol_mesh.Registry.Histories.{IsRegistry, Reach-IsRegistry}

-- The parts of a configuration that are fixed when it is initialised.
pub record SameConfig (c c' : Config) : Type 0 where
  pub same_authority : c'.authority ≡ c.authority
  pub same_vault : c'.fee_vault ≡ c.fee_vault
  pub same_core : c'.mpl_core_program ≡ c.mpl_core_program
  pub same_bump : c'.bump ≡ c.bump

-- A node keeps its identity and its count of sessions, and its totals never fall.
pub record Earns (n n' : Node) : Type 0 where
  pub same_asset : n'.asset ≡ n.asset
  pub same_provider : n'.provider ≡ n.provider
  pub same_bump : n'.bump ≡ n.bump
  pub same_sessions : n'.total_sessions ≡ n.total_sessions
  pub units_grow : n.total_units ≤ n'.total_units
  pub settled_grows : n.total_settled ≤ n'.total_settled

NodeEdge-Earns : {tx : Tx} (n n' : Node) → NodeEdge tx n n' → Earns n n'
NodeEdge-Earns n n' (credited e u s r) = ground arith
NodeEdge-Earns n n' (described by e) = ground arith

-- The node's description is as it was, which only its provider may change.
abbrev pub SameDescription : Node → Node → Type 0
SameDescription n n' = (n'.capacity ≡ n.capacity) × (n'.geo ≡ n.geo) × (n'.active ≡ n.active)

NodeEdge-SameDescription :
    (tx : Tx) (n n' : Node)
    → NodeEdge tx n n'
    → tx.is_signer n.provider ≡ false
    → SameDescription n n'
NodeEdge-SameDescription tx n n' (credited e u s r) unsigned = ground arith
NodeEdge-SameDescription tx n n' (described by e) unsigned = absurd (cc (by, unsigned))

Earns-trans : (l m n : Node) → Earns l m → Earns m n → Earns l n
Earns-trans l m n a b = omega (arith, a, b)

module _ (ch : Chain) (tx : Tx) (w w' : World) (key : ℕ) where
  config-after :
      (c : Config)
      → ConfigEffect ch tx w w'
      → w.configs key ≡ some c
      → (c' : Config) × (w'.configs key ≡ some c')
        × SameConfig c c'
        × (tx.is_signer c.authority ≡ false → c' ≡ c)
  config-after c (ConfigEffect.same e) read =
      (c, ap (λ (m : ℕ → Option Config). m key) e ∙ read, ground arith, λ unsigned. refl)
  config-after c (ConfigEffect.edited k d c' at_d e x) read =
      elim (update-old w.configs w'.configs k c' e key c read) [
        | inl kept ↦ (c, kept, ground arith, λ unsigned. refl)
        | inr (place, new) ↦
            let same : d ≡ c = cc (sym at_d ∙ ap w.configs (sym place) ∙ read) in
            (
              c',
              new,
              ground (arith, x.same_terms, same),
              λ unsigned. absurd (
                  cc
                    (x.by_authority, ap (λ (b : Config). tx.is_signer b.authority) same, unsigned)),
            )
      ]
  config-after c (ConfigEffect.initialized k d unused e derived bounds) read =
      elim (update-old w.configs w'.configs k d e key c read) [
        | inl kept ↦ (c, kept, ground arith, λ unsigned. refl)
        | inr (place, new) ↦ absurd (cc (sym unused ∙ ap w.configs (sym place) ∙ read))
      ]

  node-after :
      (n : Node)
      → NodeEffect ch tx w w'
      → w.nodes key ≡ some n
      → (n' : Node) × (w'.nodes key ≡ some n')
        × Earns n n'
        × (tx.is_signer n.provider ≡ false → SameDescription n n')
  node-after n (NodeEffect.same e) read =
      (n, ap (λ (m : ℕ → Option Node). m key) e ∙ read, omega arith, λ unsigned. (refl, refl, refl))
  node-after n (NodeEffect.edited k l n' at_l e x) read =
      elim (update-old w.nodes w'.nodes k n' e key n read) [
        | inl kept ↦ (n, kept, omega arith, λ unsigned. (refl, refl, refl))
        | inr (place, new) ↦
            let same : l ≡ n = cc (sym at_l ∙ ap w.nodes (sym place) ∙ read) in
            let edge = subst (λ (m : Node). NodeEdge tx m n') same x in
            (n', new, NodeEdge-Earns n n' edge, NodeEdge-SameDescription tx n n' edge)
      ]
  node-after n (NodeEffect.registered k l unused e derived) read =
      elim (update-old w.nodes w'.nodes k l e key n read) [
        | inl kept ↦ (n, kept, omega arith, λ unsigned. (refl, refl, refl))
        | inr (place, new) ↦ absurd (cc (sym unused ∙ ap w.nodes (sym place) ∙ read))
      ]

-- On a chain that meets its documentation, an instruction that goes through and that neither the
-- authority of a configuration nor the provider of a node has signed leaves that configuration as it
-- was, and that node with the same capacity, region and activity.
pub unsigned_keeps :
    (ch : Chain) (tx : Tx) (call : Call) (w : World) {w' : World} (key node : ℕ) (c : Config)
    (n : Node)
    → IsChain ch
    → w.configs key ≡ some c
    → w.nodes node ≡ some n
    → tx.is_signer c.authority ≡ false
    → tx.is_signer n.provider ≡ false
    → dispatch ch tx call w ≡ ok w'
    → (w'.configs key ≡ some c) × ((n' : Node) × (w'.nodes node ≡ some n') × SameDescription n n')
unsigned_keeps ch tx call w {w'} key node c n laws at_c at_n no_c no_n h =
    let (configs, nodes) = dispatch-Effects ch tx w call laws h in
    let (c', at_c', terms, kept) = config-after ch tx w w' key c configs at_c in
    let (n', at_n', earns, described_as) = node-after ch tx w w' node n nodes at_n in
    (at_c' ∙ ap some (kept no_c), (n', at_n', described_as no_n))

Step-SameConfig :
    (ch : Chain) {w w' : World} (key : ℕ) (c : Config)
    → IsChain ch
    → Step ch w w'
    → w.configs key ≡ some c
    → (c' : Config) × (w'.configs key ≡ some c') × SameConfig c c'
Step-SameConfig ch {w} {w'} key c laws (instruction tx call signed done) read =
    let (configs, nodes) = dispatch-Effects ch tx w call laws done in
    let (c', at_c', terms, kept) = config-after ch tx w w' key c configs read in (c', at_c', terms)
Step-SameConfig ch key c laws (others m tokens kept owned) read = (c, read, ground arith)

Step-Earns :
    (ch : Chain) {w w' : World} (key : ℕ) (n : Node)
    → IsChain ch
    → Step ch w w'
    → w.nodes key ≡ some n
    → (n' : Node) × (w'.nodes key ≡ some n') × Earns n n'
Step-Earns ch {w} {w'} key n laws (instruction tx call signed done) read =
    let (configs, nodes) = dispatch-Effects ch tx w call laws done in
    let (n', at_n', earns, description) = node-after ch tx w w' key n nodes read in
    (n', at_n', earns)
Step-Earns ch key n laws (others m tokens kept owned) read = (n, read, omega arith)

Reach-SameConfig :
    (ch : Chain) {w w' : World} (key : ℕ) (c : Config)
    → IsChain ch
    → Reach ch w w'
    → w.configs key ≡ some c
    → (c' : Config) × (w'.configs key ≡ some c') × SameConfig c c'
Reach-SameConfig ch key c laws here read = (c, read, ground arith)
Reach-SameConfig ch {w' = w'} key c laws (next r step) read =
    let (d, at_d, terms) = Reach-SameConfig ch key c laws r read in
    let (c', at_c', more) = Step-SameConfig ch key d laws step at_d in
    (c', at_c', ground (arith, terms, more))

-- On a chain that meets its documentation, in every history a node is still there, with its asset,
-- provider and bump; its units and its earnings never fall, and its count of sessions is what it was, however many were opened.
pub Reach-Earns :
    (ch : Chain) {w w' : World} (key : ℕ) (n : Node)
    → IsChain ch
    → Reach ch w w'
    → w.nodes key ≡ some n
    → (n' : Node) × (w'.nodes key ≡ some n') × Earns n n'
Reach-Earns ch key n laws here read = (n, read, omega arith)
Reach-Earns ch key n laws (next r step) read =
    let (m, at_m, earns) = Reach-Earns ch key n laws r read in
    let (n', at_n', more) = Step-Earns ch key m laws step at_m in
    (n', at_n', Earns-trans n m n' earns more)

-- On a chain that meets its documentation, in every history from a state in which all configurations
-- and nodes are as the program writes them: a configuration is still there, with its authority, fee
-- vault, mpl-core program and bump; its fee is at most ten percent, and its window positive.
pub Reach-config :
    (ch : Chain) {w w' : World} (key : ℕ) (c : Config)
    → IsChain ch
    → IsRegistry ch w
    → Reach ch w w'
    → w.configs key ≡ some c
    → (c' : Config) × (w'.configs key ≡ some c')
      × SameConfig c c'
      × (c'.fee_bps ≤ max_fee_bps)
      × (pos 0 <ℤ c'.challenge_window_secs)
Reach-config ch key c laws registry r read =
    let (c', at_c', terms) = Reach-SameConfig ch key c laws r read in
    let sound = (Reach-IsRegistry ch laws r registry).configs_at key c' at_c' in
    (c', at_c', terms, sound.bounds.fee_capped, sound.bounds.window_positive)
