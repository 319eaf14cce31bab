-- ===== src/Registry/Writers.antt =====
-- The instructions that write a configuration or a node for its own sake (initialize_config.rs,
-- register_node.rs and admin.rs).
use sol_mesh.Base.{
  Option-cases, ℕ, ◌≡◌, ◌∙◌, ap, true, false, inl, inr, Bool, Option, some, List, [], ◌∷◌, ◌++◌,
  refl, arith,
}
use sol_mesh.Base.Int.{ℤ}
use sol_mesh.Errors.{Result, ok, Result-cases}
use sol_mesh.Constants.{config_seed}
use sol_mesh.State.{Config, Node}
use sol_mesh.Runtime.{node_account, Chain, Tx, World, Lamports}
use sol_mesh.Runtime.Laws.{IsChain}
use sol_mesh.Accounts.{load_config, load_node, node_seeds}
use sol_mesh.Core.{create_node_asset, set_reputation}
use sol_mesh.Open.{RegisterNode, register_node}
use sol_mesh.Admin.{
  InitializeConfig, AdminConfig, UpdateNodeMeta, initialize_config, load_admin, update_config,
  update_config_handler, set_paused, load_node_meta, edit_node, update_node_meta,
}
use sol_mesh.Admin.Bounds.{update_config_handler_lem, update_config_handler-terms, edit_node-terms}
use sol_mesh.Registry.Edges.{ConfigEffect, NodeEffect, described}

module _ (ch : Chain) (tx : Tx) (w : World) where
  load_admin-eq :
      (k : AdminConfig) {c : Config}
      → load_admin ch tx w k ≡ ok c
      → (w.configs k.config ≡ some c) × (tx.is_signer c.authority ≡ true)
  unfolding load_admin load_config
  load_admin-eq k h = ground arith

  -- The calls of mpl-core change neither map.
  create_node_asset-same :
      (asset payer owner authority : ℕ) (name uri : List ℕ) (capacity : ℕ) (geo : List ℕ) (rep : ℕ)
      (seeds : List (List ℕ)) (v : World) {v' : World}
      → create_node_asset ch asset payer owner authority name uri capacity geo rep seeds v ≡ ok v'
      → (v'.configs ≡ v.configs) × (v'.nodes ≡ v.nodes)
  unfolding create_node_asset
  create_node_asset-same asset payer owner authority name uri capacity geo rep seeds v h =
      ground arith

  set_reputation-same :
      (asset payer authority capacity : ℕ) (geo : List ℕ) (rep units : ℕ) (seeds : List (List ℕ))
      (v : World) {v' : World}
      → set_reputation ch asset payer authority capacity geo rep units seeds v ≡ ok v'
      → (v'.configs ≡ v.configs) × (v'.nodes ≡ v.nodes)
  unfolding set_reputation
  set_reputation-same asset payer authority capacity geo rep units seeds v h = ground arith

  load_node_meta-eq :
      (k : UpdateNodeMeta) {n : Node}
      → load_node_meta ch tx w k ≡ ok n
      → (w.nodes k.node ≡ some n) × (tx.is_signer n.provider ≡ true)
  unfolding load_node_meta load_config load_node
  load_node_meta-eq k h = ground arith

module _ (ch : Chain) (tx : Tx) (w : World) {w' : World} where
  pub initialize_config-Effects :
      (k : InitializeConfig) (fee : ℕ) (window : ℤ) (core : ℕ)
      → IsChain ch
      → initialize_config ch tx w k fee window core ≡ ok w'
      → ConfigEffect ch tx w w' × NodeEffect ch tx w w'
  unfolding initialize_config
  initialize_config-Effects k fee window core laws h = (
    ConfigEffect.initialized k.config
        (record {
          authority = k.authority;
          fee_bps = fee;
          fee_vault = k.fee_vault;
          challenge_window_secs = window;
          mpl_core_program = core;
          paused = false;
          bump = (ch.find_program_address (config_seed ∷ [])).1;
        })
        (ground arith) (ground arith) (laws.found (config_seed ∷ []) ∙ ap some (ground arith))
        (ground arith),
    NodeEffect.same (ground arith),
  )

  pub update_config-Effects :
      (k : AdminConfig) (fee : Option ℕ) (window : Option ℤ)
      → update_config ch tx w k fee window ≡ ok w'
      → ConfigEffect ch tx w w' × NodeEffect ch tx w w'
  unfolding update_config
  update_config-Effects k fee window h = elim (Result-cases (load_admin ch tx w k)) [
    | inl (e, failed) ↦ absurd (ground arith)
    | inr (c, read) ↦ elim (Result-cases (update_config_handler fee window c)) [
      | inl (e, failed) ↦ absurd (ground arith)
      | inr (c', changed) ↦
          let (at_c, by) = load_admin-eq ch tx w k read in
          (
            ConfigEffect.edited k.config c c' at_c (ground arith) (record {
              by_authority = by;
              same_terms = update_config_handler-terms fee window c changed;
              bounds_kept = λ bounds. (update_config_handler_lem fee window c bounds changed).0;
            }),
            NodeEffect.same (ground arith),
          )
    ]
  ]

  pub set_paused-Effects :
      (k : AdminConfig) (p : Bool)
      → set_paused ch tx w k p ≡ ok w'
      → ConfigEffect ch tx w w' × NodeEffect ch tx w w'
  unfolding set_paused
  set_paused-Effects k p h = elim (Result-cases (load_admin ch tx w k)) [
    | inl (e, failed) ↦ absurd (ground arith)
    | inr (c, read) ↦
        let (at_c, by) = load_admin-eq ch tx w k read in
        (
          ConfigEffect.edited k.config c (record c { paused = p }) at_c (ground arith)
              (record {
                by_authority = by;
                same_terms = refl;
                bounds_kept = λ bounds. ground arith;
              }),
          NodeEffect.same (ground arith),
        )
  ]

  pub register_node-Effects :
      (k : RegisterNode) (name uri : List ℕ) (capacity : ℕ) (geo : List ℕ) (rep : ℕ)
      → IsChain ch
      → register_node ch tx w k name uri capacity geo rep ≡ ok w'
      → ConfigEffect ch tx w w' × NodeEffect ch tx w w'
  unfolding register_node
  register_node-Effects k name uri capacity geo rep laws h =
      elim (Option-cases (ch.create_account node_account k.provider k.node w.lamports)) [
        | inl failed ↦ absurd (ground arith)
        | inr (m, made) ↦ elim (Result-cases (asset_made m)) [
          | inl (e, failed) ↦ absurd (ground arith)
          | inr (v, called) ↦
              let (configs, nodes) = create_node_asset-same ch tx w _ _ _ _ _ _ _ _ _ _ _ called in
              (
                ConfigEffect.same (ground arith),
                NodeEffect.registered k.node
                    (record {
                      asset = k.asset;
                      provider = k.provider;
                      capacity = capacity;
                      geo = geo;
                      reputation = rep;
                      total_units = 0;
                      total_sessions = 0;
                      total_settled = 0;
                      active = true;
                      bump = (ch.find_program_address (node_seeds k.asset)).1;
                    })
                    (ground arith) (ground arith)
                    (laws.found (node_seeds k.asset) ∙ ap some (ground arith)),
              )
        ]
      ]
    where
      asset_made : Lamports → Result World
      asset_made m =
          create_node_asset ch k.asset k.provider k.provider k.node name uri capacity geo rep
            (node_seeds k.asset ++ (((ch.find_program_address (node_seeds k.asset)).1 ∷ []) ∷ []))
            (record w { lamports = m })

  pub update_node_meta-Effects :
      (k : UpdateNodeMeta) (capacity : Option ℕ) (geo : Option (List ℕ)) (active : Option Bool)
      → update_node_meta ch tx w k capacity geo active ≡ ok w'
      → ConfigEffect ch tx w w' × NodeEffect ch tx w w'
  unfolding update_node_meta
  update_node_meta-Effects k capacity geo active h =
      elim (Result-cases (load_node_meta ch tx w k)) [
        | inl (e, failed) ↦ absurd (ground arith)
        | inr (n, read) ↦ elim (Result-cases (edit_node capacity geo active n)) [
          | inl (e, failed) ↦ absurd (ground arith)
          | inr (n', edited_n) ↦ elim (Result-cases (rewritten n')) [
            | inl (e, failed) ↦ absurd (ground arith)
            | inr (v, called) ↦
                let (configs, nodes) = set_reputation-same ch tx w _ _ _ _ _ _ _ _ _ called in
                let (at_n, by) = load_node_meta-eq ch tx w k read in
                (
                  ConfigEffect.same (ground arith),
                  NodeEffect.edited k.node n n' at_n (ground arith)
                      (described by (edit_node-terms capacity geo active n edited_n)),
                )
          ]
        ]
      ]
    where
      rewritten : Node → Result World
      rewritten n =
          set_reputation ch k.asset k.payer k.node n.capacity n.geo n.reputation n.total_units
            (node_seeds n.asset ++ ((n.bump ∷ []) ∷ [])) w
