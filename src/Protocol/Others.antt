-- ===== src/Protocol/Others.antt =====
-- The instructions that touch no session (initialize_config.rs, register_node.rs, admin.rs): none of
-- them takes lamports out of a session.
use sol_mesh.Base.{
  ℕ, ◌≤◌, ◌≡◌, ◌≢◌, ◌∙◌, ap, inl, inr, Bool, true, List, [], ◌∷◌, ◌++◌, Option, some, arith,
  Option-cases,
}
use sol_mesh.Base.Int.{ℤ}
use sol_mesh.Errors.{Result, ok, Result-cases}
use sol_mesh.Constants.{fee_vault_seed}
use sol_mesh.State.{Session, Node}
use sol_mesh.Runtime.{Chain, Tx, World, Lamports, config_account, node_account}
use sol_mesh.Runtime.Laws.{IsChain, IsSigned}
use sol_mesh.Accounts.{node_seeds}
use sol_mesh.Core.{creation, rewriting, create_node_asset, set_reputation}
use sol_mesh.Open.{RegisterNode, register_node}
use sol_mesh.Admin.{
  InitializeConfig, AdminConfig, WithdrawFees, UpdateNodeMeta, initialize_config, update_config,
  set_paused, withdraw_fees, load_node_meta, edit_node, update_node_meta,
}
use sol_mesh.Protocol.Edges.{Effect, keeps}
use sol_mesh.Protocol.Openings.{AtAddress, derived-apart}

module _ (ch : Chain) (laws : IsChain ch) (tx : Tx) (signed : IsSigned ch tx) (w : World)
    (at : AtAddress ch w) where
  signer-apart :
      (signer j : ℕ) (t : Session) → tx.is_signer signer ≡ true → w.sessions j ≡ some t → j ≢ signer
  signer-apart signer j t h read = derived-apart ch tx _ j signer signed (at j t read) h

  pub initialize_config-Effect :
      (k : InitializeConfig) (fee : ℕ) (window : ℤ) (core : ℕ) {w' : World}
      → initialize_config ch tx w k fee window core ≡ ok w'
      → Effect ch w w'
  unfolding initialize_config
  initialize_config-Effect k fee window core {w'} h = keeps (ground arith) (λ j t read. ground (
    arith,
    laws.created config_account k.authority k.config w.lamports {m' = w'.lamports} j,
    signer-apart k.authority j t,
  ))

  pub update_config-Effect :
      (k : AdminConfig) (fee : Option ℕ) (window : Option ℤ) {w' : World}
      → update_config ch tx w k fee window ≡ ok w'
      → Effect ch w w'
  unfolding update_config
  update_config-Effect k fee window h = keeps (ground arith) (λ j t read. ground arith)

  pub set_paused-Effect :
      (k : AdminConfig) (p : Bool) {w' : World} → set_paused ch tx w k p ≡ ok w' → Effect ch w w'
  unfolding set_paused
  set_paused-Effect k p h = keeps (ground arith) (λ j t read. ground arith)

  pub withdraw_fees-Effect :
      (k : WithdrawFees) (amount : ℕ) {w' : World}
      → withdraw_fees ch tx w k amount ≡ ok w'
      → Effect ch w w'
  unfolding withdraw_fees
  withdraw_fees-Effect k amount {w'} h = keeps (ground arith) (λ j t read. ground (
    arith,
    laws.transferred k.fee_vault k.destination amount w.lamports {m' = w'.lamports} j,
    vault-apart j t read,
  ))
    where
      vault-apart :
          (j : ℕ) (t : Session)
          → w.sessions j ≡ some t
          → j ≢ (ch.find_program_address (fee_vault_seed ∷ [])).0
      vault-apart j t read e = laws.fee_vault_apart _ (at j t read ∙ ap some e)

  -- An mpl-core call changes no session, and costs nobody but its payer.
  create_node_asset-keeps :
      (asset payer owner authority : ℕ) (name uri : List ℕ) (capacity : ℕ) (geo : List ℕ) (rep : ℕ)
      (seeds : List (List ℕ)) (v : World) {v' : World}
      → create_node_asset ch asset payer owner authority name uri capacity geo rep seeds v ≡ ok v'
      → (v'.sessions ≡ v.sessions) × ((j : ℕ) → j ≢ payer → v.lamports j ≤ v'.lamports j)
  unfolding create_node_asset
  create_node_asset-keeps asset payer owner authority name uri capacity geo rep seeds v {v'} h = (
    ground arith,
    λ j ne.
        laws.invoked (creation asset payer owner authority name uri capacity geo rep) seeds
          v.lamports {m' = v'.lamports} j (ground arith) ne,
  )

  set_reputation-keeps :
      (asset payer authority capacity : ℕ) (geo : List ℕ) (rep units : ℕ) (seeds : List (List ℕ))
      (v : World) {v' : World}
      → set_reputation ch asset payer authority capacity geo rep units seeds v ≡ ok v'
      → (v'.sessions ≡ v.sessions) × ((j : ℕ) → j ≢ payer → v.lamports j ≤ v'.lamports j)
  unfolding set_reputation
  set_reputation-keeps asset payer authority capacity geo rep units seeds v {v'} h = (
    ground arith,
    λ j ne.
        laws.invoked (rewriting asset payer authority capacity geo rep units) seeds v.lamports
          {m' = v'.lamports} j (ground arith) ne,
  )

  pub register_node-Effect :
      (k : RegisterNode) (name uri : List ℕ) (capacity : ℕ) (geo : List ℕ) (rep : ℕ) {w' : World}
      → register_node ch tx w k name uri capacity geo rep ≡ ok w'
      → Effect ch w w'
  unfolding register_node
  register_node-Effect k name uri capacity geo rep {w'} h =
      elim (Option-cases (ch.create_account node_account k.provider k.node w.lamports)) [
        | inl failed ↦ absurd (ground arith)
        | inr (m, made) ↦ elim (Result-cases (asset_made m)) [
          | inl (e, failed) ↦ absurd (ground arith)
          | inr (v, called) ↦
              let (same, costs) = create_node_asset-keeps _ _ _ _ _ _ _ _ _ _ _ called in
              keeps (ground arith) (λ j t read. ground (
                arith,
                laws.created node_account k.provider k.node w.lamports j made,
                costs j,
                signer-apart k.provider j t,
              ))
        ]
      ]
    where
      asset_made : Lamports → Result World
      asset_made m =
          create_node_asset ch k.asset k.provider k.provider k.node name uri capacity geo rep
            (node_seeds k.asset ++ (((ch.find_program_address (node_seeds k.asset)).1 ∷ []) ∷ []))
            (record w { lamports = m })

  payer_signed :
      (k : UpdateNodeMeta) {n : Node}
      → load_node_meta ch tx w k ≡ ok n
      → tx.is_signer k.payer ≡ true
  unfolding load_node_meta
  payer_signed k h = ground arith

  pub update_node_meta-Effect :
      (k : UpdateNodeMeta) (capacity : Option ℕ) (geo : Option (List ℕ)) (active : Option Bool)
      {w' : World}
      → update_node_meta ch tx w k capacity geo active ≡ ok w'
      → Effect ch w w'
  unfolding update_node_meta
  update_node_meta-Effect k capacity geo active {w'} h =
      elim (Result-cases (load_node_meta ch tx w k)) [
        | inl (e, failed) ↦ absurd (ground arith)
        | inr (n, read) ↦ elim (Result-cases (edit_node capacity geo active n)) [
          | inl (e, failed) ↦ absurd (ground arith)
          | inr (n', edited) ↦ elim (Result-cases (rewritten n')) [
            | inl (e, failed) ↦ absurd (ground arith)
            | inr (v, called) ↦
                let (same, costs) = set_reputation-keeps _ _ _ _ _ _ _ _ _ called in
                keeps (ground arith) (λ j t at_j.
                  ground (arith, costs j, payer_signed k read, signer-apart k.payer j t))
          ]
        ]
      ]
    where
      rewritten : Node → Result World
      rewritten n =
          set_reputation ch k.asset k.payer k.node n.capacity n.geo n.reputation n.total_units
            (node_seeds n.asset ++ ((n.bump ∷ []) ∷ [])) w
