-- ===== src/Vault/Named.antt =====
-- Token instructions whose accounts belong together (`SettleSpl` and `FinalizeCloseSpl` of spl.rs): they
-- are read, and payments out of the session's own vault go through.
use sol_mesh.Base.{ℕ, ◌+◌, ◌-◌, ◌≤◌, ◌≡◌, ◌∙◌, ap, [], false, ◌∷◌, true, some, sym, arith}
use sol_mesh.Base.Words.{IsU64}
use sol_mesh.Constants.{vault_seed}
use sol_mesh.Errors.{ok}
use sol_mesh.Runtime.{Chain, Tx, World, Tokens, TokenAccount}
use sol_mesh.Runtime.Laws.{IsChain, IsTokenChain, IsTokenPayer}
use sol_mesh.Accounts.{Loaded, load_config, load_node, load_session}
use sol_mesh.Protocol.Histories.{IsSoundWorld}
use sol_mesh.Registry.Histories.{IsRegistry}
use sol_mesh.Shared.{key_bytes}
use sol_mesh.Spl.{SettleSpl, vault_seeds, load_settle_spl, pay_provider_spl, vault_pays}
use sol_mesh.Vault.{authority_of, vault_of}
use sol_mesh.Vault.Payable.{Takes, Holds, Moved-Takes, pays_out}
use sol_mesh.Vault.Histories.{IsCovered}

-- The instruction names the accounts that belong together, its payer has signed, the vault
-- is not frozen, and the token accounts that are paid are not frozen and can take the deposit.
pub record NamesSpl (ch : Chain) (tx : Tx) (w : World) (k : SettleSpl) (l : Loaded) (mint : ℕ)
    : Type 0 where
  pub config_read : w.configs k.config ≡ some l.config
  pub node_read : w.nodes k.node ≡ some l.node
  pub session_read : w.sessions k.session ≡ some l.session
  pub of_node : l.session.node ≡ k.node
  pub of_provider : l.session.provider ≡ k.provider
  pub of_consumer : l.session.consumer ≡ k.consumer
  pub of_asset : l.node.asset ≡ k.asset
  pub of_core : l.config.mpl_core_program ≡ k.mpl_core_program
  pub by_payer : tx.is_signer k.payer ≡ true
  pub of_authority : k.vault_authority ≡ authority_of ch k.session
  pub of_vault : k.vault_token ≡ vault_of ch mint k.session
  pub to_provider : Takes w.tokens k.provider_token mint l.session.deposited
  pub to_consumer : Takes w.tokens k.consumer_token mint l.session.deposited
  pub to_fees : Takes w.tokens k.fee_token mint l.session.deposited
  pub provider_owns : to_provider.account.owner ≡ k.provider
  pub consumer_owns : to_consumer.account.owner ≡ k.consumer
  pub vault_owns : to_fees.account.owner ≡ l.config.fee_vault
  pub vault_thawed : (a : TokenAccount) → w.tokens k.vault_token ≡ some a → a.frozen ≡ false
  pub settled_room : IsU64 (l.node.total_settled + l.session.deposited)

module _ (ch : Chain) (tx : Tx) (w : World) (k : SettleSpl) (l : Loaded) (mint : ℕ)
    (names : NamesSpl ch tx w k l mint) where
  pub load_settle_spl_goes_through :
      IsSoundWorld ch w
      → IsRegistry ch w
      → IsCovered ch w.tokens k.session mint l.session
      → load_settle_spl ch tx w k ≡ ok l
  unfolding load_settle_spl load_config load_node load_session
  load_settle_spl_goes_through sound registry covered =
      let at_config = (registry.configs_at k.config l.config names.config_read).at_address in
      let at_node = registry.nodes_at k.node l.node names.node_read in
      let at_session = (sound k.session l.session names.session_read).at_address in
      let vault : w.tokens k.vault_token ≡ some covered.account =
        ap w.tokens names.of_vault ∙ covered.at_vault in
      ground (
        arith, at_config, at_node, at_session, vault, names, names.to_provider.at_key,
        names.to_consumer.at_key, names.to_fees.at_key,
      )

  module _ (laws : IsChain ch) (token_laws : IsTokenChain ch) (payer : IsTokenPayer ch)
      (covered : IsCovered ch w.tokens k.session mint l.session) where
    -- The seeds of the vault authority, with the session's bump.
    vault_derived :
        ch.program_address (vault_seed ∷ key_bytes k.session ∷ (l.session.vault_bump ∷ []) ∷ [])
        ≡ some k.vault_authority
    vault_derived = rw (covered.with_bump, names.of_authority) (laws.found (vault_seeds k.session))

    vault-Holds :
        Holds ch w.tokens k.vault_token k.vault_authority mint
          (l.session.deposited - l.session.settled_to_provider)
    vault-Holds = record {
      account = covered.account;
      at_key = ap w.tokens names.of_vault ∙ covered.at_vault;
      owned = covered.owned ∙ sym names.of_authority;
      of_mint = covered.of_mint;
      not_frozen =
          names.vault_thawed covered.account (ap w.tokens names.of_vault ∙ covered.at_vault);
      covers = omega (arith, covered.covers);
    }

    -- The three payments go through where together they are no more than the unsettled deposit.
    pub payments_go_through :
        (provider_amount fee rest : ℕ)
        → provider_amount + fee + rest ≤ l.session.deposited - l.session.settled_to_provider
        → (t2 : Tokens) × (pay_provider_spl ch k l.session provider_amount fee w.tokens ≡ ok t2)
          × (t3 : Tokens) × (vault_pays ch k l.session k.consumer_token rest t2 ≡ ok t3)
    unfolding pay_provider_spl
    payments_go_through provider_amount fee rest within =
        let all = l.session.deposited - l.session.settled_to_provider in
        let pay =
          pays_out ch token_laws payer k.vault_token k.vault_authority mint k.session
            l.session.vault_bump vault_derived in
        let (t1, first, moved1, holds1) =
          pay k.provider_token provider_amount all l.session.deposited w.tokens vault-Holds
            names.to_provider (omega arith) (omega arith) in
        let fees1 =
          Moved-Takes k.vault_token k.provider_token provider_amount w.tokens t1 k.fee_token mint
            l.session.deposited moved1 (omega arith) names.to_fees in
        let (t2, second, moved2, holds2) =
          pay k.fee_token fee (all - provider_amount) (l.session.deposited - provider_amount) t1
            holds1 fees1 (omega arith) (omega arith) in
        let consumer1 =
          Moved-Takes k.vault_token k.provider_token provider_amount w.tokens t1 k.consumer_token
            mint l.session.deposited moved1 (omega arith) names.to_consumer in
        let consumer2 =
          Moved-Takes k.vault_token k.fee_token fee t1 t2 k.consumer_token mint
            (l.session.deposited - provider_amount) moved2 (omega arith) consumer1 in
        let (t3, third, moved3, holds3) =
          pay k.consumer_token rest (all - provider_amount - fee)
            (l.session.deposited - provider_amount - fee) t2 holds2 consumer2 (omega arith)
            (omega arith) in
        (t2, ground (arith, first, second), t3, third)

    -- So does one payment to the consumer.
    pub refund_goes_through :
        (rest : ℕ)
        → rest ≤ l.session.deposited - l.session.settled_to_provider
        → (t' : Tokens) × (vault_pays ch k l.session k.consumer_token rest w.tokens ≡ ok t')
    refund_goes_through rest within =
        let (t', done, moved, holds) =
          pays_out ch token_laws payer k.vault_token k.vault_authority mint k.session
            l.session.vault_bump vault_derived k.consumer_token rest
            (l.session.deposited - l.session.settled_to_provider) l.session.deposited w.tokens
            vault-Holds names.to_consumer within (omega arith) in
        (t', done)
