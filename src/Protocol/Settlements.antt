-- ===== src/Protocol/Settlements.antt =====
-- That the parties can settle what they have signed, and are paid what was posted (settle.rs and
-- dispute.rs), as whole instructions.
use sol_mesh.Base.{◌<◌, ◌≡◌, inl, Bool, none, some, update, arith, true}
use sol_mesh.Errors.{ok}
use sol_mesh.State.{opened}
use sol_mesh.Message.{StateUpdate}
use sol_mesh.Runtime.{Chain, Tx, World}
use sol_mesh.Runtime.Laws.{IsChain}
use sol_mesh.Accounts.{Loaded, load_config, load_node, load_session}
use sol_mesh.Shared.{verify_cosigned_state}
use sol_mesh.Settle.{Settle, load_settle, run_settle, settled_session}
use sol_mesh.Settle.Payable.{HasRoom, apply_state_goes_through}
use sol_mesh.Base.Int.{◌<ℤ◌}
use sol_mesh.State.{closing}
use sol_mesh.Dispute.{FinalizeClose, finalize_close, finalized_session}
use sol_mesh.Dispute.Payable as Payable
use sol_mesh.Protocol.Promises.{promise_paid}
use sol_mesh.Program.{Reach}
use sol_mesh.Protocol.Histories.{IsSoundWorld, Reach-IsSoundWorld}
use sol_mesh.Registry.Histories.{IsRegistry, Reach-IsRegistry}

-- The instruction names the accounts that belong together, and its payer has signed.
pub record Names (tx : Tx) (w : World) (k : Settle) (l : Loaded) : Type 0 where
  pub config_read : w.configs k.config ≡ some l.config
  pub node_read : w.nodes k.node ≡ some l.node
  pub session_read : w.sessions k.session ≡ some l.session
  pub of_node : l.session.node ≡ k.node
  pub of_provider : l.session.provider ≡ k.provider
  pub of_consumer : l.session.consumer ≡ k.consumer
  pub of_asset : l.node.asset ≡ k.asset
  pub of_vault : l.config.fee_vault ≡ k.fee_vault
  pub of_core : l.config.mpl_core_program ≡ k.mpl_core_program
  pub by_payer : tx.is_signer k.payer ≡ true

load_settle_goes_through :
    (ch : Chain) (tx : Tx) (w : World) (k : Settle) (l : Loaded)
    → IsSoundWorld ch w
    → IsRegistry ch w
    → Names tx w k l
    → load_settle ch tx w k ≡ ok l
unfolding load_settle load_config load_node load_session
load_settle_goes_through ch tx w k l sound registry names =
    let at_config = (registry.configs_at k.config l.config names.config_read).at_address in
    let at_node = registry.nodes_at k.node l.node names.node_read in
    let at_session = (sound k.session l.session names.session_read).at_address in
    ground (arith, at_config, at_node, at_session, names)

-- On a chain that meets its documentation, after any history from a state in which all sessions
-- are sound and all configurations and nodes are as the program writes them: a settlement or
-- checkpoint of an open session in lamports goes through with every newer state that both parties
-- have signed, and records it, if it names the accounts that belong together, its payer has
-- signed, the paid accounts are other accounts than the session, and no balance or counter
-- overflows.
pub settlement_goes_through :
    (ch : Chain) (tx : Tx) {w w' : World} (k : Settle) (l : Loaded) (state : StateUpdate)
    (cp : Bool)
    → IsChain ch
    → IsSoundWorld ch w
    → IsRegistry ch w
    → Reach ch w w'
    → Names tx w' k l
    → l.session.status ≡ opened
    → l.session.mint ≡ none
    → l.session.last_nonce < state.nonce
    → verify_cosigned_state ch l.session k.session state tx.sysvar ≡ ok tt
    → HasRoom k l state w'.lamports
    → (v : World) × (run_settle ch tx w' k state cp ≡ ok v)
      × (v.sessions k.session ≡ some (settled_session cp l.session state))
unfolding run_settle
settlement_goes_through ch tx {w} {w'} k l state cp laws sound registry r names status native fresh
      signed room =
    let h = Reach-IsSoundWorld ch laws r sound in
    let g = Reach-IsRegistry ch laws r registry in
    let loaded = load_settle_goes_through ch tx w' k l h g names in
    let solvent = (h k.session l.session names.session_read).solvent native (inl status) in
    let cap = (g.configs_at k.config l.config names.config_read).bounds.fee_capped in
    let (n, m, applied) =
      apply_state_goes_through ch tx k l w'.lamports state cp status native fresh signed solvent cap
        room in
    (
      record w' {
        nodes = update w'.nodes k.node (some n);
        sessions = update w'.sessions k.session (some (settled_session cp l.session state));
        lamports = m;
      },
      ground (arith, loaded, applied),
      ground arith,
    )

-- On a chain that meets its documentation, after any history from a state in which all sessions
-- are sound and all configurations and nodes are as the program writes them: once the window of a
-- closing session in lamports is over, the instruction `finalize_close` goes through and settles
-- the session at what was posted last, if it names the accounts that belong together, its payer
-- has signed, the paid accounts are other accounts than the session, and no balance or counter
-- overflows.
pub payout_goes_through :
    (ch : Chain) (tx : Tx) {w w' : World} (k : FinalizeClose) (l : Loaded)
    → IsChain ch
    → IsSoundWorld ch w
    → IsRegistry ch w
    → Reach ch w w'
    → Names tx w' k l
    → l.session.mint ≡ none
    → l.session.status ≡ closing
    → l.session.challenge_deadline <ℤ tx.now
    → Payable.HasRoom k l w'.lamports
    → (v : World) × (finalize_close ch tx w' k ≡ ok v)
      × (v.sessions k.session ≡ some (finalized_session l.session))
unfolding finalize_close
payout_goes_through ch tx {w} {w'} k l laws sound registry r names native status over room =
    let g = Reach-IsRegistry ch laws r registry in
    let loaded =
      load_settle_goes_through ch tx w' k l (Reach-IsSoundWorld ch laws r sound) g names in
    let cap = (g.configs_at k.config l.config names.config_read).bounds.fee_capped in
    let (n, m, applied) =
      promise_paid ch tx k l laws sound r names.session_read native status over cap room in
    (
      record w' {
        nodes = update w'.nodes k.node (some n);
        sessions = update w'.sessions k.session (some (finalized_session l.session));
        lamports = m;
      },
      ground (arith, loaded, applied),
      ground arith,
    )
