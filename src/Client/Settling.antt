-- ===== src/Client/Settling.antt =====
-- The client's `settle` and the program together: what happens to the transaction that it sends.
use sol_mesh.Base.{
  ℕ, List, Option, ◌≤◌, ◌<◌, ◌≡◌, ◌∙◌, sym, ap, refl, Bool, true, false, none, some, length, arith,
  ◌∷◌, [],
}
use sol_mesh.Base.Int.{ℤ}
use sol_mesh.Errors.{ok}
use sol_mesh.Constants.{config_seed, fee_vault_seed}
use sol_mesh.State.{opened, Session}
use sol_mesh.Message.{StateUpdate}
use sol_mesh.Runtime.{Chain, Tx, World, Instruction}
use sol_mesh.Runtime.Laws.{IsChain}
use sol_mesh.Accounts.{Loaded}
use sol_mesh.Shared.{verify_cosigned_state}
use sol_mesh.Settle.{Settle, settled_session, run_settle, settle_session, checkpoint_settle}
use sol_mesh.Settle.Payable.{HasRoom}
use sol_mesh.Program.{dispatch, Reach}
use sol_mesh.Protocol.Histories.{IsSoundWorld}
use sol_mesh.Protocol.Settlements.{Names, settlement_goes_through}
use sol_mesh.Registry.Histories.{IsRegistry}
use sol_mesh.Message.Client.{IsEncodable, state_bytes, serialize_state-eq}
use sol_mesh.Client.{Library, to_anchor_arg, cosign_ixs, cosign_message, ed25519_verify_ix}
use sol_mesh.Client.Sdk.{
  SettleOpts, Transaction, settle_after, config_pda, fee_vault_pda, pda, settle_accounts,
  settle_method, settle, executed_at,
}
use sol_mesh.Client.Vouching.{IsLibrary, cosigned}

-- The accounts that the caller passes belong together, and the configuration and its fee vault stand
-- at the program's canonical addresses.
pub record Fits (ch : Chain) (w : World) (o : SettleOpts) (l : Loaded) : Type 0 where
  pub config_read : w.configs (ch.find_program_address (config_seed ∷ [])).0 ≡ some l.config
  pub node_read : w.nodes o.node ≡ some l.node
  pub session_read : w.sessions o.session ≡ some l.session
  pub of_node : l.session.node ≡ o.node
  pub of_provider : l.session.provider ≡ o.provider
  pub of_consumer : l.session.consumer ≡ o.consumer
  pub of_asset : l.node.asset ≡ o.asset
  pub of_vault : l.config.fee_vault ≡ (ch.find_program_address (fee_vault_seed ∷ [])).0
  pub of_core : l.config.mpl_core_program ≡ o.mpl_core

-- The state is one that the session can be settled at: newer, for this session, and within the
-- deposit, with two signatures of 64 bytes, and its numbers are
-- in range.
pub record IsSettleable (o : SettleOpts) (s : Session) : Type 0 where
  pub is_open : s.status ≡ opened
  pub native : s.mint ≡ none
  pub fresh : s.last_nonce < o.state.nonce
  pub for_session : o.state.session ≡ o.session
  pub not_decreased : s.settled_to_provider ≤ o.state.owed_to_provider
  pub covered : o.state.owed_to_provider ≤ s.deposited
  pub provider_sig_size : length o.provider_sig ≡ 64
  pub encodable : IsEncodable o.state
  pub consumer_sig_size : length o.consumer_sig ≡ 64

module _ (lib : Library) where
  -- What `settle` sends for a state whose numbers are in range.
  abbrev pub settle_transaction : SettleOpts → Transaction
  settle_transaction o = settle_after lib o (
      cosign_message lib (state_bytes o.state) (o.provider, o.provider_sig)
        (o.consumer, o.consumer_sig))

  settle-sends : (o : SettleOpts) → IsEncodable o.state → settle lib o ≡ some (settle_transaction o)
  unfolding settle cosign_ixs
  settle-sends o h = ground (arith, serialize_state-eq o.state h)

module _ (ch : Chain) (lib : Library) (laws : IsLibrary ch lib) where
  pub config_pda-same : config_pda lib ≡ (ch.find_program_address (config_seed ∷ [])).0
  unfolding config_pda pda
  config_pda-same = ap (λ (a : ℕ × ℕ). a.0) (laws.same_addresses (config_seed ∷ []))

  fee_vault_pda-same : fee_vault_pda lib ≡ (ch.find_program_address (fee_vault_seed ∷ [])).0
  unfolding fee_vault_pda pda
  fee_vault_pda-same = ap (λ (a : ℕ × ℕ). a.0) (laws.same_addresses (fee_vault_seed ∷ []))

  Fits-Names :
      (now : ℤ) (w : World) (o : SettleOpts) (l : Loaded)
      → Fits ch w o l
      → Names (executed_at now (settle_transaction lib o)) w (settle_accounts lib o) l
  unfolding settle_after
  Fits-Names now w o l fits = record {
    config_read = ap w.configs config_pda-same ∙ fits.config_read;
    node_read = fits.node_read;
    session_read = fits.session_read;
    of_node = fits.of_node;
    of_provider = fits.of_provider;
    of_consumer = fits.of_consumer;
    of_asset = fits.of_asset;
    of_vault = fits.of_vault ∙ sym fee_vault_pda-same;
    of_core = fits.of_core;
    by_payer = ground arith;
  }

  -- The program accepts the two signatures, which stand before the settlement.
  settle-cosigned :
      (now : ℤ) (w : World) (o : SettleOpts) (l : Loaded)
      → Fits ch w o l
      → IsSettleable o l.session
      → verify_cosigned_state ch l.session o.session
          (to_anchor_arg o.state)
          (executed_at now (settle_transaction lib o)).sysvar
        ≡ ok tt
  unfolding settle_after cosign_message
  settle-cosigned now w o l fits can =
      cosigned ch lib laws (executed_at now (settle_transaction lib o)).sysvar l.session o.session
        o.state o.provider_sig o.consumer_sig 1 2 3 refl (omega arith) (omega arith)
        (ap (signed_by o.provider_sig) (sym fits.of_provider))
        (ap (signed_by o.consumer_sig) (sym fits.of_consumer)) can.provider_sig_size
        can.consumer_sig_size can.for_session can.not_decreased can.covered
    where
      signed_by : List ℕ → ℕ → Option Instruction
      signed_by sig key = some (ed25519_verify_ix lib key (state_bytes o.state) sig)

  dispatch-settle_method :
      (tx : Tx) (w : World) (k : Settle) (state : StateUpdate) (cp : Bool)
      → dispatch ch tx (settle_method cp k state) w ≡ run_settle ch tx w k state cp
  unfolding dispatch settle_session checkpoint_settle
  dispatch-settle_method tx w k state true = refl
  dispatch-settle_method tx w k state false = refl

-- On a chain and with client libraries that meet their documentation, after any history from a
-- state in which all sessions are sound and all configurations and nodes are as the program writes
-- them: the client's `settle` does send a transaction, and in it the program's instruction goes
-- through, whenever it comes to be executed, as the settlement or checkpoint that the caller asks
-- for, and records the state that the caller passes in the session; if the accounts that the
-- caller passes belong together, the state is a newer one for this open session in lamports within
-- its deposit, its numbers are in range, the signatures are of 64 bytes, the paid accounts are other accounts than the
-- session, and no balance or counter overflows.
pub client_settles :
    (ch : Chain) (lib : Library) (now : ℤ) {w w' : World} (o : SettleOpts) (l : Loaded)
    → IsChain ch
    → IsLibrary ch lib
    → IsSoundWorld ch w
    → IsRegistry ch w
    → Reach ch w w'
    → Fits ch w' o l
    → IsSettleable o l.session
    → HasRoom (settle_accounts lib o) l (to_anchor_arg o.state) w'.lamports
    → (settle lib o ≡ some (settle_transaction lib o))
      × (v : World) × (dispatch ch
            (executed_at now (settle_transaction lib o))
            (settle_transaction lib o).call
            w'
          ≡ ok v)
      × (v.sessions o.session
          ≡ some (settled_session o.checkpoint l.session (to_anchor_arg o.state)))
unfolding settle settle_after
client_settles ch lib now {w} {w'} o l laws lib_laws sound registry r fits can room =
    let tx = executed_at now (settle_transaction lib o) in
    let k = settle_accounts lib o in
    let (v, done, stored) =
      settlement_goes_through ch tx k l (to_anchor_arg o.state) o.checkpoint laws sound registry r
        (Fits-Names ch lib lib_laws now w' o l fits) can.is_open can.native can.fresh
        (settle-cosigned ch lib lib_laws now w' o l fits can) room in
    (
      settle-sends lib o can.encodable,
      v,
      dispatch-settle_method ch lib lib_laws tx w' k (to_anchor_arg o.state) o.checkpoint ∙ done,
      stored,
    )
