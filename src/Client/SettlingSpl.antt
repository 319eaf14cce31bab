-- ===== src/Client/SettlingSpl.antt =====
-- The client's `settleSpl` and the program together: what happens to the transaction that it sends.
use sol_mesh.Base.{
  ℕ, List, Option, ◌+◌, ◌≤◌, ◌<◌, ◌≡◌, ◌∙◌, sym, ap, subst, refl, Bool, true, false, some, length,
  arith, ◌∷◌, [],
}
use sol_mesh.Base.Int.{ℤ}
use sol_mesh.Base.Words.{IsU64}
use sol_mesh.Errors.{ok}
use sol_mesh.Constants.{config_seed}
use sol_mesh.Message.{StateUpdate}
use sol_mesh.State.{opened, Session}
use sol_mesh.Runtime.{Chain, Tx, World, Instruction}
use sol_mesh.Runtime.Laws.{IsChain, IsTokenChain, IsTokenPayer}
use sol_mesh.Accounts.{Loaded}
use sol_mesh.Shared.{verify_cosigned_state}
use sol_mesh.Settle.{settled_session}
use sol_mesh.Spl.{SettleSpl, vault_seeds, run_settle_spl, settle_session_spl, checkpoint_settle_spl}
use sol_mesh.Program.{dispatch, Reach}
use sol_mesh.Protocol.Histories.{IsSoundWorld}
use sol_mesh.Registry.Histories.{IsRegistry}
use sol_mesh.Vault.{authority_of}
use sol_mesh.Vault.Named.{NamesSpl}
use sol_mesh.Vault.Histories.{IsCoveredWorld}
use sol_mesh.Vault.Settlements.{settlement_spl_goes_through}
use sol_mesh.Message.Client.{IsEncodable, state_bytes, serialize_state-eq}
use sol_mesh.Client.{Library, to_anchor_arg, cosign_ixs, cosign_message, ed25519_verify_ix}
use sol_mesh.Client.Sdk.{Transaction, vault_authority, pda, executed_at}
use sol_mesh.Client.Tokens.{
  SettleSplOpts, settle_spl_after, settle_spl, settle_spl_accounts, settle_spl_method,
}
use sol_mesh.Client.Vouching.{IsLibrary, cosigned}
use sol_mesh.Client.Settling.{config_pda-same}

-- The accounts that the caller passes, with the program's canonical addresses.
abbrev pub accounts_of : Chain → SettleSplOpts → SettleSpl
accounts_of ch o = record {
  config = (ch.find_program_address (config_seed ∷ [])).0;
  node = o.node;
  session = o.session;
  provider = o.provider;
  consumer = o.consumer;
  asset = o.asset;
  vault_authority = authority_of ch o.session;
  vault_token = o.vault_token;
  provider_token = o.provider_token;
  consumer_token = o.consumer_token;
  fee_token = o.fee_token;
  payer = o.payer;
  mpl_core_program = o.mpl_core;
}

-- The state is one that the session can be settled at: newer, for this session, and within the
-- deposit, with two signatures of 64 bytes, and its numbers are
-- in range.
pub record IsSettleableSpl (o : SettleSplOpts) (s : Session) : Type 0 where
  pub is_open : s.status ≡ opened
  pub in_tokens : s.mint ≡ some o.mint
  pub fresh : s.last_nonce < o.state.nonce
  pub for_session : o.state.session ≡ o.session
  pub not_decreased : s.settled_to_provider ≤ o.state.owed_to_provider
  pub covered : o.state.owed_to_provider ≤ s.deposited
  pub provider_sig_size : length o.provider_sig ≡ 64
  pub encodable : IsEncodable o.state
  pub consumer_sig_size : length o.consumer_sig ≡ 64

module _ (lib : Library) where
  -- What `settleSpl` sends for a state whose numbers are in range.
  abbrev pub settle_spl_transaction : SettleSplOpts → Transaction
  settle_spl_transaction o = settle_spl_after lib o (
      cosign_message lib (state_bytes o.state) (o.provider, o.provider_sig)
        (o.consumer, o.consumer_sig))

  settle_spl-sends :
      (o : SettleSplOpts) → IsEncodable o.state → settle_spl lib o ≡ some (settle_spl_transaction o)
  unfolding settle_spl cosign_ixs
  settle_spl-sends o h = ground (arith, serialize_state-eq o.state h)

module _ (ch : Chain) (lib : Library) (laws : IsLibrary ch lib) where
  vault_authority-same : (session : ℕ) → vault_authority lib session ≡ authority_of ch session
  unfolding vault_authority pda
  vault_authority-same session = ap (λ (a : ℕ × ℕ). a.0) (laws.same_addresses (vault_seeds session))

  settle_spl_accounts-same : (o : SettleSplOpts) → settle_spl_accounts lib o ≡ accounts_of ch o
  settle_spl_accounts-same o = rw (config_pda-same ch lib laws, vault_authority-same o.session) refl

  settle_spl-cosigned :
      (now : ℤ) (o : SettleSplOpts) (s : Session)
      → s.provider ≡ o.provider
      → s.consumer ≡ o.consumer
      → IsSettleableSpl o s
      → verify_cosigned_state ch s o.session
          (to_anchor_arg o.state)
          (executed_at now (settle_spl_transaction lib o)).sysvar
        ≡ ok tt
  unfolding settle_spl_after cosign_message
  settle_spl-cosigned now o s of_provider of_consumer can =
      cosigned ch lib laws (executed_at now (settle_spl_transaction lib o)).sysvar s o.session
        o.state o.provider_sig o.consumer_sig 1 2 3 refl (omega arith) (omega arith)
        (ap (signed_by o.provider_sig) (sym of_provider))
        (ap (signed_by o.consumer_sig) (sym of_consumer)) can.provider_sig_size
        can.consumer_sig_size can.for_session can.not_decreased can.covered
    where
      signed_by : List ℕ → ℕ → Option Instruction
      signed_by sig key = some (ed25519_verify_ix lib key (state_bytes o.state) sig)

dispatch-settle_spl_method :
    (ch : Chain) (tx : Tx) (w : World) (k : SettleSpl) (state : StateUpdate) (cp : Bool)
    → dispatch ch tx (settle_spl_method cp k state) w ≡ run_settle_spl ch tx w k state cp
unfolding dispatch settle_session_spl checkpoint_settle_spl
dispatch-settle_spl_method ch tx w k state true = refl
dispatch-settle_spl_method ch tx w k state false = refl

-- On a chain, a token program and client libraries that meet their documentation, after any
-- history from a state in which all sessions are sound, all live token sessions covered, and all
-- configurations and nodes as the program writes them: the client's `settleSpl` does send a
-- transaction, and in it the program's instruction goes through, whenever it comes to be executed,
-- as the settlement or checkpoint that the caller asks for, and records the state that the caller
-- passes in the session; if the caller passes accounts that belong together and the session's own
-- vault, neither the vault nor a paid account is frozen, the state is a newer one for this open
-- session within its deposit, its numbers are in range, the signatures are of 64 bytes, the paid
-- accounts are of the session's mint, and no balance or counter overflows.
pub client_settles_spl :
    (ch : Chain) (lib : Library) (now : ℤ) {w w' : World} (o : SettleSplOpts) (l : Loaded)
    → IsChain ch
    → IsTokenChain ch
    → IsTokenPayer ch
    → IsLibrary ch lib
    → IsSoundWorld ch w
    → IsRegistry ch w
    → IsCoveredWorld ch w
    → Reach ch w w'
    → NamesSpl ch (executed_at now (settle_spl_transaction lib o)) w' (accounts_of ch o) l o.mint
    → IsSettleableSpl o l.session
    → IsU64 (l.node.total_units + o.state.units_consumed)
    → (settle_spl lib o ≡ some (settle_spl_transaction lib o))
      × (v : World) × (dispatch ch
            (executed_at now (settle_spl_transaction lib o))
            (settle_spl_transaction lib o).call
            w'
          ≡ ok v)
      × (v.sessions o.session
          ≡ some (settled_session o.checkpoint l.session (to_anchor_arg o.state)))
unfolding settle_spl settle_spl_after
client_settles_spl ch lib now {w} {w'} o l laws token_laws payer lib_laws sound registry covered r
      names can room =
    let tx = executed_at now (settle_spl_transaction lib o) in
    let state = to_anchor_arg o.state in
    let (v, done, stored) =
      settlement_spl_goes_through ch tx (accounts_of ch o) l o.mint state o.checkpoint laws
        token_laws payer sound registry covered r names can.in_tokens can.is_open can.fresh
        (settle_spl-cosigned ch lib lib_laws now o l.session names.of_provider names.of_consumer
          can)
        room in
    let called =
      subst (λ (k : SettleSpl). run_settle_spl ch tx w' k state o.checkpoint ≡ ok v)
        (sym (settle_spl_accounts-same ch lib lib_laws o)) done in
    (
      settle_spl-sends lib o can.encodable,
      v,
      dispatch-settle_spl_method ch tx w' (settle_spl_accounts lib o) state o.checkpoint ∙ called,
      stored,
    )
