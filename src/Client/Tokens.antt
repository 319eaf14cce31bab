-- ===== src/Client/Tokens.antt =====
-- client/src/sdk.ts: the methods of the class `SolMesh` for token sessions.
use sol_mesh.Base.{Option, some, ℕ, Bool, true, false, List, [], ◌∷◌, ◌++◌}
use sol_mesh.Program.{Call}
use sol_mesh.Open.{Terms}
use sol_mesh.Spl.{SettleSpl}
use sol_mesh.Message.{◌>>=◌, StateUpdate}
use sol_mesh.Message.Client.{ClientState}
use sol_mesh.Client.{Instruction, Library, to_anchor_arg, cosign_ixs}
use sol_mesh.Client.Sdk.{Transaction, config_pda, session_pda, vault_authority}
use sol_mesh.Client.Calls.{rpc}

-- The arguments of `settleSpl`, without the token program.
pub record SettleSplOpts : Type 0 where
  pub payer : ℕ
  pub node : ℕ
  pub asset : ℕ
  pub provider : ℕ
  pub consumer : ℕ
  pub session : ℕ
  pub mint : ℕ
  pub mpl_core : ℕ
  pub state : ClientState
  pub provider_sig : List ℕ
  pub consumer_sig : List ℕ
  pub vault_token : ℕ
  pub provider_token : ℕ
  pub consumer_token : ℕ
  pub fee_token : ℕ
  pub checkpoint : Bool

-- Which method `settleSpl` calls.
abbrev pub settle_spl_method : Bool → SettleSpl → StateUpdate → Call
settle_spl_method true = Call.checkpoint_settle_spl
settle_spl_method false = Call.settle_session_spl

module _ (lib : Library) where
  -- `openSessionSpl` of consumer, node, mint, the consumer's token account, and terms
  unfoldable pub open_session_spl : ℕ → ℕ → ℕ → ℕ → Terms → Transaction
  open_session_spl consumer node mint consumer_token terms =
      let session = session_pda lib node consumer terms.session_seed in
      let authority = vault_authority lib session in
      rpc lib
        (Call.open_session_spl
          (record {
            config = config_pda lib;
            node = node;
            session = session;
            mint = mint;
            consumer_token = consumer_token;
            vault_authority = authority;
            vault_token = lib.associated_token mint authority;
            consumer = consumer;
          })
          terms)
        (consumer ∷ [])

  abbrev pub settle_spl_accounts : SettleSplOpts → SettleSpl
  settle_spl_accounts o = record {
    config = config_pda lib;
    node = o.node;
    session = o.session;
    provider = o.provider;
    consumer = o.consumer;
    asset = o.asset;
    vault_authority = vault_authority lib o.session;
    vault_token = o.vault_token;
    provider_token = o.provider_token;
    consumer_token = o.consumer_token;
    fee_token = o.fee_token;
    payer = o.payer;
    mpl_core_program = o.mpl_core;
  }

  abbrev pub settle_spl_call : SettleSplOpts → Call
  settle_spl_call o = settle_spl_method o.checkpoint (settle_spl_accounts o) (to_anchor_arg o.state)

  -- `settleSpl`: the compute limit, the two instructions of the precompile, and the settlement; `none`
  -- where it throws.
  unfoldable pub settle_spl_after : SettleSplOpts → List Instruction → Transaction
  settle_spl_after o cosigned = record {
    instructions =
        lib.compute_unit_limit 400000 ∷ (cosigned ++ (lib.instruction_of (settle_spl_call o) ∷ []));
    position = 3;
    call = settle_spl_call o;
    signers = o.payer ∷ [];
  }

  unfoldable pub settle_spl : SettleSplOpts → Option Transaction
  settle_spl o = do
    cosigned ← cosign_ixs lib o.state (o.provider, o.provider_sig) (o.consumer, o.consumer_sig)
    some (settle_spl_after o cosigned)
