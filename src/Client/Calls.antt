-- ===== src/Client/Calls.antt =====
-- client/src/sdk.ts: the methods of the class `SolMesh` that send one instruction of the program.
use sol_mesh.Base.{ℕ, Bool, List, [], ◌∷◌, ◌++◌, Option, none, some}
use sol_mesh.Base.Int.{ℤ}
use sol_mesh.Program.{Call}
use sol_mesh.Open.{OpenSession, Terms}
use sol_mesh.Client.{Library}
use sol_mesh.Client.Sdk.{Transaction, config_pda, fee_vault_pda, node_pda, session_pda}

-- The arguments `args` of `registerNode`.
pub record NodeArgs : Type 0 where
  pub name : List ℕ
  pub uri : List ℕ
  pub capacity : ℕ
  pub geo : List ℕ
  pub init_reputation : Option ℕ

-- `args.initReputation ?? 0`
abbrev or_zero : Option ℕ → ℕ
or_zero none = 0
or_zero (some n) = n

-- The arguments of `finalizeClose`.
pub record FinalizeOpts : Type 0 where
  pub payer : ℕ
  pub node : ℕ
  pub asset : ℕ
  pub provider : ℕ
  pub consumer : ℕ
  pub session : ℕ
  pub mpl_core : ℕ

-- The arguments of `updateNodeMeta`.
pub record MetaOpts : Type 0 where
  pub provider : ℕ
  pub node : ℕ
  pub asset : ℕ
  pub mpl_core : ℕ
  pub capacity : Option ℕ
  pub geo : Option (List ℕ)
  pub active : Option Bool

module _ (lib : Library) where
  -- `.signers(…).rpc()`
  abbrev pub rpc : Call → List ℕ → Transaction
  rpc call signers = record {
    instructions = lib.instruction_of call ∷ [];
    position = 0;
    call = call;
    signers = signers ++ (lib.wallet ∷ []);
  }

  unfoldable pub initialize_config : ℕ → ℕ → ℤ → ℕ → Transaction
  initialize_config authority fee_bps challenge_window_secs mpl_core =
      rpc
        (Call.initialize_config
          (record { config = config_pda lib; fee_vault = fee_vault_pda lib; authority = authority })
          fee_bps challenge_window_secs mpl_core)
        (authority ∷ [])

  unfoldable pub register_node : ℕ → ℕ → NodeArgs → ℕ → Transaction
  register_node provider asset args mpl_core =
      rpc
        (Call.register_node
          (record {
            config = config_pda lib;
            node = node_pda lib asset;
            asset = asset;
            provider = provider;
            mpl_core_program = mpl_core;
          })
          args.name args.uri args.capacity args.geo (or_zero args.init_reputation))
        (provider ∷ asset ∷ [])

  abbrev pub open_accounts : ℕ → ℕ → Terms → OpenSession
  open_accounts consumer node terms = record {
    config = config_pda lib;
    node = node;
    session = session_pda lib node consumer terms.session_seed;
    consumer = consumer;
  }

  unfoldable pub open_session : ℕ → ℕ → Terms → Transaction
  open_session consumer node terms =
      rpc (Call.open_session (open_accounts consumer node terms) terms) (consumer ∷ [])

  unfoldable pub finalize_close : FinalizeOpts → Transaction
  finalize_close o =
      rpc
        (Call.finalize_close (record {
          config = config_pda lib;
          node = o.node;
          session = o.session;
          provider = o.provider;
          consumer = o.consumer;
          asset = o.asset;
          fee_vault = fee_vault_pda lib;
          payer = o.payer;
          mpl_core_program = o.mpl_core;
        }))
        (o.payer ∷ [])

  unfoldable pub cancel_session : ℕ → ℕ → Transaction
  cancel_session consumer session =
      rpc
        (Call.cancel_session
          (record { config = config_pda lib; session = session; consumer = consumer }))
        (consumer ∷ [])

  unfoldable pub expire_session : ℕ → ℕ → ℕ → Transaction
  expire_session cranker session consumer =
      rpc
        (Call.expire_session (record {
          config = config_pda lib;
          session = session;
          consumer = consumer;
          cranker = cranker;
        }))
        (cranker ∷ [])

  unfoldable pub update_node_meta : MetaOpts → Transaction
  update_node_meta o =
      rpc
        (Call.update_node_meta
          (record {
            config = config_pda lib;
            node = o.node;
            asset = o.asset;
            payer = o.provider;
            provider = o.provider;
            mpl_core_program = o.mpl_core;
          })
          o.capacity o.geo o.active)
        (o.provider ∷ [])
