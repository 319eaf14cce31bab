-- ===== src/Client/Sdk.antt =====
-- client/src/sdk.ts: the addresses and the transactions of the class `SolMesh`.
use sol_mesh.Base.{Option, ℕ, Bool, true, false, some, List, [], ◌∷◌, ◌++◌, get_elem?, ◌==◌, ◌||◌}
use sol_mesh.Base.Int.{ℤ}
use sol_mesh.Base.Words.{le_bytes}
use sol_mesh.Message.{◌>>=◌, StateUpdate}
use sol_mesh.Message.Client.{ClientState}
use sol_mesh.Runtime.{Tx, Instruction}
use sol_mesh.Shared.{key_bytes}
use sol_mesh.Settle.{Settle}
use sol_mesh.Dispute.{UnilateralClose}
use sol_mesh.Program.{Call}
use sol_mesh.Client.{Library, to_anchor_arg, cosign_ixs}

-- `SEEDS`, and the seeds of `vaultAuthority`.
abbrev pub config_seeds : List (List ℕ)
config_seeds = (b'c' ∷ b'o' ∷ b'n' ∷ b'f' ∷ b'i' ∷ b'g' ∷ []) ∷ []

abbrev pub fee_vault_seeds : List (List ℕ)
fee_vault_seeds = (b'f' ∷ b'e' ∷ b'e' ∷ b'_' ∷ b'v' ∷ b'a' ∷ b'u' ∷ b'l' ∷ b't' ∷ []) ∷ []

abbrev pub node_seeds : ℕ → List (List ℕ)
node_seeds asset = (b'n' ∷ b'o' ∷ b'd' ∷ b'e' ∷ []) ∷ key_bytes asset ∷ []

abbrev pub session_seeds : ℕ → ℕ → ℕ → List (List ℕ)
session_seeds node consumer seed =
    (b's' ∷ b'e' ∷ b's' ∷ b's' ∷ b'i' ∷ b'o' ∷ b'n' ∷ [])
    ∷ key_bytes node
    ∷ key_bytes consumer
    ∷ le_bytes 8 seed
    ∷ []

abbrev pub vault_authority_seeds : ℕ → List (List ℕ)
vault_authority_seeds session = (b'v' ∷ b'a' ∷ b'u' ∷ b'l' ∷ b't' ∷ []) ∷ key_bytes session ∷ []

-- The arguments of `settle`.
pub record SettleOpts : Type 0 where
  pub payer : ℕ
  pub node : ℕ
  pub asset : ℕ
  pub provider : ℕ
  pub consumer : ℕ
  pub session : ℕ
  pub mpl_core : ℕ
  pub state : ClientState
  pub provider_sig : List ℕ
  pub consumer_sig : List ℕ
  pub checkpoint : Bool

-- The arguments of `cosignedClose`.
pub record CloseOpts : Type 0 where
  pub caller : ℕ
  pub provider : ℕ
  pub consumer : ℕ
  pub session : ℕ
  pub state : ClientState
  pub provider_sig : List ℕ
  pub consumer_sig : List ℕ

-- Which of its two methods `cosignedClose` calls.
pub data CloseMethod : Type 0 where
  initiate_unilateral_close challenge : CloseMethod

-- A transaction: its instructions, where the one to the program stands among them, what that one
-- asks for, and who signs.
pub record Transaction : Type 0 where
  pub instructions : List Instruction
  pub position : ℕ
  pub call : Call
  pub signers : List ℕ

-- Which method `settle` calls.
abbrev pub settle_method : Bool → Settle → StateUpdate → Call
settle_method true = Call.checkpoint_settle
settle_method false = Call.settle_session

module _ (lib : Library) where
  unfoldable pub pda : List (List ℕ) → ℕ
  pda seeds = (lib.find_program_address seeds).0

  unfoldable pub config_pda : ℕ
  config_pda = pda config_seeds

  unfoldable pub fee_vault_pda : ℕ
  fee_vault_pda = pda fee_vault_seeds

  unfoldable pub node_pda : ℕ → ℕ
  node_pda asset = pda (node_seeds asset)

  unfoldable pub session_pda : ℕ → ℕ → ℕ → ℕ
  session_pda node consumer seed = pda (session_seeds node consumer seed)

  unfoldable pub vault_authority : ℕ → ℕ
  vault_authority session = pda (vault_authority_seeds session)

  -- The accounts that `settle` names.
  abbrev pub settle_accounts : SettleOpts → Settle
  settle_accounts o = record {
    config = config_pda;
    node = o.node;
    session = o.session;
    provider = o.provider;
    consumer = o.consumer;
    asset = o.asset;
    fee_vault = fee_vault_pda;
    payer = o.payer;
    mpl_core_program = o.mpl_core;
  }

  abbrev pub settle_call : SettleOpts → Call
  settle_call o = settle_method o.checkpoint (settle_accounts o) (to_anchor_arg o.state)

  -- `settle`: the compute limit, the two instructions of the precompile, and the settlement; `none`
  -- where it throws.
  unfoldable pub settle_after : SettleOpts → List Instruction → Transaction
  settle_after o cosigned = record {
    instructions =
        lib.compute_unit_limit 400000 ∷ (cosigned ++ (lib.instruction_of (settle_call o) ∷ []));
    position = 3;
    call = settle_call o;
    signers = o.payer ∷ [];
  }

  unfoldable pub settle : SettleOpts → Option Transaction
  settle o = do
    cosigned ← cosign_ixs lib o.state (o.provider, o.provider_sig) (o.consumer, o.consumer_sig)
    some (settle_after o cosigned)

  abbrev pub close_accounts : CloseOpts → UnilateralClose
  close_accounts o = record {
    config = config_pda;
    session = o.session;
    provider = o.provider;
    consumer = o.consumer;
    caller = o.caller;
  }

  abbrev pub close_call : CloseMethod → CloseOpts → Call
  close_call CloseMethod.initiate_unilateral_close o =
      Call.initiate_unilateral_close (close_accounts o) (to_anchor_arg o.state)
  close_call CloseMethod.challenge o = Call.challenge (close_accounts o) (to_anchor_arg o.state)

  -- `cosignedClose`: the two instructions of the precompile, and the close; `none` where it throws.
  unfoldable pub close_after : CloseMethod → CloseOpts → List Instruction → Transaction
  close_after method o cosigned = record {
    instructions = cosigned ++ (lib.instruction_of (close_call method o) ∷ []);
    position = 2;
    call = close_call method o;
    signers = o.caller ∷ [];
  }

  unfoldable pub cosigned_close : CloseMethod → CloseOpts → Option Transaction
  cosigned_close method o = do
    cosigned ← cosign_ixs lib o.state (o.provider, o.provider_sig) (o.consumer, o.consumer_sig)
    some (close_after method o cosigned)

abbrev is_one_of : ℕ → List ℕ → Bool
is_one_of j [] = false
is_one_of j (key ∷ rest) = j == key || is_one_of j rest

-- What the program sees of a transaction that is executed at a time: the sysvar lists its
-- instructions, and the keys that signed are its signers.
abbrev pub executed_at : ℤ → Transaction → Tx
executed_at now t = record {
  now = now;
  is_signer = λ j. is_one_of j t.signers;
  sysvar = record { current_index = some t.position; instruction_at = get_elem? t.instructions };
}
