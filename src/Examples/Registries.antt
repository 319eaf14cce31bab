-- ===== src/Examples/Registries.antt =====
-- The theorems on configurations and nodes, at a checkpoint of the concrete session.
use sol_mesh.Base.{
  ◌≡◌, ◌≤◌, refl, subst₂, sym, ==→eq, ◌==◌, Bool-cases, inl, inr, some, true, bytes_eq, slice,
  arith,
}
use sol_mesh.Base.Int.{◌<ℤ◌, pos}
use sol_mesh.Base.Words.{le_bytes}
use sol_mesh.Constants.{max_fee_bps}
use sol_mesh.Errors.{ok}
use sol_mesh.State.{Session, Config, Node}
use sol_mesh.Runtime.{Tx, World}
use sol_mesh.Message.{to_message_bytes}
use sol_mesh.Ed25519.{
  byte_at, u16_at, read_u16, check_ed25519_data, is_bound_at, scan, verify_ed25519_signature,
}
use sol_mesh.Shared.{
  verify_cosigned_state, key_bytes, fee_for, pay_provider, pda_transfer_lamports, reputation_reward,
}
use sol_mesh.Accounts.{load_config, load_node, load_session}
use sol_mesh.Settle.{apply_state, run_settle, load_settle, checkpoint_settle}
use sol_mesh.Program.{Call, dispatch}
use sol_mesh.Registry.Histories.{IsConfigAt, IsNodeAt, IsRegistry}
use sol_mesh.Registry.Lives.{
  SameConfig, Earns, SameDescription, unsigned_keeps, Reach-Earns, Reach-config,
}
use sol_mesh.Program.{here}
use sol_mesh.Settle.{settled_session}
use sol_mesh.Protocol.Settlements.{settlement_goes_through}
use sol_mesh.Examples.Chain.{chain, chain-IsChain}
use sol_mesh.Examples.Data.{config, node, open_native, settle_keys, tx, world}
use sol_mesh.Examples.Runs.{st3, st3_signed, loaded, value, world3}
use sol_mesh.Examples.Histories.{checkpointed, world-IsSoundWorld}

config-IsConfigAt : IsConfigAt chain 1003 config
unfolding bytes_eq
config-IsConfigAt = record {
  bounds = record { fee_capped = omega arith; window_positive = ground arith };
  at_address = refl;
}

node-IsNodeAt : IsNodeAt chain 1002 node
unfolding bytes_eq
node-IsNodeAt = refl

pub world-IsRegistry : (s : Session) → IsRegistry chain (world s)
world-IsRegistry s = record {
  configs_at = λ key c read. elim (Bool-cases (key == 1003)) [
    | inl place ↦
        let same : config ≡ c = ground arith in
        subst₂ (IsConfigAt chain) (sym (==→eq key 1003 place)) same config-IsConfigAt
    | inr apart ↦ absurd (ground arith)
  ];
  nodes_at = λ key n read. elim (Bool-cases (key == 1002)) [
    | inl place ↦
        let same : node ≡ n = ground arith in
        subst₂ (IsNodeAt chain) (sym (==→eq key 1002 place)) same node-IsNodeAt
    | inr apart ↦ absurd (ground arith)
  ];
}

Reach-config_example :
    (c' : Config) × (world3.configs 1003 ≡ some c')
    × SameConfig config c'
    × (c'.fee_bps ≤ max_fee_bps)
    × (pos 0 <ℤ c'.challenge_window_secs)
Reach-config_example =
    Reach-config chain 1003 config chain-IsChain (world-IsRegistry open_native) checkpointed refl

Reach-Earns_example : (n' : Node) × (world3.nodes 1002 ≡ some n') × Earns node n'
Reach-Earns_example =
    Reach-Earns chain {w = world open_native} 1002 node chain-IsChain checkpointed refl

-- The same checkpoint, which the payer alone has signed.
abbrev payer_tx : Tx
payer_tx = record (tx 90 st3) { is_signer = λ j. j == 13 }

abbrev paid_world : World
paid_world =
    value (world open_native) (run_settle chain payer_tx (world open_native) settle_keys st3 true)

payer_run : run_settle chain payer_tx (world open_native) settle_keys st3 true ≡ ok paid_world
unfolding run_settle load_settle load_config load_node load_session apply_state fee_for pay_provider
    pda_transfer_lamports reputation_reward verify_cosigned_state to_message_bytes byte_at u16_at
    read_u16 check_ed25519_data is_bound_at scan verify_ed25519_signature key_bytes bytes_eq slice
    le_bytes
payer_run = refl

payer_dispatch :
    dispatch chain payer_tx (Call.checkpoint_settle settle_keys st3) (world open_native)
    ≡ ok paid_world
unfolding dispatch checkpoint_settle
payer_dispatch = payer_run

unsigned_keeps_example :
    (paid_world.configs 1003 ≡ some config)
    × ((n' : Node) × (paid_world.nodes 1002 ≡ some n') × SameDescription node n')
unsigned_keeps_example =
    unsigned_keeps chain payer_tx (Call.checkpoint_settle settle_keys st3) (world open_native) 1003
      1002 config node chain-IsChain refl refl refl refl payer_dispatch

settlement_goes_through_example :
    (v : World) × (run_settle chain (tx 90 st3) (world open_native) settle_keys st3 true ≡ ok v)
    × (v.sessions 1001 ≡ some (settled_session true open_native st3))
settlement_goes_through_example =
    settlement_goes_through chain (tx 90 st3) {w = world open_native} settle_keys
      (loaded open_native) st3 true chain-IsChain world-IsSoundWorld (world-IsRegistry open_native)
      here
      (record {
        config_read = refl;
        node_read = refl;
        session_read = refl;
        of_node = refl;
        of_provider = refl;
        of_consumer = refl;
        of_asset = refl;
        of_vault = refl;
        of_core = refl;
        by_payer = refl;
      })
      refl refl (omega arith) st3_signed
      (record {
        provider_room = omega arith;
        vault_room = omega arith;
        consumer_room = omega arith;
        units_room = omega arith;
        settled_room = omega arith;
        provider_apart = omega arith;
        vault_apart = omega arith;
        consumer_apart = omega arith;
      })
