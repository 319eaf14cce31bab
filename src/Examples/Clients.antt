-- ===== src/Examples/Clients.antt =====
-- The theorems on the client's transactions, with concrete client libraries.
use sol_mesh.Base.{[], ◌≡◌, refl, true, false, none, some, update, arith, bytes_eq, inl}
use sol_mesh.Base.Int.{pos, checked_add_i64, ◌+ℤ◌}
use sol_mesh.Base.Words.{le_bytes, length-le_bytes}
use sol_mesh.Errors.{ok}
use sol_mesh.Runtime.{World, Lamports}
use sol_mesh.Ed25519.{ed25519_program_id}
use sol_mesh.Message.Client.{ClientState, IsEncodable, le_borsh-IsLittleEndian}
use sol_mesh.Settle.{settled_session}
use sol_mesh.Program.{dispatch, here}
use sol_mesh.Protocol.Exits.{posted_session}
use sol_mesh.Registry.Histories.{IsRegistry}
use sol_mesh.Open.{Terms, fresh_session}
use sol_mesh.Client.{Library, to_anchor_arg}
use sol_mesh.Client.Sdk.{
  fee_vault_pda, pda, SettleOpts, CloseOpts, CloseMethod, settle, cosigned_close, executed_at,
}
use sol_mesh.Client.Calls.{open_session}
use sol_mesh.Client.Vouching.{IsLibrary, ed25519_layout}
use sol_mesh.Client.Settling.{settle_transaction, client_settles}
use sol_mesh.Client.Closing.{cosigned_close_transaction, client_closes, with_session}
use sol_mesh.Client.Opening.{client_opens}
use sol_mesh.Examples.Chain.{chain, chain-IsChain}
use sol_mesh.Examples.Data.{config, node, open_native, world}
use sol_mesh.Examples.Runs.{loaded}
use sol_mesh.Examples.Histories.{world-IsSoundWorld}
use sol_mesh.Examples.Registries.{world-IsRegistry}

abbrev pub lib : Library
lib = record {
  sign_detached = λ msg secret. le_bytes 64 0;
  verify_detached = λ msg sig pk. true;
  ed25519_instruction =
      λ pk msg sig. record { program_id = ed25519_program_id; payload = ed25519_layout pk msg sig };
  compute_unit_limit = λ units. record { program_id = 17; payload = le_bytes 4 units };
  find_program_address = chain.find_program_address;
  associated_token = chain.associated_token;
  wallet = 14;
  instruction_of = λ call. record { program_id = 18; payload = [] };
}

pub lib-IsLibrary : IsLibrary chain lib
lib-IsLibrary = record {
  little_endian = le_borsh-IsLittleEndian;
  for_precompile = λ pk msg sig. refl;
  laid_out = λ pk msg sig pk_size sig_size. refl;
  same_addresses = λ seeds. refl;
  same_token_accounts = λ mint owner. refl;
}

-- Nonce 3, 400 owed, 8 units.
abbrev pub client_state : ClientState
client_state = record {
  session = 1001;
  nonce = 3;
  owed_to_provider = 400;
  units_consumed = 8;
  timestamp = pos 90;
}

pub client_state-IsEncodable : IsEncodable client_state
client_state-IsEncodable = record {
  nonce_u64 = omega arith;
  owed_u64 = omega arith;
  units_u64 = omega arith;
  timestamp_i64 = omega arith;
}

abbrev settle_opts : SettleOpts
settle_opts = record {
  payer = 13;
  node = 1002;
  asset = 16;
  provider = 11;
  consumer = 12;
  session = 1001;
  mpl_core = 15;
  state = client_state;
  provider_sig = le_bytes 64 7;
  consumer_sig = le_bytes 64 8;
  checkpoint = false;
}

client_settles_example :
    (settle lib settle_opts ≡ some (settle_transaction lib settle_opts))
    × (v : World) × (dispatch chain
          (executed_at (pos 90) (settle_transaction lib settle_opts))
          (settle_transaction lib settle_opts).call
          (world open_native)
        ≡ ok v)
    × (v.sessions 1001 ≡ some (settled_session false open_native (to_anchor_arg client_state)))
unfolding fee_vault_pda pda bytes_eq
client_settles_example =
    client_settles chain lib (pos 90) {w = world open_native} settle_opts (loaded open_native)
      chain-IsChain lib-IsLibrary world-IsSoundWorld (world-IsRegistry open_native) here
      (record {
        config_read = refl;
        node_read = refl;
        session_read = refl;
        of_node = refl;
        of_provider = refl;
        of_consumer = refl;
        of_asset = refl;
        of_vault = refl;
        of_core = refl;
      })
      (record {
        is_open = refl;
        native = refl;
        fresh = omega arith;
        for_session = refl;
        not_decreased = omega arith;
        covered = omega arith;
        provider_sig_size = length-le_bytes 64 7;
        encodable = client_state-IsEncodable;
        consumer_sig_size = length-le_bytes 64 8;
      })
      (record {
        provider_room = omega arith;
        vault_room = omega arith;
        consumer_room = omega arith;
        units_room = omega arith;
        settled_room = omega arith;
        provider_apart = omega arith;
        vault_apart = omega arith;
        consumer_apart = omega arith;
      })

abbrev close_opts : CloseOpts
close_opts = record {
  caller = 11;
  provider = 11;
  consumer = 12;
  session = 1001;
  state = client_state;
  provider_sig = le_bytes 64 7;
  consumer_sig = le_bytes 64 8;
}

abbrev closing_method : CloseMethod
closing_method = CloseMethod.initiate_unilateral_close

client_closes_example :
    (cosigned_close lib closing_method close_opts
      ≡ some (cosigned_close_transaction lib closing_method close_opts))
    × (dispatch chain
          (executed_at (pos 90) (cosigned_close_transaction lib closing_method close_opts))
          (cosigned_close_transaction lib closing_method close_opts).call
          (world open_native)
        ≡ ok (
            with_session
              (world open_native)
              1001
              (posted_session (pos 3690) open_native (to_anchor_arg client_state))))
unfolding bytes_eq checked_add_i64 ◌+ℤ◌
client_closes_example =
    client_closes chain lib closing_method (pos 90) (pos 3690) {w = world open_native} close_opts
      config open_native chain-IsChain lib-IsLibrary world-IsSoundWorld
      (world-IsRegistry open_native) here
      (record { config_read = refl; session_read = refl; of_provider = refl; of_consumer = refl })
      (record {
        fresh = omega arith;
        for_session = refl;
        not_decreased = omega arith;
        covered = omega arith;
        provider_sig_size = length-le_bytes 64 7;
        encodable = client_state-IsEncodable;
        consumer_sig_size = length-le_bytes 64 8;
      })
      (inl refl, refl, refl)

abbrev terms : Terms
terms = record { session_seed = 2; amount = 1000; duration_secs = pos 60; rate_per_unit = 10 }

-- The accounts before the session is opened, with a richer consumer.
abbrev unopened : World
unopened = record (world open_native) {
  sessions = λ j. none;
  tokens = λ j. none;
  lamports = λ j. 2000;
}

unopened-IsRegistry : IsRegistry chain unopened
unopened-IsRegistry = record {
  configs_at = (world-IsRegistry open_native).configs_at;
  nodes_at = (world-IsRegistry open_native).nodes_at;
}

abbrev rent_paid : Lamports
rent_paid = update (update (λ j. 2000) 12 1900) 1001 2100

abbrev deposited : Lamports
deposited = update (update rent_paid 12 900) 1001 3100

client_opens_example :
    dispatch chain
      (executed_at (pos 90) (open_session lib 12 1002 terms))
      (open_session lib 12 1002 terms).call
      unopened
    ≡ ok (record unopened {
      sessions = update unopened.sessions 1001 (
          some (
            fresh_session
              (executed_at (pos 90) (open_session lib 12 1002 terms))
              terms
              1002
              node
              12
              none
              0
              255
              (pos 150)));
      lamports = deposited;
    })
unfolding bytes_eq checked_add_i64 ◌+ℤ◌ open_session
client_opens_example =
    client_opens chain lib (pos 90) (pos 150) {w = unopened} 12 1002 terms config node rent_paid
      deposited chain-IsChain lib-IsLibrary unopened-IsRegistry here
      (record {
        config_read = refl;
        node_read = refl;
        by_consumer = refl;
        is_active = refl;
        running = refl;
        positive = omega arith;
        long_enough = omega arith;
        short_enough = omega arith;
        free = refl;
        rent_paid = refl;
        deposited = refl;
        ends = refl;
        countable = omega arith;
      })
