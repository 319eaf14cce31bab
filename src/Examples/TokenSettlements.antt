-- ===== src/Examples/TokenSettlements.antt =====
-- The settlement of a token session by the client.
use sol_mesh.Base.{bytes_eq, ◌≡◌, refl, some, true, arith}
use sol_mesh.Base.Int.{pos}
use sol_mesh.Base.Words.{le_bytes, of_le_bytes, length-le_bytes}
use sol_mesh.Errors.{ok}
use sol_mesh.State.{opened}
use sol_mesh.Runtime.{World}
use sol_mesh.Program.{dispatch, here}
use sol_mesh.Shared.{key_bytes}
use sol_mesh.Settle.{settled_session}
use sol_mesh.Client.{to_anchor_arg, cosign_message}
use sol_mesh.Client.Sdk.{executed_at}
use sol_mesh.Client.Tokens.{SettleSplOpts, settle_spl, settle_spl_after}
use sol_mesh.Client.SettlingSpl.{settle_spl_transaction, client_settles_spl}
use sol_mesh.Examples.Chain.{chain, chain-IsChain, chain-IsTokenChain, chain-IsTokenPayer}
use sol_mesh.Examples.Data.{world}
use sol_mesh.Examples.Runs.{loaded}
use sol_mesh.Examples.Histories.{world-IsSound}
use sol_mesh.Examples.Registries.{world-IsRegistry}
use sol_mesh.Examples.Vaults.{
  token_session, token_session-IsSound, token_session-IsCovered, world-IsCoveredWorld,
}
use sol_mesh.Examples.TokenPayouts.{world-NamesSpl}
use sol_mesh.Examples.Clients.{lib, lib-IsLibrary, client_state, client_state-IsEncodable}

abbrev settle_opts : SettleSplOpts
settle_opts = record {
  payer = 13;
  node = 1002;
  asset = 16;
  provider = 11;
  consumer = 12;
  session = 1001;
  mint = 20;
  mpl_core = 15;
  state = client_state;
  provider_sig = le_bytes 64 7;
  consumer_sig = le_bytes 64 8;
  vault_token = 6021;
  provider_token = 21;
  consumer_token = 22;
  fee_token = 23;
  checkpoint = true;
}

client_settles_spl_example :
    (settle_spl lib settle_opts ≡ some (settle_spl_transaction lib settle_opts))
    × (v : World) × (dispatch chain
          (executed_at (pos 90) (settle_spl_transaction lib settle_opts))
          (settle_spl_transaction lib settle_opts).call
          (world token_session)
        ≡ ok v)
    × (v.sessions 1001 ≡ some (settled_session true token_session (to_anchor_arg client_state)))
unfolding bytes_eq key_bytes le_bytes of_le_bytes settle_spl_after cosign_message
client_settles_spl_example =
    client_settles_spl chain lib (pos 90) {w = world token_session} settle_opts
      (loaded token_session) chain-IsChain chain-IsTokenChain chain-IsTokenPayer lib-IsLibrary
      (world-IsSound token_session token_session-IsSound) (world-IsRegistry token_session)
      (world-IsCoveredWorld token_session refl token_session-IsCovered) here
      (world-NamesSpl (executed_at (pos 90) (settle_spl_transaction lib settle_opts)) 2 0 0 opened
        refl)
      (record {
        is_open = refl;
        in_tokens = refl;
        fresh = omega arith;
        for_session = refl;
        not_decreased = omega arith;
        covered = omega arith;
        provider_sig_size = length-le_bytes 64 7;
        encodable = client_state-IsEncodable;
        consumer_sig_size = length-le_bytes 64 8;
      })
      (omega arith)
