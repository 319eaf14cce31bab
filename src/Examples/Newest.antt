-- ===== src/Examples/Newest.antt =====
-- A dispute that the newest state wins.
use sol_mesh.Base.{◌≡◌, ◌⊎◌, refl, bytes_eq, slice, arith}
use sol_mesh.Base.Words.{le_bytes}
use sol_mesh.Errors.{ok}
use sol_mesh.State.{Session}
use sol_mesh.Message.{StateUpdate, to_message_bytes}
use sol_mesh.Runtime.{Tx, World}
use sol_mesh.Ed25519.{
  byte_at, u16_at, read_u16, check_ed25519_data, is_bound_at, scan, verify_ed25519_signature,
}
use sol_mesh.Shared.{key_bytes, verify_cosigned_state}
use sol_mesh.Dispute.{challenge, finalize_close}
use sol_mesh.Program.{Reach, here, next, others}
use sol_mesh.Protocol.Consent.{Ran, earlier}
use sol_mesh.Protocol.Exits.{posted_session}
use sol_mesh.Protocol.Newest.{IsPaid, challenged_world, newest_wins}
use sol_mesh.Examples.Chain.{chain, chain-IsChain, tx-IsSigned}
use sol_mesh.Examples.Data.{
  tokens, config, disputed_native, close_keys, settle_keys, state, sysvar, tx, world,
}
use sol_mesh.Examples.Runs.{loaded}
use sol_mesh.Examples.Histories.{gift, world-IsSound, disputed_native-IsSound}
use sol_mesh.Examples.Registries.{world-IsRegistry}

abbrev st5 : StateUpdate
st5 = state 5 700 12

abbrev posted : Session
posted = posted_session disputed_native.challenge_deadline disputed_native st5

abbrev challenged : World
challenged = challenged_world (world disputed_native) close_keys disputed_native st5

st5_signed : verify_cosigned_state chain disputed_native 1001 st5 (sysvar st5) ≡ ok tt
unfolding verify_cosigned_state to_message_bytes byte_at u16_at read_u16 check_ed25519_data
    is_bound_at scan verify_ed25519_signature key_bytes bytes_eq slice le_bytes
st5_signed = refl

-- After the challenge somebody sends ten lamports to every account.
abbrev gifted : World
gifted = record challenged { lamports = gift }

abbrev given : Reach chain challenged gifted
given = next here (
    others gift tokens (λ key s e. omega arith)
      (λ j a seeds e derived. (a, e, ground arith, omega arith)))

given-Ran : (t : Tx) → ¬ Ran chain challenged t gifted given
given-Ran t ran = elim ran [ earlier step before ↦ elim before [ ] ]

newest_wins_example :
    (challenge chain (tx 100 st5) (world disputed_native) close_keys st5 ≡ ok challenged)
    × (IsPaid gifted 1001 700
        ⊎ ((v : World) × (finalize_close chain (tx 4001 st5) gifted settle_keys ≡ ok v)
            × IsPaid v 1001 700))
newest_wins_example =
    newest_wins chain (tx 100 st5) (tx 4001 st5) (world disputed_native) close_keys config
      disputed_native st5 settle_keys (loaded posted) chain-IsChain
      (world-IsSound disputed_native disputed_native-IsSound) (world-IsRegistry disputed_native)
      (tx-IsSigned (tx 100 st5) (λ j. refl))
      (record {
        config_read = refl;
        session_read = refl;
        of_provider = refl;
        of_consumer = refl;
        by_caller = refl;
      })
      refl (omega arith) (omega arith) st5_signed given (λ t st ran agreed. given-Ran t ran)
      (omega arith) refl
      (record {
        config_read = refl;
        node_read = refl;
        session_read = refl;
        of_node = refl;
        of_provider = refl;
        of_consumer = refl;
        of_asset = refl;
        of_vault = refl;
        of_core = refl;
        by_payer = refl;
      })
      refl
      (record {
        provider_room = omega arith;
        vault_room = omega arith;
        consumer_room = omega arith;
        units_room = omega arith;
        settled_room = omega arith;
        provider_apart = omega arith;
        vault_apart = omega arith;
        consumer_apart = omega arith;
      })
