-- ===== src/Examples/TokenEndings.antt =====
-- The theorems on how token sessions end, at concrete histories.
use sol_mesh.Base.{◌≡◌, ◌⊎◌, inl, refl, bytes_eq, slice, arith}
use sol_mesh.Base.Words.{le_bytes}
use sol_mesh.Errors.{ok}
use sol_mesh.State.{opened, closing}
use sol_mesh.Message.{StateUpdate, to_message_bytes}
use sol_mesh.Runtime.{Tx, World}
use sol_mesh.Ed25519.{
  byte_at, u16_at, read_u16, check_ed25519_data, is_bound_at, scan, verify_ed25519_signature,
}
use sol_mesh.Shared.{key_bytes, verify_cosigned_state}
use sol_mesh.Dispute.{challenge}
use sol_mesh.Spl.{finalize_close_spl}
use sol_mesh.Program.{dispatch, Reach, here, next, others}
use sol_mesh.Protocol.Consent.{Ran, earlier}
use sol_mesh.Protocol.Exits.{Ends, posted_session}
use sol_mesh.Protocol.Newest.{IsPaid, challenged_world}
use sol_mesh.Vault.Newest.{newest_wins_spl}
use sol_mesh.Vault.Exits.{exit_call_spl, session_exits_spl}
use sol_mesh.Examples.Chain.{
  chain, chain-IsChain, chain-IsTokenChain, chain-IsTokenPayer, tx-IsSigned,
}
use sol_mesh.Examples.Data.{tokens, config, close_keys, spl_keys, state, sysvar, tx, world}
use sol_mesh.Examples.Runs.{st3, loaded}
use sol_mesh.Examples.Histories.{gift, world-IsSound}
use sol_mesh.Examples.Registries.{world-IsRegistry}
use sol_mesh.Examples.Vaults.{
  token_session, token_session-IsSound, token_session-IsCovered, world-IsCoveredWorld,
}
use sol_mesh.Examples.TokenPayouts.{
  disputed, disputed-IsSound, disputed-IsCovered, accounts-NamesSpl, world-NamesSpl,
}

session_exits_spl_example :
    (v : World) × (dispatch chain
        (tx 5001 st3)
        (exit_call_spl token_session.status spl_keys)
        (world token_session)
      ≡ ok v)
    × Ends v 1001 token_session
session_exits_spl_example =
    session_exits_spl chain (tx 5001 st3) {w = world token_session} spl_keys (loaded token_session)
      20 chain-IsChain chain-IsTokenChain chain-IsTokenPayer
      (world-IsSound token_session token_session-IsSound) (world-IsRegistry token_session)
      (world-IsCoveredWorld token_session refl token_session-IsCovered) here
      (world-NamesSpl (tx 5001 st3) 2 0 0 opened refl) refl (inl refl) (λ e. omega arith)
      (λ e. ground arith) (omega arith)

abbrev st5 : StateUpdate
st5 = state 5 700 12

abbrev challenged : World
challenged = challenged_world (world disputed) close_keys disputed st5

st5_signed : verify_cosigned_state chain disputed 1001 st5 (sysvar st5) ≡ ok tt
unfolding verify_cosigned_state to_message_bytes byte_at u16_at read_u16 check_ed25519_data
    is_bound_at scan verify_ed25519_signature key_bytes bytes_eq slice le_bytes
st5_signed = refl

-- After the challenge somebody sends ten lamports to every account.
abbrev gifted : World
gifted = record challenged { lamports = gift }

abbrev given : Reach chain challenged gifted
given = next here (
    others gift tokens (λ key s e. omega arith)
      (λ j a seeds e derived. (a, e, ground arith, omega arith)))

given-Ran : (t : Tx) → ¬ Ran chain challenged t gifted given
given-Ran t ran = elim ran [ earlier step before ↦ elim before [ ] ]

newest_wins_spl_example :
    (challenge chain (tx 100 st5) (world disputed) close_keys st5 ≡ ok challenged)
    × (IsPaid gifted 1001 700
        ⊎ ((v : World) × (finalize_close_spl chain (tx 4001 st5) gifted spl_keys ≡ ok v)
            × IsPaid v 1001 700))
newest_wins_spl_example =
    newest_wins_spl chain (tx 100 st5) (tx 4001 st5) (world disputed) close_keys config disputed st5
      spl_keys (loaded (posted_session disputed.challenge_deadline disputed st5)) 20 chain-IsChain
      chain-IsTokenChain chain-IsTokenPayer (world-IsSound disputed disputed-IsSound)
      (world-IsRegistry disputed) (world-IsCoveredWorld disputed refl disputed-IsCovered)
      (tx-IsSigned (tx 100 st5) (λ j. refl))
      (record {
        config_read = refl;
        session_read = refl;
        of_provider = refl;
        of_consumer = refl;
        by_caller = refl;
      })
      refl (omega arith) (omega arith) st5_signed given (λ t st ran agreed. given-Ran t ran)
      (omega arith) refl
      (accounts-NamesSpl (tx 4001 st5) gifted 5 700 12 closing refl refl refl refl refl) refl
      (omega arith)
