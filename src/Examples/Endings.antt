-- ===== src/Examples/Endings.antt =====
-- The theorems on how sessions end, at concrete histories.
use sol_mesh.Base.{ℕ, none, ◌+◌, ◌≤◌, ◌≡◌, ◌⊎◌, inl, refl, some, arith}
use sol_mesh.Errors.{ok}
use sol_mesh.State.{Session, SessionStatus, opened, closing, settled}
use sol_mesh.Runtime.{World}
use sol_mesh.Program.{Reach, dispatch, here, next, others}
use sol_mesh.Dispute.{finalize_close, finalized_session}
use sol_mesh.Dispute.Payable.{HasRoom}
use sol_mesh.Protocol.Edges.{IsLive}
use sol_mesh.Protocol.Lives.{Life}
use sol_mesh.Protocol.Settlements.{Names}
use sol_mesh.Protocol.Exits.{exit_call, Ends, session_exits}
use sol_mesh.Protocol.Ends.{steps, Reach-steps, dispute_ends}
use sol_mesh.Examples.Chain.{chain, chain-IsChain}
use sol_mesh.Examples.Data.{
  tokens, session_with, open_native, disputed_native, settle_keys, tx, world,
}
use sol_mesh.Examples.Runs.{st3, loaded, world3}
use sol_mesh.Examples.Histories.{
  checkpointed, gift, world-IsSound, disputed_native-IsSound, world-IsSoundWorld,
}
use sol_mesh.Examples.Registries.{world-IsRegistry}

-- A session's accounts after somebody has sent ten lamports to all of them.
abbrev gifted : Session → World
gifted s = record (world s) { lamports = gift }

given : (s : Session) → Reach chain (world s) (gifted s)
given s = next here (
    others gift tokens (λ key s e. omega arith)
      (λ j a seeds e derived. (a, e, ground arith, omega arith)))

gifted-Names :
    (now nonce payout units : ℕ) (status : SessionStatus)
    → let s = session_with none nonce status payout units in
      Names (tx now st3) (gifted s) settle_keys (loaded s)
gifted-Names now nonce payout units status = record {
  config_read = refl;
  node_read = refl;
  session_read = refl;
  of_node = refl;
  of_provider = refl;
  of_consumer = refl;
  of_asset = refl;
  of_vault = refl;
  of_core = refl;
  by_payer = refl;
}

gift-HasRoom :
    (s : Session) → s.deposited ≡ 1000 → s.pending_units ≤ 11 → HasRoom settle_keys (loaded s) gift
gift-HasRoom s e u = record {
  provider_room = omega arith;
  vault_room = omega arith;
  consumer_room = omega arith;
  units_room = omega arith;
  settled_room = omega arith;
  provider_apart = omega arith;
  vault_apart = omega arith;
  consumer_apart = omega arith;
}

session_exits_example :
    (v : World) × (dispatch chain
        (tx 5001 st3)
        (exit_call open_native.status settle_keys)
        (gifted open_native)
      ≡ ok v)
    × Ends v 1001 open_native
session_exits_example =
    session_exits chain (tx 5001 st3) {w = world open_native} settle_keys (loaded open_native)
      chain-IsChain world-IsSoundWorld (world-IsRegistry open_native) (given open_native)
      (gifted-Names 5001 2 0 0 opened) refl (inl refl) (λ e. omega arith) (λ e. ground arith)
      (gift-HasRoom open_native refl (omega arith))

Reach-steps_example :
    (s' : Session) × (world3.sessions 1001 ≡ some s')
    × (life : Life open_native s') × (steps life + 2 ≤ s'.last_nonce + 1)
    × (IsLive s' → steps life + 2 ≤ s'.last_nonce)
Reach-steps_example =
    Reach-steps chain 1001 open_native chain-IsChain world-IsSoundWorld checkpointed refl

dispute_ends_example :
    (disputed_native.status ≡ settled)
    ⊎ ((disputed_native.status ≡ closing)
        × (v : World) × (finalize_close chain (tx 4001 st3) (gifted disputed_native) settle_keys
            ≡ ok v)
        × (v.sessions 1001 ≡ some (finalized_session disputed_native)))
dispute_ends_example =
    dispute_ends chain (tx 4001 st3) {w = world disputed_native} settle_keys
      (loaded disputed_native) disputed_native chain-IsChain
      (world-IsSound disputed_native disputed_native-IsSound) (world-IsRegistry disputed_native)
      refl refl (given disputed_native) (omega arith) (gifted-Names 4001 4 600 11 closing) refl
      (gift-HasRoom disputed_native refl (omega arith))
