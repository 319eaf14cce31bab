-- ===== src/Examples/Histories.antt =====
-- The theorems on histories, at a checkpoint of the concrete session.
use sol_mesh.Base.{
  ◌⊎◌, ◌+◌, none, ℕ, ◌≤◌, ◌≡◌, ◌≢◌, refl, subst₂, sym, ◌==◌, ==→eq, Bool-cases, inl, inr, true,
  some, bytes_eq, arith,
}
use sol_mesh.Errors.{ok}
use sol_mesh.State.{Session, cancelled}
use sol_mesh.Admin.{AdminConfig, load_admin, set_paused}
use sol_mesh.Accounts.{load_config}
use sol_mesh.Runtime.{World, Lamports}
use sol_mesh.Settle.{settled_session}
use sol_mesh.Settle.Pays.{run_settle_pays}
use sol_mesh.Channel.{Play, channels}
use sol_mesh.Channel.Refines.{Reach-Play}
use sol_mesh.Protocol.Refusals.{Refuses, closed_refused}
use sol_mesh.Protocol.Consent.{AgreedIn, Reach-promised}
use sol_mesh.Program.{Call, dispatch, Reach, here, next, instruction}
use sol_mesh.Protocol.Histories.{IsSound, IsSoundWorld, promised, escrow_due, Reach-solvent}
use sol_mesh.Protocol.Lives.{Reach-closed}
use sol_mesh.Protocol.Replay.{settles, replay_refused}
use sol_mesh.Examples.Chain.{chain, chain-IsChain, tx-IsSigned}
use sol_mesh.Examples.Data.{
  disputed_native, config, session_with, state, open_native, tx, lamports, settle_keys, world,
}
use sol_mesh.Examples.Runs.{st3, world3, value, checkpoint_run, checkpoint_dispatch}

abbrev pub IsFunded : Session → Type 0
IsFunded s = IsSound chain 1001 s 950

open_native-IsSound : IsFunded open_native
unfolding bytes_eq
open_native-IsSound = record {
  at_address = refl;
  within_deposit = omega arith;
  pending_within = λ c. ground arith;
  solvent = λ native live. omega arith;
}

abbrev cancelled_native : Session
cancelled_native = session_with none 0 cancelled 0 0

cancelled_native-IsSound : IsFunded cancelled_native
unfolding bytes_eq
cancelled_native-IsSound = record {
  at_address = refl;
  within_deposit = omega arith;
  pending_within = λ c. ground arith;
  solvent = λ native live. omega arith;
}

pub world-IsSound : (s : Session) → IsFunded s → IsSoundWorld chain (world s)
world-IsSound s h key t e = elim (Bool-cases (key == 1001)) [
  | inl place ↦
      let same : s ≡ t = ground arith in
      subst₂ (λ (k : ℕ) (u : Session). IsSound chain k u (lamports k)) (sym (==→eq key 1001 place))
        same h
  | inr apart ↦ absurd (ground arith)
]

pub world-IsSoundWorld : IsSoundWorld chain (world open_native)
world-IsSoundWorld = world-IsSound open_native open_native-IsSound

pub checkpointed : Reach chain (world open_native) world3
checkpointed = next here (
    instruction (tx 90 st3) (Call.checkpoint_settle settle_keys st3)
      (tx-IsSigned (tx 90 st3) (λ j. refl)) checkpoint_dispatch)

abbrev session3 : Session
session3 = settled_session true open_native st3

world3_session : world3.sessions 1001 ≡ some session3
world3_session =
    (run_settle_pays chain (tx 90 st3) (world open_native) settle_keys st3 true config open_native
      refl refl (omega arith) (omega arith) checkpoint_run).0

Reach-solvent_example :
    (400 ≤ promised session3)
    × (promised session3 ≤ 1000)
    × (escrow_due session3 ≤ world3.lamports 1001)
Reach-solvent_example =
    Reach-solvent chain 1001 session3 chain-IsChain world-IsSoundWorld checkpointed world3_session

-- A state with the nonce that the session had before the checkpoint.
replay_refused_example :
    dispatch chain (tx 95 (state 2 500 9)) (Call.settle_session settle_keys (state 2 500 9)) world3
    ≢ ok world3
replay_refused_example =
    replay_refused chain (tx 95 (state 2 500 9)) 1001 (state 2 500 9) open_native chain-IsChain
      world-IsSoundWorld refl (omega arith) checkpointed (settles settle_keys (state 2 500 9))

abbrev admin_keys : AdminConfig
admin_keys = record { config = 1003; authority = 14 }

abbrev paused_world : World
paused_world =
    value (world cancelled_native)
      (set_paused chain (tx 90 st3) (world cancelled_native) admin_keys true)

pause_run :
    dispatch chain (tx 90 st3) (Call.set_paused admin_keys true) (world cancelled_native)
    ≡ ok paused_world
unfolding dispatch set_paused load_admin load_config bytes_eq
pause_run = refl

Reach-closed_example : paused_world.sessions 1001 ≡ some cancelled_native
Reach-closed_example =
    Reach-closed chain 1001 cancelled_native chain-IsChain
      (world-IsSound cancelled_native cancelled_native-IsSound)
      (next here (
        instruction (tx 90 st3) (Call.set_paused admin_keys true)
          (tx-IsSigned (tx 90 st3) (λ j. refl)) pause_run))
      refl (λ live. ground arith)

pub disputed_native-IsSound : IsFunded disputed_native
unfolding bytes_eq
disputed_native-IsSound = record {
  at_address = refl;
  within_deposit = omega arith;
  pending_within = λ c. (omega arith, omega arith);
  solvent = λ native live. omega arith;
}

-- Somebody sends ten lamports to every account.
abbrev pub gift : Lamports
gift j = lamports j + 10

Reach-promised_example :
    (promised session3 ≡ promised open_native)
    ⊎ AgreedIn chain checkpointed 1001 open_native session3
Reach-promised_example =
    Reach-promised chain 1001 open_native session3 chain-IsChain world-IsSoundWorld checkpointed
      refl world3_session

Reach-Play_example : Play (channels (world open_native)) (channels world3)
Reach-Play_example = Reach-Play chain chain-IsChain world-IsSoundWorld checkpointed

closed_refused_example : Refuses chain cancelled_native
unfolding set_paused load_admin load_config bytes_eq
closed_refused_example =
    closed_refused chain 1001 cancelled_native cancelled_native chain-IsChain
      (world-IsSound cancelled_native cancelled_native-IsSound) refl (λ live. ground arith)
      (next here (
        instruction (tx 90 st3) (Call.set_paused admin_keys true)
          (tx-IsSigned (tx 90 st3) (λ j. refl)) pause_run))
      refl
