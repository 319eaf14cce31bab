-- ===== src/Settle/Pays.antt =====
-- Where the lamports of a settlement or a checkpoint go (programs/solmesh/src/instructions/settle.rs).
use sol_mesh.Base.{ℕ, ◌+◌, ◌-◌, ◌*◌, ◌/◌, ◌≤◌, ◌≡◌, ap, inl, inr, Bool, some, arith}
use sol_mesh.Base.Words.{IsU64}
use sol_mesh.Errors.{ok, Result-cases}
use sol_mesh.Constants.{max_fee_bps}
use sol_mesh.State.{Config, Session}
use sol_mesh.Message.{StateUpdate}
use sol_mesh.Runtime.{Chain, Tx, World}
use sol_mesh.Shared.{fee_for}
use sol_mesh.Shared.Fees.{fee_for_exact}
use sol_mesh.Shared.Transfer.{amount_if}
use sol_mesh.Settle.{Settle, load_settle, settled_session, apply_state, run_settle}
use sol_mesh.Settle.Effects.{refund_of, apply_state-Settles, load_settle-IsLoaded}

-- The fee on a payout, as the exact floor.
abbrev pub floor_fee : Config → ℕ → ℕ
floor_fee c payout = payout * c.fee_bps / 10000

-- After a settlement or a checkpoint that goes through, with a fee rate within its bound and a
-- `u64` as the amount owed, the session has the posted state, and every account on the chain holds
-- what it held, plus what it is due: the provider the newly owed amount less the fee, the fee
-- vault the fee, the consumer the rest of the deposit if the session is closed; all of it comes
-- out of the session. The fee is the exact floor of its rate on the newly owed amount.
pub run_settle_pays :
    (ch : Chain) (tx : Tx) (w : World) (k : Settle) (state : StateUpdate) (is_checkpoint : Bool)
    (c : Config) (s : Session) {w' : World}
    → w.configs k.config ≡ some c
    → w.sessions k.session ≡ some s
    → c.fee_bps ≤ max_fee_bps
    → IsU64 state.owed_to_provider
    → run_settle ch tx w k state is_checkpoint ≡ ok w'
    → let payout = state.owed_to_provider - s.settled_to_provider in
      (w'.sessions k.session ≡ some (settled_session is_checkpoint s state))
      × ((j : ℕ)
          → w'.lamports j + amount_if j k.session (payout + refund_of is_checkpoint s state)
            ≡ w.lamports j
              + amount_if j s.provider (payout - floor_fee c payout)
              + amount_if j c.fee_vault (floor_fee c payout)
              + amount_if j s.consumer (refund_of is_checkpoint s state))
unfolding run_settle
run_settle_pays ch tx w k state is_checkpoint c s {w'} at_c at_s cap range h =
    elim (Result-cases (load_settle ch tx w k)) [
      | inl (e, failed) ↦ absurd (ground arith)
      | inr (l, loaded) ↦
          elim (Result-cases (apply_state ch tx k l w.lamports state is_checkpoint)) [
            | inl (e, failed) ↦ absurd (ground arith)
            | inr ((n, s', m), applied) ↦
                let p = apply_state-Settles ch tx k l w.lamports state is_checkpoint applied in
                let r = load_settle-IsLoaded ch tx w k loaded in
                let same_c : l.config ≡ c = cc (r.config_read, at_c) in
                let same_s : l.session ≡ s = cc (r.session_read, at_s) in
                let exact : p.fee ≡ floor_fee c (state.owed_to_provider - s.settled_to_provider) =
                  cc (
                    p.fee_charged,
                    ap
                        (λ (d : Config).
                          fee_for (state.owed_to_provider - l.session.settled_to_provider)
                            d.fee_bps)
                        same_c,
                    ap
                        (λ (t : Session).
                          fee_for (state.owed_to_provider - t.settled_to_provider) c.fee_bps)
                        same_s,
                    fee_for_exact (state.owed_to_provider - s.settled_to_provider) c.fee_bps
                        (omega arith) cap,
                  ) in
                (
                  ground (arith, p.session_after, same_s),
                  λ j. ground (
                    arith,
                    p.balances j,
                    exact,
                    same_s,
                    ap (λ (d : Config). d.fee_vault) same_c,
                    r.same_provider,
                    r.same_consumer,
                    r.same_vault,
                  ),
                )
          ]
    ]
