-- ===== src/Examples/Payments.antt =====
-- The theorems on amounts, disputes and refunds, at concrete runs.
use sol_mesh.Base.{bytes_eq, ℕ, ◌+◌, ◌-◌, ◌≡◌, refl, true, some, none, arith}
use sol_mesh.Base.Int.{checked_add_i64, pos, ◌+ℤ◌}
use sol_mesh.Errors.{ok}
use sol_mesh.Runtime.{World}
use sol_mesh.Shared.{fee_for}
use sol_mesh.Shared.Fees.{fee_for_exact}
use sol_mesh.Shared.Transfer.{amount_if}
use sol_mesh.Settle.{settled_session}
use sol_mesh.Settle.Pays.{run_settle_pays}
use sol_mesh.Dispute.Units.{disputed_units}
use sol_mesh.Accounts.{load_config, load_node}
use sol_mesh.Spl.Twins.{apply_state_spl_twin, finalize_spl_twin}
use sol_mesh.Open.{
  OpenSession, Terms, open_session, open_session_handler, check_terms, new_session, count_session,
}
use sol_mesh.Admin.{update_config_handler}
use sol_mesh.Examples.Chain.{chain}
use sol_mesh.Examples.Data.{
  open_native, tx, config, lamports, tokens, settle_keys, close_keys, spl_keys, world,
}
use sol_mesh.Examples.Runs.{
  value, st3, st4, world3, checkpoint_run, closed4, finalize_run, paid4, apply_run, reinitiate_run,
  refinalize_run, repaid4, apply_spl_run, finalize_spl_run, loaded, checkpoint3, checkpoint3_spl,
  paid4_spl,
}

run_settle_pays_example :
    (world3.sessions 1001 ≡ some (settled_session true open_native st3))
    × ((j : ℕ)
        → world3.lamports j + amount_if j 1001 (300 + 0)
          ≡ lamports j + amount_if j 11 (300 - 15) + amount_if j 1004 15 + amount_if j 12 0)
run_settle_pays_example =
    run_settle_pays chain (tx 90 st3) (world open_native) settle_keys st3 true config open_native
      refl refl (omega arith) (omega arith) checkpoint_run

disputed_units_example : repaid4.0.total_units ≡ 70 + 8 + 11
disputed_units_example =
    disputed_units chain (tx 90 st3) (tx 90 st4) (tx 3691 st4) settle_keys close_keys settle_keys
      (loaded open_native) lamports lamports config st3 st4 refl apply_run reinitiate_run
      refinalize_run

apply_state_spl_twin_example :
    (checkpoint3_spl.0 ≡ checkpoint3.0)
    × (checkpoint3_spl.1 ≡ record checkpoint3.1 { mint = some 20 })
apply_state_spl_twin_example =
    apply_state_spl_twin chain (tx 90 st3) settle_keys spl_keys (loaded open_native) (some 20)
      lamports tokens st3 true apply_run apply_spl_run

finalize_spl_twin_example :
    (paid4_spl.0 ≡ paid4.0) × (paid4_spl.1 ≡ record paid4.1 { mint = some 20 })
finalize_spl_twin_example =
    finalize_spl_twin chain (tx 3691 st4) settle_keys spl_keys (loaded closed4) (some 20) lamports
      tokens finalize_run finalize_spl_run

fee_for_exact_example : fee_for 300 500 ≡ ok 15
fee_for_exact_example = fee_for_exact 300 500 (omega arith) (omega arith)

abbrev terms : Terms
terms = record { session_seed = 2; amount = 1000; duration_secs = pos 60; rate_per_unit = 10 }

abbrev open_keys : OpenSession
open_keys = record { config = 1003; node = 1002; session = 1001; consumer = 12 }

-- The same accounts before the session is opened, with a richer consumer.
abbrev before : World
before = record (world open_native) {
  sessions = λ j. none;
  tokens = λ j. none;
  lamports = λ j. 2000;
}

open_run :
    open_session chain (tx 90 st3) before open_keys terms
    ≡ ok (value before (open_session chain (tx 90 st3) before open_keys terms))
unfolding open_session open_session_handler check_terms new_session count_session load_config
    load_node checked_add_i64 ◌+ℤ◌ bytes_eq
open_run = refl

raised : update_config_handler (some 1000) none config ≡ ok (record config { fee_bps = 1000 })
unfolding update_config_handler
raised = refl
