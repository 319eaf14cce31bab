-- ===== src/Examples/Deployment.antt =====
-- The program's first instructions: a configuration, a node, and a session in lamports.
use sol_mesh.Base.{[], none, ◌≡◌, refl, bytes_eq}
use sol_mesh.Base.Int.{pos, checked_add_i64, ◌+ℤ◌}
use sol_mesh.Errors.{ok}
use sol_mesh.Runtime.{Tx, World}
use sol_mesh.Runtime.Laws.{IsSigned}
use sol_mesh.Admin.{InitializeConfig}
use sol_mesh.Admin
use sol_mesh.Open.{
  RegisterNode, OpenSession, Terms, open_session_handler, check_terms, new_session, count_session,
}
use sol_mesh.Open
use sol_mesh.Core.{create_node_asset}
use sol_mesh.Accounts.{load_config, load_node}
use sol_mesh.Program.{Call, dispatch, here, next, instruction}
use sol_mesh.Vault.Deployed.{IsWellFormed, since_deployment}
use sol_mesh.Examples.Chain.{chain, chain-IsChain, chain-IsTokenChain, tx-IsSigned}
use sol_mesh.Examples.Data.{tx, world, open_native}
use sol_mesh.Examples.Runs.{st3, value}

abbrev undeployed : World
undeployed = record (world open_native) {
  configs = λ j. none;
  nodes = λ j. none;
  sessions = λ j. none;
  tokens = λ j. none;
  lamports = λ j. 2000;
}

abbrev t : Tx
t = tx 90 st3

abbrev first : Call
first =
    Call.initialize_config (record { config = 1003; fee_vault = 1004; authority = 14 }) 500
      (pos 3600) 15

abbrev configured : World
configured = value undeployed (dispatch chain t first undeployed)

first_run : dispatch chain t first undeployed ≡ ok configured
unfolding dispatch Admin.initialize_config bytes_eq
first_run = refl

abbrev second : Call
second =
    Call.register_node
      (record { config = 1003; node = 1002; asset = 16; provider = 11; mpl_core_program = 15 }) []
      [] 8 [] 3

abbrev registered : World
registered = value configured (dispatch chain t second configured)

second_run : dispatch chain t second configured ≡ ok registered
unfolding dispatch Admin.initialize_config Open.register_node load_config bytes_eq create_node_asset
second_run = refl

abbrev third : Call
third =
    Call.open_session (record { config = 1003; node = 1002; session = 1001; consumer = 12 })
      (record { session_seed = 1; amount = 1000; duration_secs = pos 60; rate_per_unit = 10 })

abbrev funded : World
funded = value registered (dispatch chain t third registered)

third_run : dispatch chain t third registered ≡ ok funded
unfolding dispatch Admin.initialize_config Open.register_node Open.open_session open_session_handler
    check_terms new_session count_session load_config load_node bytes_eq create_node_asset
    checked_add_i64 ◌+ℤ◌
third_run = refl

t-IsSigned : IsSigned chain t
t-IsSigned = tx-IsSigned t (λ j. refl)

since_deployment_example : IsWellFormed chain funded
since_deployment_example =
    since_deployment chain {w = undeployed} chain-IsChain chain-IsTokenChain
      (record { no_config = λ key. refl; no_node = λ key. refl; no_session = λ key. refl })
      (next
        (next (next here (instruction t first t-IsSigned first_run))
          (instruction t second t-IsSigned second_run))
        (instruction t third t-IsSigned third_run))
