-- ===== src/Examples/TokenPayouts.antt =====
-- A token session in dispute, and the accounts that belong to it.
use sol_mesh.Base.{false, bytes_eq, ℕ, true, ◌≡◌, refl, some, ap, sym, arith}
use sol_mesh.State.{Session, SessionStatus, closing}
use sol_mesh.Runtime.{Tokens, Tx, World}
use sol_mesh.Vault.Histories.{IsCovered}
use sol_mesh.Vault.Named.{NamesSpl}
use sol_mesh.Examples.Chain.{chain}
use sol_mesh.Examples.Data.{node, config, tokens, session_with, spl_keys, world}
use sol_mesh.Examples.Runs.{loaded}
use sol_mesh.Examples.Histories.{IsFunded}
use sol_mesh.Examples.Vaults.{vault_address, authority_address, vault_account}

-- 600 of 1000 are promised, 100 are paid, and 950 are in the vault.
abbrev pub disputed : Session
disputed = session_with (some 20) 4 closing 600 11

pub disputed-IsSound : IsFunded disputed
unfolding bytes_eq
disputed-IsSound = record {
  at_address = refl;
  within_deposit = omega arith;
  pending_within = λ c. (omega arith, omega arith);
  solvent = λ native live. ground arith;
}

pub disputed-IsCovered : IsCovered chain tokens 1001 20 disputed
disputed-IsCovered = record {
  account = vault_account;
  at_vault = ap tokens vault_address;
  owned = sym authority_address;
  of_mint = refl;
  with_bump = refl;
  covers = omega arith;
}

-- The accounts that belong to a session in tokens.
pub accounts-NamesSpl :
    (t : Tx) (w : World) (nonce payout units : ℕ) (status : SessionStatus)
    → let s = session_with (some 20) nonce status payout units in
      t.is_signer 13 ≡ true
      → w.configs 1003 ≡ some config
      → w.nodes 1002 ≡ some node
      → w.sessions 1001 ≡ some s
      → w.tokens ≡ tokens
      → NamesSpl chain t w spl_keys (loaded s) 20
accounts-NamesSpl t w nonce payout units status signed at_config at_node at_session at_tokens =
    record {
      config_read = at_config;
      node_read = at_node;
      session_read = at_session;
      of_node = refl;
      of_provider = refl;
      of_consumer = refl;
      of_asset = refl;
      of_core = refl;
      by_payer = signed;
      of_authority = sym authority_address;
      of_vault = sym vault_address;
      to_provider = record {
        account = record { mint = 20; owner = 11; amount = 50; frozen = false };
        at_key = ap (λ (f : Tokens). f 21) at_tokens;
        of_mint = refl;
        not_frozen = refl;
        has_room = omega arith;
      };
      to_consumer = record {
        account = record { mint = 20; owner = 12; amount = 50; frozen = false };
        at_key = ap (λ (f : Tokens). f 22) at_tokens;
        of_mint = refl;
        not_frozen = refl;
        has_room = omega arith;
      };
      to_fees = record {
        account = record { mint = 20; owner = 1004; amount = 50; frozen = false };
        at_key = ap (λ (f : Tokens). f 23) at_tokens;
        of_mint = refl;
        not_frozen = refl;
        has_room = omega arith;
      };
      provider_owns = refl;
      consumer_owns = refl;
      vault_owns = refl;
      vault_thawed = λ a at_a. ground (arith, at_a, ap (λ (f : Tokens). f 6021) at_tokens);
      settled_room = omega arith;
    }

pub world-NamesSpl :
    (t : Tx) (nonce payout units : ℕ) (status : SessionStatus)
    → let s = session_with (some 20) nonce status payout units in
      t.is_signer 13 ≡ true → NamesSpl chain t (world s) spl_keys (loaded s) 20
world-NamesSpl t nonce payout units status signed =
    accounts-NamesSpl t (world (session_with (some 20) nonce status payout units)) nonce payout
      units status signed refl refl refl refl
