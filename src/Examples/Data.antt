-- ===== src/Examples/Data.antt =====
-- Concrete accounts, messages and transactions.
use sol_mesh.Base.{
  leb, ◌&&◌, ◌||◌, false, ℕ, ltb, zero, suc, true, List, [], ◌∷◌, ◌++◌, Option, none, some, length,
  ◌==◌, if◌then◌else◌,
}
use sol_mesh.Base.Int.{pos}
use sol_mesh.Base.Words.{le_bytes}
use sol_mesh.State.{closing, Config, Node, Session, SessionStatus, opened}
use sol_mesh.Message.{StateUpdate, new, to_message_bytes}
use sol_mesh.Runtime.{Tx, World, Lamports, Tokens, Sysvar, Instruction}
use sol_mesh.Ed25519.{ed25519_program_id}
use sol_mesh.Shared.{key_bytes}
use sol_mesh.Settle.{Settle}
use sol_mesh.Dispute.{UnilateralClose}
use sol_mesh.Spl.{SettleSpl}
use sol_mesh.Examples.Chain.{chain}

-- Provider 11, consumer 12, another party 13; the session stands at 1001, the node at 1002, the
-- configuration at 1003 and the fee vault at 1004.
abbrev pub config : Config
config = record {
  authority = 14;
  fee_bps = 500;
  fee_vault = 1004;
  challenge_window_secs = pos 3600;
  mpl_core_program = 15;
  paused = false;
  bump = 255;
}

abbrev pub node : Node
node = record {
  asset = 16;
  provider = 11;
  capacity = 8;
  geo = [];
  reputation = 3;
  total_units = 70;
  total_sessions = 0;
  total_settled = 900;
  active = true;
  bump = 255;
}

-- A session of 1000, of which 100 are settled: its mint, nonce, status, and what is pending.
abbrev pub session_with : Option ℕ → ℕ → SessionStatus → ℕ → ℕ → Session
session_with mint nonce status payout units = record {
  node = 1002;
  asset = 16;
  provider = 11;
  consumer = 12;
  mint = mint;
  deposited = 1000;
  settled_to_provider = 100;
  last_nonce = nonce;
  rate_per_unit = 10;
  opened_at = pos 50;
  expiry = pos 5000;
  status = status;
  challenge_deadline = pos 4000;
  pending_payout = payout;
  pending_units = units;
  session_seed = 1;
  vault_bump = 255;
  bump = 255;
}

abbrev pub open_native : Session
open_native = session_with none 2 opened 0 0

-- Closing, with 600 promised and 11 units, until 4000.
abbrev pub disputed_native : Session
disputed_native = session_with none 4 closing 600 11

abbrev pub lamports : Lamports
lamports j = if j == 1001 then 950 else 50

-- The token accounts: the vault at 6021 and another of its authority at 30, in another mint; those of
-- the provider at 21 and 31, of the fee vault at 23 and 33; all others are the consumer's.
abbrev token_owner : ℕ → ℕ
token_owner j =
    if j == 6021 || j == 30
    then 3001
    else if j == 21 || j == 31
    then 11
    else if j == 23 || j == 33
    then 1004
    else 12

abbrev pub tokens : Tokens
tokens j = some (record {
  mint = if leb 30 j && ltb j 40 then 99 else 20;
  owner = token_owner j;
  amount = if j == 6021 || j == 30 then 950 else 50;
  frozen = false;
})

-- The state that the parties sign: nonce, amount owed, units.
abbrev pub state : ℕ → ℕ → ℕ → StateUpdate
state nonce owed units = new (key_bytes 1001) nonce owed units (pos 90)

-- An instruction of the precompile with one entry: header, offsets, key, signature, message.
abbrev pub vouch : ℕ → List ℕ → Instruction
vouch key msg = record {
  program_id = ed25519_program_id;
  payload =
      (1 ∷ 0 ∷ 48 ∷ 0 ∷ 255 ∷ 255 ∷ 16 ∷ 0 ∷ 255 ∷ 255 ∷ 112 ∷ 0 ∷ length msg ∷ 0 ∷ 255 ∷ 255 ∷ [])
      ++ key_bytes key
      ++ le_bytes 64 0
      ++ msg;
}

abbrev instructions : List ℕ → ℕ → Option Instruction
instructions msg zero = some (vouch 11 msg)
instructions msg (suc zero) = some (vouch 12 msg)
instructions msg (suc (suc i)) = none

-- The precompile's instructions of provider and consumer, and this one.
abbrev pub sysvar : StateUpdate → Sysvar
sysvar st = record {
  current_index = some 2;
  instruction_at = instructions (to_message_bytes chain.borsh st);
}

-- A transaction at a time, with the signatures for a state.
abbrev pub tx : ℕ → StateUpdate → Tx
tx now st = record { now = pos now; is_signer = λ j. ltb j 1000; sysvar = sysvar st }

abbrev pub settle_keys : Settle
settle_keys = record {
  config = 1003;
  node = 1002;
  session = 1001;
  provider = 11;
  consumer = 12;
  asset = 16;
  fee_vault = 1004;
  payer = 13;
  mpl_core_program = 15;
}

abbrev pub close_keys : UnilateralClose
close_keys = record { config = 1003; session = 1001; provider = 11; consumer = 12; caller = 11 }

abbrev pub spl_keys : SettleSpl
spl_keys = record {
  config = 1003;
  node = 1002;
  session = 1001;
  provider = 11;
  consumer = 12;
  asset = 16;
  vault_authority = 3001;
  vault_token = 6021;
  provider_token = 21;
  consumer_token = 22;
  fee_token = 23;
  payer = 13;
  mpl_core_program = 15;
}

-- The accounts around one session.
abbrev pub world : Session → World
world s = record {
  configs = λ j. if j == 1003 then some config else none;
  nodes = λ j. if j == 1002 then some node else none;
  sessions = λ j. if j == 1001 then some s else none;
  lamports = lamports;
  tokens = tokens;
  core_calls = [];
}
