-- ===== src/Runtime.antt =====
-- What the program runs on: the accounts of the chain, the transaction, and the parts of Solana,
-- Anchor, the token program and mpl-core that the source calls and does not contain. Those parts
-- are the fields of `Chain`, a parameter of every definition that uses them.
pub mod Laws
use sol_mesh.Base.{
  ◌&&◌, is_none, ℕ, Bool, true, false, ◌==◌, List, [], ◌∷◌, ◌++◌, Option, none, some,
}
use sol_mesh.Base.Int.{ℤ}
use sol_mesh.State.{Config, Node, Session}
use sol_mesh.Message.{Borsh}

pub record TokenAccount : Type 0 where
  pub mint : ℕ
  pub owner : ℕ
  pub amount : ℕ
  pub frozen : Bool

abbrev pub Lamports : Type 0
Lamports = ℕ → ℕ

abbrev pub Tokens : Type 0
Tokens = ℕ → Option TokenAccount

-- One instruction of the transaction.
pub record Instruction : Type 0 where
  pub program_id : ℕ
  pub payload : List ℕ

-- The instructions sysvar: `load_current_index_checked` and `load_instruction_at_checked`.
pub record Sysvar : Type 0 where
  pub current_index : Option ℕ
  pub instruction_at : ℕ → Option Instruction

-- The clock, the keys that signed, and the sysvar, as one instruction sees them.
pub record Tx : Type 0 where
  pub now : ℤ
  pub is_signer : ℕ → Bool
  pub sysvar : Sysvar

-- An entry of the Attributes plugin: key and value.
abbrev pub Attribute : Type 0
Attribute = List ℕ × List ℕ

-- `PluginAuthority`
pub data PluginAuthority : Type 0 where
  update_authority : PluginAuthority
  address : ℕ → PluginAuthority

pub data Plugin : Type 0 where
  attributes : List Attribute → Plugin
  update_delegate : List ℕ → Plugin

-- The arguments of the two mpl-core builders that the program fills.
pub record CreateV1 : Type 0 where
  pub asset : ℕ
  pub payer : ℕ
  pub owner : ℕ
  pub update_authority : ℕ
  pub name : List ℕ
  pub uri : List ℕ
  pub plugins : List (Plugin × PluginAuthority)

pub record UpdatePluginV1 : Type 0 where
  pub asset : ℕ
  pub payer : ℕ
  pub authority : ℕ
  pub plugin : Plugin

pub data CoreCall : Type 0 where
  create_v1 : CreateV1 → CoreCall
  update_plugin_v1 : UpdatePluginV1 → CoreCall

-- Which account an `init` constraint creates; its size decides the rent.
pub data AccountKind : Type 0 where
  config_account node_account session_account token_account : AccountKind

pub record Chain : Type 0 where
  pub borsh : Borsh
  -- `Pubkey::create_program_address` and `find_program_address` for this program's id
  pub program_address : List (List ℕ) → Option ℕ
  pub find_program_address : List (List ℕ) → ℕ × ℕ
  -- `system_program::transfer` from, to, amount
  pub system_transfer : ℕ → ℕ → ℕ → Lamports → Option Lamports
  -- the system calls of an `init` constraint: kind, payer, new account
  pub create_account : AccountKind → ℕ → ℕ → Lamports → Option Lamports
  -- the associated token account of a mint and an owner
  pub associated_token : ℕ → ℕ → ℕ
  -- whether a key is that of a mint
  pub is_mint : ℕ → Bool
  -- `token::transfer` from, to, authority, amount
  pub token_transfer : ℕ → ℕ → ℕ → ℕ → Tokens → Option Tokens
  -- an mpl-core call signed with seeds
  pub core_invoke : CoreCall → List (List ℕ) → Lamports → Option Lamports

-- The accounts of the chain; a program account that is `none` is not initialised, or is none of
-- this program's. `core_calls` are the mpl-core calls that went through, newest first.
pub record World : Type 0 where
  pub configs : ℕ → Option Config
  pub nodes : ℕ → Option Node
  pub sessions : ℕ → Option Session
  pub lamports : Lamports
  pub tokens : Tokens
  pub core_calls : List CoreCall

-- That no account of the model stands at a key yet, which `init` needs.
abbrev pub is_unused : World → ℕ → Bool
is_unused w key =
    is_none (w.configs key)
    && (is_none (w.nodes key) && (is_none (w.sessions key) && is_none (w.tokens key)))

-- The constraint `seeds = […], bump = b` at an account's key.
abbrev pub is_program_address : Chain → List (List ℕ) → ℕ → ℕ → Bool
is_program_address ch seeds bump key = elim (ch.program_address (seeds ++ ((bump ∷ []) ∷ []))) [
  | none ↦ false
  | some k ↦ k == key
]

-- The constraint `seeds = […], bump` at an account's key.
abbrev pub is_canonical_address : Chain → List (List ℕ) → ℕ → Bool
is_canonical_address ch seeds key = (ch.find_program_address seeds).0 == key
