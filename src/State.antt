-- ===== src/State.antt =====
-- programs/solmesh/src/state/mod.rs: the accounts of the program. A public key is the 256-bit number
-- that its 32 bytes spell; `u64`, `u32`, `u16` and `u8` are numbers, `i64` is ℤ, a text its bytes.
use sol_mesh.Base.{ℕ, Bool, true, false, List, Option}
use sol_mesh.Base.Int.{ℤ}

pub record Config : Type 0 where
  pub authority : ℕ
  pub fee_bps : ℕ
  pub fee_vault : ℕ
  pub challenge_window_secs : ℤ
  pub mpl_core_program : ℕ
  pub paused : Bool
  pub bump : ℕ

pub record Node : Type 0 where
  pub asset : ℕ
  pub provider : ℕ
  pub capacity : ℕ
  pub geo : List ℕ
  pub reputation : ℕ
  pub total_units : ℕ
  pub total_sessions : ℕ
  pub total_settled : ℕ
  pub active : Bool
  pub bump : ℕ

pub data SessionStatus : Type 0 where
  opened closing settled cancelled expired : SessionStatus

-- The derived `PartialEq`.
abbrev pub status_eq : SessionStatus → SessionStatus → Bool
status_eq opened opened = true
status_eq closing closing = true
status_eq settled settled = true
status_eq cancelled cancelled = true
status_eq expired expired = true
status_eq _ _ = false

pub record Session : Type 0 where
  pub node : ℕ
  pub asset : ℕ
  pub provider : ℕ
  pub consumer : ℕ
  pub mint : Option ℕ
  pub deposited : ℕ
  pub settled_to_provider : ℕ
  pub last_nonce : ℕ
  pub rate_per_unit : ℕ
  pub opened_at : ℤ
  pub expiry : ℤ
  pub status : SessionStatus
  pub challenge_deadline : ℤ
  pub pending_payout : ℕ
  pub pending_units : ℕ
  pub session_seed : ℕ
  pub vault_bump : ℕ
  pub bump : ℕ
