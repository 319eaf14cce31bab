-- ===== src/Ed25519.antt =====
-- programs/solmesh/src/crypto/ed25519.rs: that the transaction holds an instruction of the ed25519
-- precompile which binds a key to a message.
pub mod Binding
pub mod Scan
use sol_mesh.Base.{
  ℕ, zero, suc, ◌+◌, ◌*◌, Bool, false, List, Option, none, some, ◌&&◌, ◌==◌, leb, if◌then◌else◌,
  length, get_elem?, get_or, slice, bytes_eq,
}
use sol_mesh.Base.Words.{u16_max}
use sol_mesh.Errors.{
  Result, ok, err, ◌>>=◌, ◌>>◌, require, ok_or, is_ok, ed25519_ix_missing, ed25519_cross_index,
  ed25519_pubkey_mismatch, ed25519_message_mismatch, sysvar_unreadable,
}
use sol_mesh.Runtime.{Instruction, Sysvar}

-- The 32 bytes of `Ed25519SigVerify111111111111111111111111111`.
abbrev pub ed25519_program_id : ℕ
ed25519_program_id = 0x804470cafc648af42749747005ff408d838f42f912befb937cd6467d03

abbrev pub pubkey_size : ℕ
pubkey_size = 32

abbrev pub sig_size : ℕ
sig_size = 64

abbrev pub header : ℕ
header = 2

abbrev pub offsets_size : ℕ
offsets_size = 14

abbrev pub sentinel : ℕ
sentinel = u16_max

-- `data[at]`, where the caller has checked the bounds.
unfoldable pub byte_at : List ℕ → ℕ → ℕ
byte_at bytes at = get_or (get_elem? bytes at) 0

-- `u16::from_le_bytes([data[at], data[at + 1]])`
unfoldable pub u16_at : List ℕ → ℕ → ℕ
u16_at bytes at = byte_at bytes at + 256 * byte_at bytes (at + 1)

unfoldable pub read_u16 : List ℕ → ℕ → Result ℕ
read_u16 bytes at = do
  require (leb (at + 2) (length bytes)) ed25519_ix_missing
  ok (u16_at bytes at)

-- The offsets are those of the first signature entry.
unfoldable pub check_ed25519_data : List ℕ → List ℕ → List ℕ → Result (Unit {0})
unfolding read_u16
check_ed25519_data bytes pk msg = do
  require (leb (header + offsets_size) (length bytes)) ed25519_ix_missing
  require (leb 1 (byte_at bytes 0)) ed25519_ix_missing
  sig_offset ← read_u16 bytes header
  sig_ix_idx ← read_u16 bytes (header + 2)
  pk_offset ← read_u16 bytes (header + 4)
  pk_ix_idx ← read_u16 bytes (header + 6)
  msg_offset ← read_u16 bytes (header + 8)
  msg_size ← read_u16 bytes (header + 10)
  msg_ix_idx ← read_u16 bytes (header + 12)
  require (sig_ix_idx == sentinel && pk_ix_idx == sentinel && msg_ix_idx == sentinel)
      ed25519_cross_index
  require (leb (pk_offset + pubkey_size) (length bytes)) ed25519_ix_missing
  require (leb (sig_offset + sig_size) (length bytes)) ed25519_ix_missing
  require (leb (msg_offset + msg_size) (length bytes)) ed25519_ix_missing
  require (bytes_eq (slice bytes pk_offset pubkey_size) pk) ed25519_pubkey_mismatch
  require (msg_size == length msg) ed25519_message_mismatch
  require (bytes_eq (slice bytes msg_offset msg_size) msg) ed25519_message_mismatch

-- The body of the loop over the instructions: whether instruction `i` is the one looked for.
unfoldable pub is_bound_at : Sysvar → List ℕ → List ℕ → ℕ → Bool
is_bound_at sysvar pk msg i = elim (sysvar.instruction_at i) [
  | none ↦ false
  | some ix ↦ ix.program_id == ed25519_program_id && is_ok (check_ed25519_data ix.payload pk msg)
]

-- `for i in 0..current`, with `n` rounds left.
unfoldable pub scan : Sysvar → List ℕ → List ℕ → ℕ → ℕ → Result (Unit {0})
scan sysvar pk msg zero i = err ed25519_ix_missing
scan sysvar pk msg (suc n) i =
    let rest = scan sysvar pk msg n (suc i) in if is_bound_at sysvar pk msg i then ok tt else rest

unfoldable pub verify_ed25519_signature : Sysvar → List ℕ → List ℕ → Result (Unit {0})
verify_ed25519_signature sysvar pk msg = do
  current ← ok_or sysvar.current_index sysvar_unreadable
  scan sysvar pk msg current 0
