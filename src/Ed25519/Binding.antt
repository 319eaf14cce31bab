-- ===== src/Ed25519/Binding.antt =====
-- Which instruction data `check_ed25519_data` of programs/solmesh/src/crypto/ed25519.rs accepts.
use sol_mesh.Base.{
  sym, ◌↔◌, ℕ, ◌+◌, ◌≤◌, ◌≡◌, ap, ◌∙◌, List, length, slice, bytes_eq, bytes_eq→eq, bytes_eq_self,
  arith,
}
use sol_mesh.Errors.{ok}
use sol_mesh.Ed25519.{check_ed25519_data, u16_at, byte_at}

-- The layout that the Solana documentation gives for one signature: the offsets and sizes of the
-- first entry, each with the index of the instruction that it refers to (65535: this one).
pub record Binds (bytes pk msg : List ℕ) : Type 0 where
  pub has_entry : 16 ≤ length bytes
  pub counted : 1 ≤ byte_at bytes 0
  pub sig_here : u16_at bytes 4 ≡ 65535
  pub pk_here : u16_at bytes 8 ≡ 65535
  pub msg_here : u16_at bytes 14 ≡ 65535
  pub pk_inside : u16_at bytes 6 + 32 ≤ length bytes
  pub sig_inside : u16_at bytes 2 + 64 ≤ length bytes
  pub msg_inside : u16_at bytes 10 + u16_at bytes 12 ≤ length bytes
  pub pk_bytes : slice bytes (u16_at bytes 6) 32 ≡ pk
  pub msg_size : u16_at bytes 12 ≡ length msg
  pub msg_bytes : slice bytes (u16_at bytes 10) (u16_at bytes 12) ≡ msg

module _ (bytes pk msg : List ℕ) where
  check-Binds : check_ed25519_data bytes pk msg ≡ ok tt → Binds bytes pk msg
  unfolding check_ed25519_data
  check-Binds h = ground (
    arith,
    bytes_eq→eq (slice bytes (u16_at bytes 6) 32) pk,
    bytes_eq→eq (slice bytes (u16_at bytes 10) (u16_at bytes 12)) msg,
  )

  Binds-check : Binds bytes pk msg → check_ed25519_data bytes pk msg ≡ ok tt
  unfolding check_ed25519_data
  Binds-check b = ground (
    arith,
    ap (λ (xs : List ℕ). bytes_eq xs pk) b.pk_bytes ∙ bytes_eq_self pk,
    ap (λ (xs : List ℕ). bytes_eq xs msg) b.msg_bytes ∙ bytes_eq_self msg,
  )

-- The data of an instruction passes the check for a key and a message exactly when its first entry
-- refers to this instruction alone, lies inside it, and spells that key and that message.
pub check_iff_Binds :
    (bytes pk msg : List ℕ) → (check_ed25519_data bytes pk msg ≡ ok tt) ↔ Binds bytes pk msg
check_iff_Binds bytes pk msg = (check-Binds bytes pk msg, Binds-check bytes pk msg)

-- Instruction data that passes the check for a key and a message, and for another key and message,
-- passes it for the same: both keys are equal, and both messages.
pub check_unique :
    (bytes pk msg pk' msg' : List ℕ)
    → check_ed25519_data bytes pk msg ≡ ok tt
    → check_ed25519_data bytes pk' msg' ≡ ok tt
    → (pk ≡ pk') × (msg ≡ msg')
check_unique bytes pk msg pk' msg' h h' =
    let b = check-Binds bytes pk msg h in
    let b' = check-Binds bytes pk' msg' h' in
    (sym b.pk_bytes ∙ b'.pk_bytes, sym b.msg_bytes ∙ b'.msg_bytes)
