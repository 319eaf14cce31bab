-- ===== src/Ed25519/Scan.antt =====
-- The search through the transaction (`verify_ed25519_signature` of
-- programs/solmesh/src/crypto/ed25519.rs), and what a hit says once the precompile has run.
use sol_mesh.Base.{
  ℕ, zero, suc, ◌+◌, ◌*◌, ◌≤◌, ◌<◌, ◌≡◌, refl, ◌⊎◌, ◌↔◌, subst₂, inl, inr, true, List, none, some,
  slice, arith, Bool-cases, Option-cases,
}
use sol_mesh.Errors.{ok, err, ed25519_ix_missing}
use sol_mesh.Runtime.{Instruction, Sysvar}
use sol_mesh.Ed25519.{
  sysvar_unreadable, ed25519_program_id, u16_at, byte_at, is_bound_at, scan,
  verify_ed25519_signature,
}
use sol_mesh.Ed25519.Binding.{Binds, check_iff_Binds}

-- Instruction `i` is one of the precompile's and binds the key to the message.
pub record BoundAt (sysvar : Sysvar) (pk msg : List ℕ) (i : ℕ) : Type 0 where
  pub ix : Instruction
  pub stands : sysvar.instruction_at i ≡ some ix
  pub precompile : ix.program_id ≡ ed25519_program_id
  pub binds : Binds ix.payload pk msg

module _ (sysvar : Sysvar) (pk msg : List ℕ) where
  is_bound_at-BoundAt : (i : ℕ) → is_bound_at sysvar pk msg i ≡ true → BoundAt sysvar pk msg i
  unfolding is_bound_at
  is_bound_at-BoundAt i h = elim (Option-cases (sysvar.instruction_at i)) [
    | inl e ↦ absurd (ground arith)
    | inr (ix, e) ↦ record {
      ix = ix;
      stands = e;
      precompile = ground arith;
      binds = (check_iff_Binds ix.payload pk msg).0 (ground arith);
    }
  ]

  BoundAt-is_bound_at : (i : ℕ) → BoundAt sysvar pk msg i → is_bound_at sysvar pk msg i ≡ true
  unfolding is_bound_at
  BoundAt-is_bound_at i b =
      ground (arith, b.stands, b.precompile, (check_iff_Binds b.ix.payload pk msg).1 b.binds)

  scan_found :
      (n i : ℕ)
      → scan sysvar pk msg n i ≡ ok tt
      → (j : ℕ) × (j < i + n) × (is_bound_at sysvar pk msg j ≡ true)
  unfolding scan
  scan_found zero i h = absurd (cc)
  scan_found (suc n) i h = elim (Bool-cases (is_bound_at sysvar pk msg i)) [
    | inl e ↦ (i, omega arith, e)
    | inr e ↦ let (j, below, hit) = scan_found n (suc i) (rw e at h) in (j, omega arith, hit)
  ]

  scan_hit :
      (n i j : ℕ)
      → i ≤ j
      → j < i + n
      → is_bound_at sysvar pk msg j ≡ true
      → scan sysvar pk msg n i ≡ ok tt
  unfolding scan
  scan_hit zero i j lo hi hit = absurd (omega arith)
  scan_hit (suc n) i j lo hi hit = ground (arith, scan_hit n (suc i) j)

  scan_cases :
      (n i : ℕ)
      → (scan sysvar pk msg n i ≡ ok tt) ⊎ (scan sysvar pk msg n i ≡ err ed25519_ix_missing)
  unfolding scan
  scan_cases zero i = inr refl
  scan_cases (suc n) i = ground (arith, scan_cases n (suc i))

  verify-eq-scan :
      (current : ℕ)
      → sysvar.current_index ≡ some current
      → verify_ed25519_signature sysvar pk msg ≡ scan sysvar pk msg current 0
  unfolding verify_ed25519_signature
  verify-eq-scan current e = ground arith

  verify_unreadable :
      sysvar.current_index ≡ none → verify_ed25519_signature sysvar pk msg ≡ err sysvar_unreadable
  unfolding verify_ed25519_signature
  verify_unreadable e = ground arith

  pub verify_decides :
      (current : ℕ)
      → sysvar.current_index ≡ some current
      → ((verify_ed25519_signature sysvar pk msg ≡ ok tt)
          ↔ ((j : ℕ) × (j < current) × BoundAt sysvar pk msg j))
        × ((verify_ed25519_signature sysvar pk msg ≡ ok tt)
            ⊎ (verify_ed25519_signature sysvar pk msg ≡ err ed25519_ix_missing))
  verify_decides current e = rw (verify-eq-scan current e) ((found, hit), scan_cases current 0)
    where
      found :
          scan sysvar pk msg current 0 ≡ ok tt → (j : ℕ) × (j < current) × BoundAt sysvar pk msg j
      found h =
          let (j, below, b) = scan_found current 0 h in (j, omega arith, is_bound_at-BoundAt j b)

      hit :
          ((j : ℕ) × (j < current) × BoundAt sysvar pk msg j) → scan sysvar pk msg current 0 ≡ ok tt
      hit (j, below, b) = scan_hit current 0 j (omega arith) (omega arith) (BoundAt-is_bound_at j b)

-- What the Solana documentation says of the precompile, of which the transaction would have been
-- aborted otherwise: each counted entry that refers to its own instruction holds a valid signature.
-- `IsValid pk msg sig` stands for the ed25519 verification.
pub record HasRun (sysvar : Sysvar) (IsValid : List ℕ → List ℕ → List ℕ → Type 0) : Type 0 where
  pub verified :
      (i entry : ℕ) (ix : Instruction)
      → sysvar.instruction_at i ≡ some ix
      → ix.program_id ≡ ed25519_program_id
      → entry < byte_at ix.payload 0
      → (u16_at ix.payload (2 + 14 * entry + 2) ≡ 65535)
      → (u16_at ix.payload (2 + 14 * entry + 6) ≡ 65535)
      → (u16_at ix.payload (2 + 14 * entry + 12) ≡ 65535)
      → IsValid
          (slice ix.payload (u16_at ix.payload (2 + 14 * entry + 4)) 32)
          (slice ix.payload
            (u16_at ix.payload (2 + 14 * entry + 8))
            (u16_at ix.payload (2 + 14 * entry + 10)))
          (slice ix.payload (u16_at ix.payload (2 + 14 * entry)) 64)

module _ (sysvar : Sysvar) (IsValid : List ℕ → List ℕ → List ℕ → Type 0)
    (run : HasRun sysvar IsValid) (pk msg : List ℕ) where
  -- Where the precompile has run as documented, a key and a message that pass the search have a
  -- valid signature.
  pub verify_signed :
      verify_ed25519_signature sysvar pk msg ≡ ok tt → (sig : List ℕ) × IsValid pk msg sig
  verify_signed h = elim (Option-cases sysvar.current_index) [
    | inl e ↦ absurd (cc (h, verify_unreadable sysvar pk msg e))
    | inr (current, e) ↦
        let (j, below, hit) =
          scan_found sysvar pk msg current 0 (rw (verify-eq-scan sysvar pk msg current e) at h) in
        signed j (is_bound_at-BoundAt sysvar pk msg j hit)
  ]
    where
      signed : (j : ℕ) → BoundAt sysvar pk msg j → (sig : List ℕ) × IsValid pk msg sig
      signed j b = (
        slice b.ix.payload (u16_at b.ix.payload 2) 64,
        subst₂ (λ (p m : List ℕ). IsValid p m (slice b.ix.payload (u16_at b.ix.payload 2) 64))
            b.binds.pk_bytes b.binds.msg_bytes
            (run.verified j 0 b.ix b.stands b.precompile b.binds.counted b.binds.sig_here
              b.binds.pk_here b.binds.msg_here),
      )
