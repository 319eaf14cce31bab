-- ===== src/Client/Vouching.antt =====
-- That the program accepts the signatures as the client presents them.
use sol_mesh.Base.{
  bytes_eq, zero, suc, suc, ℕ, ◌+◌, ◌*◌, ◌/◌, ◌%◌, ◌<◌, ◌≤◌, ◌≡◌, ◌∙◌, sym, ap, refl, subst, true,
  some, List, [], ◌∷◌, ◌++◌, length, take, drop, slice, length-append, take-length-append, arith,
  bytes_eq_self,
}
use sol_mesh.Errors.{ok}
use sol_mesh.Runtime.{Chain, Sysvar}
use sol_mesh.Ed25519.{ed25519_program_id, byte_at, u16_at}
use sol_mesh.Ed25519.Binding.{Binds}
use sol_mesh.Base.Words.{le_bytes, length-le_bytes}
use sol_mesh.Message.{state_domain}
use sol_mesh.Message.Client.{ClientState, IsLittleEndian, state_bytes, state_bytes-to_message_bytes}
use sol_mesh.State.{Session}
use sol_mesh.Shared.{key_bytes, verify_cosigned_state}
use sol_mesh.Ed25519.{verify_ed25519_signature}
use sol_mesh.Ed25519.Scan.{verify_decides}
use sol_mesh.Client.{Library, to_anchor_arg, ed25519_verify_ix}

-- The bytes that the documentation of web3.js gives for one key, signature and message.
abbrev pub ed25519_layout : List ℕ → List ℕ → List ℕ → List ℕ
ed25519_layout pk msg sig =
    1
    ∷ 0
    ∷ 48
    ∷ 0
    ∷ 255
    ∷ 255
    ∷ 16
    ∷ 0
    ∷ 255
    ∷ 255
    ∷ 112
    ∷ 0
    ∷ (length msg % 256)
    ∷ (length msg / 256 % 256)
    ∷ 255
    ∷ 255
    ∷ (pk ++ (sig ++ msg))

drop_past :
    {A : Type 0} (xs ys : List A) (n k : ℕ) → k ≡ length xs + n → drop k (xs ++ ys) ≡ drop n ys
drop_past [] ys n k e = ap (λ (m : ℕ). drop m ys) (omega (arith, e))
drop_past (x ∷ xs) ys n zero e = absurd (omega (arith, e))
drop_past (x ∷ xs) ys n (suc k) e = drop_past xs ys n k (omega (arith, e))

take_front : {A : Type 0} (xs ys : List A) (k : ℕ) → k ≡ length xs → take k (xs ++ ys) ≡ xs
take_front xs ys k e = ap (λ (m : ℕ). take m (xs ++ ys)) e ∙ take-length-append xs ys

take_whole : {A : Type 0} (xs : List A) (k : ℕ) → k ≡ length xs → take k xs ≡ xs
take_whole [] zero e = refl
take_whole [] (suc k) e = refl
take_whole (x ∷ xs) zero e = absurd (omega (arith, e))
take_whole (x ∷ xs) (suc k) e = ap (◌∷◌ x) (take_whole xs k (omega (arith, e)))

-- An instruction of that layout binds the key to the message.
pub layout-Binds :
    (pk msg sig : List ℕ)
    → length pk ≡ 32
    → length sig ≡ 64
    → length msg < 65536
    → Binds (ed25519_layout pk msg sig) pk msg
unfolding byte_at u16_at slice
layout-Binds pk msg sig pk_size sig_size small = record {
  has_entry = omega arith;
  counted = omega arith;
  sig_here = refl;
  pk_here = refl;
  msg_here = refl;
  pk_inside = omega (arith, length-append pk (sig ++ msg), length-append sig msg);
  sig_inside = omega (arith, length-append pk (sig ++ msg), length-append sig msg);
  msg_inside = omega (arith, length-append pk (sig ++ msg), length-append sig msg);
  pk_bytes = take_front pk (sig ++ msg) 32 (sym pk_size);
  msg_size = omega arith;
  msg_bytes =
      ap (take size)
        (drop_past pk (sig ++ msg) 64 96 (omega arith) ∙ drop_past sig msg 0 64 (omega arith))
      ∙ take_whole msg size (omega arith);
}
  where
    size : ℕ
    size = length msg % 256 + 256 * (length msg / 256 % 256)

-- The documentation of Borsh and Solana: integers little-endian; of web3.js: the layout of an
-- ed25519 instruction, and of spl-token, the addresses that the program
-- derives too.
pub record IsLibrary (ch : Chain) (lib : Library) : Type 0 where
  pub little_endian : IsLittleEndian ch.borsh
  pub for_precompile :
      (pk msg sig : List ℕ) → (lib.ed25519_instruction pk msg sig).program_id ≡ ed25519_program_id
  pub laid_out :
      (pk msg sig : List ℕ)
      → length pk ≡ 32
      → length sig ≡ 64
      → (lib.ed25519_instruction pk msg sig).payload ≡ ed25519_layout pk msg sig
  pub same_addresses :
      (seeds : List (List ℕ)) → lib.find_program_address seeds ≡ ch.find_program_address seeds
  pub same_token_accounts :
      (mint owner : ℕ) → lib.associated_token mint owner ≡ ch.associated_token mint owner

length-key_bytes : (key : ℕ) → length (key_bytes key) ≡ 32
unfolding key_bytes
length-key_bytes key = length-le_bytes 32 key

length-state_bytes : (s : ClientState) → length (state_bytes s) ≡ 72
unfolding state_bytes
length-state_bytes s = simp (length-append, length-le_bytes)

-- `s.session.toBuffer()` of the session's key.
bytes_eq-key_bytes : (a b : ℕ) → a ≡ b → bytes_eq (le_bytes 32 a) (key_bytes b) ≡ true
unfolding key_bytes
bytes_eq-key_bytes a b e =
    ap (λ (k : ℕ). bytes_eq (le_bytes 32 k) (le_bytes 32 b)) e ∙ bytes_eq_self (le_bytes 32 b)

module _ (ch : Chain) (lib : Library) (laws : IsLibrary ch lib) where
  -- An instruction of the client before the current one vouches for its key and message.
  vouched :
      (sysvar : Sysvar) (key : ℕ) (msg sig : List ℕ) (i current : ℕ)
      → sysvar.current_index ≡ some current
      → i < current
      → sysvar.instruction_at i ≡ some (ed25519_verify_ix lib key msg sig)
      → length sig ≡ 64
      → length msg < 65536
      → verify_ed25519_signature sysvar (key_bytes key) msg ≡ ok tt
  unfolding ed25519_verify_ix
  vouched sysvar key msg sig i current at_current before stands size small =
      (verify_decides sysvar (key_bytes key) msg current at_current).0.1 (
        i,
        before,
        record {
          ix = lib.ed25519_instruction (key_bytes key) msg sig;
          stands = stands;
          precompile = laws.for_precompile (key_bytes key) msg sig;
          binds =
              subst (λ (bytes : List ℕ). Binds bytes (key_bytes key) msg)
                (sym (laws.laid_out (key_bytes key) msg sig (length-key_bytes key) size))
                (layout-Binds (key_bytes key) msg sig (length-key_bytes key) size small);
        },
      )

  -- The two instructions of `cosignIxs`, anywhere before the current one, have the state accepted.
  pub cosigned :
      (sysvar : Sysvar) (s : Session) (key : ℕ) (state : ClientState)
      (provider_sig consumer_sig : List ℕ) (i j current : ℕ)
      → sysvar.current_index ≡ some current
      → i < current
      → j < current
      → sysvar.instruction_at i
        ≡ some (ed25519_verify_ix lib s.provider (state_bytes state) provider_sig)
      → sysvar.instruction_at j
        ≡ some (ed25519_verify_ix lib s.consumer (state_bytes state) consumer_sig)
      → length provider_sig ≡ 64
      → length consumer_sig ≡ 64
      → state.session ≡ key
      → s.settled_to_provider ≤ state.owed_to_provider
      → state.owed_to_provider ≤ s.deposited
      → verify_cosigned_state ch s key (to_anchor_arg state) sysvar ≡ ok tt
  unfolding verify_cosigned_state
  cosigned sysvar s key state provider_sig consumer_sig i j current at_current before_i before_j
        at_i at_j size_p size_c of_key lo hi =
      let small : length (state_bytes state) < 65536 = omega (arith, length-state_bytes state) in
      let by_provider =
        vouched sysvar s.provider (state_bytes state) provider_sig i current at_current before_i
          at_i size_p small in
      let by_consumer =
        vouched sysvar s.consumer (state_bytes state) consumer_sig j current at_current before_j
          at_j size_c small in
      ground (
        arith,
        bytes_eq_self state_domain,
        bytes_eq-key_bytes state.session key of_key,
        state_bytes-to_message_bytes ch.borsh state laws.little_endian,
        by_provider,
        by_consumer,
        of_key,
      )
