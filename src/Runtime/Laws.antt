-- ===== src/Runtime/Laws.antt =====
-- What the documentation of Solana, Anchor and mpl-core says of the calls in `Chain`, as far as the
-- proofs rest on it.
use sol_mesh.Base.{ℕ, ◌+◌, ◌≤◌, ◌<◌, ◌^◌, ◌≡◌, ◌≢◌, false, List, [], ◌∷◌, ◌++◌, some}
use sol_mesh.Constants.{session_seed, vault_seed, fee_vault_seed}
use sol_mesh.Base.Words.{IsU64}
use sol_mesh.Shared.{key_bytes}
use sol_mesh.Runtime.{
  Tokens, TokenAccount, Chain, Tx, Lamports, AccountKind, CoreCall, create_v1, update_plugin_v1,
}
use sol_mesh.Shared.Transfer.{amount_if}

-- A program address lies off the curve, so no transaction carries its signature.
abbrev pub IsSigned : Chain → Tx → Type 0
IsSigned ch tx =
    (seeds : List (List ℕ)) (key : ℕ)
    → ch.program_address seeds ≡ some key
    → tx.is_signer key ≡ false

abbrev pub payer_of : CoreCall → ℕ
payer_of (create_v1 c) = c.payer
payer_of (update_plugin_v1 u) = u.payer

pub record IsChain (ch : Chain) : Type 0 where
  -- the canonical bump derives the canonical address
  pub found :
      (seeds : List (List ℕ))
      → let (key, bump) = ch.find_program_address seeds in
        ch.program_address (seeds ++ ((bump ∷ []) ∷ [])) ≡ some key
  -- the fee vault is not the address of a session
  pub fee_vault_apart :
      (rest : List (List ℕ))
      → ch.program_address (session_seed ∷ rest)
        ≢ some (ch.find_program_address (fee_vault_seed ∷ [])).0
  -- a system transfer moves its amount and nothing else
  pub transferred :
      (from to amount : ℕ) (m : Lamports) {m' : Lamports} (j : ℕ)
      → ch.system_transfer from to amount m ≡ some m'
      → m' j + amount_if j from amount ≡ m j + amount_if j to amount
  -- creating an account costs nobody but the payer
  pub created :
      (kind : AccountKind) (payer new : ℕ) (m : Lamports) {m' : Lamports} (j : ℕ)
      → ch.create_account kind payer new m ≡ some m'
      → j ≢ payer
      → m j ≤ m' j
  -- nor does an mpl-core call
  pub invoked :
      (call : CoreCall) (seeds : List (List ℕ)) (m : Lamports) {m' : Lamports} (j : ℕ)
      → ch.core_invoke call seeds m ≡ some m'
      → j ≢ payer_of call
      → m j ≤ m' j

-- Two token accounts of one mint and one owner.
pub record SameAccount (a b : TokenAccount) : Type 0 where
  pub same_mint : b.mint ≡ a.mint
  pub same_owner : b.owner ≡ a.owner

-- An account that is still there, and holds no less.
abbrev pub Keeps : Tokens → ℕ → TokenAccount → Type 0
Keeps t' j a = (b : TokenAccount) × (t' j ≡ some b) × SameAccount a b × (a.amount ≤ b.amount)

abbrev pub IsKey : ℕ → Type 0
IsKey key = key < 2 ^ 256

-- What the documentation says of the token program, and of the addresses of vaults.
pub record IsTokenChain (ch : Chain) : Type 0 where
  -- a transfer out of an account that an address of the program owns is signed by that address: the
  -- program never approves a delegate
  pub owned :
      (from to authority amount : ℕ) (t : Tokens) {t' : Tokens} (a : TokenAccount)
      (seeds : List (List ℕ))
      → ch.token_transfer from to authority amount t ≡ some t'
      → t from ≡ some a
      → ch.program_address seeds ≡ some a.owner
      → a.owner ≡ authority
  -- a transfer moves its amount, and changes nothing else
  pub moved :
      (from to authority amount : ℕ) (t : Tokens) {t' : Tokens} (j : ℕ) (a : TokenAccount)
      → ch.token_transfer from to authority amount t ≡ some t'
      → t j ≡ some a
      → (b : TokenAccount) × (t' j ≡ some b)
        × SameAccount a b
        × (b.amount + amount_if j from amount ≡ a.amount + amount_if j to amount)
        × (b.frozen ≡ a.frozen)
  -- addresses are hashes: a session's is a key, and those of two vault authorities differ
  pub session_key :
      (rest : List (List ℕ)) (key : ℕ)
      → ch.program_address (session_seed ∷ rest) ≡ some key
      → IsKey key
  pub vaults_apart :
      (j k : ℕ)
      → IsKey j
      → IsKey k
      → (ch.find_program_address (vault_seed ∷ key_bytes j ∷ [])).0
        ≡ (ch.find_program_address (vault_seed ∷ key_bytes k ∷ [])).0
      → j ≡ k

-- The documentation of the token program gives the reasons for which a transfer fails: a transfer that
-- the owner signs goes through, between two accounts of one mint neither of which is frozen, if it is
-- covered and does not overflow.
pub record IsTokenPayer (ch : Chain) : Type 0 where
  pub pays :
      (from to authority amount : ℕ) (t : Tokens) (a b : TokenAccount)
      → t from ≡ some a
      → t to ≡ some b
      → a.owner ≡ authority
      → b.mint ≡ a.mint
      → a.frozen ≡ false
      → b.frozen ≡ false
      → amount ≤ a.amount
      → IsU64 (b.amount + amount)
      → (t' : Tokens) × (ch.token_transfer from to authority amount t ≡ some t')
