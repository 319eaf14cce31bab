-- ===== src/Vault/Payable.antt =====
-- That payments out of a vault go through (token.rs, and the payout of spl.rs).
use sol_mesh.Base.{
  ℕ, ◌+◌, ◌-◌, ◌≤◌, ◌≡◌, ◌∙◌, refl, false, ◌==◌, Bool-cases, inl, inr, [], ◌∷◌, some, sym, arith,
}
use sol_mesh.Base.Words.{IsU64}
use sol_mesh.Constants.{vault_seed}
use sol_mesh.Errors.{ok}
use sol_mesh.Runtime.{Chain, Tokens, TokenAccount}
use sol_mesh.Runtime.Laws.{IsTokenChain, IsTokenPayer, SameAccount}
use sol_mesh.Shared.{key_bytes, transfer_from_vault}
use sol_mesh.Shared.Transfer.{amount_if}

-- What a transfer leaves: every account, with the amount moved.
abbrev pub Moved : ℕ → ℕ → ℕ → Tokens → Tokens → Type 0
Moved from to amount t t' =
    (j : ℕ) (a : TokenAccount)
    → t j ≡ some a
    → (b : TokenAccount) × (t' j ≡ some b)
      × SameAccount a b
      × (b.amount + amount_if j from amount ≡ a.amount + amount_if j to amount)
      × (b.frozen ≡ a.frozen)

module _ (ch : Chain) (laws : IsTokenChain ch) (payer : IsTokenPayer ch) where
  transfer_from_vault_ok :
      (from to owner session bump amount : ℕ) (t : Tokens) (a b : TokenAccount)
      → ch.program_address (vault_seed ∷ key_bytes session ∷ (bump ∷ []) ∷ []) ≡ some owner
      → t from ≡ some a
      → t to ≡ some b
      → a.owner ≡ owner
      → b.mint ≡ a.mint
      → a.frozen ≡ false
      → b.frozen ≡ false
      → amount ≤ a.amount
      → IsU64 (b.amount + amount)
      → (t' : Tokens) × (transfer_from_vault ch from to owner session bump amount t ≡ ok t')
        × Moved from to amount t t'
  unfolding transfer_from_vault
  transfer_from_vault_ok from to owner session bump amount t a b derived at_a at_b owned same thawed
        thawed' cover room =
      elim (Bool-cases (amount == 0)) [
        | inl e ↦ (t, ground arith, λ j c read. (c, read, ground arith, ground arith, refl))
        | inr e ↦
            let (t', done) =
              payer.pays from to owner amount t a b at_a at_b owned same thawed thawed' cover
                room in
            (
              t',
              ground (arith, derived, done),
              λ j c read. laws.moved from to owner amount t j c done read,
            )
      ]

-- A token account that is not frozen and can take what is left of the deposit.
pub record Takes (t : Tokens) (key mint room : ℕ) : Type 0 where
  pub account : TokenAccount
  pub at_key : t key ≡ some account
  pub of_mint : account.mint ≡ mint
  pub not_frozen : account.frozen ≡ false
  pub has_room : IsU64 (account.amount + room)

-- What a transfer leaves of the room.
pub Moved-Takes :
    (from to amount : ℕ) (t t' : Tokens) (key mint room : ℕ)
    → Moved from to amount t t'
    → amount ≤ room
    → Takes t key mint room
    → Takes t' key mint (room - amount)
Moved-Takes from to amount t t' key mint room moved le takes =
    let (b, at_b, same, balance, still) = moved key takes.account takes.at_key in
    record {
      account = b;
      at_key = at_b;
      of_mint = same.same_mint ∙ takes.of_mint;
      not_frozen = still ∙ takes.not_frozen;
      has_room = ground (arith, balance, takes.has_room);
    }

-- The vault of the session at `session`, which is not frozen, and what it holds.
pub record Holds (ch : Chain) (t : Tokens) (key owner mint amount : ℕ) : Type 0 where
  pub account : TokenAccount
  pub at_key : t key ≡ some account
  pub owned : account.owner ≡ owner
  pub of_mint : account.mint ≡ mint
  pub not_frozen : account.frozen ≡ false
  pub covers : amount ≤ account.amount

Moved-Holds :
    (ch : Chain) (from to amount : ℕ) (t t' : Tokens) (owner mint total : ℕ)
    → Moved from to amount t t'
    → Holds ch t from owner mint total
    → Holds ch t' from owner mint (total - amount)
Moved-Holds ch from to amount t t' owner mint total moved h =
    let (b, at_b, same, balance, still) = moved from h.account h.at_key in
    record {
      account = b;
      at_key = at_b;
      owned = same.same_owner ∙ h.owned;
      of_mint = same.same_mint ∙ h.of_mint;
      not_frozen = still ∙ h.not_frozen;
      covers = ground (arith, balance, h.covers);
    }

module _ (ch : Chain) (laws : IsTokenChain ch) (payer : IsTokenPayer ch)
    (key owner mint session bump : ℕ)
    (derived : ch.program_address (vault_seed ∷ key_bytes session ∷ (bump ∷ []) ∷ [])
      ≡ some owner) where
  -- A payment to an account that takes it leaves the vault with the rest.
  pub pays_out :
      (to amount total room : ℕ) (t : Tokens)
      → Holds ch t key owner mint total
      → Takes t to mint room
      → amount ≤ total
      → amount ≤ room
      → (t' : Tokens) × (transfer_from_vault ch key to owner session bump amount t ≡ ok t')
        × Moved key to amount t t'
        × Holds ch t' key owner mint (total - amount)
  pays_out to amount total room t h takes le le' =
      let (t', done, moved) =
        transfer_from_vault_ok ch laws payer key to owner session bump amount t h.account
          takes.account derived h.at_key takes.at_key h.owned (takes.of_mint ∙ sym h.of_mint)
          h.not_frozen takes.not_frozen (omega (arith, h.covers)) (omega (arith, takes.has_room)) in
      (t', done, moved, Moved-Holds ch key to amount t t' owner mint total moved h)
