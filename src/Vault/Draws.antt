-- ===== src/Vault/Draws.antt =====
-- Payments out of the accounts of one owner.
use sol_mesh.Base.{
  sym, ap, ◌∙◌, ==→eq, List, subst, ℕ, ◌+◌, ◌≤◌, ◌≡◌, inl, inr, ◌==◌, Bool-cases, some, arith,
}
use sol_mesh.Errors.{ok}
use sol_mesh.Runtime.{Chain, Tokens, TokenAccount}
use sol_mesh.Runtime.Laws.{SameAccount, IsTokenChain}
use sol_mesh.Shared.{transfer_from_vault}
use sol_mesh.Shared.Transfer.{amount_if}

module _ (ch : Chain) where
  -- Every account that an address of the program owns is still there, and holds no less but for
  -- `amount` at most out of those that `owner` owns.
  abbrev pub Draws : ℕ → ℕ → Tokens → Tokens → Type 0
  Draws owner amount t t' =
      (j : ℕ) (a : TokenAccount) (seeds : List (List ℕ))
      → t j ≡ some a
      → ch.program_address seeds ≡ some a.owner
      → (b : TokenAccount) × (t' j ≡ some b)
        × SameAccount a b
        × (a.amount ≤ b.amount + amount_if a.owner owner amount)

  pub Draws-none : (owner amount : ℕ) (t : Tokens) → Draws owner amount t t
  Draws-none owner amount t j a seeds read derived = (a, read, ground arith, ground arith)

  pub Draws-trans :
      (owner x y : ℕ) (t u v : Tokens)
      → Draws owner x t u
      → Draws owner y u v
      → Draws owner (x + y) t v
  Draws-trans owner x y t u v first second j a seeds read derived =
      let (b, at_b, same, le) = first j a seeds read derived in
      let (c, at_c, same', le') = second j b seeds at_b (derived ∙ ap some (sym same.same_owner)) in
      (c, at_c, ground (arith, same, same'), ground (arith, same, same', le, le'))

module _ (ch : Chain) (laws : IsTokenChain ch) where
  token_transfer-Draws :
      (from to owner amount : ℕ) (t : Tokens) {t' : Tokens}
      → ch.token_transfer from to owner amount t ≡ some t'
      → Draws ch owner amount t t'
  token_transfer-Draws from to owner amount t h j a seeds read derived =
      let (b, at_b, same, balance, still) = laws.moved from to owner amount t j a h read in
      elim (Bool-cases (j == from)) [
        | inl here ↦
            let owned : a.owner ≡ owner =
              laws.owned from to owner amount t a seeds h (ap t (sym (==→eq j from here)) ∙ read)
                derived in
            (b, at_b, same, ground (arith, balance, owned))
        | inr apart ↦ (b, at_b, same, ground (arith, balance))
      ]

  pub transfer_from_vault-Draws :
      (from to owner session bump amount : ℕ) (t : Tokens) {t' : Tokens}
      → transfer_from_vault ch from to owner session bump amount t ≡ ok t'
      → Draws ch owner amount t t'
  unfolding transfer_from_vault
  transfer_from_vault-Draws from to owner session bump amount t {t'} h =
      elim (Bool-cases (amount == 0)) [
        | inl e ↦
            subst (Draws ch owner amount t) {x = t} (ground arith) (Draws-none ch owner amount t)
        | inr e ↦ token_transfer-Draws from to owner amount t (ground arith)
      ]
