-- ===== src/Vault/Lives.antt =====
-- What becomes of a vault, while its session is live and after.
use sol_mesh.Base.{ℕ, ◌+◌, ◌≤◌, ◌≡◌, ◌∙◌, sym, ap, subst, Option, some, arith}
use sol_mesh.State.{Session}
use sol_mesh.Runtime.{Chain, World, TokenAccount}
use sol_mesh.Runtime.Laws.{IsChain, IsTokenChain, Keeps}
use sol_mesh.Program.{Step, Reach, instruction, others, here, next}
use sol_mesh.Spl.{vault_seeds}
use sol_mesh.Protocol.Edges.{IsLive}
use sol_mesh.Protocol.Histories.{IsSoundWorld, edge-IsLive, Reach-IsSoundWorld}
use sol_mesh.Protocol.Lives.{Reach-closed}
use sol_mesh.Vault.{authority_of, vault_of}
use sol_mesh.Vault.Instructions.{TokenEffect, dispatch-TokenEffect}
use sol_mesh.Vault.Histories.{IsCoveredWorld, Draws-Keeps, authorities_apart, Reach-IsCovered}

-- On a chain and a token program that meet their documentation, in every history from a state in
-- which all sessions are sound and all live token sessions covered: a live token session's vault
-- (the associated token account of its mint and its vault authority) is there, it is of that mint,
-- the vault authority owns it, and it holds at least what of the deposit is not settled.
pub Reach-vaulted :
    (ch : Chain) {w w' : World} (key mint : ℕ) (s : Session)
    → IsChain ch
    → IsTokenChain ch
    → IsSoundWorld ch w
    → IsCoveredWorld ch w
    → Reach ch w w'
    → w'.sessions key ≡ some s
    → s.mint ≡ some mint
    → IsLive s
    → (a : TokenAccount) × (w'.tokens (vault_of ch mint key) ≡ some a)
      × (a.owner ≡ authority_of ch key)
      × (a.mint ≡ mint)
      × (s.deposited ≤ a.amount + s.settled_to_provider)
Reach-vaulted ch key mint s laws token_laws sound covered r read in_mint live =
    let c = Reach-IsCovered ch laws token_laws r sound covered key mint s read in_mint live in
    (c.account, c.at_vault, c.owned, c.of_mint, c.covers)

module _ (ch : Chain) (laws : IsChain ch) (token_laws : IsTokenChain ch) where
  TokenEffect-Keeps :
      (w w' : World) (key j : ℕ) (s : Session) (a : TokenAccount)
      → TokenEffect ch w w'
      → IsSoundWorld ch w
      → w.sessions key ≡ some s
      → ¬ IsLive s
      → w.tokens j ≡ some a
      → a.owner ≡ authority_of ch key
      → Keeps w'.tokens j a
  TokenEffect-Keeps w w' key j s a (TokenEffect.pays k p) sound read dead at_a owned =
      let (u, u', x) = p.written in
      Draws-Keeps ch (authority_of ch k) p.amount key w.tokens w'.tokens j a laws p.draws at_a owned
        (λ e.
          authorities_apart ch laws token_laws w key k s u sound read x.loaded
            (λ place. dead (
              subst IsLive {x = u} {y = s} (ground (arith, x.loaded, read, place))
                (edge-IsLive x.edge)))
            (sym owned ∙ e))
  TokenEffect-Keeps w w' key j s a (TokenEffect.writes k x tokens) sound read dead at_a owned =
      (a, ap (λ (f : ℕ → Option TokenAccount). f j) tokens ∙ at_a, ground arith, ground arith)
  TokenEffect-Keeps w w' key j s a (TokenEffect.funds k f) sound read dead at_a owned =
      f.kept j a _ at_a (laws.found (vault_seeds key) ∙ ap some (sym owned))
  TokenEffect-Keeps w w' key j s a (TokenEffect.opens k x tokens native) sound read dead at_a
        owned =
      (a, ap (λ (f : ℕ → Option TokenAccount). f j) tokens ∙ at_a, ground arith, ground arith)
  TokenEffect-Keeps w w' key j s a (TokenEffect.keeps sessions tokens) sound read dead at_a owned =
      (a, ap (λ (f : ℕ → Option TokenAccount). f j) tokens ∙ at_a, ground arith, ground arith)

  Step-Keeps :
      {w w' : World} (key j : ℕ) (s : Session) (a : TokenAccount)
      → Step ch w w'
      → IsSoundWorld ch w
      → w.sessions key ≡ some s
      → ¬ IsLive s
      → w.tokens j ≡ some a
      → a.owner ≡ authority_of ch key
      → Keeps w'.tokens j a
  Step-Keeps {w} {w'} key j s a (instruction tx call signed done) sound read dead at_a owned =
      TokenEffect-Keeps w w' key j s a
        (dispatch-TokenEffect ch laws token_laws tx signed w (λ k u e. (sound k u e).at_address)
          call done)
        sound read dead at_a owned
  Step-Keeps {w} key j s a (others m tokens kept held) sound read dead at_a owned =
      held j a _ at_a (laws.found (vault_seeds key) ∙ ap some (sym owned))

-- On a chain and a token program that meet their documentation, in every history from a state in
-- which all sessions are sound: once a session is settled, cancelled or expired, an account that
-- its vault authority owns keeps its mint and its owner, and never holds less than it does then.
-- What a session leaves in its vault stays there.
pub Reach-locked :
    (ch : Chain) {w w' : World} (key j : ℕ) (s : Session) (a : TokenAccount)
    → IsChain ch
    → IsTokenChain ch
    → IsSoundWorld ch w
    → Reach ch w w'
    → w.sessions key ≡ some s
    → ¬ IsLive s
    → w.tokens j ≡ some a
    → a.owner ≡ authority_of ch key
    → Keeps w'.tokens j a
Reach-locked ch key j s a laws token_laws sound here read dead at_a owned =
    (a, at_a, ground arith, ground arith)
Reach-locked ch key j s a laws token_laws sound (next {v} {u} r step) read dead at_a owned =
    let (b, at_b, same, le) =
      Reach-locked ch key j s a laws token_laws sound r read dead at_a owned in
    let (c, at_c, same', le') =
      Step-Keeps ch laws token_laws key j s b step (Reach-IsSoundWorld ch laws r sound)
        (Reach-closed ch key s laws sound r read dead) dead at_b (same.same_owner ∙ owned) in
    (c, at_c, ground (arith, same, same'), ground (arith, le, le'))
