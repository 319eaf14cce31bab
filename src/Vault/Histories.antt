-- ===== src/Vault/Histories.antt =====
-- The vaults of live token sessions, in every history.
use sol_mesh.Base.{
  update-cases, ℕ, ◌+◌, ◌≤◌, ◌≡◌, ◌≢◌, ◌∙◌, sym, ap, subst, subst₂, inl, inr, Option, some, arith,
}
use sol_mesh.State.{Session}
use sol_mesh.Runtime.{Chain, World, Tokens, TokenAccount}
use sol_mesh.Runtime.Laws.{IsChain, IsTokenChain, IsKey, Keeps}
use sol_mesh.Program.{Step, Reach, instruction, others, here, next}
use sol_mesh.Spl.{vault_seeds}
use sol_mesh.Protocol.Edges.{IsLive, SameTerms}
use sol_mesh.Protocol.Histories.{IsSoundWorld, edge-IsLive, Reach-IsSoundWorld}
use sol_mesh.Protocol.Lives.{edge_settled}
use sol_mesh.Vault.{authority_of, vault_of, bump_of}
use sol_mesh.Vault.Draws.{Draws}
use sol_mesh.Vault.Instructions.{TokenEffect, dispatch-TokenEffect}

-- The vault of the session `s` at `key` is there, is owned by its authority, and holds the rest of the
-- deposit.
pub record IsCovered (ch : Chain) (t : Tokens) (key mint : ℕ) (s : Session) : Type 0 where
  pub account : TokenAccount
  pub at_vault : t (vault_of ch mint key) ≡ some account
  pub owned : account.owner ≡ authority_of ch key
  pub of_mint : account.mint ≡ mint
  pub with_bump : s.vault_bump ≡ bump_of ch key
  pub covers : s.deposited ≤ account.amount + s.settled_to_provider

-- Every live token session is covered.
abbrev pub IsCoveredWorld : Chain → World → Type 0
IsCoveredWorld ch w =
    (key mint : ℕ) (s : Session)
    → w.sessions key ≡ some s
    → s.mint ≡ some mint
    → IsLive s
    → IsCovered ch w.tokens key mint s

module _ (ch : Chain) (key mint : ℕ) where
  -- A vault that holds no less covers no less.
  Keeps-IsCovered :
      (t t' : Tokens) (s : Session) (c : IsCovered ch t key mint s)
      → Keeps t' (vault_of ch mint key) c.account
      → IsCovered ch t' key mint s
  Keeps-IsCovered t t' s c (b, at_b, same, le) = record {
    account = b;
    at_vault = at_b;
    owned = same.same_owner ∙ c.owned;
    of_mint = same.same_mint ∙ c.of_mint;
    with_bump = c.with_bump;
    covers = omega (arith, le, c.covers);
  }

  -- What is settled later needs no cover.
  settled-IsCovered :
      (t : Tokens) (s s' : Session)
      → SameTerms s s'
      → s.settled_to_provider ≤ s'.settled_to_provider
      → IsCovered ch t key mint s
      → IsCovered ch t key mint s'
  settled-IsCovered t s s' same le c = record {
    account = c.account;
    at_vault = c.at_vault;
    owned = c.owned;
    of_mint = c.of_mint;
    with_bump = ap (λ (u : Session). u.vault_bump) same ∙ c.with_bump;
    covers = omega (arith, le, c.covers, ap (λ (u : Session). u.deposited) same);
  }

  -- A payment that is recorded leaves the session covered.
  Draws-IsCovered :
      (amount : ℕ) (t t' : Tokens) (s s' : Session)
      → IsChain ch
      → Draws ch (authority_of ch key) amount t t'
      → SameTerms s s'
      → amount + s.settled_to_provider ≤ s'.settled_to_provider
      → IsCovered ch t key mint s
      → IsCovered ch t' key mint s'
  Draws-IsCovered amount t t' s s' laws draws same le c =
      let (b, at_b, account, balance) =
        draws (vault_of ch mint key) c.account _ c.at_vault
          (laws.found (vault_seeds key) ∙ ap some (sym c.owned)) in
      record {
        account = b;
        at_vault = at_b;
        owned = account.same_owner ∙ c.owned;
        of_mint = account.same_mint ∙ c.of_mint;
        with_bump = ap (λ (u : Session). u.vault_bump) same ∙ c.with_bump;
        covers = ground (arith, balance, le, c.covers, ap (λ (u : Session). u.deposited) same);
      }

-- A payment out of the accounts of one vault authority keeps the accounts of the others.
pub Draws-Keeps :
    (ch : Chain) (owner amount key : ℕ) (t t' : Tokens) (j : ℕ) (a : TokenAccount)
    → IsChain ch
    → Draws ch owner amount t t'
    → t j ≡ some a
    → a.owner ≡ authority_of ch key
    → a.owner ≢ owner
    → Keeps t' j a
Draws-Keeps ch owner amount key t t' j a laws draws read owned apart =
    let (b, at_b, same, balance) =
      draws j a _ read (laws.found (vault_seeds key) ∙ ap some (sym owned)) in
    (b, at_b, same, ground (arith, balance))

module _ (ch : Chain) (laws : IsChain ch) (token_laws : IsTokenChain ch) where
  -- The address of a session is a key.
  pub session-IsKey :
      (w : World) (key : ℕ) (s : Session) → IsSoundWorld ch w → w.sessions key ≡ some s → IsKey key
  session-IsKey w key s sound read = token_laws.session_key _ key (sound key s read).at_address

  -- Different sessions have different vault authorities.
  pub authorities_apart :
      (w : World) (j k : ℕ) (s t : Session)
      → IsSoundWorld ch w
      → w.sessions j ≡ some s
      → w.sessions k ≡ some t
      → j ≢ k
      → authority_of ch j ≢ authority_of ch k
  authorities_apart w j k s t sound at_j at_k apart same = apart (
      token_laws.vaults_apart j k (session-IsKey w j s sound at_j) (session-IsKey w k t sound at_k)
        same)

  pub TokenEffect-IsCovered :
      (w w' : World)
      → TokenEffect ch w w'
      → IsSoundWorld ch w
      → IsCoveredWorld ch w
      → IsCoveredWorld ch w'
  TokenEffect-IsCovered w w' (TokenEffect.pays k p) sound h key mint s read in_mint live =
      let (u, u', x) = p.written in
      elim (update-cases w.sessions w'.sessions k u' x.stored key s read) [
        | inl (place, same) ↦
            let own =
              Draws-IsCovered ch k mint p.amount w.tokens w'.tokens u u' laws p.draws x.same_terms
                (p.recorded u u' x.loaded (ap w'.sessions (sym place) ∙ read ∙ ap some (sym same))
                  (subst IsLive (sym same) live))
                (h k mint u x.loaded (ground (arith, ap (λ (v : Session). v.mint) x.same_terms))
                  (edge-IsLive x.edge)) in
            subst₂ (λ (j : ℕ) (v : Session). IsCovered ch w'.tokens j mint v) (sym place) same own
        | inr (apart, old) ↦
            let c = h key mint s old in_mint live in
            Keeps-IsCovered ch key mint w.tokens w'.tokens s c (
              Draws-Keeps ch (authority_of ch k) p.amount key w.tokens w'.tokens _ c.account laws
                p.draws c.at_vault c.owned
                (λ e. authorities_apart w key k s u sound old x.loaded apart (sym c.owned ∙ e)))
      ]
  TokenEffect-IsCovered w w' (TokenEffect.writes k (u, u', x) tokens) sound h key mint s read
        in_mint live =
      elim (update-cases w.sessions w'.sessions k u' x.stored key s read) [
        | inl (place, same) ↦
            let own = settled-IsCovered ch k mint w.tokens u u' x.same_terms (edge_settled x.edge) (
              h k mint u x.loaded (ground (arith, ap (λ (v : Session). v.mint) x.same_terms))
                (edge-IsLive x.edge)) in
            subst₂ (λ (j : ℕ) (v : Session). IsCovered ch w'.tokens j mint v) (sym place) same
              (rw tokens own)
        | inr (apart, old) ↦ rw tokens (h key mint s old in_mint live)
      ]
  TokenEffect-IsCovered w w' (TokenEffect.funds k f) sound h key mint s read in_mint live =
      let (u, x) = f.created in
      elim (update-cases w.sessions w'.sessions k u x.stored key s read) [
        | inl (place, same) ↦
            let (a, at_a, owned, of_mint, with_bump, full) =
              f.filled s mint (rw (← place) read) in_mint in
            subst (λ (j : ℕ). IsCovered ch w'.tokens j mint s) (sym place)
              (record {
                account = a;
                at_vault = at_a;
                owned = owned;
                of_mint = of_mint;
                with_bump = with_bump;
                covers = omega (arith, full);
              })
        | inr (apart, old) ↦
            let c = h key mint s old in_mint live in
            Keeps-IsCovered ch key mint w.tokens w'.tokens s c (
              f.kept _ c.account _ c.at_vault
                (laws.found (vault_seeds key) ∙ ap some (sym c.owned)))
      ]
  TokenEffect-IsCovered w w' (TokenEffect.opens k (u, x) tokens native) sound h key mint s read
        in_mint live =
      elim (update-cases w.sessions w'.sessions k u x.stored key s read) [
        | inl (place, same) ↦ absurd (ground (arith, native s (rw (← place) read)))
        | inr (apart, old) ↦ rw tokens (h key mint s old in_mint live)
      ]
  TokenEffect-IsCovered w w' (TokenEffect.keeps sessions tokens) sound h key mint s read in_mint
        live =
      rw tokens
        (h key mint s (sym (ap (λ (f : ℕ → Option Session). f key) sessions) ∙ read) in_mint live)

  Step-IsCovered :
      {w w' : World} → Step ch w w' → IsSoundWorld ch w → IsCoveredWorld ch w → IsCoveredWorld ch w'
  Step-IsCovered {w} {w'} (instruction tx call signed done) sound h =
      TokenEffect-IsCovered w w'
        (dispatch-TokenEffect ch laws token_laws tx signed w (λ key s e. (sound key s e).at_address)
          call done)
        sound h
  Step-IsCovered {w} (others m tokens kept owned) sound h = λ key mint s read in_mint live.
      let c = h key mint s read in_mint live in
      Keeps-IsCovered ch key mint w.tokens tokens s c
        (owned _ c.account _ c.at_vault (laws.found (vault_seeds key) ∙ ap some (sym c.owned)))

  pub Reach-IsCovered :
      {w w' : World}
      → Reach ch w w'
      → IsSoundWorld ch w
      → IsCoveredWorld ch w
      → IsCoveredWorld ch w'
  Reach-IsCovered here sound h = h
  Reach-IsCovered (next r step) sound h =
      Step-IsCovered step (Reach-IsSoundWorld ch laws r sound) (Reach-IsCovered r sound h)
