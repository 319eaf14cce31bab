-- ===== src/Vault/Openings.antt =====
-- The opening of a token session fills its vault (spl.rs).
use sol_mesh.Base.{
  sym, ◌∙◌, Option, ℕ, ◌≤◌, ◌≡◌, ap, inl, inr, true, List, none, some, update, Option-cases, arith,
}
use sol_mesh.Errors.{Result, ok, Result-cases}
use sol_mesh.State.{Node, Session}
use sol_mesh.Runtime.{Chain, Tx, World, TokenAccount}
use sol_mesh.Runtime.Laws.{IsChain, IsSigned, IsTokenChain, Keeps}
use sol_mesh.Open.{Terms, new_session}
use sol_mesh.Accounts.{load_node, session_seeds}
use sol_mesh.Spl.{vault_seeds, OpenSessionSpl, open_session_spl, empty_vault}
use sol_mesh.Protocol.Edges.{CreatesAt}
use sol_mesh.Protocol.Openings.{open_session_spl-CreatesAt, AtAddress, derived-apart}
use sol_mesh.Vault.{authority_of, vault_of, bump_of}

-- What the constraints and the handler have established.
record IsOpened (ch : Chain) (tx : Tx) (w w' : World) (k : OpenSessionSpl) (t : Terms)
    : Type 0 where
  from : TokenAccount
  from_read : w.tokens k.consumer_token ≡ some from
  from_owned : from.owner ≡ k.consumer
  by_consumer : tx.is_signer k.consumer ≡ true
  vault_unused : w.tokens k.vault_token ≡ none
  vault_address : k.vault_token ≡ vault_of ch k.mint k.session
  vault_authority : k.vault_authority ≡ authority_of ch k.session
  transferred :
      ch.token_transfer k.consumer_token k.vault_token k.consumer t.amount
        (update w.tokens k.vault_token (some (empty_vault k.mint k.vault_authority)))
      ≡ some w'.tokens
  session : Session
  stored : w'.sessions ≡ update w.sessions k.session (some session)
  in_mint : session.mint ≡ some k.mint
  in_full : session.deposited ≡ t.amount
  in_bump : session.vault_bump ≡ bump_of ch k.session

new_session-terms :
    (tx : Tx) (t : Terms) (node : ℕ) (n : Node) (consumer : ℕ) (mint : Option ℕ)
    (vault_bump bump : ℕ) {s : Session}
    → new_session tx t node n consumer mint vault_bump bump ≡ ok s
    → (s.mint ≡ mint) × (s.deposited ≡ t.amount) × (s.vault_bump ≡ vault_bump)
unfolding new_session
new_session-terms tx t node n consumer mint vault_bump bump h = ground arith

module _ (ch : Chain) (tx : Tx) (w : World) (k : OpenSessionSpl) (t : Terms) {w' : World} where
  open_session_spl-IsOpened : open_session_spl ch tx w k t ≡ ok w' → IsOpened ch tx w w' k t
  unfolding open_session_spl
  open_session_spl-IsOpened h = elim (Option-cases (w.tokens k.consumer_token)) [
    | inl missing ↦ absurd (ground arith)
    | inr (from, read) ↦ elim (Result-cases (load_node ch w k.node)) [
      | inl (e, failed) ↦ absurd (ground arith)
      | inr (n, at_n) ↦ elim (Result-cases (made n)) [
        | inl (e, failed) ↦ absurd (ground arith)
        | inr (s, new) ↦
            let (in_mint, in_full, in_bump) =
              new_session-terms tx t k.node n k.consumer (some k.mint) _ _ new in
            let authority : k.vault_authority ≡ authority_of ch k.session = ground arith in
            record {
              from = from;
              from_read = read;
              from_owned = ground arith;
              by_consumer = ground arith;
              vault_unused = ground arith;
              vault_address = ground (arith, ap (ch.associated_token k.mint) authority);
              vault_authority = authority;
              transferred = ground arith;
              session = s;
              stored = ground arith;
              in_mint = in_mint;
              in_full = in_full;
              in_bump = in_bump;
            }
      ]
    ]
  ]
    where
      made : Node → Result Session
      made n =
          new_session tx t k.node n k.consumer (some k.mint)
            (ch.find_program_address (vault_seeds k.session)).1
            (ch.find_program_address (session_seeds k.node k.consumer t.session_seed)).1

-- A session was created at `key`, its deposit stands in its vault, and no account that an address of
-- the program owns has lost anything.
pub record Funds (ch : Chain) (w w' : World) (key : ℕ) : Type 0 where
  pub created : CreatesAt ch w w' key
  pub kept :
      (j : ℕ) (a : TokenAccount) (seeds : List (List ℕ))
      → w.tokens j ≡ some a
      → ch.program_address seeds ≡ some a.owner
      → Keeps w'.tokens j a
  pub filled :
      (s : Session) (mint : ℕ)
      → w'.sessions key ≡ some s
      → s.mint ≡ some mint
      → (a : TokenAccount) × (w'.tokens (vault_of ch mint key) ≡ some a)
        × (a.owner ≡ authority_of ch key)
        × (a.mint ≡ mint)
        × (s.vault_bump ≡ bump_of ch key)
        × (s.deposited ≤ a.amount)

module _ (ch : Chain) (laws : IsTokenChain ch) (tx : Tx) (signed : IsSigned ch tx) (w w' : World)
    (k : OpenSessionSpl) (t : Terms) (o : IsOpened ch tx w w' k t) where
  opened_kept :
      (j : ℕ) (a : TokenAccount) (seeds : List (List ℕ))
      → w.tokens j ≡ some a
      → ch.program_address seeds ≡ some a.owner
      → Keeps w'.tokens j a
  opened_kept j a seeds read derived =
      let apart = derived-apart ch tx seeds a.owner k.consumer signed derived o.by_consumer in
      let before : update w.tokens k.vault_token (some (empty_vault k.mint k.vault_authority)) j
          ≡ some a =
        ground (arith, o.vault_unused) in
      let (b, at_b, same, balance, still) =
        laws.moved k.consumer_token k.vault_token k.consumer t.amount _ j a o.transferred before in
      (b, at_b, same, ground (arith, balance, o.from_read, o.from_owned))

  opened_filled :
      (a : TokenAccount) × (w'.tokens (vault_of ch k.mint k.session) ≡ some a)
      × (a.owner ≡ authority_of ch k.session)
      × (a.mint ≡ k.mint)
      × (t.amount ≤ a.amount)
  opened_filled =
      let before : update w.tokens k.vault_token (some (empty_vault k.mint k.vault_authority))
            k.vault_token
          ≡ some (empty_vault k.mint k.vault_authority) =
        ground arith in
      let (b, at_b, same, balance, still) =
        laws.moved k.consumer_token k.vault_token k.consumer t.amount _ k.vault_token _
          o.transferred before in
      (
        b,
        rw (← o.vault_address) at_b,
        ground (arith, same, o.vault_authority),
        same.same_mint,
        ground (arith, balance, o.from_read, o.vault_unused),
      )

module _ (ch : Chain) (laws : IsChain ch) (token_laws : IsTokenChain ch) (tx : Tx)
    (signed : IsSigned ch tx) (w : World) (at : AtAddress ch w) where
  pub open_session_spl-Funds :
      (k : OpenSessionSpl) (t : Terms) {w' : World}
      → open_session_spl ch tx w k t ≡ ok w'
      → Funds ch w w' k.session
  open_session_spl-Funds k t {w'} h =
      let o = open_session_spl-IsOpened ch tx w k t h in
      record {
        created = open_session_spl-CreatesAt ch laws tx signed w at k t h;
        kept = opened_kept ch token_laws tx signed w w' k t o;
        filled = λ s mint at_s in_mint.
            let placed : update w.sessions k.session (some o.session) k.session ≡ some o.session =
              ground arith in
            let same : o.session ≡ s =
              cc (placed, ap (λ (f : ℕ → Option Session). f k.session) o.stored, at_s) in
            let in_same : k.mint ≡ mint = ground (arith, o.in_mint, in_mint, same) in
            let (a, at_a, owned, of_mint, full) =
              opened_filled ch token_laws tx signed w w' k t o in
            (
              a,
              rw (← in_same) at_a,
              owned,
              of_mint ∙ in_same,
              ap (λ (u : Session). u.vault_bump) (sym same) ∙ o.in_bump,
              ground (arith, full, o.in_full, same),
            );
      }
