-- ===== src/Vault/Isolation.antt =====
-- An instruction touches the money of one session at most.
use sol_mesh.Base.{
  ℕ, ◌≤◌, ◌≡◌, ◌≢◌, ◌∙◌, sym, ap, inl, inr, Option, some, update, update-old, arith,
}
use sol_mesh.Errors.{ok}
use sol_mesh.State.{Session}
use sol_mesh.Runtime.{Chain, Tx, World, TokenAccount}
use sol_mesh.Runtime.Laws.{IsChain, IsTokenChain, IsSigned, Keeps}
use sol_mesh.Program.{Call, dispatch}
use sol_mesh.Spl.{vault_seeds}
use sol_mesh.Protocol.Edges.{Effect}
use sol_mesh.Protocol.Instructions.{dispatch-Effect}
use sol_mesh.Protocol.Histories.{IsSoundWorld}
use sol_mesh.Vault.{authority_of}
use sol_mesh.Vault.Instructions.{TokenEffect, dispatch-TokenEffect}
use sol_mesh.Vault.Histories.{Draws-Keeps, authorities_apart}

-- The session `t` at `j` is as it was, and neither its account nor any token account of its vault
-- authority holds less.
pub record IsUntouched (ch : Chain) (w w' : World) (j : ℕ) (t : Session) : Type 0 where
  pub same_session : w'.sessions j ≡ some t
  pub lamports_kept : w.lamports j ≤ w'.lamports j
  pub tokens_kept :
      (i : ℕ) (a : TokenAccount)
      → w.tokens i ≡ some a
      → a.owner ≡ authority_of ch j
      → Keeps w'.tokens i a

-- All sessions but one at most are untouched.
abbrev pub IsolatesOne : Chain → World → World → Type 0
IsolatesOne ch w w' =
    (key : ℕ) × ((j : ℕ) (t : Session) → j ≢ key → w.sessions j ≡ some t → IsUntouched ch w w' j t)

-- An entry of a map elsewhere than where one was written.
elsewhere :
    (f g : ℕ → Option Session) (key : ℕ) (v : Session)
    → g ≡ update f key (some v)
    → (j : ℕ) (t : Session) → j ≢ key
    → f j ≡ some t
    → g j ≡ some t
elsewhere f g key v e j t apart read = elim (update-old f g key v e j t read) [
  | inl kept ↦ kept
  | inr (place, new) ↦ absurd (apart place)
]

module _ (ch : Chain) (w w' : World) where
  -- Where no token moves, every account keeps what it held.
  tokens_still :
      w'.tokens ≡ w.tokens → (i : ℕ) (a : TokenAccount) → w.tokens i ≡ some a → Keeps w'.tokens i a
  tokens_still same i a read =
      (a, ap (λ (f : ℕ → Option TokenAccount). f i) same ∙ read, ground arith, ground arith)

  Effect-IsolatesOne : Effect ch w w' → w'.tokens ≡ w.tokens → IsolatesOne ch w w'
  Effect-IsolatesOne (Effect.writes key s s' x) same = (
    key,
    λ j t apart read. record {
      same_session = elsewhere w.sessions w'.sessions key s' x.stored j t apart read;
      lamports_kept = x.kept j apart;
      tokens_kept = λ i a at_a owned. tokens_still same i a at_a;
    },
  )
  Effect-IsolatesOne (Effect.creates key s x) same = (
    key,
    λ j t apart read. record {
      same_session = elsewhere w.sessions w'.sessions key s x.stored j t apart read;
      lamports_kept = x.kept j t read;
      tokens_kept = λ i a at_a owned. tokens_still same i a at_a;
    },
  )
  Effect-IsolatesOne (Effect.keeps sessions kept) same = (
    0,
    λ j t apart read. record {
      same_session = ap (λ (f : ℕ → Option Session). f j) sessions ∙ read;
      lamports_kept = kept j t read;
      tokens_kept = λ i a at_a owned. tokens_still same i a at_a;
    },
  )

  module _ (laws : IsChain ch) (token_laws : IsTokenChain ch) (sound : IsSoundWorld ch w) where
    TokenEffect-IsolatesOne : Effect ch w w' → TokenEffect ch w w' → IsolatesOne ch w w'
    TokenEffect-IsolatesOne effect (TokenEffect.pays key p) =
        let (u, u', x) = p.written in
        (
          key,
          λ j t apart read. record {
            same_session = elsewhere w.sessions w'.sessions key u' x.stored j t apart read;
            lamports_kept = x.kept j apart;
            tokens_kept = λ i a at_a owned.
                Draws-Keeps ch (authority_of ch key) p.amount j w.tokens w'.tokens i a laws p.draws
                  at_a owned
                  (λ e.
                    authorities_apart ch laws token_laws w j key t u sound read x.loaded apart
                      (sym owned ∙ e));
          },
        )
    TokenEffect-IsolatesOne effect (TokenEffect.funds key f) =
        let (u, x) = f.created in
        (
          key,
          λ j t apart read. record {
            same_session = elsewhere w.sessions w'.sessions key u x.stored j t apart read;
            lamports_kept = x.kept j t read;
            tokens_kept = λ i a at_a owned.
                f.kept i a _ at_a (laws.found (vault_seeds j) ∙ ap some (sym owned));
          },
        )
    TokenEffect-IsolatesOne effect (TokenEffect.writes key x same) = Effect-IsolatesOne effect same
    TokenEffect-IsolatesOne effect (TokenEffect.opens key x same native) =
        Effect-IsolatesOne effect same
    TokenEffect-IsolatesOne effect (TokenEffect.keeps sessions same) =
        Effect-IsolatesOne effect same

-- On a chain and a token program that meet their documentation, in a state in which all sessions are
-- sound: whatever instruction goes through, there is one session at most that it writes or takes from.
-- Every other session is as it was, and neither its account in lamports nor any token account of its
-- vault authority holds less.
pub dispatch_isolates :
    (ch : Chain) (tx : Tx) (call : Call) (w : World) {w' : World}
    → IsChain ch
    → IsTokenChain ch
    → IsSigned ch tx
    → IsSoundWorld ch w
    → dispatch ch tx call w ≡ ok w'
    → IsolatesOne ch w w'
dispatch_isolates ch tx call w {w'} laws token_laws signed sound h =
    TokenEffect-IsolatesOne ch w w' laws token_laws sound
      (dispatch-Effect ch laws tx signed call w (λ k u e. (sound k u e).at_address) h)
      (dispatch-TokenEffect ch laws token_laws tx signed w (λ k u e. (sound k u e).at_address) call
        h)
