-- ===== src/Protocol/Openings.antt =====
-- The instructions that open a session (open_session.rs, and its twin in spl.rs).
use sol_mesh.Base.{
  ℕ, ◌≡◌, ◌≢◌, refl, ◌∙◌, ap, subst, inl, inr, true, List, [], ◌∷◌, ◌++◌, none, some, update, arith,
  Option-cases,
}
use sol_mesh.Base.Int.{ℤ, checked_add_i64}
use sol_mesh.Errors.{ok, Result-cases}
use sol_mesh.State.{Session, Node}
use sol_mesh.Runtime.{
  Tokens, token_account, Chain, Tx, World, Lamports, session_account, is_canonical_address,
}
use sol_mesh.Runtime.Laws.{IsChain, IsSigned}
use sol_mesh.Accounts.{load_node, session_seeds}
use sol_mesh.Spl.{OpenSessionSpl, open_session_spl, vault_seeds}
use sol_mesh.Open.{
  fresh_session, OpenSession, Terms, new_session, count_session, open_session_handler, open_session,
}
use sol_mesh.Protocol.Edges.{Creates, CreatesAt}

-- Every session stands at the address that its seeds derive.
abbrev pub AtAddress : Chain → World → Type 0
AtAddress ch w =
    (key : ℕ) (s : Session)
    → w.sessions key ≡ some s
    → ch.program_address (session_seeds s.node s.consumer s.session_seed ++ ((s.bump ∷ []) ∷ []))
      ≡ some key

-- A program address is no signer.
pub derived-apart :
    (ch : Chain) (tx : Tx) (seeds : List (List ℕ)) (key signer : ℕ)
    → IsSigned ch tx
    → ch.program_address seeds ≡ some key
    → tx.is_signer signer ≡ true
    → key ≢ signer
derived-apart ch tx seeds key signer signed derived h e =
    absurd (cc (signed seeds key derived, ap tx.is_signer e, h))

module _ (ch : Chain) (laws : IsChain ch) (tx : Tx) (signed : IsSigned ch tx) (w : World)
    (at : AtAddress ch w) where
  session-apart :
      (signer j : ℕ) (t : Session) → tx.is_signer signer ≡ true → w.sessions j ≡ some t → j ≢ signer
  session-apart signer j t h read = derived-apart ch tx _ j signer signed (at j t read) h

  -- The address of the session that is opened, as its seeds and its canonical bump derive it.
  opened_at_address :
      (node consumer seed session : ℕ)
      → is_canonical_address ch (session_seeds node consumer seed) session ≡ true
      → ch.program_address (
          session_seeds node consumer seed
          ++ (((ch.find_program_address (session_seeds node consumer seed)).1 ∷ []) ∷ []))
        ≡ some session
  opened_at_address node consumer seed session h =
      laws.found (session_seeds node consumer seed) ∙ ap some (ground arith)

  abbrev opened_session : OpenSession → Terms → Node → ℤ → Session
  opened_session k t n expiry =
      let seeds = session_seeds k.node k.consumer t.session_seed in
      fresh_session tx t k.node n k.consumer none 0 (ch.find_program_address seeds).1 expiry

  -- A session in lamports that was opened: the account was created, and the deposit came in.
  opened-Creates :
      (k : OpenSession) (t : Terms) (n : Node) (m1 m2 : Lamports) (expiry : ℤ)
      → tx.is_signer k.consumer ≡ true
      → is_canonical_address ch (session_seeds k.node k.consumer t.session_seed) k.session ≡ true
      → w.sessions k.session ≡ none
      → ch.create_account session_account k.consumer k.session w.lamports ≡ some m1
      → ch.system_transfer k.consumer k.session t.amount m1 ≡ some m2
      → Creates ch w
          (record w {
            sessions = update w.sessions k.session (some (opened_session k t n expiry));
            lamports = m2;
          })
          k.session
          (opened_session k t n expiry)
  opened-Creates k t n m1 m2 expiry by canonical unused made moved = record {
    unused = unused;
    stored = refl;
    derived = opened_at_address k.node k.consumer t.session_seed k.session canonical;
    is_open = refl;
    no_nonce = refl;
    unsettled = refl;
    funded = λ native. ground (
      arith,
      laws.transferred k.consumer k.session t.amount m1 k.session moved,
      derived-apart ch tx _ k.session k.consumer signed
          (opened_at_address k.node k.consumer t.session_seed k.session canonical) by,
    );
    kept = λ j u read. ground (
      arith,
      laws.transferred k.consumer k.session t.amount m1 j moved,
      laws.created session_account k.consumer k.session w.lamports j made,
      session-apart k.consumer j u by read,
    );
  }

  pub open_session-CreatesAt :
      (k : OpenSession) (t : Terms) {w' : World}
      → open_session ch tx w k t ≡ ok w'
      → CreatesAt ch w w' k.session
  unfolding open_session open_session_handler new_session count_session
  open_session-CreatesAt k t {w'} h = elim (Result-cases (load_node ch w k.node)) [
    | inl (e, failed) ↦ absurd (ground arith)
    | inr (n, read) ↦
        elim (Option-cases (ch.create_account session_account k.consumer k.session w.lamports)) [
          | inl failed ↦ absurd (ground arith)
          | inr (m1, made) ↦
              elim (Option-cases (ch.system_transfer k.consumer k.session t.amount m1)) [
                | inl failed ↦ absurd (ground arith)
                | inr (m2, moved) ↦ elim (Option-cases (checked_add_i64 tx.now t.duration_secs)) [
                  | inl failed ↦ absurd (ground arith)
                  | inr (expiry, later) ↦
                      subst (λ (v : World). CreatesAt ch w v k.session)
                        {x = record w {
                          sessions =
                              update w.sessions k.session (some (opened_session k t n expiry));
                          lamports = m2;
                        }}
                        (ground arith)
                        (
                          (opened_session k t n expiry),
                          (opened-Creates k t n m1 m2 expiry (ground arith) (ground arith)
                              (ground arith) made moved),
                        )
                ]
              ]
        ]
  ]

  abbrev opened_session_spl : OpenSessionSpl → Terms → Node → ℤ → Session
  opened_session_spl k t n expiry =
      let seeds = session_seeds k.node k.consumer t.session_seed in
      let vault_bump = (ch.find_program_address (vault_seeds k.session)).1 in
      fresh_session tx t k.node n k.consumer (some k.mint) vault_bump
        (ch.find_program_address seeds).1 expiry

  abbrev opened_world_spl : OpenSessionSpl → Terms → Node → ℤ → Lamports → Tokens → World
  opened_world_spl k t n expiry m tokens = record w {
    sessions = update w.sessions k.session (some (opened_session_spl k t n expiry));
    lamports = m;
    tokens = tokens;
  }

  -- A session in tokens that was opened: two accounts were created.
  opened_spl-Creates :
      (k : OpenSessionSpl) (t : Terms) (n : Node) (m1 m2 : Lamports) (tokens : Tokens) (expiry : ℤ)
      → tx.is_signer k.consumer ≡ true
      → is_canonical_address ch (session_seeds k.node k.consumer t.session_seed) k.session ≡ true
      → w.sessions k.session ≡ none
      → ch.create_account session_account k.consumer k.session w.lamports ≡ some m1
      → ch.create_account token_account k.consumer k.vault_token m1 ≡ some m2
      → Creates ch w
          (opened_world_spl k t n expiry m2 tokens)
          k.session
          (opened_session_spl k t n expiry)
  opened_spl-Creates k t n m1 m2 tokens expiry by canonical unused made made_vault = record {
    unused = unused;
    stored = refl;
    derived = opened_at_address k.node k.consumer t.session_seed k.session canonical;
    is_open = refl;
    no_nonce = refl;
    unsettled = refl;
    funded = λ native. absurd (ground arith);
    kept = λ j u read. ground (
      arith,
      laws.created session_account k.consumer k.session w.lamports j made,
      laws.created token_account k.consumer k.vault_token m1 j made_vault,
      session-apart k.consumer j u by read,
    );
  }

  pub open_session_spl-CreatesAt :
      (k : OpenSessionSpl) (t : Terms) {w' : World}
      → open_session_spl ch tx w k t ≡ ok w'
      → CreatesAt ch w w' k.session
  unfolding open_session_spl new_session count_session
  open_session_spl-CreatesAt k t {w'} h = elim (Result-cases (load_node ch w k.node)) [
    | inl (e, failed) ↦ absurd (ground arith)
    | inr (n, read) ↦
        elim (Option-cases (ch.create_account session_account k.consumer k.session w.lamports)) [
          | inl failed ↦ absurd (ground arith)
          | inr (m1, made) ↦
              elim (Option-cases (ch.create_account token_account k.consumer k.vault_token m1)) [
                | inl failed ↦ absurd (ground arith)
                | inr (m2, made_vault) ↦
                    elim (Option-cases (checked_add_i64 tx.now t.duration_secs)) [
                      | inl failed ↦ absurd (ground arith)
                      | inr (expiry, later) ↦
                          subst (λ (v : World). CreatesAt ch w v k.session)
                            {x = opened_world_spl k t n expiry m2 w'.tokens} (ground arith)
                            (
                              (opened_session_spl k t n expiry),
                              (opened_spl-Creates k t n m1 m2 w'.tokens expiry (ground arith)
                                  (ground arith) (ground arith) made made_vault),
                            )
                    ]
              ]
        ]
  ]
