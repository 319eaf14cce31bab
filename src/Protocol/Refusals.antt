-- ===== src/Protocol/Refusals.antt =====
-- The errors of the session handlers (settle.rs, dispute.rs, lifecycle.rs and spl.rs).
use sol_mesh.Base.{
  ℕ, ◌≡◌, ◌≢◌, ◌==◌, ◌||◌, ◌⊎◌, inl, inr, Bool, Bool-cases, subst, sym, ◌∙◌, some, arith,
}
use sol_mesh.Errors.{err, session_not_open, session_not_closing, unauthorized}
use sol_mesh.State.{Config, Session, opened, closing}
use sol_mesh.Message.{StateUpdate}
use sol_mesh.Runtime.Laws.{IsChain}
use sol_mesh.Program.{Reach}
use sol_mesh.Protocol.Edges.{IsLive}
use sol_mesh.Protocol.Histories.{IsSoundWorld}
use sol_mesh.Protocol.Lives.{Reach-closed}
use sol_mesh.Runtime.{World, Chain, Tx, Lamports, Tokens}
use sol_mesh.Accounts.{Loaded}
use sol_mesh.Settle.{Settle, apply_state}
use sol_mesh.Dispute.{
  FinalizeClose, initiate_handler, UnilateralClose, challenge_handler, finalize_handler,
}
use sol_mesh.Lifecycle.{CancelSession, ExpireSession, cancel_handler, expire_handler}
use sol_mesh.Spl.{SettleSpl, apply_state_spl, finalize_handler_spl}
use sol_mesh.Spl.Lifecycle.{LifecycleSpl, cancel_handler_spl, expire_handler_spl}

-- What every handler answers to a session of another status: the ones that need an open session, and
-- the ones that need one in dispute. The unilateral close looks at the caller first.
pub record Refuses (ch : Chain) (s : Session) : Type 0 where
  pub settles :
      (tx : Tx) (k : Settle) (l : Loaded) (m : Lamports) (st : StateUpdate) (cp : Bool)
      → l.session ≡ s
      → apply_state ch tx k l m st cp ≡ err session_not_open
  pub settles_spl :
      (tx : Tx) (k : SettleSpl) (l : Loaded) (t : Tokens) (st : StateUpdate) (cp : Bool)
      → l.session ≡ s
      → apply_state_spl ch tx k l t st cp ≡ err session_not_open
  pub initiates :
      (tx : Tx) (k : UnilateralClose) (c : Config) (st : StateUpdate)
      → (initiate_handler ch tx k c s st ≡ err session_not_open)
        ⊎ (initiate_handler ch tx k c s st ≡ err unauthorized)
  pub challenges :
      (tx : Tx) (k : UnilateralClose) (st : StateUpdate)
      → challenge_handler ch tx k s st ≡ err session_not_closing
  pub finalizes :
      (tx : Tx) (k : FinalizeClose) (l : Loaded) (m : Lamports)
      → l.session ≡ s
      → finalize_handler tx k l m ≡ err session_not_closing
  pub finalizes_spl :
      (tx : Tx) (k : SettleSpl) (l : Loaded) (t : Tokens)
      → l.session ≡ s
      → finalize_handler_spl ch tx k l t ≡ err session_not_closing
  pub cancels : (k : CancelSession) (m : Lamports) → cancel_handler k s m ≡ err session_not_open
  pub expires :
      (tx : Tx) (k : ExpireSession) (m : Lamports) → expire_handler tx k s m ≡ err session_not_open
  pub cancels_spl :
      (k : LifecycleSpl) (t : Tokens) → cancel_handler_spl ch k s t ≡ err session_not_open
  pub expires_spl :
      (tx : Tx) (k : LifecycleSpl) (t : Tokens)
      → expire_handler_spl ch tx k s t ≡ err session_not_open

closed-Refuses : (ch : Chain) (s : Session) → s.status ≢ opened → s.status ≢ closing → Refuses ch s
unfolding apply_state apply_state_spl cancel_handler expire_handler cancel_handler_spl
    expire_handler_spl initiate_handler challenge_handler finalize_handler finalize_handler_spl
closed-Refuses ch s not_open not_closing = record {
  settles = λ tx k l m st cp e. ground arith;
  settles_spl = λ tx k l t st cp e. ground arith;
  initiates = λ tx k c st. elim (Bool-cases (k.caller == s.provider || k.caller == s.consumer)) [
    | inl party ↦ inl (ground arith)
    | inr other ↦ inr (ground arith)
  ];
  challenges = λ tx k st. ground arith;
  finalizes = λ tx k l m e. ground arith;
  finalizes_spl = λ tx k l t e. ground arith;
  cancels = λ k m. ground arith;
  expires = λ tx k m. ground arith;
  cancels_spl = λ k t. ground arith;
  expires_spl = λ tx k t. ground arith;
}

-- On a chain that meets its documentation, from a state in which all sessions are sound: once a
-- session is settled, cancelled or expired, then after any history every handler refuses it, each
-- with the error of its status (the unilateral close of a stranger as unauthorised).
pub closed_refused :
    (ch : Chain) {w w' : World} (key : ℕ) (s s' : Session)
    → IsChain ch
    → IsSoundWorld ch w
    → w.sessions key ≡ some s
    → ¬ IsLive s
    → Reach ch w w'
    → w'.sessions key ≡ some s'
    → Refuses ch s'
closed_refused ch {w} {w'} key s s' laws sound read dead r read' =
    let same : s ≡ s' =
      ground (arith, sym (Reach-closed ch key s laws sound r read dead) ∙ read') in
    subst (Refuses ch) same (closed-Refuses ch s (λ o. dead (inl o)) (λ c. dead (inr c)))
