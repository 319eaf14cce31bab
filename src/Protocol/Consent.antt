-- ===== src/Protocol/Consent.antt =====
-- Whose consent a promise to the provider needs, instruction by instruction and in every history.
pub mod Accepted
pub mod Quiet
use sol_mesh.Base.{
  ℕ, ◌≡◌, ◌<◌, ◌≤◌, ◌⊎◌, ap, ◌∙◌, sym, subst, inl, inr, true, false, some, none, update, Option,
  arith, ◌==◌, Bool-cases, ==→eq, update-cases, refl,
}
use sol_mesh.Errors.{ok}
use sol_mesh.State.{Session}
use sol_mesh.Message.{StateUpdate, to_message_bytes}
use sol_mesh.Runtime.{Chain, Tx, World}
use sol_mesh.Runtime.Laws.{IsChain, IsSigned}
use sol_mesh.Ed25519.{verify_ed25519_signature}
use sol_mesh.Shared.{key_bytes}
use sol_mesh.Shared.Cosigned.{IsCosigned}
use sol_mesh.Program.{Call, dispatch, Step, Reach, here, next, instruction, others}
use sol_mesh.Settle.{settle_session, checkpoint_settle}
use sol_mesh.Spl.{settle_session_spl, checkpoint_settle_spl}
use sol_mesh.Vault.Untouched.{
  initialize_config-Still, update_config-Still, set_paused-Still, withdraw_fees-Still,
  register_node-Still, update_node_meta-Still,
}
use sol_mesh.Protocol.Openings.{AtAddress, open_session-CreatesAt, open_session_spl-CreatesAt}
use sol_mesh.Protocol.Histories.{IsSoundWorld, Reach-IsSoundWorld, promised}
use sol_mesh.Protocol.Lives.{Grows, Reach-Grows}
use sol_mesh.Protocol.Consent.Accepted.{
  Accepts, run_settle-Accepts, run_settle_spl-Accepts, initiate-Accepts, challenge-Accepts,
}
use sol_mesh.Protocol.Consent.Quiet.{
  IsQuiet, same-IsQuiet, created-IsQuiet, finalize_close-IsQuiet, finalize_close_spl-IsQuiet,
  cancel-IsQuiet, expire-IsQuiet, cancel_spl-IsQuiet, expire_spl-IsQuiet,
}

-- A state is posted that both parties have signed, or every promise stays.
data Consent (ch : Chain) (tx : Tx) (w w' : World) : Type 0 where
  posted : (key : ℕ) (state : StateUpdate) → Accepts ch tx w w' key state → Consent ch tx w w'
  quiet : IsQuiet w w' → Consent ch tx w w'

module _ (ch : Chain) (laws : IsChain ch) (tx : Tx) (signed : IsSigned ch tx) (w : World)
    (at : AtAddress ch w) {w' : World} where
  still : (w'.sessions ≡ w.sessions) × (w'.tokens ≡ w.tokens) → Consent ch tx w w'
  still (sessions, tokens) = quiet (same-IsQuiet w w' sessions)

  dispatch-Consent : (call : Call) → dispatch ch tx call w ≡ ok w' → Consent ch tx w w'
  unfolding dispatch settle_session checkpoint_settle settle_session_spl checkpoint_settle_spl
  dispatch-Consent (Call.initialize_config k f c m) h =
      still (initialize_config-Still ch tx w k f c m h)
  dispatch-Consent (Call.register_node k n u c g r) h =
      still (register_node-Still ch tx w k n u c g r h)
  dispatch-Consent (Call.open_session k t) h =
      quiet
        (created-IsQuiet w w' ch k.session (open_session-CreatesAt ch laws tx signed w at k t h))
  dispatch-Consent (Call.checkpoint_settle k s) h =
      posted k.session s (run_settle-Accepts ch tx w s k true h)
  dispatch-Consent (Call.settle_session k s) h =
      posted k.session s (run_settle-Accepts ch tx w s k false h)
  dispatch-Consent (Call.initiate_unilateral_close k s) h =
      posted k.session s (initiate-Accepts ch tx w s k h)
  dispatch-Consent (Call.challenge k s) h = posted k.session s (challenge-Accepts ch tx w s k h)
  dispatch-Consent (Call.finalize_close k) h = quiet (finalize_close-IsQuiet ch tx w k h)
  dispatch-Consent (Call.cancel_session k) h = quiet (cancel-IsQuiet ch tx w k h)
  dispatch-Consent (Call.expire_session k) h = quiet (expire-IsQuiet ch tx w k h)
  dispatch-Consent (Call.update_config k f c) h = still (update_config-Still ch tx w k f c h)
  dispatch-Consent (Call.set_paused k p) h = still (set_paused-Still ch tx w k p h)
  dispatch-Consent (Call.withdraw_fees k a) h = still (withdraw_fees-Still ch tx w k a h)
  dispatch-Consent (Call.update_node_meta k c g a) h =
      still (update_node_meta-Still ch tx w k c g a h)
  dispatch-Consent (Call.open_session_spl k t) h =
      quiet (
        created-IsQuiet w w' ch k.session (open_session_spl-CreatesAt ch laws tx signed w at k t h))
  dispatch-Consent (Call.checkpoint_settle_spl k s) h =
      posted k.session s (run_settle_spl-Accepts ch tx w s k true h)
  dispatch-Consent (Call.settle_session_spl k s) h =
      posted k.session s (run_settle_spl-Accepts ch tx w s k false h)
  dispatch-Consent (Call.finalize_close_spl k) h = quiet (finalize_close_spl-IsQuiet ch tx w k h)
  dispatch-Consent (Call.cancel_session_spl k) h = quiet (cancel_spl-IsQuiet ch tx w k h)
  dispatch-Consent (Call.expire_session_spl k) h = quiet (expire_spl-IsQuiet ch tx w k h)

-- That a transaction ran in a history.
pub data Ran (ch : Chain) (w : World) (tx : Tx) : (w' : World) → Reach ch w w' → Type 0 where
  last :
      {v u : World} {r : Reach ch w v} (call : Call) (signed : IsSigned ch tx)
      (done : dispatch ch tx call v ≡ ok u)
      → Ran ch w tx u (next r (instruction tx call signed done))
  earlier :
      {v u : World} {r : Reach ch w v} (step : Step ch v u)
      → Ran ch w tx v r
      → Ran ch w tx u (next r step)

-- A transaction carries the signatures of both parties of the session `s` at `key` for a state of that
-- session that is newer than `s`.
pub record IsAgreed (ch : Chain) (key : ℕ) (s : Session) (tx : Tx) (state : StateUpdate)
    : Type 0 where
  pub bound : state.session ≡ key_bytes key
  pub newer : s.last_nonce < state.nonce
  pub by_provider :
      verify_ed25519_signature tx.sysvar (key_bytes s.provider) (to_message_bytes ch.borsh state)
      ≡ ok tt
  pub by_consumer :
      verify_ed25519_signature tx.sysvar (key_bytes s.consumer) (to_message_bytes ch.borsh state)
      ≡ ok tt

-- Both parties have signed, in a transaction of the history, for what `s'` promises.
abbrev pub AgreedIn : (ch : Chain) {w w' : World} → Reach ch w w' → ℕ → Session → Session → Type 0
AgreedIn ch {w} {w'} r key s s' =
    (tx : Tx) × (state : StateUpdate) × Ran ch w tx w' r
    × IsAgreed ch key s tx state
    × (state.owed_to_provider ≡ promised s')

module _ (ch : Chain) (w : World) (key : ℕ) (s : Session) where
  -- What was agreed before a step that does not change the promise.
  agreed_earlier :
      {v u : World} (r : Reach ch w v) (step : Step ch v u) (t s' : Session)
      → promised s' ≡ promised t
      → (promised t ≡ promised s) ⊎ AgreedIn ch r key s t
      → (promised s' ≡ promised s) ⊎ AgreedIn ch (next r step) key s s'
  agreed_earlier r step t s' same (inl e) = inl (same ∙ e)
  agreed_earlier r step t s' same (inr (tx, state, ran, agreed, owed)) =
      inr (tx, state, earlier step ran, agreed, owed ∙ sym same)

  -- A state that is posted to the session, which still has its parties.
  Accepts-IsAgreed :
      (tx : Tx) (v u : World) (state : StateUpdate) (t : Session)
      → Grows s t
      → v.sessions key ≡ some t
      → Accepts ch tx v u key state
      → IsAgreed ch key s tx state
  Accepts-IsAgreed tx v u state t g read x =
      let same : x.before ≡ t = ground (arith, sym x.loaded ∙ read) in
      let c = subst (λ (b : Session). IsCosigned ch b key state tx.sysvar) same x.cosigned in
      record {
        bound = c.bound;
        newer = omega (arith, g.nonce_grows, x.fresh, ap (λ (b : Session). b.last_nonce) same);
        by_provider = rw (ap (λ (b : Session). b.provider) g.same_terms) at c.by_provider;
        by_consumer = rw (ap (λ (b : Session). b.consumer) g.same_terms) at c.by_consumer;
      }

  agreed_last :
      {v u : World} (r : Reach ch w v) (tx : Tx) (call : Call) (signed : IsSigned ch tx)
      (done : dispatch ch tx call v ≡ ok u) (t s' : Session)
      → Consent ch tx v u
      → Grows s t
      → v.sessions key ≡ some t
      → u.sessions key ≡ some s'
      → (promised t ≡ promised s) ⊎ AgreedIn ch r key s t
      → (promised s' ≡ promised s) ⊎ AgreedIn ch (next r (instruction tx call signed done)) key s s'
  agreed_last r tx call signed done t s' (quiet same) g read read' before =
      agreed_earlier r (instruction tx call signed done) t s' (same key t s' read read') before
  agreed_last {v} {u} r tx call signed done t s' (posted k state x) g read read' before =
      elim (update-cases v.sessions u.sessions k x.after x.stored key s' read') [
        | inl (place, same) ↦ inr (
          tx,
          state,
          last call signed done,
          Accepts-IsAgreed tx v u state t g read
              (subst (λ (j : ℕ). Accepts ch tx v u j state) (sym place) x),
          sym x.promises ∙ ap promised same,
        )
        | inr (apart, old) ↦
            agreed_earlier r (instruction tx call signed done) t s'
              (ap promised {x = s'} {y = t} (ground (arith, sym old ∙ read))) before
      ]

-- On a chain that meets its documentation, in every history from a state in which all sessions are
-- sound: what a session promises to its provider at the end is what it promised at the beginning, or
-- both parties have signed exactly that amount, in a newer state of this session that a transaction of
-- the history carried.
pub Reach-promised :
    (ch : Chain) {w w' : World} (key : ℕ) (s s' : Session)
    → IsChain ch
    → IsSoundWorld ch w
    → (r : Reach ch w w') → w.sessions key ≡ some s
    → w'.sessions key ≡ some s'
    → (promised s' ≡ promised s) ⊎ AgreedIn ch r key s s'
Reach-promised ch {w} key s s' laws sound here read read' =
    inl (ap promised {x = s'} {y = s} (ground (arith, sym read' ∙ read)))
Reach-promised ch {w} {w'} key s s' laws sound (next {v} r (instruction tx call signed done)) read
      read' =
    let (t, at_t, g) = Reach-Grows ch key s laws sound r read in
    let at = Reach-IsSoundWorld ch laws r sound in
    agreed_last ch w key s r tx call signed done t s'
      (dispatch-Consent ch laws tx signed v (λ k u e. (at k u e).at_address) call done) g at_t read'
      (Reach-promised ch key s t laws sound r read at_t)
Reach-promised ch {w} key s s' laws sound (next {v} r (others m tokens kept owned)) read read' =
    agreed_earlier ch w key s r (others m tokens kept owned) s' s' refl
      (Reach-promised ch key s s' laws sound r read read')
