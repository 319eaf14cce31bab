-- ===== src/Protocol/Newest.antt =====
-- That the newest state wins a dispute (dispute.rs).
use sol_mesh.Base.{◌≡◌, ◌<◌, ◌⊎◌, inl, inr, none, some, update, refl, arith, ℕ}
use sol_mesh.Base.Int.{◌<ℤ◌, ◌≤ℤ◌}
use sol_mesh.Errors.{ok}
use sol_mesh.State.{Config, Session, closing, settled}
use sol_mesh.Message.{StateUpdate}
use sol_mesh.Runtime.{Chain, Tx, World}
use sol_mesh.Runtime.Laws.{IsChain, IsSigned}
use sol_mesh.Accounts.{Loaded}
use sol_mesh.Shared.{verify_cosigned_state}
use sol_mesh.Dispute.{UnilateralClose, FinalizeClose, challenge, finalize_close, finalized_session}
use sol_mesh.Dispute.Payable.{HasRoom}
use sol_mesh.Program.{Call, Reach, dispatch, here, next, instruction}
use sol_mesh.Protocol.Histories.{promised, IsSoundWorld, Reach-IsSoundWorld}
use sol_mesh.Protocol.Consent.{Ran, IsAgreed, Reach-promised}
use sol_mesh.Protocol.Settlements.{Names}
use sol_mesh.Protocol.Exits.{NamesClose, posted_session, challenge_goes_through}
use sol_mesh.Protocol.Ends.{dispute_ends}
use sol_mesh.Registry.Histories.{IsRegistry, Reach-IsRegistry}

-- The session at a key is settled, at an amount for its provider.
pub record IsPaid (w : World) (key owed : ℕ) : Type 0 where
  pub session : Session
  pub stored : w.sessions key ≡ some session
  pub is_settled : session.status ≡ settled
  pub paid : session.settled_to_provider ≡ owed

-- No transaction of a history carries the signatures of both parties for a newer state of the session.
abbrev pub IsNewest : (ch : Chain) {w w' : World} → Reach ch w w' → ℕ → Session → Type 0
IsNewest ch {w} {w'} r key s =
    (tx : Tx) (state : StateUpdate) → Ran ch w tx w' r → ¬ IsAgreed ch key s tx state

-- A session that keeps its promise to the end is settled at it, or is by a payout.
module _ (w : World) (key : ℕ) (s t : Session) (disputed : s.status ≡ closing)
    (kept : promised t ≡ promised s) where
  pub settled-IsPaid : w.sessions key ≡ some t → t.status ≡ settled → IsPaid w key s.pending_payout
  settled-IsPaid stored ended = record {
    session = t;
    stored = stored;
    is_settled = ended;
    paid = ground (arith, kept, ended, disputed);
  }

  pub finalized-IsPaid :
      w.sessions key ≡ some (finalized_session t)
      → t.status ≡ closing
      → IsPaid w key s.pending_payout
  finalized-IsPaid stored in_dispute = record {
    session = finalized_session t;
    stored = stored;
    is_settled = refl;
    paid = ground (arith, kept, in_dispute, disputed);
  }

-- The promise of a posted state stays as long as the state is the newest.
pub newest_kept :
    (ch : Chain) {w w' : World} (key : ℕ) (s t : Session)
    → IsChain ch
    → IsSoundWorld ch w
    → (r : Reach ch w w') → IsNewest ch r key s
    → w.sessions key ≡ some s
    → w'.sessions key ≡ some t
    → promised t ≡ promised s
newest_kept ch key s t laws sound r newest read read' =
    elim (Reach-promised ch key s t laws sound r read read') [
      | inl kept ↦ kept
      | inr (tx, state, ran, agreed, owed) ↦ absurd (newest tx state ran agreed)
    ]

-- The world after the challenge.
abbrev pub challenged_world : World → UnilateralClose → Session → StateUpdate → World
challenged_world w c s state = record w {
  sessions = update w.sessions c.session (some (posted_session s.challenge_deadline s state));
}

-- A challenge that goes through is a history of one step.
pub challenged :
    (ch : Chain) (tx : Tx) (w : World) (c : UnilateralClose) (s : Session) (state : StateUpdate)
    → IsSigned ch tx
    → challenge ch tx w c state ≡ ok (challenged_world w c s state)
    → Reach ch w (challenged_world w c s state)
unfolding dispatch
challenged ch tx w c s state signed done =
    next here (instruction tx (Call.challenge c state) signed done)

-- On a chain that meets its documentation, in a state in which all sessions are sound and all
-- configurations and nodes are as the program writes them: anyone who holds a newer state of a
-- closing session in lamports than was posted, signed by both parties, can post it before the
-- deadline by a challenge that goes through; and if no transaction of the history that follows
-- carries a still newer one signed by both, then once the deadline is past the session is settled
-- at exactly what that state owes, or `finalize_close` goes through and settles it so. The
-- instructions name the accounts that belong together, caller and payer have signed, the paid
-- accounts are other accounts than the session, and no balance or counter overflows.
pub newest_wins :
    (ch : Chain) (tx tx' : Tx) (w : World) {w' : World} (c : UnilateralClose) (conf : Config)
    (s : Session) (state : StateUpdate) (k : FinalizeClose) (l : Loaded)
    → IsChain ch
    → IsSoundWorld ch w
    → IsRegistry ch w
    → IsSigned ch tx
    → NamesClose tx w c conf s
    → s.status ≡ closing
    → tx.now ≤ℤ s.challenge_deadline
    → s.last_nonce < state.nonce
    → verify_cosigned_state ch s c.session state tx.sysvar ≡ ok tt
    → (r : Reach ch (challenged_world w c s state) w')
    → IsNewest ch r k.session (posted_session s.challenge_deadline s state)
    → s.challenge_deadline <ℤ tx'.now
    → k.session ≡ c.session
    → Names tx' w' k l
    → l.session.mint ≡ none
    → HasRoom k l w'.lamports
    → (challenge ch tx w c state ≡ ok (challenged_world w c s state))
      × (IsPaid w' k.session state.owed_to_provider
          ⊎ ((v : World) × (finalize_close ch tx' w' k ≡ ok v)
              × IsPaid v k.session state.owed_to_provider))
newest_wins ch tx tx' w {w'} c conf s state k l laws sound registry signed names status before fresh
      cosigned r newest past place names' native room =
    let posted = posted_session s.challenge_deadline s state in
    let done =
      challenge_goes_through ch tx c conf s state sound registry names status before fresh
        cosigned in
    let step = challenged ch tx w c s state signed done in
    let sound' = Reach-IsSoundWorld ch laws step sound in
    let read : (challenged_world w c s state).sessions k.session ≡ some posted =
      ground (arith, place) in
    let kept =
      newest_kept ch k.session posted l.session laws sound' r newest read names'.session_read in
    (
      done,
      elim (dispute_ends ch tx' k l posted laws sound' (Reach-IsRegistry ch laws step registry) read
          refl r past names' native room) [
            | inl ended ↦
                inl
                  (settled-IsPaid w' k.session posted l.session refl kept names'.session_read ended)
            | inr (in_dispute, v, paid, stored) ↦
                inr (
                  v,
                  paid,
                  finalized-IsPaid v k.session posted l.session refl kept stored in_dispute,
                )
          ],
    )
