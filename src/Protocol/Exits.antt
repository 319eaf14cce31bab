-- ===== src/Protocol/Exits.antt =====
-- That deposits are not locked: a dispute can be opened and answered (dispute.rs), and every session in
-- lamports has an instruction that ends it in time (lifecycle.rs, dispute.rs).
use sol_mesh.Base.{ℕ, ◌-◌, ap, ◌∙◌, ◌<◌, ◌≡◌, ◌⊎◌, inl, inr, none, some, true, update, arith}
use sol_mesh.Base.Int.{checked_add_i64, ◌≤ℤ◌, ◌<ℤ◌, ℤ}
use sol_mesh.Errors.{ok}
use sol_mesh.State.{Config, Session, SessionStatus, opened, closing, expired}
use sol_mesh.Message.{StateUpdate}
use sol_mesh.Runtime.{Chain, Tx, World}
use sol_mesh.Runtime.Laws.{IsChain}
use sol_mesh.Accounts.{Loaded, load_config, load_session}
use sol_mesh.Shared.{verify_cosigned_state}
use sol_mesh.Shared.Transfer.{moved}
use sol_mesh.Settle.{Settle}
use sol_mesh.Dispute.{
  UnilateralClose, load_unilateral, initiate_handler, challenge_handler, initiate_unilateral_close,
  challenge, finalized_session,
}
use sol_mesh.Dispute.Payable.{HasRoom}
use sol_mesh.Lifecycle.{ExpireSession, load_expire, expire_session}
use sol_mesh.Lifecycle.Refunds.{expire_goes_through}
use sol_mesh.Program.{Call, Reach, dispatch}
use sol_mesh.Protocol.Edges.{IsLive}
use sol_mesh.Protocol.Histories.{IsSoundWorld, Reach-IsSoundWorld, promised}
use sol_mesh.Protocol.Settlements.{Names, payout_goes_through}
use sol_mesh.Registry.Histories.{IsRegistry, Reach-IsRegistry}

-- What a posted state leaves of a session, with the deadline of the window.
abbrev pub posted_session : ℤ → Session → StateUpdate → Session
posted_session deadline s state = record s {
  status = closing;
  last_nonce = state.nonce;
  pending_payout = state.owed_to_provider;
  pending_units = state.units_consumed;
  challenge_deadline = deadline;
}

-- The instruction names accounts that belong together, and its caller has signed.
pub record NamesClose (tx : Tx) (w : World) (k : UnilateralClose) (c : Config) (s : Session)
    : Type 0 where
  pub config_read : w.configs k.config ≡ some c
  pub session_read : w.sessions k.session ≡ some s
  pub of_provider : s.provider ≡ k.provider
  pub of_consumer : s.consumer ≡ k.consumer
  pub by_caller : tx.is_signer k.caller ≡ true

module _ (ch : Chain) (tx : Tx) {w : World} (k : UnilateralClose) (c : Config) (s : Session)
    (state : StateUpdate) (sound : IsSoundWorld ch w) (registry : IsRegistry ch w)
    (names : NamesClose tx w k c s) where
  load_unilateral-eq : load_unilateral ch tx w k ≡ ok (c, s)
  unfolding load_unilateral load_config load_session
  load_unilateral-eq =
      let at_config = (registry.configs_at k.config c names.config_read).at_address in
      let at_session = (sound k.session s names.session_read).at_address in
      ground (arith, at_config, at_session, names)

  -- A party can close an open session with a newer state that both have signed.
  pub initiate_goes_through :
      (deadline : ℤ)
      → (k.caller ≡ s.provider) ⊎ (k.caller ≡ s.consumer)
      → s.status ≡ opened
      → s.last_nonce < state.nonce
      → verify_cosigned_state ch s k.session state tx.sysvar ≡ ok tt
      → checked_add_i64 tx.now c.challenge_window_secs ≡ some deadline
      → initiate_unilateral_close ch tx w k state
        ≡ ok (record w {
          sessions = update w.sessions k.session (some (posted_session deadline s state));
        })
  unfolding initiate_unilateral_close initiate_handler
  initiate_goes_through deadline party status fresh signed later =
      ground (arith, load_unilateral-eq)

  -- Anyone can answer it before the deadline with a newer one.
  pub challenge_goes_through :
      s.status ≡ closing
      → tx.now ≤ℤ s.challenge_deadline
      → s.last_nonce < state.nonce
      → verify_cosigned_state ch s k.session state tx.sysvar ≡ ok tt
      → challenge ch tx w k state
        ≡ ok (record w {
          sessions =
              update w.sessions k.session (some (posted_session s.challenge_deadline s state));
        })
  unfolding challenge challenge_handler
  challenge_goes_through status before fresh signed = ground (arith, load_unilateral-eq)

-- The accounts of a payout, as those of an expiry.
abbrev pub expiry_of : Settle → ExpireSession
expiry_of k = record {
  config = k.config;
  session = k.session;
  consumer = k.consumer;
  cranker = k.payer;
}

load_expire-eq :
    (ch : Chain) (tx : Tx) {w : World} (k : Settle) (l : Loaded)
    → IsSoundWorld ch w
    → IsRegistry ch w
    → Names tx w k l
    → load_expire ch tx w (expiry_of k) ≡ ok l.session
unfolding load_expire load_config load_session
load_expire-eq ch tx k l sound registry names =
    let at_config = (registry.configs_at k.config l.config names.config_read).at_address in
    let at_session = (sound k.session l.session names.session_read).at_address in
    ground (arith, at_config, at_session, names)

pub expiry_goes_through :
    (ch : Chain) (tx : Tx) {w : World} (k : Settle) (l : Loaded)
    → IsSoundWorld ch w
    → IsRegistry ch w
    → Names tx w k l
    → l.session.mint ≡ none
    → l.session.status ≡ opened
    → l.session.expiry <ℤ tx.now
    → HasRoom k l w.lamports
    → (v : World) × (expire_session ch tx w (expiry_of k) ≡ ok v)
      × (v.sessions k.session ≡ some (record l.session { status = expired }))
unfolding expire_session
expiry_goes_through ch tx {w} k l sound registry names native status over room =
    let h = sound k.session l.session names.session_read in
    let solvent = h.solvent native (inl status) in
    let lo = h.within_deposit in
    let loaded = load_expire-eq ch tx k l sound registry names in
    let rest = l.session.deposited - l.session.settled_to_provider in
    let done =
      expire_goes_through tx (expiry_of k) l.session w.lamports status over lo room.consumer_apart
        (omega arith) (omega (arith, room.consumer_room)) in
    (
      record w {
        sessions = update w.sessions k.session (some (record l.session { status = expired }));
        lamports = moved k.session k.consumer rest w.lamports;
      },
      ground (arith, loaded, done),
      ground arith,
    )

-- The instruction that ends a session of a status, for the accounts of a payout.
abbrev pub exit_call : SessionStatus → Settle → Call
exit_call closing k = Call.finalize_close k
exit_call _ k = Call.expire_session (expiry_of k)

-- What an ended session leaves: settled at what it promised, and no longer live.
pub record Ends (w : World) (key : ℕ) (s : Session) : Type 0 where
  pub ended : Session
  pub stored : w.sessions key ≡ some ended
  pub over : ¬ IsLive ended
  pub kept_promise : ended.settled_to_provider ≡ promised s

pub opened-Ends :
    (w : World) (key : ℕ) (s : Session)
    → s.status ≡ opened
    → w.sessions key ≡ some (record s { status = expired })
    → Ends w key s
opened-Ends w key s status stored = record {
  ended = record s { status = expired };
  stored = stored;
  over = λ live. ground arith;
  kept_promise = ground arith;
}

pub closing-Ends :
    (w : World) (key : ℕ) (s : Session)
    → s.status ≡ closing
    → w.sessions key ≡ some (finalized_session s)
    → Ends w key s
closing-Ends w key s status stored = record {
  ended = finalized_session s;
  stored = stored;
  over = λ live. ground arith;
  kept_promise = ground arith;
}

-- On a chain that meets its documentation, after any history from a state in which all sessions
-- are sound and all configurations and nodes are as the program writes them: a live session in
-- lamports, past its expiry if it is open and past its window if it is closing, is ended by one
-- instruction that anyone may send, an expiry or a payout, which goes through and settles it at
-- what it promised; if the instruction names the accounts that belong together, its payer has
-- signed, the paid accounts are other accounts than the session, and no balance or counter
-- overflows.
pub session_exits :
    (ch : Chain) (tx : Tx) {w w' : World} (k : Settle) (l : Loaded)
    → IsChain ch
    → IsSoundWorld ch w
    → IsRegistry ch w
    → Reach ch w w'
    → Names tx w' k l
    → l.session.mint ≡ none
    → IsLive l.session
    → (l.session.status ≡ opened → l.session.expiry <ℤ tx.now)
    → (l.session.status ≡ closing → l.session.challenge_deadline <ℤ tx.now)
    → HasRoom k l w'.lamports
    → (v : World) × (dispatch ch tx (exit_call l.session.status k) w' ≡ ok v)
      × Ends v k.session l.session
unfolding dispatch
session_exits ch tx {w} {w'} k l laws sound registry r names native (inl status) expiry_past
      window_past room =
    let (v, done, stored) =
      expiry_goes_through ch tx k l (Reach-IsSoundWorld ch laws r sound)
        (Reach-IsRegistry ch laws r registry) names native status (expiry_past status) room in
    (
      v,
      ap (λ (st : SessionStatus). dispatch ch tx (exit_call st k) w') status ∙ done,
      opened-Ends v k.session l.session status stored,
    )
session_exits ch tx {w} {w'} k l laws sound registry r names native (inr status) expiry_past
      window_past room =
    let (v, done, stored) =
      payout_goes_through ch tx k l laws sound registry r names native status (window_past status)
        room in
    (
      v,
      ap (λ (st : SessionStatus). dispatch ch tx (exit_call st k) w') status ∙ done,
      closing-Ends v k.session l.session status stored,
    )
