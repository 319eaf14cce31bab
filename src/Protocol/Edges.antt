-- ===== src/Protocol/Edges.antt =====
-- The session state machine of README.md, and the effect of one instruction on the sessions and on
-- the lamports that they hold.
use sol_mesh.Base.{ℕ, ◌+◌, ◌≤◌, ◌<◌, ◌≡◌, ◌≢◌, ◌⊎◌, [], ◌∷◌, ◌++◌, none, some, update}
use sol_mesh.State.{Session, opened, closing, settled, cancelled, expired}
use sol_mesh.Runtime.{Chain, World}
use sol_mesh.Accounts.{session_seeds}

-- An edge of the diagram, with what it does to nonce, amounts and deadline. `checkpoint` is the loop at Open.
pub data Edge (s s' : Session) : Type 0 where
  checkpoint :
      s.status ≡ opened
      → s'.status ≡ opened
      → s.last_nonce < s'.last_nonce
      → s.settled_to_provider ≤ s'.settled_to_provider
      → s'.settled_to_provider ≤ s.deposited
      → Edge s s'
  settle :
      s.status ≡ opened
      → s'.status ≡ settled
      → s.last_nonce < s'.last_nonce
      → s.settled_to_provider ≤ s'.settled_to_provider
      → s'.settled_to_provider ≤ s.deposited
      → Edge s s'
  initiate :
      s.status ≡ opened
      → s'.status ≡ closing
      → s.last_nonce < s'.last_nonce
      → s'.settled_to_provider ≡ s.settled_to_provider
      → s.settled_to_provider ≤ s'.pending_payout
      → s'.pending_payout ≤ s.deposited
      → Edge s s'
  challenge :
      s.status ≡ closing
      → s'.status ≡ closing
      → s.last_nonce < s'.last_nonce
      → s'.settled_to_provider ≡ s.settled_to_provider
      → s'.challenge_deadline ≡ s.challenge_deadline
      → s.settled_to_provider ≤ s'.pending_payout
      → s'.pending_payout ≤ s.deposited
      → Edge s s'
  finalize :
      s.status ≡ closing
      → s'.status ≡ settled
      → s'.last_nonce ≡ s.last_nonce
      → s'.settled_to_provider ≡ s.pending_payout
      → s.settled_to_provider ≤ s.pending_payout
      → s.pending_payout ≤ s.deposited
      → Edge s s'
  cancel :
      s.status ≡ opened
      → s'.status ≡ cancelled
      → s.last_nonce ≡ 0
      → s'.last_nonce ≡ s.last_nonce
      → s'.settled_to_provider ≡ s.settled_to_provider
      → Edge s s'
  expire :
      s.status ≡ opened
      → s'.status ≡ expired
      → s'.last_nonce ≡ s.last_nonce
      → s'.settled_to_provider ≡ s.settled_to_provider
      → Edge s s'

-- The parties, the deposit and the other terms of a session stay as they were agreed.
abbrev pub SameTerms : Session → Session → Type 0
SameTerms s s' = s' ≡ record s {
  settled_to_provider = s'.settled_to_provider;
  last_nonce = s'.last_nonce;
  status = s'.status;
  challenge_deadline = s'.challenge_deadline;
  pending_payout = s'.pending_payout;
  pending_units = s'.pending_units;
}

abbrev pub IsLive : Session → Type 0
IsLive s = (s.status ≡ opened) ⊎ (s.status ≡ closing)

-- A session that an instruction has read at `key` and written back.
pub record Writes (w w' : World) (key : ℕ) (s s' : Session) : Type 0 where
  pub loaded : w.sessions key ≡ some s
  pub stored : w'.sessions ≡ update w.sessions key (some s')
  pub same_terms : SameTerms s s'
  pub edge : Edge s s'
  pub kept : (j : ℕ) → j ≢ key → w.lamports j ≤ w'.lamports j
  pub escrow :
      IsLive s' → w.lamports key + s.settled_to_provider ≤ w'.lamports key + s'.settled_to_provider

-- Some session was written back at `key`.
abbrev pub WritesAt : World → World → ℕ → Type 0
WritesAt w w' key = (s : Session) × (s' : Session) × Writes w w' key s s'

-- A session that an instruction has created at `key`.
pub record Creates (ch : Chain) (w w' : World) (key : ℕ) (s : Session) : Type 0 where
  pub unused : w.sessions key ≡ none
  pub stored : w'.sessions ≡ update w.sessions key (some s)
  pub derived :
      ch.program_address (session_seeds s.node s.consumer s.session_seed ++ ((s.bump ∷ []) ∷ []))
      ≡ some key
  pub is_open : s.status ≡ opened
  pub no_nonce : s.last_nonce ≡ 0
  pub unsettled : s.settled_to_provider ≡ 0
  pub funded : s.mint ≡ none → s.deposited ≤ w'.lamports key
  pub kept : (j : ℕ) (t : Session) → w.sessions j ≡ some t → w.lamports j ≤ w'.lamports j

-- Some session was created at `key`.
abbrev pub CreatesAt : Chain → World → World → ℕ → Type 0
CreatesAt ch w w' key = (s : Session) × Creates ch w w' key s

-- Either one session is written along an edge, or one is created, or none changes; and no session's
-- lamports go anywhere else.
pub data Effect (ch : Chain) (w w' : World) : Type 0 where
  writes : (key : ℕ) (s s' : Session) → Writes w w' key s s' → Effect ch w w'
  creates : (key : ℕ) (s : Session) → Creates ch w w' key s → Effect ch w w'
  keeps :
      w'.sessions ≡ w.sessions
      → ((j : ℕ) (t : Session) → w.sessions j ≡ some t → w.lamports j ≤ w'.lamports j)
      → Effect ch w w'
