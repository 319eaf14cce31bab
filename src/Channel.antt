-- ===== src/Channel.antt =====
-- What the program promises, apart from how it is done (the diagram of README.md): channels, each
-- of which is opened once with a deposit and closed once.
use sol_mesh.Base.{ℕ, ◌<◌, ◌≤◌, none, some, update, Option}
use sol_mesh.State.{Session, SessionStatus, opened, closing, settled, cancelled, expired}
use sol_mesh.Runtime.{World}
pub mod Refines

-- A channel as its parties see it: the deposit, what the provider has been paid, the nonce of the last
-- state, and in a dispute what that state owes.
pub data Phase : Type 0 where
  absent : Phase
  running : ℕ → ℕ → ℕ → Phase
  contested : ℕ → ℕ → ℕ → ℕ → Phase
  over : ℕ → ℕ → Phase

-- What may happen to one channel.
pub data Move : Phase → Phase → Type 0 where
  begin : (deposit : ℕ) → Move absent (running deposit 0 0)
  pay :
      (deposit paid paid' nonce nonce' : ℕ)
      → nonce < nonce'
      → paid ≤ paid'
      → paid' ≤ deposit
      → Move (running deposit paid nonce) (running deposit paid' nonce')
  settle :
      (deposit paid paid' nonce : ℕ)
      → paid ≤ paid'
      → paid' ≤ deposit
      → Move (running deposit paid nonce) (over deposit paid')
  contest :
      (deposit paid nonce nonce' owed : ℕ)
      → nonce < nonce'
      → paid ≤ owed
      → owed ≤ deposit
      → Move (running deposit paid nonce) (contested deposit paid nonce' owed)
  counter :
      (deposit paid nonce nonce' owed owed' : ℕ)
      → nonce < nonce'
      → paid ≤ owed'
      → owed' ≤ deposit
      → Move (contested deposit paid nonce owed) (contested deposit paid nonce' owed')
  pay_out :
      (deposit paid nonce owed : ℕ)
      → paid ≤ owed
      → owed ≤ deposit
      → Move (contested deposit paid nonce owed) (over deposit owed)
  refund : (deposit paid nonce : ℕ) → Move (running deposit paid nonce) (over deposit paid)

-- Channels by their keys, and moves of one at a time.
abbrev pub Channels : Type 0
Channels = ℕ → Phase

pub data Play (f : Channels) : Channels → Type 0 where
  start : Play f f
  move : {g : Channels} (key : ℕ) {p : Phase} → Play f g → Move (g key) p → Play f (update g key p)

abbrev pub phase_of : SessionStatus → Session → Phase
phase_of opened s = running s.deposited s.settled_to_provider s.last_nonce
phase_of closing s = contested s.deposited s.settled_to_provider s.last_nonce s.pending_payout
phase_of settled s = over s.deposited s.settled_to_provider
phase_of cancelled s = over s.deposited s.settled_to_provider
phase_of expired s = over s.deposited s.settled_to_provider

-- The view of a session account.
abbrev pub view : Option Session → Phase
view none = absent
view (some s) = phase_of s.status s

abbrev pub channels : World → Channels
channels w key = view (w.sessions key)
