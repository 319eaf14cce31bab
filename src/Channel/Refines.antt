-- ===== src/Channel/Refines.antt =====
-- Histories of the program (`Reach`) are plays of channels.
use sol_mesh.Base.{
  ℕ, ◌≡◌, ◌∙◌, sym, ap, subst, subst₂, some, update, Option, arith, ◌==◌, Bool-cases, inl, inr,
}
use std.Path.{fun_ext}
use sol_mesh.State.{Session, SessionStatus}
use sol_mesh.Runtime.{Chain, World}
use sol_mesh.Runtime.Laws.{IsChain}
use sol_mesh.Program.{Reach, instruction, others, here, next}
use sol_mesh.Protocol.Edges.{
  Edge, checkpoint, settle, initiate, challenge, finalize, cancel, expire, Effect, writes, creates,
  keeps,
}
use sol_mesh.Protocol.Instructions.{dispatch-Effect}
use sol_mesh.Protocol.Histories.{IsSoundWorld, Reach-IsSoundWorld}
use sol_mesh.Channel.{Phase, Move, Channels, Play, phase_of, view, channels}

-- The view of a session by its status.
view_as :
    (s : Session) {status : SessionStatus} → s.status ≡ status → phase_of status s ≡ view (some s)
view_as s e = ap (λ (x : SessionStatus). phase_of x s) (sym e)

module _ (s s' : Session) (same : s'.deposited ≡ s.deposited) where
  seen :
      {a b : SessionStatus}
      → s.status ≡ a
      → s'.status ≡ b
      → Move (phase_of a s) (phase_of b s')
      → Move (view (some s)) (view (some s'))
  seen before after = subst₂ Move (view_as s before) (view_as s' after)

  -- An edge of the diagram is a move.
  edge-Move : Edge s s' → Move (view (some s)) (view (some s'))
  edge-Move (checkpoint o o' n lo hi) = seen o o' (
      rw same (
        Move.pay s.deposited s.settled_to_provider s'.settled_to_provider s.last_nonce s'.last_nonce
          n lo hi))
  edge-Move (settle o c n lo hi) = seen o c (
      rw same
        (Move.settle s.deposited s.settled_to_provider s'.settled_to_provider s.last_nonce lo hi))
  edge-Move (initiate o c n paid lo hi) = seen o c (
      rw (same, paid)
        (Move.contest s.deposited s.settled_to_provider s.last_nonce s'.last_nonce s'.pending_payout
          n lo hi))
  edge-Move (challenge c c' n paid _ lo hi) = seen c c' (
      rw (same, paid)
        (Move.counter s.deposited s.settled_to_provider s.last_nonce s'.last_nonce s.pending_payout
          s'.pending_payout n lo hi))
  edge-Move (finalize c d n paid lo hi) = seen c d (
      rw (same, paid)
        (Move.pay_out s.deposited s.settled_to_provider s.last_nonce s.pending_payout lo hi))
  edge-Move (cancel o c unused n paid) =
      seen o c (rw (same, paid) (Move.refund s.deposited s.settled_to_provider s.last_nonce))
  edge-Move (expire o x n paid) =
      seen o x (rw (same, paid) (Move.refund s.deposited s.settled_to_provider s.last_nonce))

view-update :
    (f : ℕ → Option Session) (key j : ℕ) (s : Session)
    → view (update f key (some s) j) ≡ update (λ (k : ℕ). view (f k)) key (view (some s)) j
view-update f key j s = elim (Bool-cases (j == key)) [ inl e ↦ ground arith | inr e ↦ ground arith ]

-- A session that is written or created is one change of the channels.
channels-update :
    (w w' : World) (key : ℕ) (s : Session)
    → w'.sessions ≡ update w.sessions key (some s)
    → channels w' ≡ update (channels w) key (view (some s))
channels-update w w' key s e =
    fun_ext (λ j. ap (λ (f : ℕ → Option Session). view (f j)) e ∙ view-update w.sessions key j s)

Effect-Play :
    (ch : Chain) (f : Channels) (w w' : World)
    → Effect ch w w'
    → Play f (channels w)
    → Play f (channels w')
Effect-Play ch f w w' (writes key s s' x) play =
    subst (Play f) (sym (channels-update w w' key s' x.stored)) (
      Play.move key play (
        subst (λ (p : Phase). Move p (view (some s'))) (sym (ap view x.loaded))
          (edge-Move s s' (ap (λ (t : Session). t.deposited) x.same_terms) x.edge)))
Effect-Play ch f w w' (creates key s x) play =
    subst (Play f) (sym (channels-update w w' key s x.stored)) (
      Play.move key play (
        subst₂ Move (sym (ap view x.unused)) (view_as s x.is_open)
          (rw (x.unsettled, x.no_nonce) (Move.begin s.deposited))))
Effect-Play ch f w w' (keeps same kept) play =
    subst (Play f) (ap (λ (g : ℕ → Option Session). λ (j : ℕ). view (g j)) (sym same)) play

-- On a chain that meets its documentation, every history from a state in which all sessions are sound
-- is a play of channels, move by move: the parties see nothing but openings, payments of a newer
-- state within the deposit, disputes, counters by newer states, payouts of the last posted state,
-- settlements and refunds, each of one channel.
pub Reach-Play :
    (ch : Chain) {w w' : World}
    → IsChain ch
    → IsSoundWorld ch w
    → Reach ch w w'
    → Play (channels w) (channels w')
Reach-Play ch laws sound here = Play.start
Reach-Play ch {w} {w'} laws sound (next {v} r (instruction tx call signed done)) =
    Effect-Play ch (channels w) v w'
      (dispatch-Effect ch laws tx signed call v
        (λ k u e. (Reach-IsSoundWorld ch laws r sound k u e).at_address) done)
      (Reach-Play ch laws sound r)
Reach-Play ch laws sound (next r (others m tokens kept owned)) = Reach-Play ch laws sound r
