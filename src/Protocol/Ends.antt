-- ===== src/Protocol/Ends.antt =====
-- That the life of a session is finite, and that a dispute ends with its first window (dispute.rs).
use sol_mesh.Base.{subst, ℕ, suc, ◌+◌, ◌≤◌, ◌<◌, ◌≡◌, ◌⊎◌, ◌∙◌, inl, inr, none, some, arith, refl}
use sol_mesh.Base.Int.{◌<ℤ◌}
use sol_mesh.Errors.{ok}
use sol_mesh.State.{Session, closing, settled}
use sol_mesh.Runtime.{Chain, Tx, World}
use sol_mesh.Runtime.Laws.{IsChain}
use sol_mesh.Accounts.{Loaded}
use sol_mesh.Dispute.{FinalizeClose, finalize_close, finalized_session}
use sol_mesh.Dispute.Payable.{HasRoom}
use sol_mesh.Program.{Reach}
use sol_mesh.Protocol.Edges.{
  Edge, checkpoint, settle, initiate, challenge, finalize, cancel, expire, IsLive,
}
use sol_mesh.Protocol.Histories.{IsSoundWorld, edge-IsLive}
use sol_mesh.Protocol.Lives.{Life, still, goes, edge_nonce, Reach-Lives}
use sol_mesh.Protocol.Settlements.{Names, payout_goes_through}
use sol_mesh.Registry.Histories.{IsRegistry}

-- How many edges a path has.
abbrev pub steps : {s s' : Session} → Life s s' → ℕ
steps still = 0
steps (goes life same edge) = suc (steps life)

-- An edge takes a newer nonce, or ends the session.
edge_newer : {s s' : Session} → Edge s s' → IsLive s' → s.last_nonce < s'.last_nonce
edge_newer (checkpoint _ _ n _ _) live = n
edge_newer (settle _ e n _ _) live = n
edge_newer (initiate _ _ n _ _ _) live = n
edge_newer (challenge _ _ n _ _ _ _) live = n
edge_newer (finalize _ e _ _ _ _) live = absurd (ground arith)
edge_newer (cancel _ e _ _ _) live = absurd (ground arith)
edge_newer (expire _ e _ _) live = absurd (ground arith)

live_steps :
    {s s' : Session} (life : Life s s') → IsLive s' → steps life + s.last_nonce ≤ s'.last_nonce
live_steps still live = omega arith
live_steps (goes life same edge) live =
    omega (arith, live_steps life (edge-IsLive edge), edge_newer edge live)

steps_bounded : {s s' : Session} (life : Life s s') → steps life + s.last_nonce ≤ s'.last_nonce + 1
steps_bounded still = omega arith
steps_bounded (goes life same edge) =
    omega (arith, live_steps life (edge-IsLive edge), edge_nonce edge)

-- On a chain that meets its documentation, in every history from a state in which all sessions are
-- sound: a session has come to its state along a path of the diagram that has at most one edge
-- more than its nonce has grown by, and at most as many as that while it is live.
pub Reach-steps :
    (ch : Chain) {w w' : World} (key : ℕ) (s : Session)
    → IsChain ch
    → IsSoundWorld ch w
    → Reach ch w w'
    → w.sessions key ≡ some s
    → (s' : Session) × (w'.sessions key ≡ some s')
      × (life : Life s s') × (steps life + s.last_nonce ≤ s'.last_nonce + 1)
      × (IsLive s' → steps life + s.last_nonce ≤ s'.last_nonce)
Reach-steps ch key s laws sound r read =
    let (s', at_s', life) = Reach-Lives ch key s laws sound r read in
    (s', at_s', life, steps_bounded life, live_steps life)

-- A session that has been closing since then keeps its deadline.
pub record StillClosing (s s' : Session) : Type 0 where
  pub was_closing : s'.status ≡ closing
  pub same_deadline : s'.challenge_deadline ≡ s.challenge_deadline

edge-StillClosing :
    {s s' : Session} → Edge s s' → s.status ≡ closing → StillClosing s s' ⊎ (s'.status ≡ settled)
edge-StillClosing (checkpoint o _ _ _ _) c = absurd (ground arith)
edge-StillClosing (settle o _ _ _ _) c = absurd (ground arith)
edge-StillClosing (initiate o _ _ _ _ _) c = absurd (ground arith)
edge-StillClosing (challenge _ e _ _ d _ _) c = inl (record { was_closing = e; same_deadline = d })
edge-StillClosing (finalize _ e _ _ _ _) c = inr e
edge-StillClosing (cancel o _ _ _ _) c = absurd (ground arith)
edge-StillClosing (expire o _ _ _) c = absurd (ground arith)

-- A path from a closing session leads nowhere but through its dispute.
Life-StillClosing :
    {s s' : Session} → Life s s' → s.status ≡ closing → StillClosing s s' ⊎ (s'.status ≡ settled)
Life-StillClosing still c = inl (record { was_closing = c; same_deadline = refl })
Life-StillClosing (goes life same edge) c = elim (Life-StillClosing life c) [
  | inl so_far ↦ elim (edge-StillClosing edge so_far.was_closing) [
    | inl on ↦ inl (record {
      was_closing = on.was_closing;
      same_deadline = on.same_deadline ∙ so_far.same_deadline;
    })
    | inr ended ↦ inr ended
  ]
  | inr ended ↦ elim (edge-IsLive edge) [
    | inl o ↦ absurd (ground arith)
    | inr c' ↦ absurd (ground arith)
  ]
]

-- So is a closing session through a history.
pub Reach-StillClosing :
    (ch : Chain) {w w' : World} (key : ℕ) (s t : Session)
    → IsChain ch
    → IsSoundWorld ch w
    → Reach ch w w'
    → w.sessions key ≡ some s
    → s.status ≡ closing
    → w'.sessions key ≡ some t
    → StillClosing s t ⊎ (t.status ≡ settled)
Reach-StillClosing ch key s t laws sound r read disputed read' =
    let (s', at_s', life) = Reach-Lives ch key s laws sound r read in
    let same : s' ≡ t = ground (arith, at_s', read') in
    subst (λ (u : Session). StillClosing s u ⊎ (u.status ≡ settled)) same
      (Life-StillClosing life disputed)

-- On a chain that meets its documentation, in every history from a state in which all sessions are
-- sound and all configurations and nodes are as the program writes them: a dispute over a session
-- in lamports is over with its first window, whatever challenges there are in between. Once the
-- deadline that the session had is past, either the session is settled, or it is closing still and
-- the instruction `finalize_close` goes through and settles it; if the instruction names the
-- accounts that belong together, its payer has signed, the paid accounts are other accounts than
-- the session, and no balance or counter overflows.
pub dispute_ends :
    (ch : Chain) (tx : Tx) {w w' : World} (k : FinalizeClose) (l : Loaded) (s : Session)
    → IsChain ch
    → IsSoundWorld ch w
    → IsRegistry ch w
    → w.sessions k.session ≡ some s
    → s.status ≡ closing
    → Reach ch w w'
    → s.challenge_deadline <ℤ tx.now
    → Names tx w' k l
    → l.session.mint ≡ none
    → HasRoom k l w'.lamports
    → (l.session.status ≡ settled)
      ⊎ ((l.session.status ≡ closing)
          × (v : World) × (finalize_close ch tx w' k ≡ ok v)
          × (v.sessions k.session ≡ some (finalized_session l.session)))
dispute_ends ch tx k l s laws sound registry read disputed r past names native room =
    elim (Reach-StillClosing ch k.session s l.session laws sound r read disputed
      names.session_read) [
        | inl on ↦
            let (v, done, stored) =
              payout_goes_through ch tx k l laws sound registry r names native on.was_closing
                (ground (arith, on.same_deadline, past)) room in
            inr (on.was_closing, v, done, stored)
        | inr ended ↦ inl ended
      ]
