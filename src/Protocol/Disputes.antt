-- ===== src/Protocol/Disputes.antt =====
-- The unilateral close and its challenges as edges of the state machine (dispute.rs).
use sol_mesh.Base.{ℕ, ◌≡◌, refl, subst, inl, inr, some, update, arith}
use sol_mesh.Errors.{ok, Result-cases}
use sol_mesh.State.{Session}
use sol_mesh.Message.{StateUpdate}
use sol_mesh.Runtime.{Chain, Tx, World}
use sol_mesh.Dispute.{
  UnilateralClose, load_unilateral, initiate_handler, challenge_handler, initiate_unilateral_close,
  challenge,
}
use sol_mesh.Dispute.Effects.{initiate-Initiates, challenge-Challenges, load_unilateral-eq}
use sol_mesh.Protocol.Edges.{IsLive, Edge, SameTerms, Writes, WritesAt}
use sol_mesh.Protocol.Edges

-- A session written back, with no lamports moved.
abbrev with_session : World → ℕ → Session → World
with_session w key s = record w { sessions = update w.sessions key (some s) }

still-Writes :
    (w : World) (key : ℕ) (s s' : Session)
    → w.sessions key ≡ some s
    → SameTerms s s'
    → Edge s s'
    → s'.settled_to_provider ≡ s.settled_to_provider
    → Writes w (with_session w key s') key s s'
still-Writes w key s s' read same edge unsettled = record {
  loaded = read;
  stored = refl;
  same_terms = same;
  edge = edge;
  kept = λ j ne. omega arith;
  escrow = λ live. omega arith;
}

module _ (ch : Chain) (tx : Tx) (w : World) (k : UnilateralClose) (state : StateUpdate) where
  pub initiate-WritesAt :
      {w' : World} → initiate_unilateral_close ch tx w k state ≡ ok w' → WritesAt w w' k.session
  unfolding initiate_unilateral_close
  initiate-WritesAt h = elim (Result-cases (load_unilateral ch tx w k)) [
    | inl (e, failed) ↦ absurd (ground arith)
    | inr ((c, s), read) ↦ elim (Result-cases (initiate_handler ch tx k c s state)) [
      | inl (e, failed) ↦ absurd (ground arith)
      | inr (s', applied) ↦
          let a = initiate-Initiates ch tx k c s state applied in
          subst (λ (v : World). WritesAt w v k.session) {x = with_session w k.session s'}
            (ground arith)
            (
              s,
              s',
              (still-Writes w k.session s s' (load_unilateral-eq ch tx w k read)
                  (rw a.session_after refl)
                  (rw a.session_after (
                    Edges.Edge.initiate a.was_open refl a.fresh refl a.cosigned.not_decreased
                      a.cosigned.covered))
                  (ground (arith, a.session_after))),
            )
    ]
  ]

  pub challenge-WritesAt :
      {w' : World} → challenge ch tx w k state ≡ ok w' → WritesAt w w' k.session
  unfolding challenge
  challenge-WritesAt h = elim (Result-cases (load_unilateral ch tx w k)) [
    | inl (e, failed) ↦ absurd (ground arith)
    | inr ((c, s), read) ↦ elim (Result-cases (challenge_handler ch tx k s state)) [
      | inl (e, failed) ↦ absurd (ground arith)
      | inr (s', applied) ↦
          let a = challenge-Challenges ch tx k c s state applied in
          subst (λ (v : World). WritesAt w v k.session) {x = with_session w k.session s'}
            (ground arith)
            (
              s,
              s',
              (still-Writes w k.session s s' (load_unilateral-eq ch tx w k read)
                  (rw a.session_after refl)
                  (rw a.session_after (
                    Edges.Edge.challenge a.was_closing a.was_closing a.fresh refl refl
                      a.cosigned.not_decreased a.cosigned.covered))
                  (ground (arith, a.session_after))),
            )
    ]
  ]
