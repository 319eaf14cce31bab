-- ===== src/Protocol/Refunds.antt =====
-- Cancellation and expiry as edges of the state machine (lifecycle.rs, and the twins in spl.rs).
use sol_mesh.Base.{ℕ, ◌-◌, ◌≡◌, refl, subst, inl, inr, some, update, arith}
use sol_mesh.Errors.{ok, Result-cases}
use sol_mesh.State.{Session, cancelled, expired}
use sol_mesh.Runtime.{Chain, Tx, World, Lamports, Tokens}
use sol_mesh.Accounts.{load_config, load_session}
use sol_mesh.Shared.{pda_transfer_lamports}
use sol_mesh.Shared.Transfer.{pda_transfer-balance}
use sol_mesh.Lifecycle.{
  CancelSession, ExpireSession, load_cancel, load_expire, cancel_handler, expire_handler,
  cancel_session, expire_session,
}
use sol_mesh.Spl.Lifecycle.{
  LifecycleSpl, load_lifecycle_spl, cancel_handler_spl, expire_handler_spl, cancel_session_spl,
  expire_session_spl,
}
use sol_mesh.Protocol.Edges.{Edge, SameTerms, IsLive, Writes, WritesAt}
use sol_mesh.Protocol.Edges

-- What a refund stores.
abbrev refunded : World → ℕ → Session → Lamports → World
refunded w key s m = record w { sessions = update w.sessions key (some s); lamports = m }

abbrev refunded_spl : World → ℕ → Session → Tokens → World
refunded_spl w key s m = record w { sessions = update w.sessions key (some s); tokens = m }

-- A session is closed, with a transfer of lamports out of it.
refund-Writes :
    (w : World) (key to amount : ℕ) (s s' : Session) {m : Lamports}
    → w.sessions key ≡ some s
    → SameTerms s s'
    → Edge s s'
    → ¬ IsLive s'
    → pda_transfer_lamports key to amount w.lamports ≡ ok m
    → Writes w (refunded w key s' m) key s s'
refund-Writes w key to amount s s' read same edge dead paid = record {
  loaded = read;
  stored = refl;
  same_terms = same;
  edge = edge;
  kept = λ j ne. ground (arith, pda_transfer-balance key to amount w.lamports j paid);
  escrow = λ live. absurd (dead live);
}

refund_spl-Writes :
    (w : World) (key : ℕ) (s s' : Session) (m : Tokens)
    → w.sessions key ≡ some s
    → SameTerms s s'
    → Edge s s'
    → ¬ IsLive s'
    → Writes w (refunded_spl w key s' m) key s s'
refund_spl-Writes w key s s' m read same edge dead = record {
  loaded = read;
  stored = refl;
  same_terms = same;
  edge = edge;
  kept = λ j ne. omega arith;
  escrow = λ live. absurd (dead live);
}

module _ (ch : Chain) (tx : Tx) (w : World) where
  load_cancel-eq :
      (k : CancelSession) {s : Session}
      → load_cancel ch tx w k ≡ ok s
      → w.sessions k.session ≡ some s
  unfolding load_cancel load_config load_session
  load_cancel-eq k h = ground arith

  load_expire-eq :
      (k : ExpireSession) {s : Session}
      → load_expire ch tx w k ≡ ok s
      → w.sessions k.session ≡ some s
  unfolding load_expire load_config load_session
  load_expire-eq k h = ground arith

  load_lifecycle_spl-eq :
      (k : LifecycleSpl) {s : Session}
      → load_lifecycle_spl ch tx w k ≡ ok s
      → w.sessions k.session ≡ some s
  unfolding load_lifecycle_spl load_config load_session
  load_lifecycle_spl-eq k h = ground arith

  pub cancel-WritesAt :
      (k : CancelSession) {w' : World} → cancel_session ch tx w k ≡ ok w' → WritesAt w w' k.session
  unfolding cancel_session cancel_handler
  cancel-WritesAt k h = elim (Result-cases (load_cancel ch tx w k)) [
    | inl (e, failed) ↦ absurd (ground arith)
    | inr (s, read) ↦
        elim (Result-cases (
          pda_transfer_lamports k.session k.consumer (s.deposited - s.settled_to_provider)
            w.lamports)) [
              | inl (e, failed) ↦ absurd (ground arith)
              | inr (m, paid) ↦
                  let s' : Session = record s { status = cancelled } in
                  subst (λ (v : World). WritesAt w v k.session) {x = refunded w k.session s' m}
                    (ground arith)
                    (
                      s,
                      s',
                      (refund-Writes w k.session k.consumer _ s s' (load_cancel-eq k read) refl
                          (Edges.Edge.cancel (ground arith) refl (ground arith) refl refl)
                          (λ live. ground arith) paid),
                    )
            ]
  ]

  pub cancel_spl-WritesAt :
      (k : LifecycleSpl) {w' : World}
      → cancel_session_spl ch tx w k ≡ ok w'
      → WritesAt w w' k.session
  unfolding cancel_session_spl cancel_handler_spl
  cancel_spl-WritesAt k h = elim (Result-cases (load_lifecycle_spl ch tx w k)) [
    | inl (e, failed) ↦ absurd (ground arith)
    | inr (s, read) ↦ elim (Result-cases (cancel_handler_spl ch k s w.tokens)) [
      | inl (e, failed) ↦ absurd (ground arith)
      | inr ((t, m), applied) ↦
          let s' : Session = record s { status = cancelled } in
          subst (λ (v : World). WritesAt w v k.session) {x = refunded_spl w k.session s' m}
            (ground arith)
            (
              s,
              s',
              (refund_spl-Writes w k.session s s' m (load_lifecycle_spl-eq k read) refl
                  (Edges.Edge.cancel (ground arith) refl (ground arith) refl refl)
                  (λ live. ground arith)),
            )
    ]
  ]

  pub expire-WritesAt :
      (k : ExpireSession) {w' : World} → expire_session ch tx w k ≡ ok w' → WritesAt w w' k.session
  unfolding expire_session expire_handler
  expire-WritesAt k h = elim (Result-cases (load_expire ch tx w k)) [
    | inl (e, failed) ↦ absurd (ground arith)
    | inr (s, read) ↦
        elim (Result-cases (
          pda_transfer_lamports k.session k.consumer (s.deposited - s.settled_to_provider)
            w.lamports)) [
              | inl (e, failed) ↦ absurd (ground arith)
              | inr (m, paid) ↦
                  let s' : Session = record s { status = expired } in
                  subst (λ (v : World). WritesAt w v k.session) {x = refunded w k.session s' m}
                    (ground arith)
                    (
                      s,
                      s',
                      (refund-Writes w k.session k.consumer _ s s' (load_expire-eq k read) refl
                          (Edges.Edge.expire (ground arith) refl refl refl) (λ live. ground arith)
                          paid),
                    )
            ]
  ]

  pub expire_spl-WritesAt :
      (k : LifecycleSpl) {w' : World}
      → expire_session_spl ch tx w k ≡ ok w'
      → WritesAt w w' k.session
  unfolding expire_session_spl expire_handler_spl
  expire_spl-WritesAt k h = elim (Result-cases (load_lifecycle_spl ch tx w k)) [
    | inl (e, failed) ↦ absurd (ground arith)
    | inr (s, read) ↦ elim (Result-cases (expire_handler_spl ch tx k s w.tokens)) [
      | inl (e, failed) ↦ absurd (ground arith)
      | inr ((t, m), applied) ↦
          let s' : Session = record s { status = expired } in
          subst (λ (v : World). WritesAt w v k.session) {x = refunded_spl w k.session s' m}
            (ground arith)
            (
              s,
              s',
              (refund_spl-Writes w k.session s s' m (load_lifecycle_spl-eq k read) refl
                  (Edges.Edge.expire (ground arith) refl refl refl) (λ live. ground arith)),
            )
    ]
  ]
