-- ===== src/Protocol/Consent/Quiet.antt =====
-- The instructions that post no state: what they promise is what was promised.
use sol_mesh.Base.{update-cases, ℕ, ◌≡◌, ap, ◌∙◌, sym, inl, inr, some, Option, arith}
use sol_mesh.Errors.{ok}
use sol_mesh.State.{Session}
use sol_mesh.Runtime.{Chain, Tx, World}
use sol_mesh.Accounts.{load_config, load_node, load_session}
use sol_mesh.Settle.{load_settle}
use sol_mesh.Dispute.{FinalizeClose, finalize_handler, finalize_close}
use sol_mesh.Lifecycle.{
  CancelSession, ExpireSession, load_cancel, load_expire, cancel_handler, expire_handler,
  cancel_session, expire_session,
}
use sol_mesh.Spl.{FinalizeCloseSpl, load_settle_spl, finalize_handler_spl, finalize_close_spl}
use sol_mesh.Spl.Lifecycle.{
  LifecycleSpl, load_lifecycle_spl, cancel_handler_spl, expire_handler_spl, cancel_session_spl,
  expire_session_spl,
}
use sol_mesh.Protocol.Edges.{
  Edge, checkpoint, settle, initiate, challenge, finalize, cancel, expire, WritesAt, CreatesAt,
}
use sol_mesh.Protocol.Histories.{promised}
use sol_mesh.Protocol.Payouts.{finalize_close-WritesAt, finalize_close_spl-WritesAt}
use sol_mesh.Protocol.Refunds.{
  cancel-WritesAt, expire-WritesAt, cancel_spl-WritesAt, expire_spl-WritesAt,
}

-- Every session promises what it has promised.
abbrev pub IsQuiet : World → World → Type 0
IsQuiet w w' =
    (key : ℕ) (s s' : Session)
    → w.sessions key ≡ some s
    → w'.sessions key ≡ some s'
    → promised s' ≡ promised s

-- The nonce of the session at `key` is what it was.
abbrev SameNonce : World → World → ℕ → Type 0
SameNonce w w' key =
    (s s' : Session)
    → w.sessions key ≡ some s
    → w'.sessions key ≡ some s'
    → s'.last_nonce ≡ s.last_nonce

-- An edge with which the nonce stays pays what is promised.
edge_quiet : (s s' : Session) → Edge s s' → s'.last_nonce ≡ s.last_nonce → promised s' ≡ promised s
edge_quiet s s' (checkpoint _ _ n _ _) e = absurd (omega arith)
edge_quiet s s' (settle _ _ n _ _) e = absurd (omega arith)
edge_quiet s s' (initiate _ _ n _ _ _) e = absurd (omega arith)
edge_quiet s s' (challenge _ _ n _ _ _ _) e = absurd (omega arith)
edge_quiet s s' (finalize c d n paid _ _) e = ground arith
edge_quiet s s' (cancel o c _ n paid) e = ground arith
edge_quiet s s' (expire o x n paid) e = ground arith

module _ (w w' : World) where
  pub same-IsQuiet : w'.sessions ≡ w.sessions → IsQuiet w w'
  same-IsQuiet e key s s' read read' =
      ground (arith, ap (λ (f : ℕ → Option Session). f key) e, read, read')

  written-IsQuiet : (key : ℕ) → WritesAt w w' key → SameNonce w w' key → IsQuiet w w'
  written-IsQuiet k (u, u', x) nonce key s s' read read' =
      elim (update-cases w.sessions w'.sessions k u' x.stored key s' read') [
        | inl (place, same) ↦
            let before : u ≡ s = ground (arith, sym x.loaded ∙ ap w.sessions (sym place) ∙ read) in
            let kept =
              edge_quiet u u' x.edge
                (nonce u u' x.loaded (ap w'.sessions (sym place) ∙ read' ∙ ap some (sym same))) in
            ap promised (sym same) ∙ kept ∙ ap promised before
        | inr (apart, old) ↦ ap promised {x = s'} {y = s} (ground (arith, sym old ∙ read))
      ]

  pub created-IsQuiet : (ch : Chain) (key : ℕ) → CreatesAt ch w w' key → IsQuiet w w'
  created-IsQuiet ch k (u, x) key s s' read read' =
      elim (update-cases w.sessions w'.sessions k u x.stored key s' read') [
        | inl (place, same) ↦ absurd (cc (sym x.unused ∙ ap w.sessions (sym place) ∙ read))
        | inr (apart, old) ↦ ap promised {x = s'} {y = s} (ground (arith, sym old ∙ read))
      ]

module _ (ch : Chain) (tx : Tx) (w : World) {w' : World} where
  pub finalize_close-IsQuiet : (k : FinalizeClose) → finalize_close ch tx w k ≡ ok w' → IsQuiet w w'
  unfolding finalize_close finalize_handler load_settle load_config load_node load_session
  finalize_close-IsQuiet k h =
      written-IsQuiet w w' k.session (finalize_close-WritesAt ch tx w k h)
        (λ s s' read read'. ground arith)

  pub finalize_close_spl-IsQuiet :
      (k : FinalizeCloseSpl) → finalize_close_spl ch tx w k ≡ ok w' → IsQuiet w w'
  unfolding finalize_close_spl finalize_handler_spl load_settle_spl load_config load_node
      load_session
  finalize_close_spl-IsQuiet k h =
      written-IsQuiet w w' k.session (finalize_close_spl-WritesAt ch tx w k h)
        (λ s s' read read'. ground arith)

  pub cancel-IsQuiet : (k : CancelSession) → cancel_session ch tx w k ≡ ok w' → IsQuiet w w'
  unfolding cancel_session cancel_handler load_cancel load_config load_session
  cancel-IsQuiet k h =
      written-IsQuiet w w' k.session (cancel-WritesAt ch tx w k h) (λ s s' read read'. ground arith)

  pub expire-IsQuiet : (k : ExpireSession) → expire_session ch tx w k ≡ ok w' → IsQuiet w w'
  unfolding expire_session expire_handler load_expire load_config load_session
  expire-IsQuiet k h =
      written-IsQuiet w w' k.session (expire-WritesAt ch tx w k h) (λ s s' read read'. ground arith)

  pub cancel_spl-IsQuiet : (k : LifecycleSpl) → cancel_session_spl ch tx w k ≡ ok w' → IsQuiet w w'
  unfolding cancel_session_spl cancel_handler_spl load_lifecycle_spl load_config load_session
  cancel_spl-IsQuiet k h =
      written-IsQuiet w w' k.session (cancel_spl-WritesAt ch tx w k h)
        (λ s s' read read'. ground arith)

  pub expire_spl-IsQuiet : (k : LifecycleSpl) → expire_session_spl ch tx w k ≡ ok w' → IsQuiet w w'
  unfolding expire_session_spl expire_handler_spl load_lifecycle_spl load_config load_session
  expire_spl-IsQuiet k h =
      written-IsQuiet w w' k.session (expire_spl-WritesAt ch tx w k h)
        (λ s s' read read'. ground arith)
