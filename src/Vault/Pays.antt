-- ===== src/Vault/Pays.antt =====
-- The token instructions by what they write and what they draw (spl.rs).
use sol_mesh.Base.{ℕ, ◌+◌, ◌-◌, ◌≤◌, ◌≡◌, refl, subst, inl, inr, Bool, true, false, some, arith}
use sol_mesh.Errors.{ok, Result-cases}
use sol_mesh.State.{Session}
use sol_mesh.Message.{StateUpdate}
use sol_mesh.Runtime.{Chain, Tx, World}
use sol_mesh.Runtime.Laws.{IsTokenChain}
use sol_mesh.Accounts.{Loaded, load_config, load_node, load_session}
use sol_mesh.Settle.{settled_session}
use sol_mesh.Settle.Effects.{refund_of}
use sol_mesh.Spl.{
  SettleSpl, FinalizeCloseSpl, load_settle_spl, apply_state_spl, run_settle_spl,
  finalize_handler_spl, finalize_close_spl,
}
use sol_mesh.Spl.Effects.{apply_state_spl-SettlesSpl, finalize_spl-FinalizesSpl, load_settle_spl-eq}
use sol_mesh.Spl.Lifecycle.{
  LifecycleSpl, load_lifecycle_spl, cancel_handler_spl, expire_handler_spl, cancel_session_spl,
  expire_session_spl,
}
use sol_mesh.Protocol.Edges.{IsLive, WritesAt}
use sol_mesh.Protocol.Payouts.{run_settle_spl-WritesAt, finalize_close_spl-WritesAt}
use sol_mesh.Protocol.Refunds.{cancel_spl-WritesAt, expire_spl-WritesAt}
use sol_mesh.Vault.{authority_of}
use sol_mesh.Vault.Draws.{Draws}
use sol_mesh.Vault.Payments.{
  apply_state_spl-Draws, finalize_spl-Draws, cancel_spl-Draws, expire_spl-Draws,
}

-- An instruction has written the session at `key`, and taken from the accounts of its vault authority
-- no more than it has recorded, if the session goes on.
pub record Pays (ch : Chain) (w w' : World) (key : ℕ) : Type 0 where
  pub written : WritesAt w w' key
  pub amount : ℕ
  pub draws : Draws ch (authority_of ch key) amount w.tokens w'.tokens
  pub recorded :
      (s s' : Session)
      → w.sessions key ≡ some s
      → w'.sessions key ≡ some s'
      → IsLive s'
      → amount + s.settled_to_provider ≤ s'.settled_to_provider

-- A session that goes on after a settlement has been refunded nothing.
live_unrefunded :
    (is_checkpoint : Bool) (s : Session) (state : StateUpdate)
    → IsLive (settled_session is_checkpoint s state)
    → refund_of is_checkpoint s state ≡ 0
live_unrefunded true s state live = refl
live_unrefunded false s state live = ground arith

-- The authority that the constraints accept is the session's.
load_settle_spl-authority :
    (ch : Chain) (tx : Tx) (w : World) (k : SettleSpl) {l : Loaded}
    → load_settle_spl ch tx w k ≡ ok l
    → authority_of ch k.session ≡ k.vault_authority
unfolding load_settle_spl load_config load_node load_session
load_settle_spl-authority ch tx w k h = ground arith

load_lifecycle_spl-authority :
    (ch : Chain) (tx : Tx) (w : World) (k : LifecycleSpl) {s : Session}
    → load_lifecycle_spl ch tx w k ≡ ok s
    → authority_of ch k.session ≡ k.vault_authority
unfolding load_lifecycle_spl load_config load_session
load_lifecycle_spl-authority ch tx w k h = ground arith

module _ (ch : Chain) (laws : IsTokenChain ch) (tx : Tx) (w : World) {w' : World} where
  pub run_settle_spl-Pays :
      (k : SettleSpl) (state : StateUpdate) (is_checkpoint : Bool)
      → run_settle_spl ch tx w k state is_checkpoint ≡ ok w'
      → Pays ch w w' k.session
  unfolding run_settle_spl
  run_settle_spl-Pays k state is_checkpoint h = elim (Result-cases (load_settle_spl ch tx w k)) [
    | inl (e, failed) ↦ absurd (ground arith)
    | inr (l, read) ↦ elim (Result-cases (apply_state_spl ch tx k l w.tokens state is_checkpoint)) [
      | inl (e, failed) ↦ absurd (ground arith)
      | inr ((n, s, t), applied) ↦
          let a = apply_state_spl-SettlesSpl ch tx k l w.tokens state is_checkpoint applied in
          let drawn = apply_state_spl-Draws ch laws tx k l w.tokens state is_checkpoint applied in
          let amount =
            state.owed_to_provider
            - l.session.settled_to_provider
            + refund_of is_checkpoint l.session state in
          record {
            written = run_settle_spl-WritesAt ch tx w k state is_checkpoint h;
            amount = amount;
            draws =
                subst (Draws ch (authority_of ch k.session) amount w.tokens) {x = t} (ground arith)
                  (rw (load_settle_spl-authority ch tx w k read) drawn);
            recorded = λ u u' at_u at_u' live. ground (
              arith,
              load_settle_spl-eq ch tx w k read,
              a.session_after,
              a.cosigned.not_decreased,
              live_unrefunded is_checkpoint l.session state,
            );
          }
    ]
  ]

  pub finalize_close_spl-Pays :
      (k : FinalizeCloseSpl) → finalize_close_spl ch tx w k ≡ ok w' → Pays ch w w' k.session
  unfolding finalize_close_spl
  finalize_close_spl-Pays k h = elim (Result-cases (load_settle_spl ch tx w k)) [
    | inl (e, failed) ↦ absurd (ground arith)
    | inr (l, read) ↦ elim (Result-cases (finalize_handler_spl ch tx k l w.tokens)) [
      | inl (e, failed) ↦ absurd (ground arith)
      | inr ((n, s, t), applied) ↦
          let a = finalize_spl-FinalizesSpl ch tx k l w.tokens applied in
          let (amount, drawn) = finalize_spl-Draws ch laws tx k l w.tokens applied in
          record {
            written = finalize_close_spl-WritesAt ch tx w k h;
            amount = amount;
            draws =
                subst (Draws ch (authority_of ch k.session) amount w.tokens) {x = t} (ground arith)
                  (rw (load_settle_spl-authority ch tx w k read) drawn);
            recorded = λ u u' at_u at_u' live. ground (arith, a.session_after);
          }
    ]
  ]

  pub cancel_session_spl-Pays :
      (k : LifecycleSpl) → cancel_session_spl ch tx w k ≡ ok w' → Pays ch w w' k.session
  unfolding cancel_session_spl
  cancel_session_spl-Pays k h = elim (Result-cases (load_lifecycle_spl ch tx w k)) [
    | inl (e, failed) ↦ absurd (ground arith)
    | inr (s, read) ↦ elim (Result-cases (cancel_handler_spl ch k s w.tokens)) [
      | inl (e, failed) ↦ absurd (ground arith)
      | inr ((s', t), applied) ↦
          let (drawn, dead) = cancel_spl-Draws ch laws tx k s w.tokens applied in
          let amount = s.deposited - s.settled_to_provider in
          record {
            written = cancel_spl-WritesAt ch tx w k h;
            amount = amount;
            draws =
                subst (Draws ch (authority_of ch k.session) amount w.tokens) {x = t} (ground arith)
                  (rw (load_lifecycle_spl-authority ch tx w k read) drawn);
            recorded = λ u u' at_u at_u' live.
                let same : u' ≡ s' = ground arith in absurd (dead (subst IsLive same live));
          }
    ]
  ]

  pub expire_session_spl-Pays :
      (k : LifecycleSpl) → expire_session_spl ch tx w k ≡ ok w' → Pays ch w w' k.session
  unfolding expire_session_spl
  expire_session_spl-Pays k h = elim (Result-cases (load_lifecycle_spl ch tx w k)) [
    | inl (e, failed) ↦ absurd (ground arith)
    | inr (s, read) ↦ elim (Result-cases (expire_handler_spl ch tx k s w.tokens)) [
      | inl (e, failed) ↦ absurd (ground arith)
      | inr ((s', t), applied) ↦
          let (drawn, dead) = expire_spl-Draws ch laws tx k s w.tokens applied in
          let amount = s.deposited - s.settled_to_provider in
          record {
            written = expire_spl-WritesAt ch tx w k h;
            amount = amount;
            draws =
                subst (Draws ch (authority_of ch k.session) amount w.tokens) {x = t} (ground arith)
                  (rw (load_lifecycle_spl-authority ch tx w k read) drawn);
            recorded = λ u u' at_u at_u' live.
                let same : u' ≡ s' = ground arith in absurd (dead (subst IsLive same live));
          }
    ]
  ]
