-- ===== src/Vault/Payments.antt =====
-- What the token instructions take out of the accounts of a session's vault authority (spl.rs).
use sol_mesh.Base.{ℕ, ◌+◌, ◌-◌, ◌≡◌, subst, inl, inr, Bool, true, false, arith}
use sol_mesh.Errors.{ok, Result-cases, >>=-eq-ok}
use sol_mesh.State.{Node, Session}
use sol_mesh.Message.{StateUpdate}
use sol_mesh.Runtime.{Chain, Tx, Tokens}
use sol_mesh.Runtime.Laws.{IsTokenChain}
use sol_mesh.Accounts.{Loaded}
use sol_mesh.Shared.{fee_for}
use sol_mesh.Settle.Effects.{refund_of}
use sol_mesh.Spl.{
  SettleSpl, FinalizeCloseSpl, pay_provider_spl, refund_unless_spl, vault_pays, apply_state_spl,
  finalize_handler_spl,
}
use sol_mesh.Spl.Lifecycle.{LifecycleSpl, cancel_handler_spl, expire_handler_spl}
use sol_mesh.Protocol.Edges.{IsLive}
use sol_mesh.Vault.Draws.{Draws, Draws-none, Draws-trans, transfer_from_vault-Draws}

module _ (ch : Chain) (laws : IsTokenChain ch) (tx : Tx) where
  pay_provider_spl-Draws :
      (k : SettleSpl) (s : Session) (amount fee : ℕ) (t : Tokens) {t' : Tokens}
      → pay_provider_spl ch k s amount fee t ≡ ok t'
      → Draws ch k.vault_authority (amount + fee) t t'
  unfolding pay_provider_spl
  pay_provider_spl-Draws k s amount fee t {t'} h =
      let (u, first, second) = >>=-eq-ok _ _ h in
      Draws-trans ch k.vault_authority amount fee t u t'
        (transfer_from_vault-Draws ch laws k.vault_token k.provider_token k.vault_authority
          k.session s.vault_bump amount t first)
        (transfer_from_vault-Draws ch laws k.vault_token k.fee_token k.vault_authority k.session
          s.vault_bump fee u second)

  refund_unless_spl-Draws :
      (is_checkpoint : Bool) (k : SettleSpl) (s : Session) (state : StateUpdate) (t : Tokens)
      {t' : Tokens}
      → refund_unless_spl is_checkpoint ch k s state t ≡ ok t'
      → Draws ch k.vault_authority (refund_of is_checkpoint s state) t t'
  refund_unless_spl-Draws true k s state t h =
      subst (Draws ch k.vault_authority 0 t) {x = t} (ground arith)
        (Draws-none ch k.vault_authority 0 t)
  refund_unless_spl-Draws false k s state t h =
      transfer_from_vault-Draws ch laws k.vault_token k.consumer_token k.vault_authority k.session
        s.vault_bump (s.deposited - state.owed_to_provider) t (ground arith)

  pub apply_state_spl-Draws :
      (k : SettleSpl) (l : Loaded) (t : Tokens) (state : StateUpdate) (is_checkpoint : Bool)
      {n : Node} {s : Session} {t' : Tokens}
      → apply_state_spl ch tx k l t state is_checkpoint ≡ ok (n, s, t')
      → Draws ch k.vault_authority
          (state.owed_to_provider
            - l.session.settled_to_provider
            + refund_of is_checkpoint l.session state)
          t
          t'
  unfolding apply_state_spl
  apply_state_spl-Draws k l t state is_checkpoint {t' = t'} h =
      elim (Result-cases (fee_for delta l.config.fee_bps)) [
        | inl (e, failed) ↦ absurd (ground arith)
        | inr (fee, charged) ↦
            elim (Result-cases (pay_provider_spl ch k l.session (delta - fee) fee t)) [
              | inl (e, failed) ↦ absurd (ground arith)
              | inr (u, paid) ↦
                  elim (Result-cases (refund_unless_spl is_checkpoint ch k l.session state u)) [
                    | inl (e, failed) ↦ absurd (ground arith)
                    | inr (v, refunded) ↦
                        let first = pay_provider_spl-Draws k l.session (delta - fee) fee t paid in
                        let second =
                          refund_unless_spl-Draws is_checkpoint k l.session state u refunded in
                        let both =
                          Draws-trans ch k.vault_authority (delta - fee + fee)
                            (refund_of is_checkpoint l.session state) t u v first second in
                        let whole : delta - fee + fee ≡ delta = ground arith in
                        subst
                          (Draws ch k.vault_authority
                            (delta + refund_of is_checkpoint l.session state) t)
                          {x = v} (ground arith) (rw whole at both)
                  ]
            ]
      ]
    where
      delta : ℕ
      delta = state.owed_to_provider - l.session.settled_to_provider

  pub finalize_spl-Draws :
      (k : FinalizeCloseSpl) (l : Loaded) (t : Tokens) {n : Node} {s : Session} {t' : Tokens}
      → finalize_handler_spl ch tx k l t ≡ ok (n, s, t')
      → (amount : ℕ) × Draws ch k.vault_authority amount t t'
  unfolding finalize_handler_spl
  finalize_spl-Draws k l t {t' = t'} h = elim (Result-cases (fee_for delta l.config.fee_bps)) [
    | inl (e, failed) ↦ absurd (ground arith)
    | inr (fee, charged) ↦
        elim (Result-cases (pay_provider_spl ch k l.session (delta - fee) fee t)) [
          | inl (e, failed) ↦ absurd (ground arith)
          | inr (u, paid) ↦
              elim (Result-cases (vault_pays ch k l.session k.consumer_token rest u)) [
                | inl (e, failed) ↦ absurd (ground arith)
                | inr (v, refunded) ↦
                    let first = pay_provider_spl-Draws k l.session (delta - fee) fee t paid in
                    let second =
                      transfer_from_vault-Draws ch laws k.vault_token k.consumer_token
                        k.vault_authority k.session l.session.vault_bump rest u refunded in
                    (
                      delta - fee + fee + rest,
                      subst (Draws ch k.vault_authority (delta - fee + fee + rest) t) {x = v}
                          (ground arith)
                          (Draws-trans ch k.vault_authority (delta - fee + fee) rest t u v first
                            second),
                    )
              ]
        ]
  ]
    where
      delta : ℕ
      delta = l.session.pending_payout - l.session.settled_to_provider

      rest : ℕ
      rest = l.session.deposited - l.session.pending_payout

  pub cancel_spl-Draws :
      (k : LifecycleSpl) (s : Session) (t : Tokens) {s' : Session} {t' : Tokens}
      → cancel_handler_spl ch k s t ≡ ok (s', t')
      → Draws ch k.vault_authority (s.deposited - s.settled_to_provider) t t' × (¬ IsLive s')
  unfolding cancel_handler_spl
  cancel_spl-Draws k s t h = (
    transfer_from_vault-Draws ch laws k.vault_token k.consumer_token k.vault_authority k.session
        s.vault_bump (s.deposited - s.settled_to_provider) t (ground arith),
    λ live. ground arith,
  )

  pub expire_spl-Draws :
      (k : LifecycleSpl) (s : Session) (t : Tokens) {s' : Session} {t' : Tokens}
      → expire_handler_spl ch tx k s t ≡ ok (s', t')
      → Draws ch k.vault_authority (s.deposited - s.settled_to_provider) t t' × (¬ IsLive s')
  unfolding expire_handler_spl
  expire_spl-Draws k s t h = (
    transfer_from_vault-Draws ch laws k.vault_token k.consumer_token k.vault_authority k.session
        s.vault_bump (s.deposited - s.settled_to_provider) t (ground arith),
    λ live. ground arith,
  )
