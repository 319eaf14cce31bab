-- ===== src/Vault/Elsewhere.antt =====
-- A settlement that names another account of the vault authority as the vault (spl.rs).
use sol_mesh.Base.{
  ℕ, ◌-◌, ◌≡◌, ◌≢◌, ◌∙◌, inl, inr, Bool, true, false, some, arith, ◌==◌, Bool-cases, subst,
}
use sol_mesh.Errors.{ok, Result-cases, >>=-eq-ok}
use sol_mesh.State.{Session, Node, settled}
use sol_mesh.Message.{StateUpdate}
use sol_mesh.Runtime.{Chain, Tx, World, Tokens, TokenAccount}
use sol_mesh.Runtime.Laws.{IsChain, IsTokenChain, IsSigned, Keeps}
use sol_mesh.Accounts.{Loaded}
use sol_mesh.Program.{Call, Reach, dispatch, instruction}
use sol_mesh.Protocol.Histories.{IsSoundWorld, Step-IsSoundWorld}
use sol_mesh.Protocol.Lives.{Reach-closed}
use sol_mesh.Spl.Effects.{apply_state_spl-SettlesSpl}
use sol_mesh.Vault.{authority_of}
use sol_mesh.Vault.Lives.{Reach-locked}
use sol_mesh.Protocol.Edges.{IsLive}
use sol_mesh.Shared.{fee_for, transfer_from_vault}
use sol_mesh.Spl.{
  SettleSpl, load_settle_spl, pay_provider_spl, refund_unless_spl, apply_state_spl, run_settle_spl,
  settle_session_spl,
}

-- What an account held is there still, across two changes.
Keeps-trans :
    (t u : Tokens) (j : ℕ) (a : TokenAccount) (b : Keeps t j a) → Keeps u j b.0 → Keeps u j a
Keeps-trans t u j a (b, at_b, same, le) (c, at_c, same', le') =
    (c, at_c, ground (arith, same, same'), ground (arith, le, le'))

module _ (ch : Chain) (laws : IsTokenChain ch) (j : ℕ) where
  transfer_from_vault-Keeps :
      (from to owner session bump amount : ℕ) (t : Tokens) (a : TokenAccount) {t' : Tokens}
      → transfer_from_vault ch from to owner session bump amount t ≡ ok t'
      → j ≢ from
      → t j ≡ some a
      → Keeps t' j a
  unfolding transfer_from_vault
  transfer_from_vault-Keeps from to owner session bump amount t a {t'} h apart read =
      elim (Bool-cases (amount == 0)) [
        | inl e ↦ (a, ground arith, ground arith, ground arith)
        | inr e ↦
            let (b, at_b, same, balance, still) =
              laws.moved from to owner amount t {t' = t'} j a (ground arith) read in
            (b, at_b, same, ground (arith, balance))
      ]

  pay_provider_spl-Keeps :
      (k : SettleSpl) (s : Session) (amount fee : ℕ) (t : Tokens) (a : TokenAccount) {t' : Tokens}
      → pay_provider_spl ch k s amount fee t ≡ ok t'
      → j ≢ k.vault_token
      → t j ≡ some a
      → Keeps t' j a
  unfolding pay_provider_spl
  pay_provider_spl-Keeps k s amount fee t a {t'} h apart read =
      let (u, first, second) = >>=-eq-ok _ _ h in
      let b =
        transfer_from_vault-Keeps k.vault_token k.provider_token k.vault_authority k.session
          s.vault_bump amount t a first apart read in
      Keeps-trans u t' j a b (
        transfer_from_vault-Keeps k.vault_token k.fee_token k.vault_authority k.session s.vault_bump
          fee u b.0 second apart b.1)

  refund_unless_spl-Keeps :
      (is_checkpoint : Bool) (k : SettleSpl) (s : Session) (state : StateUpdate) (t : Tokens)
      (a : TokenAccount) {t' : Tokens}
      → refund_unless_spl is_checkpoint ch k s state t ≡ ok t'
      → j ≢ k.vault_token
      → t j ≡ some a
      → Keeps t' j a
  refund_unless_spl-Keeps true k s state t a {t'} h apart read =
      (a, ground arith, ground arith, ground arith)
  refund_unless_spl-Keeps false k s state t a {t'} h apart read =
      transfer_from_vault-Keeps k.vault_token k.consumer_token k.vault_authority k.session
        s.vault_bump (s.deposited - state.owed_to_provider) t a {t' = t'} (ground arith) apart read

  apply_state_spl-Keeps :
      (tx : Tx) (k : SettleSpl) (l : Loaded) (t : Tokens) (state : StateUpdate)
      (is_checkpoint : Bool) (a : TokenAccount) {n : Node} {s : Session} {t' : Tokens}
      → apply_state_spl ch tx k l t state is_checkpoint ≡ ok (n, s, t')
      → j ≢ k.vault_token
      → t j ≡ some a
      → Keeps t' j a
  unfolding apply_state_spl
  apply_state_spl-Keeps tx k l t state is_checkpoint a {t' = t'} h apart read =
      elim (Result-cases (fee_for delta l.config.fee_bps)) [
        | inl (e, failed) ↦ absurd (ground arith)
        | inr (fee, charged) ↦
            elim (Result-cases (pay_provider_spl ch k l.session (delta - fee) fee t)) [
              | inl (e, failed) ↦ absurd (ground arith)
              | inr (u, paid) ↦
                  elim (Result-cases (refund_unless_spl is_checkpoint ch k l.session state u)) [
                    | inl (e, failed) ↦ absurd (ground arith)
                    | inr (v, refunded) ↦
                        let b =
                          pay_provider_spl-Keeps k l.session (delta - fee) fee t a paid apart
                            read in
                        let c =
                          refund_unless_spl-Keeps is_checkpoint k l.session state u b.0 refunded
                            apart b.1 in
                        subst (λ (x : Tokens). Keeps x j a) {x = v} {y = t'} (ground arith)
                          (Keeps-trans u v j a b c)
                  ]
            ]
      ]
    where
      delta : ℕ
      delta = state.owed_to_provider - l.session.settled_to_provider

-- A token settlement leaves its session settled, and every token account but the one that is named as
-- the vault keeps what it held.
run_settle_spl-Keeps :
    (ch : Chain) (tx : Tx) (w : World) (k : SettleSpl) (state : StateUpdate) (j : ℕ)
    (a : TokenAccount) {w' : World}
    → IsTokenChain ch
    → run_settle_spl ch tx w k state false ≡ ok w'
    → j ≢ k.vault_token
    → w.tokens j ≡ some a
    → (s : Session) × (w'.sessions k.session ≡ some s) × (s.status ≡ settled) × Keeps w'.tokens j a
unfolding run_settle_spl
run_settle_spl-Keeps ch tx w k state j a {w'} laws h apart read =
    elim (Result-cases (load_settle_spl ch tx w k)) [
      | inl (e, failed) ↦ absurd (ground arith)
      | inr (l, loaded) ↦ elim (Result-cases (apply_state_spl ch tx k l w.tokens state false)) [
        | inl (e, failed) ↦ absurd (ground arith)
        | inr ((n, s, t), applied) ↦
            let after =
              (apply_state_spl-SettlesSpl ch tx k l w.tokens state false applied).session_after in
            (
              s,
              ground arith,
              ground (arith, after),
              subst (λ (x : Tokens). Keeps x j a) {x = t} {y = w'.tokens} (ground arith)
                  (apply_state_spl-Keeps ch laws j tx k l w.tokens state false a applied apart
                    read),
            )
      ]
    ]

-- On a chain and a token program that meet their documentation, from a state in which all sessions
-- are sound: when a token settlement names some other token account as the vault, the session is
-- settled, and whatever its vault authority owns but in that account stays there in every later
-- history.
pub settled_elsewhere :
    (ch : Chain) (tx : Tx) (w : World) (k : SettleSpl) (state : StateUpdate) (j : ℕ)
    (a : TokenAccount) {w' v : World}
    → IsChain ch
    → IsTokenChain ch
    → IsSigned ch tx
    → IsSoundWorld ch w
    → dispatch ch tx (Call.settle_session_spl k state) w ≡ ok w'
    → j ≢ k.vault_token
    → w.tokens j ≡ some a
    → a.owner ≡ authority_of ch k.session
    → Reach ch w' v
    → (s : Session) × (v.sessions k.session ≡ some s) × (s.status ≡ settled) × Keeps v.tokens j a
unfolding dispatch settle_session_spl
settled_elsewhere ch tx w k state j a {w'} {v} laws token_laws signed sound h apart read owned r =
    let (s, at_s, closed, b) = run_settle_spl-Keeps ch tx w k state j a token_laws h apart read in
    let dead : ¬ IsLive s = λ live. ground arith in
    let sound' =
      Step-IsSoundWorld ch laws (instruction tx (Call.settle_session_spl k state) signed h) sound in
    (
      s,
      Reach-closed ch k.session s laws sound' r at_s dead,
      closed,
      Keeps-trans w'.tokens v.tokens j a b (
          Reach-locked ch k.session j s b.0 laws token_laws sound' r at_s dead b.1
            (b.2.same_owner ∙ owned)),
    )
