-- ===== src/Vault/Settlements.antt =====
-- That a settlement or a checkpoint in tokens goes through (`run_settle_spl` of spl.rs).
use sol_mesh.Base.{ℕ, ◌+◌, ◌-◌, ◌*◌, ◌/◌, ◌≤◌, ◌<◌, ◌≡◌, inl, Bool, true, false, some, arith}
use sol_mesh.Base.Words.{IsU64, saturating_sub}
use sol_mesh.Constants.{max_fee_bps}
use sol_mesh.Errors.{ok}
use sol_mesh.State.{Node, Session, opened}
use sol_mesh.Message.{StateUpdate}
use sol_mesh.Runtime.{Chain, Tx, World, Tokens}
use sol_mesh.Runtime.Laws.{IsChain, IsTokenChain, IsTokenPayer}
use sol_mesh.Accounts.{Loaded}
use sol_mesh.Program.{Reach}
use sol_mesh.Protocol.Histories.{IsSoundWorld, Reach-IsSoundWorld}
use sol_mesh.Registry.Histories.{IsRegistry, Reach-IsRegistry}
use sol_mesh.Shared.{fee_for, verify_cosigned_state}
use sol_mesh.Shared.Cosigned.{verify-IsCosigned}
use sol_mesh.Shared.Fees.{fee_for_exact, fee_for_bounds}
use sol_mesh.Settle.{settled_session}
use sol_mesh.Settle.Payable.{credited}
use sol_mesh.Spl.{
  SettleSpl, pay_provider_spl, refund_unless_spl, apply_state_spl, run_settle_spl, vault_pays,
  store_spl,
}
use sol_mesh.Vault.Named.{NamesSpl, load_settle_spl_goes_through, payments_go_through}
use sol_mesh.Vault.Histories.{IsCovered, IsCoveredWorld, Reach-IsCovered}

apply_state_spl-eq :
    (ch : Chain) (tx : Tx) (k : SettleSpl) (l : Loaded) (t : Tokens) (state : StateUpdate)
    (cp : Bool) (mint fee : ℕ) (t2 t3 : Tokens)
    → let delta = state.owed_to_provider - l.session.settled_to_provider in
      l.session.status ≡ opened
      → l.session.mint ≡ some mint
      → l.session.last_nonce < state.nonce
      → verify_cosigned_state ch l.session k.session state tx.sysvar ≡ ok tt
      → l.session.settled_to_provider ≤ state.owed_to_provider
      → fee ≤ delta
      → IsU64 (l.node.total_units + saturating_sub state.units_consumed l.session.pending_units)
      → IsU64 (l.node.total_settled + (delta - fee))
      → fee_for delta l.config.fee_bps ≡ ok fee
      → pay_provider_spl ch k l.session (delta - fee) fee t ≡ ok t2
      → refund_unless_spl cp ch k l.session state t2 ≡ ok t3
      → apply_state_spl ch tx k l t state cp
        ≡ ok (credited l state fee, settled_session cp l.session state, t3)
unfolding apply_state_spl
apply_state_spl-eq ch tx k l t state cp mint fee t2 t3 status in_tokens fresh signed lo le units
      total charged paid refunded =
    ground arith

-- A checkpoint refunds nothing, and a settlement what the payment to the consumer leaves.
refund_spl_goes_through :
    (ch : Chain) (cp : Bool) (k : SettleSpl) (s : Session) (state : StateUpdate) (t2 t3 : Tokens)
    → state.owed_to_provider ≤ s.deposited
    → vault_pays ch k s k.consumer_token (s.deposited - state.owed_to_provider) t2 ≡ ok t3
    → (t' : Tokens) × (refund_unless_spl cp ch k s state t2 ≡ ok t')
refund_spl_goes_through ch true k s state t2 t3 hi paid = (t2, ground arith)
refund_spl_goes_through ch false k s state t2 t3 hi paid = (t3, ground (arith, paid))

module _ (ch : Chain) (tx : Tx) (w : World) (k : SettleSpl) (l : Loaded) (mint : ℕ)
    (names : NamesSpl ch tx w k l mint) (laws : IsChain ch) (token_laws : IsTokenChain ch)
    (payer : IsTokenPayer ch) (covered : IsCovered ch w.tokens k.session mint l.session) where
  apply_state_spl_goes_through :
      (state : StateUpdate) (cp : Bool)
      → l.session.status ≡ opened
      → l.session.mint ≡ some mint
      → l.session.last_nonce < state.nonce
      → verify_cosigned_state ch l.session k.session state tx.sysvar ≡ ok tt
      → l.config.fee_bps ≤ max_fee_bps
      → IsU64 (l.node.total_units + state.units_consumed)
      → (n : Node) × (t' : Tokens) × (apply_state_spl ch tx k l w.tokens state cp
          ≡ ok (n, settled_session cp l.session state, t'))
  apply_state_spl_goes_through state cp status in_tokens fresh signed cap units_room =
      let c = verify-IsCosigned ch l.session k.session state tx.sysvar signed in
      let delta = state.owed_to_provider - l.session.settled_to_provider in
      let fee = delta * l.config.fee_bps / 10000 in
      let rest = l.session.deposited - state.owed_to_provider in
      let small : IsU64 delta = omega (arith, names.settled_room, c.covered) in
      let charged = fee_for_exact delta l.config.fee_bps small cap in
      let bound = fee_for_bounds delta l.config.fee_bps small cap charged in
      let (t2, paid, t3, rest_paid) =
        payments_go_through ch tx w k l mint names laws token_laws payer covered (delta - fee) fee
          rest (omega (arith, bound, c.covered, c.not_decreased)) in
      let (t', refunded) =
        refund_spl_goes_through ch cp k l.session state t2 t3 c.covered rest_paid in
      (
        credited l state fee,
        t',
        apply_state_spl-eq ch tx k l w.tokens state cp mint fee t2 t' status in_tokens fresh signed
            c.not_decreased (omega (arith, bound)) (ground (arith, units_room))
            (omega (arith, names.settled_room, c.covered)) charged paid refunded,
      )

-- On a chain and a token program that meet their documentation, after any history from a state in
-- which all sessions are sound, all live token sessions covered, and all configurations and nodes
-- as the program writes them: a settlement or checkpoint of an open token session goes through
-- with the session's own vault and every newer state that both parties have signed, and records
-- it, if it names the accounts that belong together, its payer has signed, the paid accounts are
-- of the session's mint, neither the vault nor a paid account is frozen, and no balance or counter
-- overflows.
pub settlement_spl_goes_through :
    (ch : Chain) (tx : Tx) {w w' : World} (k : SettleSpl) (l : Loaded) (mint : ℕ)
    (state : StateUpdate) (cp : Bool)
    → IsChain ch
    → IsTokenChain ch
    → IsTokenPayer ch
    → IsSoundWorld ch w
    → IsRegistry ch w
    → IsCoveredWorld ch w
    → Reach ch w w'
    → NamesSpl ch tx w' k l mint
    → l.session.mint ≡ some mint
    → l.session.status ≡ opened
    → l.session.last_nonce < state.nonce
    → verify_cosigned_state ch l.session k.session state tx.sysvar ≡ ok tt
    → IsU64 (l.node.total_units + state.units_consumed)
    → (v : World) × (run_settle_spl ch tx w' k state cp ≡ ok v)
      × (v.sessions k.session ≡ some (settled_session cp l.session state))
unfolding run_settle_spl
settlement_spl_goes_through ch tx {w} {w'} k l mint state cp laws token_laws payer sound registry
      covered r names in_tokens status fresh signed units_room =
    let h = Reach-IsSoundWorld ch laws r sound in
    let g = Reach-IsRegistry ch laws r registry in
    let c =
      Reach-IsCovered ch laws token_laws r sound covered k.session mint l.session names.session_read
        in_tokens (inl status) in
    let cap = (g.configs_at k.config l.config names.config_read).bounds.fee_capped in
    let loaded = load_settle_spl_goes_through ch tx w' k l mint names h g c in
    let (n, t, applied) =
      apply_state_spl_goes_through ch tx w' k l mint names laws token_laws payer c state cp status
        in_tokens fresh signed cap units_room in
    (
      store_spl w' k (n, settled_session cp l.session state, t),
      ground (arith, loaded, applied),
      ground arith,
    )
