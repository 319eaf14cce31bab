-- ===== src/Vault/Payouts.antt =====
-- That a payout in tokens goes through after the window (`finalize_close_spl` of spl.rs).
use sol_mesh.Base.{ℕ, ◌+◌, ◌-◌, ◌*◌, ◌/◌, ◌≤◌, ◌≡◌, inr, some, arith}
use sol_mesh.Base.Int.{◌<ℤ◌}
use sol_mesh.Base.Words.{IsU64}
use sol_mesh.Constants.{max_fee_bps}
use sol_mesh.Errors.{ok}
use sol_mesh.State.{Node, closing}
use sol_mesh.Runtime.{Chain, Tx, World, Tokens}
use sol_mesh.Runtime.Laws.{IsChain, IsTokenChain, IsTokenPayer}
use sol_mesh.Accounts.{Loaded}
use sol_mesh.Program.{Reach}
use sol_mesh.Protocol.Histories.{IsSoundWorld, Reach-IsSoundWorld}
use sol_mesh.Registry.Histories.{IsRegistry, Reach-IsRegistry}
use sol_mesh.Shared.{fee_for}
use sol_mesh.Shared.Fees.{fee_for_exact, fee_for_bounds}
use sol_mesh.Dispute.{finalized_session}
use sol_mesh.Dispute.Payable.{credited}
use sol_mesh.Spl.{
  FinalizeCloseSpl, pay_provider_spl, finalize_handler_spl, finalize_close_spl, vault_pays,
  store_spl,
}
use sol_mesh.Vault.Named.{NamesSpl, load_settle_spl_goes_through, payments_go_through}
use sol_mesh.Vault.Histories.{IsCovered, IsCoveredWorld, Reach-IsCovered}

finalize_spl-eq :
    (ch : Chain) (tx : Tx) (k : FinalizeCloseSpl) (l : Loaded) (t : Tokens) (mint fee : ℕ)
    (t2 t3 : Tokens)
    → let delta = l.session.pending_payout - l.session.settled_to_provider in
      l.session.status ≡ closing
      → l.session.mint ≡ some mint
      → l.session.challenge_deadline <ℤ tx.now
      → l.session.settled_to_provider ≤ l.session.pending_payout
      → l.session.pending_payout ≤ l.session.deposited
      → fee ≤ delta
      → IsU64 (l.node.total_units + l.session.pending_units)
      → IsU64 (l.node.total_settled + (delta - fee))
      → fee_for delta l.config.fee_bps ≡ ok fee
      → pay_provider_spl ch k l.session (delta - fee) fee t ≡ ok t2
      → vault_pays ch k l.session k.consumer_token
          (l.session.deposited - l.session.pending_payout)
          t2
        ≡ ok t3
      → finalize_handler_spl ch tx k l t ≡ ok (credited l fee, finalized_session l.session, t3)
unfolding finalize_handler_spl
finalize_spl-eq ch tx k l t mint fee t2 t3 status in_tokens over lo hi le units total charged paid
      refunded =
    ground arith

module _ (ch : Chain) (tx : Tx) (w : World) (k : FinalizeCloseSpl) (l : Loaded) (mint : ℕ)
    (names : NamesSpl ch tx w k l mint) (laws : IsChain ch) (token_laws : IsTokenChain ch)
    (payer : IsTokenPayer ch) (covered : IsCovered ch w.tokens k.session mint l.session) where
  finalize_spl_goes_through :
      l.session.status ≡ closing
      → l.session.mint ≡ some mint
      → l.session.challenge_deadline <ℤ tx.now
      → l.session.settled_to_provider ≤ l.session.pending_payout
      → l.session.pending_payout ≤ l.session.deposited
      → l.config.fee_bps ≤ max_fee_bps
      → IsU64 (l.node.total_units + l.session.pending_units)
      → (n : Node) × (t' : Tokens) × (finalize_handler_spl ch tx k l w.tokens
          ≡ ok (n, finalized_session l.session, t'))
  finalize_spl_goes_through status in_tokens over lo hi cap units_room =
      let delta = l.session.pending_payout - l.session.settled_to_provider in
      let fee = delta * l.config.fee_bps / 10000 in
      let rest = l.session.deposited - l.session.pending_payout in
      let small : IsU64 delta = omega (arith, names.settled_room) in
      let charged = fee_for_exact delta l.config.fee_bps small cap in
      let bound = fee_for_bounds delta l.config.fee_bps small cap charged in
      let (t2, paid, t3, refunded) =
        payments_go_through ch tx w k l mint names laws token_laws payer covered (delta - fee) fee
          rest (omega (arith, bound)) in
      (
        credited l fee,
        t3,
        finalize_spl-eq ch tx k l w.tokens mint fee t2 t3 status in_tokens over lo hi
            (omega (arith, bound)) units_room (omega (arith, names.settled_room)) charged paid
            refunded,
      )

-- On a chain and a token program that meet their documentation, after any history from a state in
-- which all sessions are sound, all live token sessions covered, and all configurations and nodes
-- as the program writes them: once the window of a closing token session is over,
-- `finalize_close_spl` goes through with the session's own vault and settles the session at what
-- was posted last, if it names the accounts that belong together, its payer has signed, the paid
-- accounts are of the session's mint, neither the vault nor a paid account is frozen, and no balance
-- or counter overflows.
pub payout_spl_goes_through :
    (ch : Chain) (tx : Tx) {w w' : World} (k : FinalizeCloseSpl) (l : Loaded) (mint : ℕ)
    → IsChain ch
    → IsTokenChain ch
    → IsTokenPayer ch
    → IsSoundWorld ch w
    → IsRegistry ch w
    → IsCoveredWorld ch w
    → Reach ch w w'
    → NamesSpl ch tx w' k l mint
    → l.session.mint ≡ some mint
    → l.session.status ≡ closing
    → l.session.challenge_deadline <ℤ tx.now
    → IsU64 (l.node.total_units + l.session.pending_units)
    → (v : World) × (finalize_close_spl ch tx w' k ≡ ok v)
      × (v.sessions k.session ≡ some (finalized_session l.session))
unfolding finalize_close_spl
payout_spl_goes_through ch tx {w} {w'} k l mint laws token_laws payer sound registry covered r names
      in_tokens status over units_room =
    let h = Reach-IsSoundWorld ch laws r sound in
    let g = Reach-IsRegistry ch laws r registry in
    let c =
      Reach-IsCovered ch laws token_laws r sound covered k.session mint l.session names.session_read
        in_tokens (inr status) in
    let (lo, hi) = (h k.session l.session names.session_read).pending_within status in
    let cap = (g.configs_at k.config l.config names.config_read).bounds.fee_capped in
    let loaded = load_settle_spl_goes_through ch tx w' k l mint names h g c in
    let (n, t, applied) =
      finalize_spl_goes_through ch tx w' k l mint names laws token_laws payer c status in_tokens
        over lo hi cap units_room in
    (
      store_spl w' k (n, finalized_session l.session, t),
      ground (arith, loaded, applied),
      ground arith,
    )
