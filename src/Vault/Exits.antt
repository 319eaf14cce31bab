-- ===== src/Vault/Exits.antt =====
-- That deposits in tokens are not locked (lifecycle and payout instructions of spl.rs).
use sol_mesh.Base.{ℕ, ◌+◌, ◌-◌, ◌≡◌, ◌∙◌, ap, inl, inr, some, update, arith}
use sol_mesh.Base.Int.{◌<ℤ◌}
use sol_mesh.Errors.{ok}
use sol_mesh.State.{SessionStatus, opened, closing, expired}
use sol_mesh.Runtime.{Chain, Tx, World}
use sol_mesh.Runtime.Laws.{IsChain, IsTokenChain, IsTokenPayer}
use sol_mesh.Accounts.{Loaded, load_config, load_session}
use sol_mesh.Spl.{SettleSpl}
use sol_mesh.Spl.Lifecycle.{
  LifecycleSpl, load_lifecycle_spl, expire_handler_spl, expire_session_spl,
}
use sol_mesh.Program.{Call, Reach, dispatch}
use sol_mesh.Base.Words.{IsU64}
use sol_mesh.Protocol.Edges.{IsLive}
use sol_mesh.Protocol.Exits.{Ends, opened-Ends, closing-Ends}
use sol_mesh.Vault.Payouts.{payout_spl_goes_through}
use sol_mesh.Protocol.Histories.{IsSoundWorld, Reach-IsSoundWorld}
use sol_mesh.Registry.Histories.{IsRegistry, Reach-IsRegistry}
use sol_mesh.Vault.Histories.{IsCovered, IsCoveredWorld, Reach-IsCovered}
use sol_mesh.Vault.Named.{NamesSpl, refund_goes_through}

-- The accounts of a payout, as those of an expiry.
abbrev pub expiry_of : SettleSpl → LifecycleSpl
expiry_of k = record {
  config = k.config;
  session = k.session;
  consumer = k.consumer;
  vault_authority = k.vault_authority;
  vault_token = k.vault_token;
  consumer_token = k.consumer_token;
  signer = k.payer;
}

module _ (ch : Chain) (tx : Tx) (w : World) (k : SettleSpl) (l : Loaded) (mint : ℕ)
    (names : NamesSpl ch tx w k l mint) where
  load_lifecycle_spl_goes_through :
      IsSoundWorld ch w
      → IsRegistry ch w
      → IsCovered ch w.tokens k.session mint l.session
      → load_lifecycle_spl ch tx w (expiry_of k) ≡ ok l.session
  unfolding load_lifecycle_spl load_config load_session
  load_lifecycle_spl_goes_through sound registry covered =
      let at_config = (registry.configs_at k.config l.config names.config_read).at_address in
      let at_session = (sound k.session l.session names.session_read).at_address in
      let vault : w.tokens k.vault_token ≡ some covered.account =
        ap w.tokens names.of_vault ∙ covered.at_vault in
      ground (arith, at_config, at_session, vault, names, names.to_consumer.at_key)

  expiry_spl_goes_through :
      IsChain ch
      → IsTokenChain ch
      → IsTokenPayer ch
      → IsSoundWorld ch w
      → IsRegistry ch w
      → IsCovered ch w.tokens k.session mint l.session
      → l.session.mint ≡ some mint
      → l.session.status ≡ opened
      → l.session.expiry <ℤ tx.now
      → (v : World) × (expire_session_spl ch tx w (expiry_of k) ≡ ok v)
        × (v.sessions k.session ≡ some (record l.session { status = expired }))
  unfolding expire_session_spl expire_handler_spl
  expiry_spl_goes_through laws token_laws payer sound registry covered in_tokens status over =
      let lo = (sound k.session l.session names.session_read).within_deposit in
      let loaded = load_lifecycle_spl_goes_through sound registry covered in
      let (t', refunded) =
        refund_goes_through ch tx w k l mint names laws token_laws payer covered
          (l.session.deposited - l.session.settled_to_provider) (omega arith) in
      (
        record w {
          sessions = update w.sessions k.session (some (record l.session { status = expired }));
          tokens = t';
        },
        ground (arith, loaded, refunded, lo),
        ground arith,
      )

-- The instruction that ends a token session of a status, for the accounts of a payout.
abbrev pub exit_call_spl : SessionStatus → SettleSpl → Call
exit_call_spl closing k = Call.finalize_close_spl k
exit_call_spl _ k = Call.expire_session_spl (expiry_of k)

-- On a chain and a token program that meet their documentation, after any history from a state in
-- which all sessions are sound, all live token sessions covered, and all configurations and nodes
-- as the program writes them: a live token session, past its expiry if it is open and past its
-- window if it is closing, is ended by one instruction that anyone may send, an expiry or a payout
-- in tokens, which goes through with the session's own vault and settles it at what it promised;
-- if the instruction names the accounts that belong together, its payer has signed, the paid
-- accounts are of the session's mint, neither the vault nor a paid account is frozen, and no balance
-- or counter overflows.
pub session_exits_spl :
    (ch : Chain) (tx : Tx) {w w' : World} (k : SettleSpl) (l : Loaded) (mint : ℕ)
    → IsChain ch
    → IsTokenChain ch
    → IsTokenPayer ch
    → IsSoundWorld ch w
    → IsRegistry ch w
    → IsCoveredWorld ch w
    → Reach ch w w'
    → NamesSpl ch tx w' k l mint
    → l.session.mint ≡ some mint
    → IsLive l.session
    → (l.session.status ≡ opened → l.session.expiry <ℤ tx.now)
    → (l.session.status ≡ closing → l.session.challenge_deadline <ℤ tx.now)
    → IsU64 (l.node.total_units + l.session.pending_units)
    → (v : World) × (dispatch ch tx (exit_call_spl l.session.status k) w' ≡ ok v)
      × Ends v k.session l.session
unfolding dispatch
session_exits_spl ch tx {w} {w'} k l mint laws token_laws payer sound registry covered r names
      in_tokens (inl status) expiry_past window_past room =
    let c =
      Reach-IsCovered ch laws token_laws r sound covered k.session mint l.session names.session_read
        in_tokens (inl status) in
    let (v, done, stored) =
      expiry_spl_goes_through ch tx w' k l mint names laws token_laws payer
        (Reach-IsSoundWorld ch laws r sound) (Reach-IsRegistry ch laws r registry) c in_tokens
        status (expiry_past status) in
    (
      v,
      ap (λ (st : SessionStatus). dispatch ch tx (exit_call_spl st k) w') status ∙ done,
      opened-Ends v k.session l.session status stored,
    )
session_exits_spl ch tx {w} {w'} k l mint laws token_laws payer sound registry covered r names
      in_tokens (inr status) expiry_past window_past room =
    let (v, done, stored) =
      payout_spl_goes_through ch tx k l mint laws token_laws payer sound registry covered r names
        in_tokens status (window_past status) room in
    (
      v,
      ap (λ (st : SessionStatus). dispatch ch tx (exit_call_spl st k) w') status ∙ done,
      closing-Ends v k.session l.session status stored,
    )
