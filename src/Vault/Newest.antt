-- ===== src/Vault/Newest.antt =====
-- That the newest state wins a dispute over a token session (dispute.rs, and the payout of spl.rs).
use sol_mesh.Base.{ℕ, ◌+◌, ◌≡◌, ◌<◌, ◌⊎◌, inl, inr, some, refl, arith}
use sol_mesh.Base.Int.{◌<ℤ◌, ◌≤ℤ◌}
use sol_mesh.Base.Words.{IsU64}
use sol_mesh.Errors.{ok}
use sol_mesh.State.{Config, Session, closing}
use sol_mesh.Message.{StateUpdate}
use sol_mesh.Runtime.{Chain, Tx, World}
use sol_mesh.Runtime.Laws.{IsChain, IsSigned, IsTokenChain, IsTokenPayer}
use sol_mesh.Accounts.{Loaded}
use sol_mesh.Shared.{verify_cosigned_state}
use sol_mesh.Dispute.{UnilateralClose, challenge}
use sol_mesh.Spl.{FinalizeCloseSpl, finalize_close_spl}
use sol_mesh.Program.{Reach}
use sol_mesh.Protocol.Histories.{IsSoundWorld, Reach-IsSoundWorld}
use sol_mesh.Protocol.Exits.{NamesClose, posted_session, challenge_goes_through}
use sol_mesh.Protocol.Ends.{Reach-StillClosing}
use sol_mesh.Protocol.Newest.{
  IsPaid, IsNewest, challenged_world, challenged, newest_kept, settled-IsPaid, finalized-IsPaid,
}
use sol_mesh.Registry.Histories.{IsRegistry, Reach-IsRegistry}
use sol_mesh.Vault.Histories.{IsCoveredWorld, Reach-IsCovered}
use sol_mesh.Vault.Named.{NamesSpl}
use sol_mesh.Vault.Payouts.{payout_spl_goes_through}

-- Where the state of a dispute stays the newest, the token session is settled at it, by the first
-- payout after the window.
newest_spl-IsPaid :
    (ch : Chain) (tx : Tx) {w w' : World} (k : FinalizeCloseSpl) (l : Loaded) (mint : ℕ)
    (s : Session)
    → IsChain ch
    → IsTokenChain ch
    → IsTokenPayer ch
    → IsSoundWorld ch w
    → IsRegistry ch w
    → IsCoveredWorld ch w
    → w.sessions k.session ≡ some s
    → s.status ≡ closing
    → (r : Reach ch w w') → IsNewest ch r k.session s
    → s.challenge_deadline <ℤ tx.now
    → NamesSpl ch tx w' k l mint
    → l.session.mint ≡ some mint
    → IsU64 (l.node.total_units + l.session.pending_units)
    → IsPaid w' k.session s.pending_payout
      ⊎ ((v : World) × (finalize_close_spl ch tx w' k ≡ ok v) × IsPaid v k.session s.pending_payout)
newest_spl-IsPaid ch tx {w} {w'} k l mint s laws token_laws payer sound registry covered read
      disputed r newest past names in_tokens room =
    let kept = newest_kept ch k.session s l.session laws sound r newest read names.session_read in
    elim (Reach-StillClosing ch k.session s l.session laws sound r read disputed
      names.session_read) [
        | inr ended ↦
            inl (settled-IsPaid w' k.session s l.session disputed kept names.session_read ended)
        | inl on ↦
            let (v, done, stored) =
              payout_spl_goes_through ch tx k l mint laws token_laws payer sound registry covered r
                names in_tokens on.was_closing (ground (arith, on.same_deadline, past)) room in
            inr (
              v,
              done,
              finalized-IsPaid v k.session s l.session disputed kept stored on.was_closing,
            )
      ]

-- On a chain and a token program that meet their documentation, in a state in which all sessions
-- are sound, all live token sessions covered, and all configurations and nodes as the program
-- writes them: anyone who holds a newer state of a closing token session than was posted, signed
-- by both parties, can post it before the deadline by a challenge that goes through; and if no
-- transaction of the history that follows carries a still newer one signed by both, then once the
-- deadline is past the session is settled at exactly what that state owes, or
-- `finalize_close_spl` goes through with the session's own vault and settles it so. The
-- instructions name the accounts that belong together, caller and payer have signed, neither the
-- vault nor a paid account is frozen then, the paid accounts are of the session's mint, and no balance
-- or counter overflows.
pub newest_wins_spl :
    (ch : Chain) (tx tx' : Tx) (w : World) {w' : World} (c : UnilateralClose) (conf : Config)
    (s : Session) (state : StateUpdate) (k : FinalizeCloseSpl) (l : Loaded) (mint : ℕ)
    → IsChain ch
    → IsTokenChain ch
    → IsTokenPayer ch
    → IsSoundWorld ch w
    → IsRegistry ch w
    → IsCoveredWorld ch w
    → IsSigned ch tx
    → NamesClose tx w c conf s
    → s.status ≡ closing
    → tx.now ≤ℤ s.challenge_deadline
    → s.last_nonce < state.nonce
    → verify_cosigned_state ch s c.session state tx.sysvar ≡ ok tt
    → (r : Reach ch (challenged_world w c s state) w')
    → IsNewest ch r k.session (posted_session s.challenge_deadline s state)
    → s.challenge_deadline <ℤ tx'.now
    → k.session ≡ c.session
    → NamesSpl ch tx' w' k l mint
    → l.session.mint ≡ some mint
    → IsU64 (l.node.total_units + l.session.pending_units)
    → (challenge ch tx w c state ≡ ok (challenged_world w c s state))
      × (IsPaid w' k.session state.owed_to_provider
          ⊎ ((v : World) × (finalize_close_spl ch tx' w' k ≡ ok v)
              × IsPaid v k.session state.owed_to_provider))
newest_wins_spl ch tx tx' w c conf s state k l mint laws token_laws payer sound registry covered
      signed names status before fresh cosigned r newest past place names' in_tokens room =
    let done =
      challenge_goes_through ch tx c conf s state sound registry names status before fresh
        cosigned in
    let step = challenged ch tx w c s state signed done in
    (
      done,
      newest_spl-IsPaid ch tx' k l mint (posted_session s.challenge_deadline s state) laws
          token_laws payer (Reach-IsSoundWorld ch laws step sound)
          (Reach-IsRegistry ch laws step registry)
          (λ key m t at in_mint live.
            Reach-IsCovered ch laws token_laws step sound covered key m t at in_mint live)
          (ground (arith, place)) refl r newest past names' in_tokens room,
    )
