-- ===== src/Vault/Expired.antt =====
-- A token session that is expired by the instruction for lamports (lifecycle.rs).
use sol_mesh.Base.{ℕ, ◌≡◌, ◌∙◌, ap, Option, some, arith}
use sol_mesh.Errors.{ok}
use sol_mesh.State.{Session, opened, expired}
use sol_mesh.Runtime.{Chain, Tx, World, TokenAccount}
use sol_mesh.Runtime.Laws.{IsChain, IsTokenChain, IsSigned, Keeps}
use sol_mesh.Accounts.{load_config, load_session}
use sol_mesh.Lifecycle.{ExpireSession, load_expire, expire_handler, expire_session}
use sol_mesh.Program.{Call, Reach, dispatch, instruction}
use sol_mesh.Protocol.Edges.{IsLive}
use sol_mesh.Protocol.Histories.{IsSoundWorld, Step-IsSoundWorld}
use sol_mesh.Protocol.Lives.{Reach-closed}
use sol_mesh.Vault.{authority_of}
use sol_mesh.Vault.Lives.{Reach-locked}

-- The expiry in lamports marks the session expired, and moves no tokens.
expire_session-tokens :
    (ch : Chain) (tx : Tx) (w : World) (k : ExpireSession) (s : Session) {w' : World}
    → expire_session ch tx w k ≡ ok w'
    → w.sessions k.session ≡ some s
    → (s.status ≡ opened)
      × (w'.sessions k.session ≡ some (record s { status = expired }))
      × (w'.tokens ≡ w.tokens)
unfolding expire_session load_expire load_config load_session expire_handler
expire_session-tokens ch tx w k s h read = (ground arith, ground arith, ground arith)

-- On a chain and a token program that meet their documentation, from a state in which all sessions
-- are sound: when the instruction that expires a session in lamports goes through, the session was
-- open, whatever its mint, it is the same session but expired in every later history, and whatever
-- its vault authority owns stays there.
pub expired_locks :
    (ch : Chain) (tx : Tx) (w : World) (k : ExpireSession) (s : Session) (j : ℕ) (a : TokenAccount)
    {w' v : World}
    → IsChain ch
    → IsTokenChain ch
    → IsSigned ch tx
    → IsSoundWorld ch w
    → dispatch ch tx (Call.expire_session k) w ≡ ok w'
    → w.sessions k.session ≡ some s
    → w.tokens j ≡ some a
    → a.owner ≡ authority_of ch k.session
    → Reach ch w' v
    → (s.status ≡ opened)
      × (v.sessions k.session ≡ some (record s { status = expired }))
      × Keeps v.tokens j a
unfolding dispatch
expired_locks ch tx w k s j a {w'} {v} laws token_laws signed sound h read at_a owned r =
    let ended = record s { status = expired } in
    let (was_open, at_s, same) = expire_session-tokens ch tx w k s h read in
    let dead : ¬ IsLive ended = λ live. ground arith in
    let sound' =
      Step-IsSoundWorld ch laws (instruction tx (Call.expire_session k) signed h) sound in
    let kept = ap (λ (f : ℕ → Option TokenAccount). f j) same ∙ at_a in
    (
      was_open,
      Reach-closed ch k.session ended laws sound' r at_s dead,
      Reach-locked ch k.session j ended a laws token_laws sound' r at_s dead kept owned,
    )
