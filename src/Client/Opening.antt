-- ===== src/Client/Opening.antt =====
-- The client's `openSession` and the program together: what happens to the transaction that it sends.
use sol_mesh.Base.{ℕ, ◌≡◌, ◌∙◌, ap, refl, none, some, update, ◌∷◌, []}
use sol_mesh.Base.Int.{ℤ}
use sol_mesh.Errors.{ok}
use sol_mesh.Constants.{config_seed}
use sol_mesh.State.{Config, Node}
use sol_mesh.Runtime.{Chain, World, Lamports}
use sol_mesh.Runtime.Laws.{IsChain}
use sol_mesh.Accounts.{session_seeds}
use sol_mesh.Open
use sol_mesh.Open.{OpenSession, Terms, fresh_session}
use sol_mesh.Open.Opens.{IsOpenable, open_goes_through}
use sol_mesh.Program.{dispatch, Reach}
use sol_mesh.Registry.Histories.{IsRegistry, Reach-IsRegistry}
use sol_mesh.Client.{Library}
use sol_mesh.Client.Sdk.{session_pda, pda, executed_at}
use sol_mesh.Client.Calls.{open_accounts, open_session}
use sol_mesh.Client.Vouching.{IsLibrary}
use sol_mesh.Client.Settling.{config_pda-same}

-- The accounts of an opening, with the program's canonical addresses.
abbrev pub accounts_of : Chain → ℕ → ℕ → Terms → OpenSession
accounts_of ch consumer node t = record {
  config = (ch.find_program_address (config_seed ∷ [])).0;
  node = node;
  session = (ch.find_program_address (session_seeds node consumer t.session_seed)).0;
  consumer = consumer;
}

module _ (ch : Chain) (lib : Library) (laws : IsLibrary ch lib) where
  session_pda-same :
      (node consumer seed : ℕ)
      → session_pda lib node consumer seed
        ≡ (ch.find_program_address (session_seeds node consumer seed)).0
  unfolding session_pda pda
  session_pda-same node consumer seed =
      ap (λ (a : ℕ × ℕ). a.0) (laws.same_addresses (session_seeds node consumer seed))

  open_accounts-same :
      (consumer node : ℕ) (t : Terms)
      → open_accounts lib consumer node t ≡ accounts_of ch consumer node t
  open_accounts-same consumer node t =
      rw (config_pda-same ch lib laws, session_pda-same node consumer t.session_seed) refl

-- On a chain and with client libraries that meet their documentation, after any history from a
-- state in which all configurations and nodes are as the program writes them: the transaction that
-- the client's `openSession` sends goes through, and stores at the session's canonical address the
-- open session of the terms asked for, with the node's provider and nothing settled; if the
-- program is not paused, the node active, the amount positive, the duration within its bounds, the
-- address free, rent and deposit can be paid, and neither the expiry nor the count of sessions
-- overflows.
pub client_opens :
    (ch : Chain) (lib : Library) (now expiry : ℤ) {w w' : World} (consumer node : ℕ) (t : Terms)
    (c : Config) (n : Node) (m1 m2 : Lamports)
    → let (session, bump) = ch.find_program_address (session_seeds node consumer t.session_seed) in
      let tx = executed_at now (open_session lib consumer node t) in
      IsChain ch
      → IsLibrary ch lib
      → IsRegistry ch w
      → Reach ch w w'
      → IsOpenable ch tx w' (accounts_of ch consumer node t) t c n expiry m1 m2
      → dispatch ch tx (open_session lib consumer node t).call w'
        ≡ ok (record w' {
          sessions =
              update w'.sessions session
                (some (fresh_session tx t node n consumer none 0 bump expiry));
          lamports = m2;
        })
unfolding dispatch open_session
client_opens ch lib now expiry {w} {w'} consumer node t c n m1 m2 laws lib_laws registry r can =
    let tx = executed_at now (open_session lib consumer node t) in
    ap (λ (k : OpenSession). Open.open_session ch tx w' k t)
      (open_accounts-same ch lib lib_laws consumer node t)
    ∙ open_goes_through ch tx w' (accounts_of ch consumer node t) t c n expiry m1 m2
        (Reach-IsRegistry ch laws r registry) refl can
