-- ===== src/Open/Uncounted.antt =====
-- What the opening of a session stores, and what it does not (open_session.rs).
use sol_mesh.Base.{◌≡◌, refl, sym, subst, update, Option-cases, inl, inr, none, some, arith}
use sol_mesh.Base.Int.{checked_add_i64}
use sol_mesh.Errors.{ok}
use sol_mesh.State.{Node, Session, opened}
use sol_mesh.Runtime.{session_account, Chain, Tx, World}
use sol_mesh.Accounts.{session_seeds, load_node}
use sol_mesh.Open.{
  fresh_session, count_session, OpenSession, Terms, open_session, open_session_handler, new_session,
}
use sol_mesh.Spl.{OpenSessionSpl, open_session_spl}

-- Opening a session in lamports, where it goes through, stores an open session of the consumer
-- with the node's provider, the amount as its deposit and nothing settled; and it leaves every
-- node account as it was, its count of sessions included.
pub open_session_uncounted :
    (ch : Chain) (tx : Tx) (w : World) (k : OpenSession) (t : Terms) (n : Node) {w' : World}
    → w.nodes k.node ≡ some n
    → open_session ch tx w k t ≡ ok w'
    → ((s : Session) × (w'.sessions k.session ≡ some s)
        × (s.status ≡ opened)
        × (s.consumer ≡ k.consumer)
        × (s.provider ≡ n.provider)
        × (s.deposited ≡ t.amount)
        × (s.settled_to_provider ≡ 0))
      × (w'.nodes ≡ w.nodes)
unfolding open_session open_session_handler new_session count_session load_node
open_session_uncounted ch tx w k t n {w'} at_n h =
    elim (Option-cases (ch.create_account session_account k.consumer k.session w.lamports)) [
      | inl failed ↦ absurd (ground arith)
      | inr (m1, made) ↦ elim (Option-cases (ch.system_transfer k.consumer k.session t.amount m1)) [
        | inl failed ↦ absurd (ground arith)
        | inr (m2, moved) ↦ elim (Option-cases (checked_add_i64 tx.now t.duration_secs)) [
          | inl failed ↦ absurd (ground arith)
          | inr (expiry, later) ↦
              let seeds = session_seeds k.node k.consumer t.session_seed in
              let s =
                fresh_session tx t k.node n k.consumer none 0 (ch.find_program_address seeds).1
                  expiry in
              let after : w'
                  ≡ record w { sessions = update w.sessions k.session (some s); lamports = m2 } =
                ground arith in
              subst
                (λ (v : World).
                  ((u : Session) × (v.sessions k.session ≡ some u)
                    × (u.status ≡ opened)
                    × (u.consumer ≡ k.consumer)
                    × (u.provider ≡ n.provider)
                    × (u.deposited ≡ t.amount)
                    × (u.settled_to_provider ≡ 0))
                  × (v.nodes ≡ w.nodes))
                (sym after) ((s, ground arith, refl, refl, refl, refl, refl), refl)
        ]
      ]
    ]

-- So does opening one in tokens.
pub open_session_spl_uncounted :
    (ch : Chain) (tx : Tx) (w : World) (k : OpenSessionSpl) (t : Terms) {w' : World}
    → open_session_spl ch tx w k t ≡ ok w'
    → w'.nodes ≡ w.nodes
unfolding open_session_spl
open_session_spl_uncounted ch tx w k t h = ground arith
