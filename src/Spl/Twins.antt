-- ===== src/Spl/Twins.antt =====
-- The token path against the lamport path (settle.rs and dispute.rs against spl.rs).
use sol_mesh.Base.{ℕ, ◌≡◌, Bool, Option, arith}
use sol_mesh.Errors.{ok}
use sol_mesh.State.{Node, Session}
use sol_mesh.Message.{StateUpdate}
use sol_mesh.Runtime.{Chain, Tx, Lamports, Tokens}
use sol_mesh.Accounts.{Loaded}
use sol_mesh.Settle.{Settle, apply_state}
use sol_mesh.Dispute.{FinalizeClose, finalize_handler}
use sol_mesh.Spl.{SettleSpl, apply_state_spl, finalize_handler_spl}

-- The same session with another mint.
abbrev pub with_mint : Option ℕ → Loaded → Loaded
with_mint mint l = record l { session = record l.session { mint = mint } }

-- Where a settlement or checkpoint in lamports goes through, and one in tokens of the same state,
-- by the same transaction, from a session that differs in the mint alone: both leave the node the
-- same, and sessions that differ in the mint alone.
pub apply_state_spl_twin :
    (ch : Chain) (tx : Tx) (k : Settle) (j : SettleSpl) (l : Loaded) (mint : Option ℕ)
    (m : Lamports) (t : Tokens) (state : StateUpdate) (is_checkpoint : Bool) {n n' : Node}
    {s s' : Session} {m' : Lamports} {t' : Tokens}
    → apply_state ch tx k l m state is_checkpoint ≡ ok (n, s, m')
    → apply_state_spl ch tx j (with_mint mint l) t state is_checkpoint ≡ ok (n', s', t')
    → (n' ≡ n) × (s' ≡ record s { mint = mint })
unfolding apply_state apply_state_spl
apply_state_spl_twin ch tx k j l mint m t state is_checkpoint h h' = ground arith

-- Where a payout in lamports after a dispute goes through, and one in tokens from a session that
-- differs in the mint alone: both leave the node the same, and sessions that differ in the mint
-- alone.
pub finalize_spl_twin :
    (ch : Chain) (tx : Tx) (k : FinalizeClose) (j : SettleSpl) (l : Loaded) (mint : Option ℕ)
    (m : Lamports) (t : Tokens) {n n' : Node} {s s' : Session} {m' : Lamports} {t' : Tokens}
    → finalize_handler tx k l m ≡ ok (n, s, m')
    → finalize_handler_spl ch tx j (with_mint mint l) t ≡ ok (n', s', t')
    → (n' ≡ n) × (s' ≡ record s { mint = mint })
unfolding finalize_handler finalize_handler_spl
finalize_spl_twin ch tx k j l mint m t h h' = ground arith
