-- ===== src/Protocol/Histories.antt =====
-- What holds of every session in every history of the chain.
use sol_mesh.Base.{
  update-cases, ◌-◌, sym, subst₂, ◌∙◌, ℕ, ◌+◌, ◌≤◌, ◌≡◌, ap, inl, inr, [], ◌∷◌, ◌++◌, Option, none,
  some, arith,
}
use sol_mesh.State.{Session, opened, closing}
use sol_mesh.Runtime.{Chain, World}
use sol_mesh.Runtime.Laws.{IsChain}
use sol_mesh.Accounts.{session_seeds}
use sol_mesh.Program.{Step, Reach, instruction, others, here, next}
use sol_mesh.Protocol.Edges.{
  Edge, checkpoint, settle, initiate, challenge, finalize, cancel, expire, IsLive, SameTerms,
  Writes, Creates, Effect, writes, creates, keeps,
}
use sol_mesh.Protocol.Instructions.{dispatch-Effect}

-- What holds of the session at `key`, which holds `balance` lamports.
pub record IsSound (ch : Chain) (key : ℕ) (s : Session) (balance : ℕ) : Type 0 where
  pub at_address :
      ch.program_address (session_seeds s.node s.consumer s.session_seed ++ ((s.bump ∷ []) ∷ []))
      ≡ some key
  pub within_deposit : s.settled_to_provider ≤ s.deposited
  pub pending_within :
      s.status ≡ closing
      → (s.settled_to_provider ≤ s.pending_payout) × (s.pending_payout ≤ s.deposited)
  pub solvent : s.mint ≡ none → IsLive s → s.deposited ≤ balance + s.settled_to_provider

abbrev pub IsSoundWorld : Chain → World → Type 0
IsSoundWorld ch w =
    (key : ℕ) (s : Session) → w.sessions key ≡ some s → IsSound ch key s (w.lamports key)

IsSound-mono :
    (ch : Chain) (key : ℕ) (s : Session) (b b' : ℕ)
    → b ≤ b'
    → IsSound ch key s b
    → IsSound ch key s b'
IsSound-mono ch key s b b' le h = record {
  at_address = h.at_address;
  within_deposit = h.within_deposit;
  pending_within = h.pending_within;
  solvent = λ native live. ground (arith, h.solvent native live);
}

module _ {s s' : Session} where
  -- Every edge starts at a live session.
  pub edge-IsLive : Edge s s' → IsLive s
  edge-IsLive (checkpoint o _ _ _ _) = inl o
  edge-IsLive (settle o _ _ _ _) = inl o
  edge-IsLive (initiate o _ _ _ _ _) = inl o
  edge-IsLive (challenge c _ _ _ _ _ _) = inr c
  edge-IsLive (finalize c _ _ _ _ _) = inr c
  edge-IsLive (cancel o _ _ _ _) = inl o
  edge-IsLive (expire o _ _ _) = inl o

  edge_within :
      s'.deposited ≡ s.deposited
      → s.settled_to_provider ≤ s.deposited
      → Edge s s'
      → s'.settled_to_provider ≤ s'.deposited
  edge_within same h (checkpoint _ _ _ _ hi) = omega arith
  edge_within same h (settle _ _ _ _ hi) = omega arith
  edge_within same h (initiate _ _ _ e _ _) = omega arith
  edge_within same h (challenge _ _ _ e _ _ _) = omega arith
  edge_within same h (finalize _ _ _ e _ hi) = omega arith
  edge_within same h (cancel _ _ _ _ e) = omega arith
  edge_within same h (expire _ _ _ e) = omega arith

  edge_pending :
      s'.deposited ≡ s.deposited
      → Edge s s'
      → s'.status ≡ closing
      → (s'.settled_to_provider ≤ s'.pending_payout) × (s'.pending_payout ≤ s'.deposited)
  edge_pending same (checkpoint _ o _ _ _) c = ground arith
  edge_pending same (settle _ o _ _ _) c = ground arith
  edge_pending same (initiate _ _ _ e lo hi) c = omega arith
  edge_pending same (challenge _ _ _ e _ lo hi) c = omega arith
  edge_pending same (finalize _ o _ _ _ _) c = ground arith
  edge_pending same (cancel _ o _ _ _) c = ground arith
  edge_pending same (expire _ o _ _) c = ground arith

same_deposit : (s s' : Session) → SameTerms s s' → s'.deposited ≡ s.deposited
same_deposit s s' e = ap (λ (t : Session). t.deposited) e

Writes-IsSound :
    (ch : Chain) (w w' : World) (key : ℕ) (s s' : Session)
    → Writes w w' key s s'
    → IsSound ch key s (w.lamports key)
    → IsSound ch key s' (w'.lamports key)
Writes-IsSound ch w w' key s s' x h = record {
  at_address = rw x.same_terms h.at_address;
  within_deposit = edge_within (same_deposit s s' x.same_terms) h.within_deposit x.edge;
  pending_within = edge_pending (same_deposit s s' x.same_terms) x.edge;
  solvent = λ native live.
      let before =
        h.solvent (rw (ap (λ (t : Session). t.mint) x.same_terms) at native) (edge-IsLive x.edge) in
      omega (arith, before, x.escrow live, same_deposit s s' x.same_terms);
}

Creates-IsSound :
    (ch : Chain) (w w' : World) (key : ℕ) (s : Session)
    → Creates ch w w' key s
    → IsSound ch key s (w'.lamports key)
Creates-IsSound ch w w' key s x = record {
  at_address = x.derived;
  within_deposit = omega (arith, x.unsettled);
  pending_within = λ c. ground (arith, x.is_open);
  solvent = λ native live. omega (arith, x.funded native);
}

Effect-IsSoundWorld :
    (ch : Chain) (w w' : World) → Effect ch w w' → IsSoundWorld ch w → IsSoundWorld ch w'
Effect-IsSoundWorld ch w w' (writes key s s' x) h j t e =
    elim (update-cases w.sessions w'.sessions key s' x.stored j t e) [
      | inl (place, same) ↦
          subst₂ (λ (k : ℕ) (u : Session). IsSound ch k u (w'.lamports k)) (sym place) same
            (Writes-IsSound ch w w' key s s' x (h key s x.loaded))
      | inr (apart, old) ↦
          IsSound-mono ch j t (w.lamports j) (w'.lamports j) (x.kept j apart) (h j t old)
    ]
Effect-IsSoundWorld ch w w' (creates key s x) h j t e =
    elim (update-cases w.sessions w'.sessions key s x.stored j t e) [
      | inl (place, same) ↦
          subst₂ (λ (k : ℕ) (u : Session). IsSound ch k u (w'.lamports k)) (sym place) same
            (Creates-IsSound ch w w' key s x)
      | inr (apart, old) ↦
          IsSound-mono ch j t (w.lamports j) (w'.lamports j) (x.kept j t old) (h j t old)
    ]
Effect-IsSoundWorld ch w w' (keeps same kept) h j t e =
    let old = sym (ap (λ (f : ℕ → Option Session). f j) same) ∙ e in
    IsSound-mono ch j t (w.lamports j) (w'.lamports j) (kept j t old) (h j t old)

-- One step of the chain keeps every session at its address, within its deposit, and covered.
pub Step-IsSoundWorld :
    (ch : Chain) {w w' : World} → IsChain ch → Step ch w w' → IsSoundWorld ch w → IsSoundWorld ch w'
Step-IsSoundWorld ch {w} {w'} laws (instruction tx call signed done) h =
    Effect-IsSoundWorld ch w w'
      (dispatch-Effect ch laws tx signed call w (λ key s e. (h key s e).at_address) done) h
Step-IsSoundWorld ch {w} laws (others m tokens kept owned) h =
    λ key s e. IsSound-mono ch key s (w.lamports key) (m key) (kept key s e) (h key s e)

pub Reach-IsSoundWorld :
    (ch : Chain) {w w' : World}
    → IsChain ch
    → Reach ch w w'
    → IsSoundWorld ch w
    → IsSoundWorld ch w'
Reach-IsSoundWorld ch laws here h = h
Reach-IsSoundWorld ch laws (next r step) h =
    Step-IsSoundWorld ch laws step (Reach-IsSoundWorld ch laws r h)

-- What the provider is paid in all if nothing else is posted: the pending payout of a session that
-- is closing, and of any other what is settled.
abbrev pub promised : Session → ℕ
promised s = elim s.status [ closing ↦ s.pending_payout | _ ↦ s.settled_to_provider ]

-- What a session still has to pay out in lamports: the rest of its deposit, while it is live.
abbrev pub escrow_due : Session → ℕ
escrow_due s = elim s.mint [
  | some mint ↦ 0
  | none ↦ elim s.status [
    | opened ↦ s.deposited - s.settled_to_provider
    | closing ↦ s.deposited - s.settled_to_provider
    | _ ↦ 0
  ]
]

IsSound-covered :
    (ch : Chain) (key : ℕ) (s : Session) (balance : ℕ)
    → IsSound ch key s balance
    → (s.settled_to_provider ≤ promised s) × (promised s ≤ s.deposited) × (escrow_due s ≤ balance)
IsSound-covered ch key s balance h = ground (arith, h.within_deposit, h.pending_within, h.solvent)

-- On a chain that meets its documentation (`IsChain`), in every history from a state in which all
-- sessions are sound, whatever instructions run and whatever else happens: what is promised to the
-- provider of a session is no less than what is settled and no more than the deposit, and the
-- account of a live session in lamports holds at least the rest of the deposit.
pub Reach-solvent :
    (ch : Chain) {w w' : World} (key : ℕ) (s : Session)
    → IsChain ch
    → IsSoundWorld ch w
    → Reach ch w w'
    → w'.sessions key ≡ some s
    → (s.settled_to_provider ≤ promised s)
      × (promised s ≤ s.deposited)
      × (escrow_due s ≤ w'.lamports key)
Reach-solvent ch {w' = w'} key s laws sound r read =
    IsSound-covered ch key s (w'.lamports key) (Reach-IsSoundWorld ch laws r sound key s read)
