-- ===== src/Protocol/Lives.antt =====
-- The life of one session through a history: a path of the diagram in README.md.
use sol_mesh.Base.{
  ℕ, ◌≤◌, ◌≡◌, refl, ap, sym, ◌∙◌, subst, inl, inr, Option, some, update, arith, ◌==◌, Bool-cases,
  ==→eq, true, false,
}
use sol_mesh.State.{Session}
use sol_mesh.Runtime.{Chain, World}
use sol_mesh.Runtime.Laws.{IsChain}
use sol_mesh.Program.{Step, Reach, instruction, others, here, next}
use sol_mesh.Protocol.Edges.{
  Edge, checkpoint, settle, initiate, challenge, finalize, cancel, expire, IsLive, SameTerms,
  Effect, writes, creates, keeps,
}
use sol_mesh.Protocol.Instructions.{dispatch-Effect}
use sol_mesh.Protocol.Histories.{IsSoundWorld, Reach-IsSoundWorld, edge-IsLive}

-- A path of edges, none of which changes the terms.
pub data Life (s : Session) : Session → Type 0 where
  still : Life s s
  goes : {t u : Session} → Life s t → SameTerms t u → Edge t u → Life s u

-- What a path of the diagram preserves.
pub record Grows (s s' : Session) : Type 0 where
  pub same_terms : SameTerms s s'
  pub nonce_grows : s.last_nonce ≤ s'.last_nonce
  pub settled_grows : s.settled_to_provider ≤ s'.settled_to_provider

pub edge_nonce : {s s' : Session} → Edge s s' → s.last_nonce ≤ s'.last_nonce
edge_nonce (checkpoint _ _ n _ _) = omega arith
edge_nonce (settle _ _ n _ _) = omega arith
edge_nonce (initiate _ _ n _ _ _) = omega arith
edge_nonce (challenge _ _ n _ _ _ _) = omega arith
edge_nonce (finalize _ _ n _ _ _) = omega arith
edge_nonce (cancel _ _ _ n _) = omega arith
edge_nonce (expire _ _ n _) = omega arith

pub edge_settled : {s s' : Session} → Edge s s' → s.settled_to_provider ≤ s'.settled_to_provider
edge_settled (checkpoint _ _ _ e _) = omega arith
edge_settled (settle _ _ _ e _) = omega arith
edge_settled (initiate _ _ _ e _ _) = omega arith
edge_settled (challenge _ _ _ e _ _ _) = omega arith
edge_settled (finalize _ _ _ e f _) = omega arith
edge_settled (cancel _ _ _ _ e) = omega arith
edge_settled (expire _ _ _ e) = omega arith

SameTerms-trans : (s t u : Session) → SameTerms s t → SameTerms t u → SameTerms s u
SameTerms-trans s t u e f = ground (arith, e, f)

pub Life-Grows : {s s' : Session} → Life s s' → Grows s s'
Life-Grows {s} still = record {
  same_terms = refl;
  nonce_grows = omega arith;
  settled_grows = omega arith;
}
Life-Grows {s} {s'} (goes {t = t} life same edge) =
    let g = Life-Grows life in
    record {
      same_terms = SameTerms-trans s t s' g.same_terms same;
      nonce_grows = omega (arith, g.nonce_grows, edge_nonce edge);
      settled_grows = omega (arith, g.settled_grows, edge_settled edge);
    }

-- A path from a session that is settled, cancelled or expired goes nowhere.
Life-closed : {s s' : Session} → ¬ IsLive s → Life s s' → s' ≡ s
Life-closed dead still = refl
Life-closed dead (goes life same edge) =
    absurd (dead (subst IsLive (Life-closed dead life) (edge-IsLive edge)))

update_hit :
    (f : ℕ → Option Session) (key j : ℕ) (v : Session)
    → (j == key) ≡ true
    → update f key (some v) j ≡ some v
update_hit f key j v e = ground arith

update_miss :
    (f : ℕ → Option Session) (key j : ℕ) (v : Session)
    → (j == key) ≡ false
    → update f key (some v) j ≡ f j
update_miss f key j v e = ground arith

-- What became of the session `s` at `key`: it is there, at the end of a path.
abbrev pub Lives : World → ℕ → Session → Type 0
Lives w key s = (s' : Session) × (w.sessions key ≡ some s') × Life s s'

Effect-Lives :
    (ch : Chain) (w w' : World) (key : ℕ) (s t : Session)
    → Effect ch w w'
    → w.sessions key ≡ some t
    → Life s t
    → Lives w' key s
Effect-Lives ch w w' key s t (writes k u u' x) read life = elim (Bool-cases (key == k)) [
  | inl e ↦
      let same : t ≡ u = cc (sym read ∙ ap w.sessions (==→eq key k e) ∙ x.loaded) in
      (
        u',
        at_key ∙ update_hit w.sessions k key u' e,
        goes (subst (Life s) same life) x.same_terms x.edge,
      )
  | inr e ↦ (t, at_key ∙ update_miss w.sessions k key u' e ∙ read, life)
]
  where
    at_key : w'.sessions key ≡ update w.sessions k (some u') key
    at_key = ap (λ (f : ℕ → Option Session). f key) x.stored
Effect-Lives ch w w' key s t (creates k u x) read life = elim (Bool-cases (key == k)) [
  | inl e ↦ absurd (cc (sym read ∙ ap w.sessions (==→eq key k e) ∙ x.unused))
  | inr e ↦ (
    t,
    ap (λ (f : ℕ → Option Session). f key) x.stored ∙ update_miss w.sessions k key u e ∙ read,
    life,
  )
]
Effect-Lives ch w w' key s t (keeps same kept) read life =
    (t, ap (λ (f : ℕ → Option Session). f key) same ∙ read, life)

Step-Lives :
    (ch : Chain) {w w' : World} (key : ℕ) (s t : Session)
    → IsChain ch
    → IsSoundWorld ch w
    → Step ch w w'
    → w.sessions key ≡ some t
    → Life s t
    → Lives w' key s
Step-Lives ch {w} {w'} key s t laws sound (instruction tx call signed done) read life =
    Effect-Lives ch w w' key s t
      (dispatch-Effect ch laws tx signed call w (λ k u e. (sound k u e).at_address) done) read life
Step-Lives ch key s t laws sound (others m tokens kept owned) read life = (t, read, life)

-- On a chain that meets its documentation, in every history from a state in which all sessions are
-- sound: a session is still there at the end, and has come to its state along a path of the
-- diagram, with its terms unchanged on each edge.
pub Reach-Lives :
    (ch : Chain) {w w' : World} (key : ℕ) (s : Session)
    → IsChain ch
    → IsSoundWorld ch w
    → Reach ch w w'
    → w.sessions key ≡ some s
    → Lives w' key s
Reach-Lives ch key s laws sound here read = (s, read, still)
Reach-Lives ch key s laws sound (next r step) read =
    let (t, at_t, life) = Reach-Lives ch key s laws sound r read in
    Step-Lives ch key s t laws (Reach-IsSoundWorld ch laws r sound) step at_t life

-- On a chain that meets its documentation, in every history from a state in which all sessions are
-- sound: a session keeps its parties, deposit and other terms, and its nonce and the amount
-- settled never fall.
pub Reach-Grows :
    (ch : Chain) {w w' : World} (key : ℕ) (s : Session)
    → IsChain ch
    → IsSoundWorld ch w
    → Reach ch w w'
    → w.sessions key ≡ some s
    → (s' : Session) × (w'.sessions key ≡ some s') × Grows s s'
Reach-Grows ch key s laws sound r read =
    let (s', at_s', life) = Reach-Lives ch key s laws sound r read in (s', at_s', Life-Grows life)

-- On a chain that meets its documentation, in every history from a state in which all sessions are
-- sound: a session that is settled, cancelled or expired is the same at the end.
pub Reach-closed :
    (ch : Chain) {w w' : World} (key : ℕ) (s : Session)
    → IsChain ch
    → IsSoundWorld ch w
    → Reach ch w w'
    → w.sessions key ≡ some s
    → ¬ IsLive s
    → w'.sessions key ≡ some s
Reach-closed ch key s laws sound r read dead =
    let (s', at_s', life) = Reach-Lives ch key s laws sound r read in
    at_s' ∙ ap some (Life-closed dead life)
