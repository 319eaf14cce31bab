-- ===== src/Shared/Cosigned.antt =====
-- What `verify_cosigned_state` of programs/solmesh/src/instructions/shared.rs has established.
use sol_mesh.Base.{List, ℕ, ◌≤◌, ◌≡◌, arith, bytes_eq→eq}
use sol_mesh.Errors.{ok}
use sol_mesh.State.{Session}
use sol_mesh.Message.{StateUpdate, state_domain, to_message_bytes}
use sol_mesh.Runtime.{Chain, Sysvar}
use sol_mesh.Ed25519.{verify_ed25519_signature}
use sol_mesh.Ed25519.Scan.{HasRun, verify_signed}
use sol_mesh.Shared.{verify_cosigned_state, key_bytes}

pub record IsCosigned (ch : Chain) (session : Session) (session_key : ℕ) (state : StateUpdate)
    (sysvar : Sysvar) : Type 0 where
  pub domain : state.domain ≡ state_domain
  pub bound : state.session ≡ key_bytes session_key
  pub covered : state.owed_to_provider ≤ session.deposited
  pub not_decreased : session.settled_to_provider ≤ state.owed_to_provider
  pub by_provider :
      verify_ed25519_signature sysvar (key_bytes session.provider) (to_message_bytes ch.borsh state)
      ≡ ok tt
  pub by_consumer :
      verify_ed25519_signature sysvar (key_bytes session.consumer) (to_message_bytes ch.borsh state)
      ≡ ok tt

pub verify-IsCosigned :
    (ch : Chain) (session : Session) (session_key : ℕ) (state : StateUpdate) (sysvar : Sysvar)
    → verify_cosigned_state ch session session_key state sysvar ≡ ok tt
    → IsCosigned ch session session_key state sysvar
unfolding verify_cosigned_state
verify-IsCosigned ch session session_key state sysvar h = ground (
  arith,
  bytes_eq→eq state.domain state_domain,
  bytes_eq→eq state.session (key_bytes session_key),
)

-- Where the precompile has run as documented (`HasRun`), a state that is accepted names this
-- session, owes no less than was settled and no more than was deposited, and there are valid
-- signatures of its bytes by both parties of the session.
pub verify_cosigned_signed :
    (ch : Chain) (session : Session) (session_key : ℕ) (state : StateUpdate) (sysvar : Sysvar)
    (IsValid : List ℕ → List ℕ → List ℕ → Type 0)
    → HasRun sysvar IsValid
    → verify_cosigned_state ch session session_key state sysvar ≡ ok tt
    → (state.session ≡ key_bytes session_key)
      × (session.settled_to_provider ≤ state.owed_to_provider)
      × (state.owed_to_provider ≤ session.deposited)
      × ((sig : List ℕ) × IsValid
            (key_bytes session.provider)
            (to_message_bytes ch.borsh state)
            sig)
      × ((sig : List ℕ) × IsValid
            (key_bytes session.consumer)
            (to_message_bytes ch.borsh state)
            sig)
verify_cosigned_signed ch session session_key state sysvar IsValid run h =
    let c = verify-IsCosigned ch session session_key state sysvar h in
    (
      c.bound,
      c.not_decreased,
      c.covered,
      verify_signed sysvar IsValid run _ _ c.by_provider,
      verify_signed sysvar IsValid run _ _ c.by_consumer,
    )
