-- ===== src/Client/Closing.antt =====
-- The client's `cosignedClose` and the program together: what happens to the transaction that it
-- sends.
use sol_mesh.Base.{
  ℕ, List, Option, ◌≤◌, ◌<◌, ◌≡◌, ◌⊎◌, ◌∙◌, sym, ap, refl, some, length, update, arith, ◌∷◌, [],
}
use sol_mesh.Base.Int.{ℤ, checked_add_i64, ◌≤ℤ◌}
use sol_mesh.Errors.{ok}
use sol_mesh.Constants.{config_seed}
use sol_mesh.State.{opened, closing, Config, Session}
use sol_mesh.Runtime.{Chain, World, Instruction}
use sol_mesh.Runtime.Laws.{IsChain}
use sol_mesh.Shared.{verify_cosigned_state}
use sol_mesh.Program.{dispatch, Reach}
use sol_mesh.Protocol.Histories.{IsSoundWorld, Reach-IsSoundWorld}
use sol_mesh.Protocol.Exits.{
  NamesClose, posted_session, initiate_goes_through, challenge_goes_through,
}
use sol_mesh.Registry.Histories.{IsRegistry, Reach-IsRegistry}
use sol_mesh.Message.Client.{IsEncodable, state_bytes, serialize_state-eq}
use sol_mesh.Client.{Library, to_anchor_arg, cosign_ixs, cosign_message, ed25519_verify_ix}
use sol_mesh.Client.Sdk.{
  CloseOpts, Transaction, close_after, CloseMethod, close_accounts, cosigned_close, executed_at,
}
use sol_mesh.Client.Vouching.{IsLibrary, cosigned}
use sol_mesh.Client.Settling.{config_pda-same}

-- The accounts that the caller passes belong together, and the configuration stands at the program's
-- canonical address.
pub record FitsClose (ch : Chain) (w : World) (o : CloseOpts) (c : Config) (s : Session)
    : Type 0 where
  pub config_read : w.configs (ch.find_program_address (config_seed ∷ [])).0 ≡ some c
  pub session_read : w.sessions o.session ≡ some s
  pub of_provider : s.provider ≡ o.provider
  pub of_consumer : s.consumer ≡ o.consumer

-- The state is a newer one for this session within its deposit, with two signatures of 64 bytes, and its
-- numbers are in range.
pub record IsPostable (o : CloseOpts) (s : Session) : Type 0 where
  pub fresh : s.last_nonce < o.state.nonce
  pub for_session : o.state.session ≡ o.session
  pub not_decreased : s.settled_to_provider ≤ o.state.owed_to_provider
  pub covered : o.state.owed_to_provider ≤ s.deposited
  pub provider_sig_size : length o.provider_sig ≡ 64
  pub encodable : IsEncodable o.state
  pub consumer_sig_size : length o.consumer_sig ≡ 64

-- When a method can be called at a time, and which deadline it leaves: a party closes an open session
-- for the window from now on, and anyone challenges a closing one up to its deadline.
abbrev pub IsTimely : CloseMethod → CloseOpts → Config → Session → ℤ → ℤ → Type 0
IsTimely CloseMethod.initiate_unilateral_close o c s now deadline =
    ((o.caller ≡ s.provider) ⊎ (o.caller ≡ s.consumer))
    × (s.status ≡ opened)
    × (checked_add_i64 now c.challenge_window_secs ≡ some deadline)
IsTimely CloseMethod.challenge o c s now deadline =
    (s.status ≡ closing) × (now ≤ℤ s.challenge_deadline) × (deadline ≡ s.challenge_deadline)

-- The world with one session stored anew.
abbrev pub with_session : World → ℕ → Session → World
with_session w key s = record w { sessions = update w.sessions key (some s) }

module _ (lib : Library) where
  -- What `cosignedClose` sends for a state whose numbers are in range.
  abbrev pub cosigned_close_transaction : CloseMethod → CloseOpts → Transaction
  cosigned_close_transaction method o = close_after lib method o (
      cosign_message lib (state_bytes o.state) (o.provider, o.provider_sig)
        (o.consumer, o.consumer_sig))

  cosigned_close-sends :
      (method : CloseMethod) (o : CloseOpts)
      → IsEncodable o.state
      → cosigned_close lib method o ≡ some (cosigned_close_transaction method o)
  unfolding cosigned_close cosign_ixs
  cosigned_close-sends method o h = ground (arith, serialize_state-eq o.state h)

module _ (ch : Chain) (lib : Library) (laws : IsLibrary ch lib) where
  FitsClose-NamesClose :
      (method : CloseMethod) (now : ℤ) (w : World) (o : CloseOpts) (c : Config) (s : Session)
      → FitsClose ch w o c s
      → NamesClose
          (executed_at now (cosigned_close_transaction lib method o))
          w
          (close_accounts lib o)
          c
          s
  unfolding close_after
  FitsClose-NamesClose method now w o c s fits = record {
    config_read = ap w.configs (config_pda-same ch lib laws) ∙ fits.config_read;
    session_read = fits.session_read;
    of_provider = fits.of_provider;
    of_consumer = fits.of_consumer;
    by_caller = ground arith;
  }

  cosigned_close-cosigned :
      (method : CloseMethod) (now : ℤ) (w : World) (o : CloseOpts) (c : Config) (s : Session)
      → FitsClose ch w o c s
      → IsPostable o s
      → verify_cosigned_state ch s o.session
          (to_anchor_arg o.state)
          (executed_at now (cosigned_close_transaction lib method o)).sysvar
        ≡ ok tt
  unfolding close_after cosign_message
  cosigned_close-cosigned method now w o c s fits can =
      cosigned ch lib laws (executed_at now (cosigned_close_transaction lib method o)).sysvar s
        o.session o.state o.provider_sig o.consumer_sig 0 1 2 refl (omega arith) (omega arith)
        (ap (signed_by o.provider_sig) (sym fits.of_provider))
        (ap (signed_by o.consumer_sig) (sym fits.of_consumer)) can.provider_sig_size
        can.consumer_sig_size can.for_session can.not_decreased can.covered
    where
      signed_by : List ℕ → ℕ → Option Instruction
      signed_by sig key = some (ed25519_verify_ix lib key (state_bytes o.state) sig)

-- On a chain and with client libraries that meet their documentation, after any history from a
-- state in which all sessions are sound and all configurations and nodes are as the program writes
-- them: the client's `initiateUnilateralClose` or `challenge` does send a transaction, and in it the
-- program's instruction goes through, and posts the state that the caller passed, with the window
-- from its time on as the deadline, or the deadline that stood; if the accounts that the caller
-- passes belong together, the state is a newer one for this session within its deposit, its numbers
-- are in range, the signatures are of 64 bytes, and the method is in time: a party closes an open
-- session and the deadline does not overflow, or anyone challenges a closing one before its deadline
-- is over.
pub client_closes :
    (ch : Chain) (lib : Library) (method : CloseMethod) (now deadline : ℤ) {w w' : World}
    (o : CloseOpts) (c : Config) (s : Session)
    → IsChain ch
    → IsLibrary ch lib
    → IsSoundWorld ch w
    → IsRegistry ch w
    → Reach ch w w'
    → FitsClose ch w' o c s
    → IsPostable o s
    → IsTimely method o c s now deadline
    → (cosigned_close lib method o ≡ some (cosigned_close_transaction lib method o))
      × (dispatch ch
            (executed_at now (cosigned_close_transaction lib method o))
            (cosigned_close_transaction lib method o).call
            w'
          ≡ ok (with_session w' o.session (posted_session deadline s (to_anchor_arg o.state))))
unfolding dispatch close_after
client_closes ch lib CloseMethod.initiate_unilateral_close now deadline {w} {w'} o c s laws lib_laws
      sound registry r fits can (party, status, later) =
    (
      cosigned_close-sends lib CloseMethod.initiate_unilateral_close o can.encodable,
      initiate_goes_through ch
          (executed_at now (cosigned_close_transaction lib CloseMethod.initiate_unilateral_close o))
          (close_accounts lib o) c s (to_anchor_arg o.state) (Reach-IsSoundWorld ch laws r sound)
          (Reach-IsRegistry ch laws r registry)
          (FitsClose-NamesClose ch lib lib_laws CloseMethod.initiate_unilateral_close now w' o c s
            fits)
          deadline party status can.fresh
          (cosigned_close-cosigned ch lib lib_laws CloseMethod.initiate_unilateral_close now w' o c
            s fits can)
          later,
    )
client_closes ch lib CloseMethod.challenge now deadline {w} {w'} o c s laws lib_laws sound registry
      r fits can (status, before, same) =
    (
      cosigned_close-sends lib CloseMethod.challenge o can.encodable,
      challenge_goes_through ch
            (executed_at now (cosigned_close_transaction lib CloseMethod.challenge o))
            (close_accounts lib o) c s (to_anchor_arg o.state) (Reach-IsSoundWorld ch laws r sound)
            (Reach-IsRegistry ch laws r registry)
            (FitsClose-NamesClose ch lib lib_laws CloseMethod.challenge now w' o c s fits) status
            before can.fresh
            (cosigned_close-cosigned ch lib lib_laws CloseMethod.challenge now w' o c s fits can)
          ∙ ap
              (λ (d : ℤ).
                ok (with_session w' o.session (posted_session d s (to_anchor_arg o.state))))
              (sym same),
    )
