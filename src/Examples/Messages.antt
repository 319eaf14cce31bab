-- ===== src/Examples/Messages.antt =====
-- The theorems on messages and signatures, at a concrete state.
use sol_mesh.Base.{
  ◌^◌, none, subst, ℕ, zero, suc, ◌+◌, ◌*◌, ◌≤◌, ◌<◌, ◌≡◌, ◌↔◌, ◌⊎◌, refl, List, [], ◌∷◌, ◌++◌,
  some, slice, bytes_eq, arith,
}
use sol_mesh.Base.Int.{pos}
use sol_mesh.Base.Words.{le_bytes, length-le_bytes}
use sol_mesh.Errors.{ok}
use sol_mesh.Runtime.{Instruction}
use sol_mesh.Message.{new, to_message_bytes, from_message_bytes}
use sol_mesh.Message.Idl.{
  insert_types, read_fields, described_fields, fields_of, read_fields-to_message_bytes,
}
use sol_mesh.Message.RoundTrip.{IsStateUpdate, from_message_bytes-to_message_bytes}
use sol_mesh.Message.Client.{
  le_borsh-IsLittleEndian, IsEncodable, u64le, i64le, le_borsh, le_borsh-IsBorsh, ClientState,
  serialize_state, serialize_state-to_message_bytes,
}
use sol_mesh.Ed25519.{byte_at, u16_at, check_ed25519_data, read_u16}
use sol_mesh.Ed25519.Binding.{Binds, check_iff_Binds}
use sol_mesh.Ed25519.Scan.{HasRun}
use sol_mesh.Shared.{key_bytes}
use sol_mesh.Shared.Cosigned.{verify_cosigned_signed}
use sol_mesh.Examples.Chain.{chain}
use sol_mesh.Examples.Data.{open_native, sysvar, vouch}
use sol_mesh.Examples.Runs.{st3, st3_signed}

st3-IsStateUpdate : IsStateUpdate st3
unfolding key_bytes
st3-IsStateUpdate = record {
  domain_size = refl;
  session_size = length-le_bytes 32 1001;
  nonce_u64 = omega arith;
  owed_u64 = omega arith;
  units_u64 = omega arith;
  timestamp_i64 = omega arith;
}

from_message_bytes-to_message_bytes_example :
    from_message_bytes le_borsh (to_message_bytes le_borsh st3 ++ (7 ∷ [])) ≡ some st3
from_message_bytes-to_message_bytes_example =
    from_message_bytes-to_message_bytes le_borsh le_borsh-IsBorsh st3 (7 ∷ []) st3-IsStateUpdate

read_fields-to_message_bytes_example :
    read_fields le_borsh
      (described_fields (insert_types (λ name. none)))
      (to_message_bytes le_borsh st3 ++ (7 ∷ []))
    ≡ some (fields_of st3, 7 ∷ [])
read_fields-to_message_bytes_example =
    read_fields-to_message_bytes le_borsh (λ name. none) st3 (7 ∷ []) le_borsh-IsBorsh
      st3-IsStateUpdate

abbrev client_state : ClientState
client_state = record {
  session = 1001;
  nonce = 3;
  owed_to_provider = 400;
  units_consumed = 8;
  timestamp = pos 90;
}

serialize_state-to_message_bytes_example :
    (IsEncodable client_state
      × (serialize_state client_state
          ≡ some (to_message_bytes le_borsh (new (le_bytes 32 1001) 3 400 8 (pos 90)))))
    ⊎ ((¬ IsEncodable client_state) × (serialize_state client_state ≡ none))
serialize_state-to_message_bytes_example =
    serialize_state-to_message_bytes le_borsh client_state le_borsh-IsLittleEndian

-- A nonce beyond 64 bits has no bytes.
nonce_throws : serialize_state (record client_state { nonce = 2 ^ 64 }) ≡ none
unfolding serialize_state u64le i64le
nonce_throws = refl

abbrev msg3 : List ℕ
msg3 = to_message_bytes le_borsh st3

vouch_checked : check_ed25519_data (vouch 11 msg3).payload (key_bytes 11) msg3 ≡ ok tt
unfolding to_message_bytes byte_at u16_at read_u16 check_ed25519_data key_bytes bytes_eq slice
    le_bytes
vouch_checked = refl

check_iff_Binds_example :
    (check_ed25519_data (vouch 11 msg3).payload (key_bytes 11) msg3 ≡ ok tt)
    ↔ Binds (vouch 11 msg3).payload (key_bytes 11) msg3
check_iff_Binds_example = check_iff_Binds (vouch 11 msg3).payload (key_bytes 11) msg3

-- In the concrete transaction, the valid signatures are those of 64 zero bytes.
abbrev IsZero : List ℕ → List ℕ → List ℕ → Type 0
IsZero pk msg sig = sig ≡ le_bytes 64 0

abbrev Holds : ℕ → Instruction → Type 0
Holds entry ix =
    entry < byte_at ix.payload 0
    → slice ix.payload (u16_at ix.payload (2 + 14 * entry)) 64 ≡ le_bytes 64 0

vouch-Holds : (key entry : ℕ) → Holds entry (vouch key msg3)
unfolding to_message_bytes byte_at u16_at key_bytes slice le_bytes
vouch-Holds key zero h = refl
vouch-Holds key (suc n) h = absurd (omega arith)

ix-Holds : (key entry : ℕ) (ix : Instruction) → some (vouch key msg3) ≡ some ix → Holds entry ix
ix-Holds key entry ix e =
    let same : vouch key msg3 ≡ ix = cc e in subst (Holds entry) same (vouch-Holds key entry)

sysvar-HasRun : HasRun (sysvar st3) IsZero
sysvar-HasRun = record { verified = λ i entry ix stands p below a b c. at i entry ix stands below }
  where
    at : (i entry : ℕ) (ix : Instruction) → (sysvar st3).instruction_at i ≡ some ix → Holds entry ix
    at zero entry ix e = ix-Holds 11 entry ix e
    at (suc zero) entry ix e = ix-Holds 12 entry ix e
    at (suc (suc i)) entry ix e = absurd (ground arith)

verify_cosigned_signed_example :
    (st3.session ≡ key_bytes 1001)
    × (100 ≤ st3.owed_to_provider)
    × (st3.owed_to_provider ≤ 1000)
    × ((sig : List ℕ) × IsZero (key_bytes 11) msg3 sig)
    × ((sig : List ℕ) × IsZero (key_bytes 12) msg3 sig)
verify_cosigned_signed_example =
    verify_cosigned_signed chain open_native 1001 st3 (sysvar st3) IsZero sysvar-HasRun st3_signed
