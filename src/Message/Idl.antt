-- ===== src/Message/Idl.antt =====
-- The description of the message for clients (`IdlBuild for StateUpdate` of
-- crates/solmesh-state/src/lib.rs).
use sol_mesh.Base.{ℕ, ◌≡◌, List, [], ◌∷◌, ◌++◌, Option, none, some, bytes_eq, if◌then◌else◌}
use sol_mesh.Base.Int.{ℤ}
use sol_mesh.Message.{◌>>=◌, Borsh, StateUpdate, to_message_bytes}
use sol_mesh.Message.RoundTrip.{IsBorsh, IsStateUpdate, get_array_of_size}
use mathlib.Core.List.{append_assoc}

-- The types of Anchor's IDL that the description uses.
pub data IdlType : Type 0 where
  u8 u64 i64 : IdlType
  array : IdlType → ℕ → IdlType

pub record IdlField : Type 0 where
  pub name : List ℕ
  pub ty : IdlType

pub record IdlTypeDef : Type 0 where
  pub name : List ℕ
  pub fields : List IdlField

-- The names of the fields.
abbrev domain_name : List ℕ
domain_name = b'd' ∷ b'o' ∷ b'm' ∷ b'a' ∷ b'i' ∷ b'n' ∷ []

abbrev session_name : List ℕ
session_name = b's' ∷ b'e' ∷ b's' ∷ b's' ∷ b'i' ∷ b'o' ∷ b'n' ∷ []

abbrev nonce_name : List ℕ
nonce_name = b'n' ∷ b'o' ∷ b'n' ∷ b'c' ∷ b'e' ∷ []

abbrev owed_name : List ℕ
owed_name =
    b'o' ∷ b'w' ∷ b'e' ∷ b'd' ∷ b'_' ∷ b't' ∷ b'o' ∷ b'_' ∷ b'p' ∷ b'r' ∷ b'o' ∷ b'v' ∷ b'i' ∷ b'd'
    ∷ b'e' ∷ b'r' ∷ []

abbrev units_name : List ℕ
units_name =
    b'u' ∷ b'n' ∷ b'i' ∷ b't' ∷ b's' ∷ b'_' ∷ b'c' ∷ b'o' ∷ b'n' ∷ b's' ∷ b'u' ∷ b'm' ∷ b'e' ∷ b'd'
    ∷ []

abbrev timestamp_name : List ℕ
timestamp_name = b't' ∷ b'i' ∷ b'm' ∷ b'e' ∷ b's' ∷ b't' ∷ b'a' ∷ b'm' ∷ b'p' ∷ []

abbrev type_name : List ℕ
type_name = b'S' ∷ b't' ∷ b'a' ∷ b't' ∷ b'e' ∷ b'U' ∷ b'p' ∷ b'd' ∷ b'a' ∷ b't' ∷ b'e' ∷ []

-- `create_type`, less the documentation and generics, which are empty.
abbrev pub create_type : Option IdlTypeDef
create_type = some (record {
  name = type_name;
  fields =
      record { name = domain_name; ty = array u8 8 }
      ∷ record { name = session_name; ty = array u8 32 }
      ∷ record { name = nonce_name; ty = u64 }
      ∷ record { name = owed_name; ty = u64 }
      ∷ record { name = units_name; ty = u64 }
      ∷ record { name = timestamp_name; ty = i64 }
      ∷ [];
})

-- The descriptions of types by their names.
abbrev pub IdlTypes : Type 0
IdlTypes = List ℕ → Option IdlTypeDef

abbrev pub insert_types : IdlTypes → IdlTypes
insert_types types = elim create_type [
  | none ↦ types
  | some def ↦ λ name. if bytes_eq name def.name then some def else types name
]

-- What a reader that goes by the description finds in a field.
pub data FieldValue : Type 0 where
  bytes : List ℕ → FieldValue
  unsigned : ℕ → FieldValue
  signed : ℤ → FieldValue

module _ (b : Borsh) where
  -- A reader of one field, and of fields one after another; the program describes arrays of bytes only.
  abbrev pub read_field : IdlType → List ℕ → Option (FieldValue × List ℕ)
  read_field u8 bs = none
  read_field u64 bs = do (n, rest) ← b.get_u64 bs; some (unsigned n, rest)
  read_field i64 bs = do (z, rest) ← b.get_i64 bs; some (signed z, rest)
  read_field (array u8 n) bs = do (xs, rest) ← b.get_array n bs; some (bytes xs, rest)
  read_field (array u64 n) bs = none
  read_field (array i64 n) bs = none
  read_field (array (array ty m) n) bs = none

  unfoldable pub read_fields : List IdlField → List ℕ → Option (List (List ℕ × FieldValue) × List ℕ)
  read_fields [] bs = some ([], bs)
  read_fields (f ∷ fs) bs = do
    (v, r1) ← read_field f.ty bs
    (vs, r2) ← read_fields fs r1
    some ((f.name, v) ∷ vs, r2)

-- What the fields of `StateUpdate` in Rust hold, each by its name there.
abbrev pub fields_of : StateUpdate → List (List ℕ × FieldValue)
fields_of s =
    (b'd' ∷ b'o' ∷ b'm' ∷ b'a' ∷ b'i' ∷ b'n' ∷ [], bytes s.domain)
    ∷ (b's' ∷ b'e' ∷ b's' ∷ b's' ∷ b'i' ∷ b'o' ∷ b'n' ∷ [], bytes s.session)
    ∷ (b'n' ∷ b'o' ∷ b'n' ∷ b'c' ∷ b'e' ∷ [], unsigned s.nonce)
    ∷ (
      b'o' ∷ b'w' ∷ b'e' ∷ b'd' ∷ b'_' ∷ b't' ∷ b'o' ∷ b'_' ∷ b'p' ∷ b'r' ∷ b'o' ∷ b'v' ∷ b'i'
          ∷ b'd' ∷ b'e' ∷ b'r' ∷ [],
      unsigned s.owed_to_provider,
    )
    ∷ (
      b'u' ∷ b'n' ∷ b'i' ∷ b't' ∷ b's' ∷ b'_' ∷ b'c' ∷ b'o' ∷ b'n' ∷ b's' ∷ b'u' ∷ b'm' ∷ b'e'
          ∷ b'd' ∷ [],
      unsigned s.units_consumed,
    )
    ∷ (b't' ∷ b'i' ∷ b'm' ∷ b'e' ∷ b's' ∷ b't' ∷ b'a' ∷ b'm' ∷ b'p' ∷ [], signed s.timestamp)
    ∷ []

-- The fields that a collection of descriptions gives for the type of the name `StateUpdate`.
abbrev pub described_fields : IdlTypes → List IdlField
described_fields types =
    elim (types (b'S' ∷ b't' ∷ b'a' ∷ b't' ∷ b'e' ∷ b'U' ∷ b'p' ∷ b'd' ∷ b'a' ∷ b't' ∷ b'e' ∷ [])) [
      | none ↦ []
      | some def ↦ def.fields
    ]

-- With a coding of fields that meets the documentation of Borsh, whoever looks up `StateUpdate` in a
-- collection of descriptions into which the Rust types have been inserted, whatever else is in it,
-- and reads the bytes of a message field by field as it says, finds each field of the message under
-- its name in Rust, as unsigned or signed as it is there, and what follows the message is left.
pub read_fields-to_message_bytes :
    (b : Borsh) (types : IdlTypes) (s : StateUpdate) (rest : List ℕ)
    → IsBorsh b
    → IsStateUpdate s
    → read_fields b (described_fields (insert_types types)) (to_message_bytes b s ++ rest)
      ≡ some (fields_of s, rest)
unfolding read_fields to_message_bytes bytes_eq
read_fields-to_message_bytes b types s rest h v = simp (
  append_assoc,
  get_array_of_size b h 8 s.domain _ v.domain_size,
  get_array_of_size b h 32 s.session _ v.session_size,
  h.get_u64_append s.nonce _ v.nonce_u64,
  h.get_u64_append s.owed_to_provider _ v.owed_u64,
  h.get_u64_append s.units_consumed _ v.units_u64,
  h.get_i64_append s.timestamp _ v.timestamp_i64,
)
