-- ===== src/Message/RoundTrip.antt =====
-- Coding and decoding of the signed message (crates/solmesh-state/src/lib.rs), from what the
-- documentation of Borsh says of one field.
use sol_mesh.Base.{ℕ, ◌≡◌, ap, List, [], ◌++◌, some, length, length-append}
use sol_mesh.Base.Int.{ℤ, IsI64}
use sol_mesh.Base.Words.{IsU64}
use sol_mesh.Message.{Borsh, StateUpdate, to_message_bytes, from_message_bytes}
use mathlib.Core.List.{append_assoc}

-- A fixed-size array is its bytes; an integer of eight bytes is read back from the front.
pub record IsBorsh (b : Borsh) : Type 0 where
  pub array_bytes : (xs : List ℕ) → b.put_array xs ≡ xs
  pub get_array_append : (xs rest : List ℕ) → b.get_array (length xs) (xs ++ rest) ≡ some (xs, rest)
  pub u64_size : (n : ℕ) → length (b.put_u64 n) ≡ 8
  pub get_u64_append :
      (n : ℕ) (rest : List ℕ) → IsU64 n → b.get_u64 (b.put_u64 n ++ rest) ≡ some (n, rest)
  pub i64_size : (z : ℤ) → length (b.put_i64 z) ≡ 8
  pub get_i64_append :
      (z : ℤ) (rest : List ℕ) → IsI64 z → b.get_i64 (b.put_i64 z ++ rest) ≡ some (z, rest)

-- The Rust types of the fields.
pub record IsStateUpdate (s : StateUpdate) : Type 0 where
  pub domain_size : length s.domain ≡ 8
  pub session_size : length s.session ≡ 32
  pub nonce_u64 : IsU64 s.nonce
  pub owed_u64 : IsU64 s.owed_to_provider
  pub units_u64 : IsU64 s.units_consumed
  pub timestamp_i64 : IsI64 s.timestamp

module _ (b : Borsh) (h : IsBorsh b) where
  pub get_array_of_size :
      (n : ℕ) (xs rest : List ℕ)
      → length xs ≡ n
      → b.get_array n (b.put_array xs ++ rest) ≡ some (xs, rest)
  get_array_of_size n xs rest e = rw (h.array_bytes xs, ← e) (h.get_array_append xs rest)

  -- With a coding of fields that meets the documentation of Borsh, the bytes of a message whose
  -- fields have their Rust types, followed by any bytes, are read back as that message.
  pub from_message_bytes-to_message_bytes :
      (s : StateUpdate) (rest : List ℕ)
      → IsStateUpdate s
      → from_message_bytes b (to_message_bytes b s ++ rest) ≡ some s
  unfolding from_message_bytes to_message_bytes
  from_message_bytes-to_message_bytes s rest v = simp (
    append_assoc,
    get_array_of_size 8 s.domain _ v.domain_size,
    get_array_of_size 32 s.session _ v.session_size,
    h.get_u64_append s.nonce _ v.nonce_u64,
    h.get_u64_append s.owed_to_provider _ v.owed_u64,
    h.get_u64_append s.units_consumed _ v.units_u64,
    h.get_i64_append s.timestamp _ v.timestamp_i64,
  )

  -- With such a coding of fields, two messages of the Rust types with the same bytes are the same.
  pub to_message_bytes_injective :
      (s t : StateUpdate)
      → IsStateUpdate s
      → IsStateUpdate t
      → to_message_bytes b s ≡ to_message_bytes b t
      → s ≡ t
  to_message_bytes_injective s t v w e = cc (
    ap (λ (m : List ℕ). from_message_bytes b (m ++ [])) e,
    from_message_bytes-to_message_bytes s [] v,
    from_message_bytes-to_message_bytes t [] w,
  )

  -- With such a coding of fields, the bytes of a message of the Rust types are 72.
  pub length-to_message_bytes :
      (s : StateUpdate) → IsStateUpdate s → length (to_message_bytes b s) ≡ 72
  unfolding to_message_bytes
  length-to_message_bytes s v =
      rw (h.array_bytes s.domain, h.array_bytes s.session)
        (simp (length-append, h.u64_size, h.i64_size, v.domain_size, v.session_size))
