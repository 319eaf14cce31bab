-- ===== src/Message/Client.antt =====
-- client/src/state.ts: the same bytes built by hand, and a coding of fields that meets the
-- documentation of Borsh.
use sol_mesh.Base.{
  inl, inr, ◌⊎◌, true, false, Bool-cases, ltb, ◌^◌, sym, ◌^◌, ltb, ap, ◌∙◌, ℕ, ◌≡◌, refl, subst,
  List, ◌++◌, Option, some, none, length, take, drop, leb, if◌then◌else◌, take-length-append,
  drop-length-append, length-append, arith,
}
use sol_mesh.Base.Int.{
  negsuc, pos, is_i64, ℤ, IsI64, to_word64, of_word64, to_word64-lt, of_word64-to_word64,
}
use sol_mesh.Base.Words.{IsU64, le_bytes, of_le_bytes, length-le_bytes, of_le_bytes-le_bytes}
use sol_mesh.Message.{◌>>=◌, Borsh, to_message_bytes, state_domain, new}
use sol_mesh.Message.RoundTrip.{IsBorsh}

-- `b.writeBigUInt64LE(v)`, `b.writeBigInt64LE(v)`: `none` where they throw, out of the range.
unfoldable pub u64le : ℕ → Option (List ℕ)
u64le v = if ltb v (2 ^ 64) then some (le_bytes 8 v) else none

unfoldable pub i64le : ℤ → Option (List ℕ)
i64le v = if is_i64 v then some (le_bytes 8 (to_word64 v)) else none

-- The interface `StateUpdate` of the client has no domain. A negative `bigint` for one of the unsigned
-- numbers, where the client throws as it does beyond 64 bits, is no value of the model.
pub record ClientState : Type 0 where
  pub session : ℕ
  pub nonce : ℕ
  pub owed_to_provider : ℕ
  pub units_consumed : ℕ
  pub timestamp : ℤ

-- `serializeState`: `none` where it throws. A key has 32 bytes.
unfoldable pub serialize_state : ClientState → Option (List ℕ)
serialize_state s = do
  nonce ← u64le s.nonce
  owed ← u64le s.owed_to_provider
  units ← u64le s.units_consumed
  timestamp ← i64le s.timestamp
  some (state_domain ++ (le_bytes 32 s.session ++ (nonce ++ (owed ++ (units ++ timestamp)))))

-- The numbers of a state are in the range of the program's types.
pub record IsEncodable (s : ClientState) : Type 0 where
  pub nonce_u64 : IsU64 s.nonce
  pub owed_u64 : IsU64 s.owed_to_provider
  pub units_u64 : IsU64 s.units_consumed
  pub timestamp_i64 : IsI64 s.timestamp

-- What the client signs of such a state, with integers little-endian.
unfoldable pub state_bytes : ClientState → List ℕ
state_bytes s =
    state_domain
    ++ (le_bytes 32 s.session
        ++ (le_bytes 8 s.nonce
            ++ (le_bytes 8 s.owed_to_provider
                ++ (le_bytes 8 s.units_consumed ++ le_bytes 8 (to_word64 s.timestamp)))))

i64le-eq : (z : ℤ) → IsI64 z → i64le z ≡ some (le_bytes 8 (to_word64 z))
unfolding i64le
i64le-eq (pos n) h = ground arith
i64le-eq (negsuc n) h = ground arith

pub serialize_state-eq :
    (s : ClientState) → IsEncodable s → serialize_state s ≡ some (state_bytes s)
unfolding serialize_state state_bytes u64le
serialize_state-eq s h =
    ground (arith, h.nonce_u64, h.owed_u64, h.units_u64, i64le-eq s.timestamp h.timestamp_i64)

-- `n` bytes from the front.
abbrev pub get_array : ℕ → List ℕ → Option (List ℕ × List ℕ)
get_array n bs = if leb n (length bs) then some (take n bs, drop n bs) else none

abbrev map_value : {A B : Type 0} → (A → B) → Option (A × List ℕ) → Option (B × List ℕ)
map_value f none = none
map_value f (some (a, rest)) = some (f a, rest)

abbrev pub le_borsh : Borsh
le_borsh = record {
  put_array = λ xs. xs;
  get_array = get_array;
  put_u64 = le_bytes 8;
  get_u64 = λ bs. map_value of_le_bytes (get_array 8 bs);
  put_i64 = λ z. le_bytes 8 (to_word64 z);
  get_i64 = λ bs. map_value (λ w. of_word64 (of_le_bytes w)) (get_array 8 bs);
}

get_array_append : (xs rest : List ℕ) → get_array (length xs) (xs ++ rest) ≡ some (xs, rest)
get_array_append xs rest =
    ground (arith, length-append xs rest, take-length-append xs rest, drop-length-append xs rest)

-- Eight bytes and a rest come apart again.
get_word-append :
    (v : ℕ) (rest : List ℕ) → get_array 8 (le_bytes 8 v ++ rest) ≡ some (le_bytes 8 v, rest)
get_word-append v rest =
    subst (λ (n : ℕ). get_array n (le_bytes 8 v ++ rest) ≡ some (le_bytes 8 v, rest))
      (length-le_bytes 8 v) (get_array_append (le_bytes 8 v) rest)

get_u64-append :
    (n : ℕ) (rest : List ℕ) → IsU64 n → le_borsh.get_u64 (le_bytes 8 n ++ rest) ≡ some (n, rest)
get_u64-append n rest h =
    ap (map_value of_le_bytes) (get_word-append n rest)
    ∙ ap (λ (m : ℕ). some (m, rest)) (of_le_bytes-le_bytes 8 n h)

get_i64-append :
    (z : ℤ) (rest : List ℕ)
    → IsI64 z
    → le_borsh.get_i64 (le_bytes 8 (to_word64 z) ++ rest) ≡ some (z, rest)
get_i64-append z rest h =
    ap (map_value (λ w. of_word64 (of_le_bytes w))) (get_word-append (to_word64 z) rest)
    ∙ ap (λ (m : ℕ). some (of_word64 m, rest))
        (of_le_bytes-le_bytes 8 (to_word64 z) (to_word64-lt z h))
    ∙ ap (λ (m : ℤ). some (m, rest)) (of_word64-to_word64 z h)

pub le_borsh-IsBorsh : IsBorsh le_borsh
le_borsh-IsBorsh = record {
  array_bytes = λ xs. refl;
  get_array_append = get_array_append;
  u64_size = λ n. length-le_bytes 8 n;
  get_u64_append = get_u64-append;
  i64_size = λ z. length-le_bytes 8 (to_word64 z);
  get_i64_append = get_i64-append;
}

-- What the documentation of Borsh says of bytes: arrays as they are, integers little-endian.
pub record IsLittleEndian (b : Borsh) : Type 0 where
  pub array_bytes : (xs : List ℕ) → b.put_array xs ≡ xs
  pub u64_bytes : (n : ℕ) → b.put_u64 n ≡ le_bytes 8 n
  pub i64_bytes : (z : ℤ) → b.put_i64 z ≡ le_bytes 8 (to_word64 z)

pub le_borsh-IsLittleEndian : IsLittleEndian le_borsh
le_borsh-IsLittleEndian = record {
  array_bytes = λ xs. refl;
  u64_bytes = λ n. refl;
  i64_bytes = λ z. refl;
}

pub state_bytes-to_message_bytes :
    (b : Borsh) (s : ClientState)
    → IsLittleEndian b
    → to_message_bytes b
        (new (le_bytes 32 s.session) s.nonce s.owed_to_provider s.units_consumed s.timestamp)
      ≡ state_bytes s
unfolding to_message_bytes state_bytes
state_bytes-to_message_bytes b s h = simp (h.array_bytes, h.u64_bytes, h.i64_bytes)

IsI64-cases : (z : ℤ) → (is_i64 z ≡ true × IsI64 z) ⊎ (is_i64 z ≡ false × (¬ IsI64 z))
IsI64-cases (pos n) = elim (Bool-cases (is_i64 (pos n))) [
  | inl below ↦ inl (below, ground arith)
  | inr above ↦ inr (above, λ h. ground arith)
]
IsI64-cases (negsuc n) = elim (Bool-cases (is_i64 (negsuc n))) [
  | inl below ↦ inl (below, ground arith)
  | inr above ↦ inr (above, λ h. ground arith)
]

IsEncodable-cases :
    (s : ClientState) → IsEncodable s ⊎ ((¬ IsEncodable s) × (serialize_state s ≡ none))
unfolding serialize_state u64le i64le
IsEncodable-cases s = elim (Bool-cases (ltb s.nonce (2 ^ 64))) [
  | inr out ↦ inr (λ h. absurd (ground (arith, out, h.nonce_u64)), ground (arith, out))
  | inl a ↦ elim (Bool-cases (ltb s.owed_to_provider (2 ^ 64))) [
    | inr out ↦ inr (λ h. absurd (ground (arith, out, h.owed_u64)), ground (arith, a, out))
    | inl b ↦ elim (Bool-cases (ltb s.units_consumed (2 ^ 64))) [
      | inr out ↦ inr (λ h. absurd (ground (arith, out, h.units_u64)), ground (arith, a, b, out))
      | inl c ↦ elim (IsI64-cases s.timestamp) [
        | inr (beyond, out) ↦ inr (λ h. out h.timestamp_i64, ground (arith, a, b, c, beyond))
        | inl (d, within) ↦ inl (record {
          nonce_u64 = ground (arith, a);
          owed_u64 = ground (arith, b);
          units_u64 = ground (arith, c);
          timestamp_i64 = within;
        })
      ]
    ]
  ]
]

-- Of a state whose numbers are in the range of the program's types, the client signs the bytes that
-- the program computes from the same fields, with any coding that meets the documentation of Borsh;
-- of any other state, it throws.
pub serialize_state-to_message_bytes :
    (b : Borsh) (s : ClientState)
    → IsLittleEndian b
    → (IsEncodable s
        × (serialize_state s
            ≡ some (
                to_message_bytes b (
                  new
                    (le_bytes 32 s.session)
                    s.nonce
                    s.owed_to_provider
                    s.units_consumed
                    s.timestamp))))
      ⊎ ((¬ IsEncodable s) × (serialize_state s ≡ none))
serialize_state-to_message_bytes b s h = elim (IsEncodable-cases s) [
  | inl fits ↦
      inl (fits, serialize_state-eq s fits ∙ ap some (sym (state_bytes-to_message_bytes b s h)))
  | inr failed ↦ inr failed
]
