-- ===== src/Message.antt =====
-- crates/solmesh-state/src/lib.rs: the message that both parties of a channel sign. The derived
-- Borsh code writes the fields in the order of their declaration; the coding of one field is the
-- `borsh` crate's, a parameter here.
pub mod RoundTrip
pub mod Idl
pub mod Client
use sol_mesh.Base.{ℕ, List, [], ◌∷◌, ◌++◌, Bool, Option, none, some, bytes_eq}
use sol_mesh.Base.Int.{ℤ}

pub record Borsh : Type 0 where
  pub put_array : List ℕ → List ℕ
  pub get_array : ℕ → List ℕ → Option (List ℕ × List ℕ)
  pub put_u64 : ℕ → List ℕ
  pub get_u64 : List ℕ → Option (ℕ × List ℕ)
  pub put_i64 : ℤ → List ℕ
  pub get_i64 : List ℕ → Option (ℤ × List ℕ)

-- `*b"SOLMESH1"`
abbrev pub state_domain : List ℕ
state_domain = b'S' ∷ b'O' ∷ b'L' ∷ b'M' ∷ b'E' ∷ b'S' ∷ b'H' ∷ b'1' ∷ []

pub record StateUpdate : Type 0 where
  pub domain : List ℕ
  pub session : List ℕ
  pub nonce : ℕ
  pub owed_to_provider : ℕ
  pub units_consumed : ℕ
  pub timestamp : ℤ

-- `StateUpdate::new`
abbrev pub new : List ℕ → ℕ → ℕ → ℕ → ℤ → StateUpdate
new session nonce owed units timestamp = record {
  domain = state_domain;
  session = session;
  nonce = nonce;
  owed_to_provider = owed;
  units_consumed = units;
  timestamp = timestamp;
}

abbrev pub has_valid_domain : StateUpdate → Bool
has_valid_domain s = bytes_eq s.domain state_domain

infixl 5 ◌>>=◌
abbrev pub ◌>>=◌ : {A B : Type 0} → Option A → (A → Option B) → Option B
none >>= f = none
some a >>= f = f a

module _ (borsh : Borsh) where
  open borsh use {put_array, get_array, put_u64, get_u64, put_i64, get_i64}

  unfoldable pub to_message_bytes : StateUpdate → List ℕ
  to_message_bytes s =
      put_array s.domain
      ++ (put_array s.session
          ++ (put_u64 s.nonce
              ++ (put_u64 s.owed_to_provider ++ (put_u64 s.units_consumed ++ put_i64 s.timestamp))))

  -- What follows the six fields is not read, as with `BorshDeserialize::deserialize`.
  unfoldable pub from_message_bytes : List ℕ → Option StateUpdate
  from_message_bytes bs = do
    (domain, r1) ← get_array 8 bs
    (session, r2) ← get_array 32 r1
    (nonce, r3) ← get_u64 r2
    (owed, r4) ← get_u64 r3
    (units, r5) ← get_u64 r4
    (timestamp, r6) ← get_i64 r5
    some (record {
      domain = domain;
      session = session;
      nonce = nonce;
      owed_to_provider = owed;
      units_consumed = units;
      timestamp = timestamp;
    })
