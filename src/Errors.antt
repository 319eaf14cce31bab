-- ===== src/Errors.antt =====
-- programs/solmesh/src/errors.rs, and the result type of the program (`anchor_lang::Result`).
-- The second group of constructors are the errors that Anchor and the Solana runtime raise.
use sol_mesh.Base.{◌⊎◌, inl, inr, ◌≡◌, refl, Bool, true, false, Option, none, some}

pub data Error : Type 0 where
  paused node_inactive unauthorized amount_zero insufficient_deposit owed_exceeds_deposit : Error
  owed_decreased stale_nonce nonce_not_increasing session_not_open session_not_closing : Error
  challenge_window_open challenge_window_closed ed25519_ix_missing ed25519_bad_program : Error
  ed25519_pubkey_mismatch ed25519_message_mismatch ed25519_cross_index signer_mismatch : Error
  domain_mismatch session_expired session_not_expired session_has_usage fee_too_high : Error
  bad_duration string_too_long math_overflow spl_unsupported : Error
  account_not_initialized account_already_in_use account_not_signer : Error
  constraint_seeds constraint_has_one constraint_address : Error
  account_borrow_failed sysvar_unreadable program_failed : Error

pub data Result {ℓ} (T : Type ℓ) : Type ℓ where
  ok : (value : T) → Result T
  err : (error : Error) → Result T

-- `option.ok_or(error)`
abbrev pub ok_or {ℓ} : {T : Type ℓ} → Option T → Error → Result T
ok_or none error = err error
ok_or (some value) error = ok value

-- `result.is_ok()`
abbrev pub is_ok {ℓ} : {T : Type ℓ} → Result T → Bool
is_ok (ok value) = true
is_ok (err error) = false

-- The `?` operator, with and without a value to go on with.
infixl 5 ◌>>=◌
abbrev pub ◌>>=◌ {ℓ κ} : {T : Type ℓ} {U : Type κ} → Result T → (T → Result U) → Result U
err error >>= next = err error
ok value >>= next = next value

infixl 5 ◌>>◌
abbrev pub ◌>>◌ {κ} : {U : Type κ} → Result (Unit {0}) → Result U → Result U
first >> next = first >>= λ done. next

-- `require!(test, error)`
abbrev pub require : (test : Bool) → Error → Result (Unit {0})
require false error = err error
require true error = ok tt

-- A block that succeeded went through its first step and through the rest.
pub >>=-eq-ok {ℓ κ} :
    {T : Type ℓ} {U : Type κ} (step : Result T) (next : T → Result U) {out : U}
    → (step >>= next) ≡ ok out
    → (value : T) × (step ≡ ok value) × (next value ≡ ok out)
>>=-eq-ok (err error) next done = cc
>>=-eq-ok (ok value) next done = (value, refl, done)

-- To split on a result that stays shut, and keep the equation.
pub Result-cases {ℓ} :
    {T : Type ℓ} (out : Result T)
    → ((error : Error) × (out ≡ err error)) ⊎ ((value : T) × (out ≡ ok value))
Result-cases (err error) = inl (error, refl)
Result-cases (ok value) = inr (value, refl)
