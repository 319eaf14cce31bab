-- ===== src/Shared/Transfer.antt =====
-- What a lamport transfer out of a program account does to every balance.
use sol_mesh.Base.{ℕ, ◌+◌, ◌≤◌, ◌≡◌, ◌≢◌, ◌==◌, ◌-◌, update, if◌then◌else◌, arith}
use sol_mesh.Base.Words.{IsU64}
use sol_mesh.Errors.{>>=-eq-ok, ok}
use sol_mesh.Runtime.{Lamports}
use sol_mesh.Shared.{pay_provider, pda_transfer_lamports}

abbrev pub amount_if : ℕ → ℕ → ℕ → ℕ
amount_if j k amount = if j == k then amount else 0

-- The balances after a transfer between two accounts.
abbrev pub moved : ℕ → ℕ → ℕ → Lamports → Lamports
moved from to amount m =
    if amount == 0 then m else update (update m from (m from - amount)) to (m to + amount)

module _ (from to amount : ℕ) (m : Lamports) where
  -- After a transfer that goes through, every account holds what it held, less the amount if it is
  -- the one that pays, plus the amount if it is the one that is paid; also where these are one
  -- account.
  pub pda_transfer-balance :
      {m' : Lamports} (k : ℕ)
      → pda_transfer_lamports from to amount m ≡ ok m'
      → m' k + amount_if k from amount ≡ m k + amount_if k to amount
  unfolding pda_transfer_lamports
  pda_transfer-balance k h = ground arith

  -- A transfer that is covered and does not overflow succeeds.
  pub pda_transfer_ok :
      from ≢ to
      → amount ≤ m from
      → IsU64 (m to + amount)
      → pda_transfer_lamports from to amount m ≡ ok (moved from to amount m)
  unfolding pda_transfer_lamports
  pda_transfer_ok ne cover fits = ground arith

-- The two payments of a settlement, on every balance.
pub pay_provider-balance :
    (session provider fee_vault amount fee : ℕ) (m : Lamports) {m' : Lamports} (k : ℕ)
    → pay_provider session provider fee_vault amount fee m ≡ ok m'
    → m' k + amount_if k session (amount + fee)
      ≡ m k + amount_if k provider amount + amount_if k fee_vault fee
unfolding pay_provider
pay_provider-balance session provider fee_vault amount fee m k h =
    let (m1, e1, e2) = >>=-eq-ok _ _ h in
    ground (
      arith,
      pda_transfer-balance session provider amount m k e1,
      pda_transfer-balance session fee_vault fee m1 k e2,
    )

-- The two payments of a settlement go through if the session covers both and nothing overflows.
pub pay_provider_ok :
    (session provider fee_vault amount fee : ℕ) (m : Lamports)
    → session ≢ provider
    → session ≢ fee_vault
    → amount + fee ≤ m session
    → IsU64 (m provider + amount)
    → IsU64 (m fee_vault + (amount + fee))
    → pay_provider session provider fee_vault amount fee m
      ≡ ok (moved session fee_vault fee (moved session provider amount m))
unfolding pay_provider
pay_provider_ok session provider fee_vault amount fee m p v cover room_p room_v =
    let paid = pda_transfer_ok session provider amount m p (omega arith) room_p in
    let b = pda_transfer-balance session provider amount m session paid in
    let c = pda_transfer-balance session provider amount m fee_vault paid in
    let m1 = moved session provider amount m in
    let paid2 =
      pda_transfer_ok session fee_vault fee m1 v (ground (arith, b)) (ground (arith, c)) in
    rw paid paid2
