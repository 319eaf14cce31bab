-- ===== src/Shared/Fees.antt =====
-- Bounds of the fee and of the reputation reward (programs/solmesh/src/instructions/shared.rs).
use sol_mesh.Base.{ℕ, ◌+◌, ◌*◌, ◌/◌, ◌≤◌, ◌<◌, ◌≡◌, arith}
use sol_mesh.Base.Words.{IsU64}
use sol_mesh.Errors.{ok}
use sol_mesh.Constants.{max_fee_bps}
use sol_mesh.Shared.{fee_for, reputation_reward}

-- For a `u64` payout and a rate within its bound, the fee is the exact floor: neither the `u128`
-- product nor the cut to a `u64` loses anything.
pub fee_for_exact :
    (payout fee_bps : ℕ)
    → IsU64 payout
    → fee_bps ≤ max_fee_bps
    → fee_for payout fee_bps ≡ ok (payout * fee_bps / 10000)
unfolding fee_for
fee_for_exact payout fee_bps p b =
    let cap : payout * fee_bps ≤ payout * max_fee_bps = grind arith in ground arith

-- For a `u64` payout and a rate within its bound, the fee is at most a tenth of the payout, and
-- 10000 times the fee is at most the product of payout and rate and within 10000 of it.
pub fee_for_bounds :
    (payout fee_bps : ℕ) {fee : ℕ}
    → IsU64 payout
    → fee_bps ≤ max_fee_bps
    → fee_for payout fee_bps ≡ ok fee
    → (10 * fee ≤ payout)
      × (10000 * fee ≤ payout * fee_bps)
      × (payout * fee_bps < 10000 * fee + 10000)
fee_for_bounds payout fee_bps p b h =
    let cap : payout * fee_bps ≤ payout * max_fee_bps = grind arith in
    ground (arith, fee_for_exact payout fee_bps p b)

-- For any units the reward is at least one point and at most eleven, and more units never earn
-- less.
pub reputation_reward_bounds :
    (u v : ℕ)
    → u ≤ v
    → (1 ≤ reputation_reward u)
      × (reputation_reward u ≤ reputation_reward v)
      × (reputation_reward v ≤ 11)
unfolding reputation_reward
reputation_reward_bounds u v h = omega arith
