-- ===== src/Constants.antt =====
-- programs/solmesh/src/constants.rs. Byte strings are lists of byte values.
use sol_mesh.Base.{ℕ, ◌*◌, List, [], ◌∷◌}
use sol_mesh.Base.Int.{ℤ, pos}

abbrev pub config_seed : List ℕ
config_seed = b'c' ∷ b'o' ∷ b'n' ∷ b'f' ∷ b'i' ∷ b'g' ∷ []

abbrev pub node_seed : List ℕ
node_seed = b'n' ∷ b'o' ∷ b'd' ∷ b'e' ∷ []

abbrev pub session_seed : List ℕ
session_seed = b's' ∷ b'e' ∷ b's' ∷ b's' ∷ b'i' ∷ b'o' ∷ b'n' ∷ []

abbrev pub vault_seed : List ℕ
vault_seed = b'v' ∷ b'a' ∷ b'u' ∷ b'l' ∷ b't' ∷ []

abbrev pub fee_vault_seed : List ℕ
fee_vault_seed = b'f' ∷ b'e' ∷ b'e' ∷ b'_' ∷ b'v' ∷ b'a' ∷ b'u' ∷ b'l' ∷ b't' ∷ []

abbrev pub max_fee_bps : ℕ
max_fee_bps = 1000

abbrev pub bps_denominator : ℕ
bps_denominator = 10000

abbrev pub max_string : ℕ
max_string = 64

abbrev pub min_duration_secs : ℤ
min_duration_secs = pos 1

-- 30 days
abbrev pub max_duration_secs : ℤ
max_duration_secs = pos (60 * 60 * 24 * 30)

abbrev pub rep_base_reward : ℕ
rep_base_reward = 1

abbrev pub rep_unit_scale : ℕ
rep_unit_scale = 1000

abbrev pub rep_max_bonus : ℕ
rep_max_bonus = 10

-- The keys of the attributes on the node's asset.
abbrev pub attr_capacity : List ℕ
attr_capacity = b'c' ∷ b'a' ∷ b'p' ∷ b'a' ∷ b'c' ∷ b'i' ∷ b't' ∷ b'y' ∷ []

abbrev pub attr_geo : List ℕ
attr_geo = b'g' ∷ b'e' ∷ b'o' ∷ []

abbrev pub attr_reputation : List ℕ
attr_reputation = b'r' ∷ b'e' ∷ b'p' ∷ b'u' ∷ b't' ∷ b'a' ∷ b't' ∷ b'i' ∷ b'o' ∷ b'n' ∷ []

abbrev pub attr_total_units : List ℕ
attr_total_units = b't' ∷ b'o' ∷ b't' ∷ b'a' ∷ b'l' ∷ b'_' ∷ b'u' ∷ b'n' ∷ b'i' ∷ b't' ∷ b's' ∷ []
