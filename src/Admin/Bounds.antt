-- ===== src/Admin/Bounds.antt =====
-- The bounds of the configuration, and who may change it (initialize_config.rs and admin.rs).
use sol_mesh.Base.{List, Bool, ℕ, ◌≤◌, ◌≡◌, Option, none, some, arith}
use sol_mesh.Base.Int.{ℤ, pos, ◌<ℤ◌}
use sol_mesh.Errors.{ok}
use sol_mesh.Constants.{max_fee_bps}
use sol_mesh.State.{Config, Node}
use sol_mesh.Admin.{edit_node, get_or, update_config_handler}

-- The fee is at most ten percent, and the challenge window positive.
pub record IsConfig (c : Config) : Type 0 where
  pub fee_capped : c.fee_bps ≤ max_fee_bps
  pub window_positive : pos 0 <ℤ c.challenge_window_secs

-- A change of a configuration within its bounds that goes through keeps the bounds, and sets the
-- fee and the window to what was asked for; where nothing is asked for, and in all else, it
-- changes nothing.
pub update_config_handler_lem :
    (fee : Option ℕ) (window : Option ℤ) (c : Config) {c' : Config}
    → IsConfig c
    → update_config_handler fee window c ≡ ok c'
    → IsConfig c'
      × (c' ≡ record c {
        fee_bps = get_or fee c.fee_bps;
        challenge_window_secs = get_or window c.challenge_window_secs;
      })
unfolding update_config_handler
update_config_handler_lem none none c v h = ground arith
update_config_handler_lem (some f) none c v h = ground arith
update_config_handler_lem none (some x) c v h = ground arith
update_config_handler_lem (some f) (some x) c v h = ground arith

pub update_config_handler-terms :
    (fee : Option ℕ) (window : Option ℤ) (c : Config) {c' : Config}
    → update_config_handler fee window c ≡ ok c'
    → c' ≡ record c {
      fee_bps = c'.fee_bps;
      challenge_window_secs = c'.challenge_window_secs;
      paused = c'.paused;
    }
unfolding update_config_handler
update_config_handler-terms none none c h = ground arith
update_config_handler-terms (some f) none c h = ground arith
update_config_handler-terms none (some x) c h = ground arith
update_config_handler-terms (some f) (some x) c h = ground arith

-- A provider's change of a node leaves all but the description.
pub edit_node-terms :
    (capacity : Option ℕ) (geo : Option (List ℕ)) (active : Option Bool) (n : Node) {n' : Node}
    → edit_node capacity geo active n ≡ ok n'
    → n' ≡ record n { capacity = n'.capacity; geo = n'.geo; active = n'.active }
unfolding edit_node
edit_node-terms none none active n h = ground arith
edit_node-terms (some c) none active n h = ground arith
edit_node-terms none (some g) active n h = ground arith
edit_node-terms (some c) (some g) active n h = ground arith
