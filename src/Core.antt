-- ===== src/Core.antt =====
-- programs/solmesh/src/cpi/core.rs: the calls of mpl-core that create a node's asset and rewrite
-- its attributes. What mpl-core does with them is a parameter (`core_invoke`).
use sol_mesh.Base.{ℕ, List, [], ◌∷◌}
use sol_mesh.Errors.{Result, ok, ◌>>=◌, ok_or, program_failed}
use sol_mesh.Constants.{attr_capacity, attr_geo, attr_reputation, attr_total_units}
use sol_mesh.Runtime.{
  Chain, World, Attribute, attributes, update_delegate, update_authority, address, CoreCall,
  create_v1, update_plugin_v1,
}
use sol_mesh.Base.Decimal.{to_string}

-- The four attributes of a node's asset; the third and fourth are numbers already printed.
abbrev pub attribute_list : ℕ → List ℕ → List ℕ → List ℕ → List Attribute
attribute_list capacity geo reputation total_units =
    (attr_capacity, to_string capacity)
    ∷ (attr_geo, geo)
    ∷ (attr_reputation, reputation)
    ∷ (attr_total_units, total_units)
    ∷ []

-- A call that goes through is recorded.
abbrev invoke_signed : Chain → CoreCall → List (List ℕ) → World → Result World
invoke_signed ch call seeds w = do
  m ← ok_or (ch.core_invoke call seeds w.lamports) program_failed
  ok (record w { lamports = m; core_calls = call ∷ w.core_calls })

-- The call that creates an asset: asset, payer, owner and update authority; then name, URI,
-- capacity, region and reputation.
abbrev pub creation : ℕ → ℕ → ℕ → ℕ → List ℕ → List ℕ → ℕ → List ℕ → ℕ → CoreCall
creation asset payer owner authority name uri capacity geo init_reputation = create_v1 (record {
  asset = asset;
  payer = payer;
  owner = owner;
  update_authority = authority;
  name = name;
  uri = uri;
  plugins =
      (
        attributes (attribute_list capacity geo (to_string init_reputation) (b'0' ∷ [])),
        update_authority,
      )
      ∷ (update_delegate [], address authority)
      ∷ [];
})

unfoldable pub create_node_asset :
    Chain → ℕ → ℕ → ℕ → ℕ → List ℕ → List ℕ → ℕ → List ℕ → ℕ → List (List ℕ) → World → Result World
create_node_asset ch asset payer owner authority name uri capacity geo init_reputation seeds w =
    invoke_signed ch (creation asset payer owner authority name uri capacity geo init_reputation)
      seeds w

-- The call that rewrites the attributes: asset, payer and authority; then capacity, region,
-- reputation and units.
abbrev pub rewriting : ℕ → ℕ → ℕ → ℕ → List ℕ → ℕ → ℕ → CoreCall
rewriting asset payer authority capacity geo reputation total_units = update_plugin_v1 (record {
  asset = asset;
  payer = payer;
  authority = authority;
  plugin = attributes (attribute_list capacity geo (to_string reputation) (to_string total_units));
})

unfoldable pub set_reputation :
    Chain → ℕ → ℕ → ℕ → ℕ → List ℕ → ℕ → ℕ → List (List ℕ) → World → Result World
set_reputation ch asset payer authority capacity geo reputation total_units seeds w =
    invoke_signed ch (rewriting asset payer authority capacity geo reputation total_units) seeds w
