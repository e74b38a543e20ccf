-- ===== src/Clean.antt =====
-- `cleanupConfig` of src/config_helpers.cpp: structs get their depth, and empty ones are removed.
pub mod Emptiness
use flexi_config_reader.Common.{ℕ, suc, Text, List, [], ◌∷◌, Bool, true, false, if◌then◌else◌}
use flexi_config_reader.Types.{
  Config, config_value, config_list, config_expression, config_value_lookup, config_var,
  config_struct, config_proto, config_reference, Fields, end, field,
}
use flexi_config_reader.Types.Map.{erase, is_empty}

-- a struct, of either type, without entries
unfoldable pub is_empty_struct : Config → Bool
unfolding is_empty
is_empty_struct (config_struct t n d f) = is_empty f
is_empty_struct _ = false

-- `to_erase`
unfoldable pub to_erase : Fields → List Text
unfolding is_empty_struct
to_erase end = []
to_erase (field k v f) = let rest = to_erase f in if is_empty_struct v then k ∷ rest else rest

-- the second loop
unfoldable pub erase_keys : List Text → Fields → Fields
unfolding erase
erase_keys [] f = f
erase_keys (k ∷ ks) f = erase_keys ks (erase k f)

-- The first loop. A struct is cleaned by both loops.
unfoldable mutual
  unfolding to_erase erase_keys

  pub clean_walk : ℕ → Fields → Fields
  clean_walk depth end = end
  clean_walk depth (field k v f) = field k (clean_entry depth v) (clean_walk depth f)

  pub clean_entry : ℕ → Config → Config
  clean_entry depth (config_struct t n d f) =
      let cleaned = clean_walk (suc depth) f in
      config_struct t n depth (erase_keys (to_erase cleaned) cleaned)
  clean_entry depth v = v

unfoldable pub cleanup_config : Fields → ℕ → Fields
unfolding clean_walk to_erase erase_keys
cleanup_config cfg depth =
    let cleaned = clean_walk depth cfg in erase_keys (to_erase cleaned) cleaned
