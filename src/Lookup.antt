-- ===== src/Lookup.antt =====
-- `getNestedConfig`, `getConfigValue` and the chain of `resolveVarRefs` of src/config_helpers.cpp:
-- how a dotted key, or the keys of a `ConfigValueLookup`, is found in the tree.
pub mod Unseen
pub mod Paths
pub mod Chains
use flexi_config_reader.Common.{
  ℕ, zero, suc, Text, text_dec, List, [], ◌∷◌, ◌++◌, Option, none, some, Bool, true, false, ite,
  has, if◌then◌else◌,
}
use flexi_config_reader.Result.{
  Result, ok, throw, ◌>>=◌, invalid_key, invalid_type, cyclic_reference, undefined,
}
use flexi_config_reader.Utils.{make_name, join, dot, split}
use flexi_config_reader.Types.{Config, config_value_lookup, Fields, data_of}
use flexi_config_reader.Types.Map.{at}

-- `keys.back()`
unfoldable pub back : List Text → Option Text
back [] = none
back (k ∷ []) = some k
back (k ∷ j ∷ ks) = back (j ∷ ks)

-- `keys | drop_last(1)`
unfoldable pub drop_last : List Text → List Text
drop_last [] = []
drop_last (k ∷ []) = []
drop_last (k ∷ j ∷ ks) = k ∷ drop_last (j ∷ ks)

-- the loop: the keys to go, `rejoined`, `*content` and `struct_like`
nested_loop : List Text → Text → Fields → Option Config → Result (Option Config)
nested_loop [] rejoined content struct_like = ok struct_like
nested_loop (key ∷ keys) rejoined content struct_like = elim (at key content) [
  | none ↦ throw invalid_key
  | some v ↦ elim (make_name rejoined key) [
    | throw e ↦ throw e
    | ok rejoined' ↦ elim (data_of v) [
      | none ↦ throw invalid_type
      | some d ↦ nested_loop keys rejoined' d (some v)
    ]
  ]
]

-- `none` is a null pointer, which is returned where there is one key
unfoldable pub get_nested_config : Fields → List Text → Result (Option Config)
unfolding nested_loop drop_last make_name
get_nested_config cfg keys = nested_loop (drop_last keys) [] cfg none

-- the map of a struct-like, or the root where the pointer is null
unfoldable pub content_of : Fields → Option Config → Fields
unfolding data_of
content_of cfg none = cfg
content_of cfg (some v) = elim (data_of v) [ none ↦ cfg | some d ↦ d ]

unfoldable pub get_config_value : Fields → List Text → Result Config
unfolding get_nested_config content_of back
get_config_value cfg keys = do
  struct_like ← get_nested_config cfg keys
  elim (back keys) [
    | none ↦ throw undefined
    | some key ↦ elim (at key (content_of cfg struct_like)) [
      | none ↦ throw invalid_key
      | some v ↦ ok v
    ]
  ]

-- `var()` of a `ConfigValueLookup`
unfoldable pub var_of : List Text → Text
unfolding join
var_of keys = join keys dot

-- `dynamic_pointer_cast<ConfigValueLookup>(value)`, its keys
unfoldable pub lookup_keys : Config → Option (List Text)
lookup_keys (config_value_lookup keys) = some keys
lookup_keys _ = none

-- the `do … while` of `resolveVarRefs` on fuel, for a value that is a lookup of these keys; the outer
-- `none` means that the fuel ran out
unfoldable pub resolve_loop : Fields → ℕ → List Text → List Text → Option (Result Config)
unfolding get_config_value var_of has text_dec lookup_keys
resolve_loop root zero refs keys = none
resolve_loop root (suc fuel) refs keys = elim (has text_dec (var_of keys) refs) [
  | true ↦ some (throw cyclic_reference)
  | false ↦ elim (get_config_value root keys) [
    | throw e ↦ some (throw e)
    | ok v ↦ elim (lookup_keys v) [
      | none ↦ some (ok v)
      | some keys' ↦ resolve_loop root fuel (refs ++ var_of keys ∷ []) keys'
    ]
  ]
]

-- `resolveVarRefs` of one value
unfoldable pub resolve_var_refs : Fields → ℕ → Text → List Text → Option (Result Config)
unfolding resolve_loop
resolve_var_refs root fuel src_key keys = resolve_loop root fuel (src_key ∷ []) keys
