-- ===== src/Store/Follow.antt =====
-- `getConfigValue` and the chain of `resolveVarRefs` of src/config_helpers.cpp on a store: the address of
-- the node that a lookup leads to.
pub mod Ends
pub mod Chain
pub mod Moved
pub mod Redirected
use flexi_config_reader.Common.{
  ℕ, zero, suc, ◌+◌, Text, text_dec, List, [], ◌∷◌, ◌++◌, Option, none, some, Bool, true, false,
  has, length,
}
use flexi_config_reader.Result.{
  Result, Run, ok, throw, ◌>>=◌, ◌>>>=◌, invalid_key, invalid_type, cyclic_reference, undefined,
}
use flexi_config_reader.Utils.{make_name}
use flexi_config_reader.Lookup.{back, drop_last, var_of}
use flexi_config_reader.Store.{Links, Cell, cell_lookup, Cells, cell_at, link_at, content_at}

-- the loop of `getNestedConfig`: the keys to go, `rejoined` and `*content`
unfoldable pub find_content : Cells → List Text → Text → Links → Result Links
unfolding make_name content_at link_at
find_content cells [] rejoined content = ok content
find_content cells (key ∷ keys) rejoined content = elim (link_at key content) [
  | none ↦ throw invalid_key
  | some a ↦ make_name rejoined key >>= λ rejoined'. elim (content_at cells a) [
    | none ↦ throw invalid_type
    | some content' ↦ find_content cells keys rejoined' content'
  ]
]

-- `getConfigValue` from a map on
unfoldable pub find_from : Cells → Links → List Text → Result ℕ
unfolding find_content drop_last back link_at
find_from cells links keys = find_content cells (drop_last keys) [] links >>= λ content.
    elim (back keys) [
      | none ↦ throw undefined
      | some key ↦ elim (link_at key content) [ none ↦ throw invalid_key | some a ↦ ok a ]
    ]

-- `getConfigValue` from the map at the address of the root on
unfoldable pub find : Cells → ℕ → List Text → Result ℕ
unfolding content_at find_from
find cells root keys = elim (content_at cells root) [
  | none ↦ throw undefined
  | some links ↦ find_from cells links keys
]

-- `dynamic_pointer_cast<ConfigValueLookup>(value)`, its keys
unfoldable pub keys_of : Cell → Option (List Text)
keys_of (cell_lookup keys) = some keys
keys_of _ = none

unfoldable pub keys_at : Cells → ℕ → Option (List Text)
unfolding keys_of
keys_at cells a = elim (cell_at cells a) [ none ↦ none | some c ↦ keys_of c ]

-- the `do … while`, on fuel, for a value that is a lookup of these keys
unfoldable pub follow_loop : Cells → ℕ → ℕ → List Text → List Text → Run ℕ
unfolding find keys_at var_of has text_dec
follow_loop cells root zero refs keys = none
follow_loop cells root (suc fuel) refs keys = elim (has text_dec (var_of keys) refs) [
  | true ↦ some (throw cyclic_reference)
  | false ↦ some (find cells root keys) >>>= λ a. elim (keys_at cells a) [
    | none ↦ some (ok a)
    | some keys' ↦ follow_loop cells root fuel (refs ++ var_of keys ∷ []) keys'
  ]
]

-- with more fuel than there are cells
unfoldable pub follow : Cells → ℕ → Text → List Text → Run ℕ
unfolding follow_loop
follow cells root src_key keys = follow_loop cells root (length cells + 2) (src_key ∷ []) keys
