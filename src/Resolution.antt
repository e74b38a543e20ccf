-- ===== src/Resolution.antt =====
-- `resolveConfig` of src/config_parser.cpp: the passes on the maps that the actions made, one after the
-- other.
pub mod Protos
pub mod Unflattened
pub mod Final
pub mod Total
use mathlib.Core.List.{reverse}
use native.Mathlib.Decide.{ℕ_discrete}
use flexi_config_reader.Common.{
  ℕ, zero, suc, ◌+◌, Text, List, [], ◌∷◌, Option, none, some, Bool, true, false, has, length,
  if◌then◌else◌,
}
use flexi_config_reader.Result.{Result, Run, ok, throw, ◌>>=◌, ◌>>>=◌, undefined}
use flexi_config_reader.Types.{Config, Fields, end, field, data_of}
use flexi_config_reader.Types.Map.{keys, text_less}
use flexi_config_reader.Merge.{merge_nested}
use flexi_config_reader.Flat.{unflatten}
use flexi_config_reader.Clean.{cleanup_config}
use flexi_config_reader.Parser.{flatten_and_find_protos, validate_and_apply_overrides, strip_protos}
use flexi_config_reader.Vars.{Services}
use flexi_config_reader.References.{resolve_references}
use flexi_config_reader.Math.{Arithmetic}
use flexi_config_reader.Expressions.{Reading, evaluate_expressions}
use flexi_config_reader.Store.{Cells}
use flexi_config_reader.Store.Load.{unload}
use flexi_config_reader.Store.Resolve.{resolve_root}

-- The first loop. Of the flattened map and the protos, only the protos are used afterwards.
unfoldable pub flatten_all : List Fields → Fields × Fields → Fields × Fields
unfolding flatten_and_find_protos
flatten_all [] found = found
flatten_all (e ∷ cfg_res) found = flatten_all cfg_res (flatten_and_find_protos e [] found)

unfoldable pub find_protos : List Fields → Fields
unfolding flatten_all
find_protos cfg_res = (flatten_all cfg_res (end, end)).1

-- `sort` of the keys and `reverse`, one by one
unfoldable pub insert_descending : Text → List Text → List Text
unfolding text_less
insert_descending k [] = k ∷ []
insert_descending k (j ∷ ks) =
    let rest = insert_descending k ks in if text_less k j then j ∷ rest else k ∷ j ∷ ks

-- the keys with a dot, the greatest one first
unfoldable pub flat_keys : List Text → List Text
unfolding insert_descending has ℕ_discrete
flat_keys [] = []
flat_keys (k ∷ ks) =
    let rest = flat_keys ks in if has ℕ_discrete b'.' k then insert_descending k rest else rest

-- the loop that calls `unflatten`, with more fuel than a key has bytes
unfoldable pub unflatten_all : List Text → Fields → Run Fields
unfolding unflatten
unflatten_all [] cfg_data = some (ok cfg_data)
unflatten_all (key ∷ ks) cfg_data = unflatten (length key + 1) key cfg_data 0 >>>= unflatten_all ks

-- `mergeNested`, `validateAndApplyOverrides` and `stripProtos`
unfoldable pub merge_documents : Fields → Fields → List Fields → Result Fields
unfolding merge_nested validate_and_apply_overrides strip_protos
merge_documents protos override_values cfg_res = merge_nested cfg_res >>= λ merged.
    validate_and_apply_overrides override_values merged >>= strip_protos protos

-- the passes on the merged map until its flat keys are gone
unfoldable pub prepare_merged : Fields → Fields → List Fields → Run Fields
unfolding merge_documents keys unflatten_all flat_keys
prepare_merged protos override_values cfg_res =
    some (merge_documents protos override_values cfg_res) >>>= λ cfg_data.
    unflatten_all (flat_keys (keys cfg_data)) cfg_data

module _ (services : Services) where
  -- the loop that calls `resolveReferences`, each call with the same fuel
  unfoldable pub resolve_documents : Fields → ℕ → List Fields → Run (List Fields)
  unfolding resolve_references
  resolve_documents protos fuel [] = some (ok [])
  resolve_documents protos fuel (e ∷ cfg_res) =
      resolve_references services protos fuel [] end [] e >>>= λ e'.
      resolve_documents protos fuel cfg_res >>>= λ cfg_res'. some (ok (e' ∷ cfg_res'))

  -- `cfg_data_` before `resolveVarRefs`
  unfoldable pub prepare : ℕ → Fields → List Fields → Run Fields
  unfolding resolve_documents find_protos prepare_merged
  prepare fuel override_values cfg_res =
      resolve_documents (find_protos cfg_res) fuel cfg_res
      >>>= prepare_merged (find_protos cfg_res) override_values

module _ (arithmetic : Arithmetic) (reading : Reading arithmetic) where
  -- The passes after it, on the tree below the root. Where a struct has become its own descendant,
  -- there is no such tree, and the passes would recurse without end, so `none` is returned.
  unfoldable pub finish : ℕ → Cells × ℕ → Run Fields
  unfolding unload data_of evaluate_expressions cleanup_config
  finish fuel (cells, root) = elim (unload fuel cells root) [
    | none ↦ none
    | some tree ↦ elim (data_of tree) [
      | none ↦ some (throw undefined)
      | some cfg_data ↦ some (
          evaluate_expressions arithmetic reading cfg_data [] >>= λ evaluated.
          ok (cleanup_config evaluated 0))
    ]
  ]

module _ (services : Services) (arithmetic : Arithmetic) (reading : Reading arithmetic) where
  -- after `resolveVarRefs`: the store, and where the root map is
  unfoldable pub resolve_store : ℕ → Fields → List Fields → Run (Cells × ℕ)
  unfolding prepare resolve_root
  resolve_store fuel override_values cfg_res =
      prepare services fuel override_values cfg_res >>>= resolve_root arithmetic reading

  -- `resolveConfig`, on fuel for the references and for the height of the tree
  unfoldable pub resolve_config : ℕ → ℕ → Fields → List Fields → Run Fields
  unfolding resolve_store finish
  resolve_config fuel height override_values cfg_res =
      resolve_store fuel override_values cfg_res >>>= finish arithmetic reading height
