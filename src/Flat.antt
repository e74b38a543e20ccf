-- ===== src/Flat.antt =====
-- Both functions `unflatten` of src/config_helpers.cpp, which turn a dotted key into nested structs.
pub mod Nesting
use flexi_config_reader.Common.{ℕ, zero, suc, Text, List, [], ◌∷◌, Option, none, some, ◌+◌, length}
use flexi_config_reader.Result.{Result, Run, ok, throw, ◌>>>=◌, invalid_type, undefined}
use flexi_config_reader.Utils.{split_head}
use flexi_config_reader.Types.{
  Config, config_struct, of_struct, Fields, end, field, data_of, with_data,
}
use flexi_config_reader.Types.Map.{at, set, erase}

-- The overload on a span, which goes from the last key to the first: this one has the keys before, with
-- how many they are.
nest : ℕ → List Text → Fields → Fields
nest depth [] cfg = cfg
nest depth (k ∷ ks) cfg = field k (config_struct of_struct k depth (nest (suc depth) ks cfg)) end

unfoldable pub unflatten_span : List Text → Fields → Fields
unfolding nest
unflatten_span keys cfg = nest 0 keys cfg

-- the node at the first key, a new struct where there is none
unfoldable pub head_node : Text → ℕ → Fields → Config
unfolding at
head_node head depth cfg = elim (at head cfg) [
  | none ↦ config_struct of_struct head depth end
  | some v ↦ v
]

-- The overload that works in place, on fuel; `none` means that the fuel ran out. A value that is missing
-- would be stored as a null pointer, which is `undefined` here.
unfoldable pub unflatten : ℕ → Text → Fields → ℕ → Run Fields
unfolding split_head head_node at set erase data_of with_data
unflatten zero flat_key cfg depth = none
unflatten (suc fuel) flat_key cfg depth = elim (split_head flat_key b'.').1 [
  | [] ↦ some (ok cfg)
  | c ∷ tail ↦
      let head = (split_head flat_key b'.').0 in
      let node = head_node head depth cfg in
      elim (data_of node) [
        | none ↦ some (throw invalid_type)
        | some next ↦ elim (at flat_key cfg) [
          | none ↦ some (throw undefined)
          | some value ↦
              unflatten fuel (c ∷ tail) (set (c ∷ tail) value next) (depth + 1) >>>= λ next'.
              some (ok (erase flat_key (set head (with_data next' node) cfg)))
        ]
      ]
]
