-- ===== src/Parser.antt =====
-- The passes of `Parser` in src/config_parser.cpp, and `structFromReference` of src/config_helpers.cpp.
-- `protos_` is a parameter and a result of the passes.
pub mod Overrides
pub mod Sources
use mathlib.Core.List.{reverse}
use flexi_config_reader.Common.{
  ℕ, suc, Text, text_dec, List, [], ◌∷◌, Option, none, some, Bool, true, false, ◌&&◌, ◌||◌, not,
  if◌then◌else◌, is_some, length, ◌==◌,
}
use flexi_config_reader.Result.{
  Result, ok, throw, ◌>>=◌, ◌>>◌, throw_if, invalid_key, invalid_override, out_of_range, undefined,
}
use flexi_config_reader.Utils.{split, join, dot}
use flexi_config_reader.Types.{
  Config, config_struct, config_proto, config_reference, of_struct, ConfigType, Fields, end, field,
  type_of, data_of, with_data, k_string, k_number, k_boolean, k_list, k_expression,
}
use flexi_config_reader.Types.Map.{at, contains, set, set_sorted, insert_all, erase, keys}
use flexi_config_reader.Elements.{is_type}
use flexi_config_reader.Merge.{check_for_errors}
use flexi_config_reader.Lookup.{back, drop_last, get_nested_config, content_of}

-- `join({base_name, e.first}, ".")`
abbrev pub full_name : Text → Text → Text
full_name base_name k = join (base_name ∷ k ∷ []) dot

-- `flattenAndFindProtos`: the flattened map and the protos
unfoldable mutual
  unfolding set set_sorted join

  pub flatten_and_find_protos : Fields → Text → Fields × Fields → Fields × Fields
  flatten_and_find_protos end base_name found = found
  flatten_and_find_protos (field k v f) base_name found =
      flatten_and_find_protos f base_name (flatten_entry v (full_name base_name k) found)

  pub flatten_entry : Config → Text → Fields × Fields → Fields × Fields
  flatten_entry (config_struct t n d f) name found = flatten_and_find_protos f name found
  flatten_entry (config_reference n p d r f) name found = flatten_and_find_protos f name found
  flatten_entry (config_proto n d f) name found =
      flatten_and_find_protos f name (found.0, set_sorted name (config_proto n d f) found.1)
  flatten_entry v name found = (set name v found.0, found.1)

-- the first loop of `structFromReference`; `clone` makes the same tree
unfoldable pub copy_proto : Fields → Fields → Result Fields
unfolding set check_for_errors
copy_proto out end = ok out
copy_proto out (field k v f) = elim (contains k out) [
  | false ↦ copy_proto (set k v out) f
  | true ↦ check_for_errors out (field k v f) k >>= λ _. copy_proto (set k v out) f
]

-- the second loop
unfoldable pub check_overlap : Fields → Fields → List Text → Result (Unit {0})
unfolding check_for_errors
check_overlap out data_ref [] = ok tt
check_overlap out data_ref (k ∷ ks) = elim (contains k out) [
  | false ↦ check_overlap out data_ref ks
  | true ↦ check_for_errors out data_ref k >>= λ _. check_overlap out data_ref ks
]

-- for the reference's name, depth and data, and the proto's data
unfoldable pub struct_from_reference : Text → ℕ → Fields → Fields → Result Config
unfolding copy_proto check_overlap insert_all keys
struct_from_reference name depth ref_data proto_data = do
  out ← copy_proto end proto_data
  check_overlap out ref_data (keys ref_data)
  ok (config_struct of_struct name depth (insert_all out ref_data))

-- the map that the keys lead to, changed in place; a key that leads to no map changes nothing
unfoldable pub update_at : List Text → (Fields → Fields) → Fields → Fields
unfolding at data_of set with_data
update_at [] change cfg = change cfg
update_at (k ∷ ks) change cfg = elim (at k cfg) [
  | none ↦ cfg
  | some v ↦ elim (data_of v) [
    | none ↦ cfg
    | some d ↦ set k (with_data (update_at ks change d) v) cfg
  ]
]

-- `checked_types.contains(type)`
unfoldable pub is_checked : ConfigType → Bool
is_checked k_string = true
is_checked k_number = true
is_checked k_boolean = true
is_checked k_list = true
is_checked k_expression = true
is_checked _ = false

-- the negation of `types_match`, where both types are checked
unfoldable pub types_clash : ConfigType → ConfigType → Bool
unfolding is_checked
types_clash default_type override_type =
    (is_checked default_type && is_checked override_type)
    && not (
        is_type default_type override_type
        || ((is_type default_type k_number && is_type override_type k_expression)
            || (is_type default_type k_expression && is_type override_type k_number)))

-- the `catch` clause
unfoldable pub catch_invalid_key : {A : Type 0} → Result A → Result A
catch_invalid_key (throw invalid_key) = throw invalid_override
catch_invalid_key r = r

-- the body of the loop of `validateAndApplyOverrides`
unfoldable pub apply_override : Text → Config → Fields → Result Fields
unfolding split get_nested_config content_of back drop_last at update_at set types_clash
    catch_invalid_key type_of
apply_override flat_key value cfg_map =
    let parts = split flat_key b'.' in
    catch_invalid_key (do
      struct_like ← get_nested_config cfg_map parts
      elim (back parts) [
        | none ↦ throw undefined
        | some k ↦ elim (at k (content_of cfg_map struct_like)) [
          | none ↦ throw invalid_override
          | some default ↦
              if types_clash (type_of default) (type_of value)
              then throw invalid_override
              else ok (update_at (drop_last parts) (set k value) cfg_map)
        ]
      ])

unfoldable pub validate_and_apply_overrides : Fields → Fields → Result Fields
unfolding apply_override
validate_and_apply_overrides end cfg_map = ok cfg_map
validate_and_apply_overrides (field k v f) cfg_map =
    apply_override k v cfg_map >>= λ cfg_map'. validate_and_apply_overrides f cfg_map'

-- the body of the loop of `stripProtos`; the last part must be there, since its entry is traced
unfoldable pub strip_proto : Text → Fields → Result Fields
unfolding split get_nested_config data_of back drop_last update_at erase
strip_proto key cfg_map =
    let parts = split key b'.' in
    do
      content ←
          if length parts == 1
          then ok cfg_map
          else (get_nested_config cfg_map parts >>= λ struct_like. elim struct_like [
            | none ↦ throw undefined
            | some v ↦ ok (content_of cfg_map (some v))
          ])
      elim (back parts) [
        | none ↦ throw undefined
        | some k ↦
            if contains k content
            then ok (update_at (drop_last parts) (erase k) cfg_map)
            else throw out_of_range
      ]

strip_each : List Text → Fields → Result Fields
unfolding strip_proto
strip_each [] cfg_map = ok cfg_map
strip_each (k ∷ ks) cfg_map = strip_proto k cfg_map >>= λ cfg_map'. strip_each ks cfg_map'

-- `stripProtos`: the protos' keys are sorted, and are taken from the last one
unfoldable pub strip_protos : Fields → Fields → Result Fields
unfolding strip_each keys
strip_protos protos cfg_map = strip_each (reverse (keys protos)) cfg_map
