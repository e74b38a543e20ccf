-- ===== src/Merge.antt =====
-- `checkForErrors` and `mergeNestedMaps` of src/config_helpers.cpp, and `mergeNested` of
-- src/config_parser.cpp: the maps of several blocks become one.
pub mod Checks
pub mod Leaves
pub mod Several
use mathlib.Core.List.{foldl}
use flexi_config_reader.Common.{
  ℕ, Text, text_dec, List, [], ◌∷◌, Option, none, some, Bool, true, false, ◌&&◌, ite, has,
  if◌then◌else◌, ◌+◌, ◌==◌, is_some,
}
use flexi_config_reader.Result.{
  Result, ok, throw, ◌>>=◌, ◌>>◌, throw_if, duplicate_key, mismatch_key, mismatch_type,
  out_of_range,
}
use flexi_config_reader.Types.{
  ConfigType, ConfigType-discrete, Config, config_struct, config_proto, config_reference, Fields,
  end, field, type_of, is_struct_like, data_of,
}
use flexi_config_reader.Types.Map.{at, contains, insert_all, keys, text_less}

-- `static_cast<int>`
abbrev to_int : Bool → ℕ
to_int true = 1
to_int false = 0

unfoldable pub check_values : Config → Config → Result Bool
unfolding type_of is_struct_like
check_values v w =
    let dict_count = to_int (is_struct_like v) + to_int (is_struct_like w) in
    do
      throw_if (dict_count == 0) duplicate_key
      throw_if (dict_count == 1) mismatch_key
      ite (ConfigType-discrete (type_of v) (type_of w)) (ok (dict_count == 2)) (throw mismatch_type)

-- `cfg.at(key)`
unfoldable pub at_or_throw : Text → Fields → Result Config
at_or_throw k f = elim (at k f) [ none ↦ throw out_of_range | some v ↦ ok v ]

unfoldable pub check_for_errors : Fields → Fields → Text → Result Bool
unfolding check_values at_or_throw
check_for_errors cfg1 cfg2 key = do
  v ← at_or_throw key cfg1
  w ← at_or_throw key cfg2
  check_values v w

insert_key : Text → List Text → List Text
unfolding text_less
insert_key k [] = k ∷ []
insert_key k (j ∷ ks) = if text_less j k then j ∷ insert_key k ks else k ∷ j ∷ ks

-- `std::sort`
unfoldable pub sort_keys : List Text → List Text
unfolding insert_key
sort_keys [] = []
sort_keys (k ∷ ks) = insert_key k (sort_keys ks)

-- the keys of the first list that the second map has, as `set_intersection` of the sorted keys
unfoldable pub common_keys : List Text → Fields → List Text
common_keys [] g = []
common_keys (k ∷ ks) g = let rest = common_keys ks g in if contains k g then k ∷ rest else rest

-- the loop that checks each common key
unfoldable pub check_keys : Fields → Fields → List Text → Result (Unit {0})
unfolding check_for_errors
check_keys f g [] = ok tt
check_keys f g (k ∷ ks) = check_for_errors f g k >>= λ _. check_keys f g ks

unfoldable pub check_common : Fields → Fields → Result (Unit {0})
unfolding check_keys common_keys sort_keys keys
check_common f g = check_keys f g (common_keys (sort_keys (keys f)) g)

-- The loop over the entries of the output that come from the first map, and the recursive call for an
-- entry of both maps. The entries that only the second map has follow, and are not touched.
unfoldable mutual
  pub merge_walk : Fields → Fields → Result Fields
  merge_walk end g = ok end
  merge_walk (field k v f) g = elim (at k g) [
    | none ↦ merge_walk f g >>= λ rest. ok (field k v rest)
    | some w ↦ merge_entry v w >>= λ v'. merge_walk f g >>= λ rest. ok (field k v' rest)
  ]

  pub merge_entry : Config → Config → Result Config
  merge_entry (config_struct t n d f) w = elim (data_of w) [
    | none ↦ ok (config_struct t n d f)
    | some g ↦
        check_common f g >> merge_walk f g >>= λ f'. ok (config_struct t n d (insert_all f' g))
  ]
  merge_entry (config_proto n d f) w = elim (data_of w) [
    | none ↦ ok (config_proto n d f)
    | some g ↦ check_common f g >> merge_walk f g >>= λ f'. ok (config_proto n d (insert_all f' g))
  ]
  merge_entry (config_reference n p d r f) w = elim (data_of w) [
    | none ↦ ok (config_reference n p d r f)
    | some g ↦
        check_common f g >> merge_walk f g >>= λ f'. ok (config_reference n p d r (insert_all f' g))
  ]
  merge_entry v w = ok v

unfoldable pub merge_nested_maps : Fields → Fields → Result Fields
unfolding merge_walk check_common insert_all
merge_nested_maps cfg1 cfg2 =
    check_common cfg1 cfg2 >> merge_walk cfg1 cfg2 >>= λ f. ok (insert_all f cfg2)

merge_rest : Fields → List Fields → Result Fields
unfolding merge_nested_maps
merge_rest squashed [] = ok squashed
merge_rest squashed (cfg ∷ rest) = merge_nested_maps squashed cfg >>= λ s. merge_rest s rest

-- `mergeNested`
unfoldable pub merge_nested : List Fields → Result Fields
unfolding merge_rest
merge_nested [] = ok end
merge_nested (cfg ∷ rest) = merge_rest cfg rest
