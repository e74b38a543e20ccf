-- ===== src/Tests/Trees.antt =====
-- The operations on trees at concrete inputs.
use flexi_config_reader.Common.{
  ◌+◌, ◌<◌, Text, codes, List, [], ◌∷◌, none, some, true, false, ◌≡◌, inr, refl, arith, text_dec,
  length,
}
use flexi_config_reader.Assoc
use flexi_config_reader.Result.{Result, ok}
use flexi_config_reader.Utils.{split}
use flexi_config_reader.Types
use flexi_config_reader.Types.{
  Config, config_value, config_struct, config_value_lookup, config_expression, of_struct, of_number,
  of_string, Fields, end, field, Items, nil, cons, k_number, k_string, k_unknown, k_expression,
  type_of, data_of, is_struct_like,
}
use flexi_config_reader.Types.Map.{at, set, insert, erase, to_list, to_list-set}
use flexi_config_reader.Elements.{list_element_valid, AllFit, push_back, push_back-AllFit}
use flexi_config_reader.Merge.{check_common, merge_nested_maps, merge_nested}
use flexi_config_reader.Merge.Several.{first_leaf, leaf_at-merge_nested}
use flexi_config_reader.Merge.Checks.{check_common-agree}
use flexi_config_reader.Merge.Leaves.{leaf_at, leaf_at-merge_nested_maps}
use flexi_config_reader.Lookup.{get_config_value, resolve_var_refs, lookup_keys}
use flexi_config_reader.Lookup.Paths.{walk, AreNonempty, get_config_value-walk}
use flexi_config_reader.Lookup.Chains.{vars, resolve_var_refs_total}
use flexi_config_reader.Flat.{unflatten_span}
use flexi_config_reader.Flat.Nesting.{get_config_value-unflatten_span}
use flexi_config_reader.Clean.{cleanup_config}
use flexi_config_reader.Clean.Emptiness.{NoEmptyStruct, cleanup_config-NoEmptyStruct}
use flexi_config_reader.Reader.{exists}
use flexi_config_reader.Reader.Existence.{is_ok, exists_lem}
use flexi_config_reader.Parser.{apply_override, types_clash}
use flexi_config_reader.Parser.Overrides.{apply_override-get_config_value}

abbrev one : Config
one = config_value (codes "1") of_number

abbrev two : Config
two = config_value (codes "2") of_number

-- `struct a { b = 1 }`
abbrev first : Fields
first = field (codes "a") (config_struct of_struct (codes "a") 0 (field (codes "b") one end)) end

-- `struct a { c = 2 }`
abbrev second : Fields
second = field (codes "a") (config_struct of_struct (codes "a") 0 (field (codes "c") two end)) end

abbrev both : Fields
both =
    field (codes "a")
      (config_struct of_struct (codes "a") 0 (field (codes "b") one (field (codes "c") two end)))
      end

abbrev path : List Text
path = codes "a" ∷ codes "b" ∷ []

path-AreNonempty : AreNonempty path
path-AreNonempty = ((λ e. cc), ((λ e. cc), tt))

leaf_at-merge_example :
    leaf_at path both ≡ elim (leaf_at path first) [ none ↦ leaf_at path second | some v ↦ some v ]
unfolding merge_nested_maps text_dec Types.ConfigType-discrete at data_of
leaf_at-merge_example = leaf_at-merge_nested_maps path first second both refl

leaf_at-merge_nested_example : leaf_at path both ≡ first_leaf path (first ∷ second ∷ [])
unfolding merge_nested text_dec Types.ConfigType-discrete at data_of
leaf_at-merge_nested_example = leaf_at-merge_nested path (first ∷ second ∷ []) both refl

abbrev in_first : Config
in_first = config_struct of_struct (codes "a") 0 (field (codes "b") one end)

abbrev in_second : Config
in_second = config_struct of_struct (codes "a") 0 (field (codes "c") two end)

check_common_example :
    (Types.is_struct_like in_first ≡ true)
    × (Types.is_struct_like in_second ≡ true)
    × (Types.type_of in_first ≡ Types.type_of in_second)
unfolding check_common text_dec Types.ConfigType-discrete at
check_common_example = check_common-agree first second (codes "a") in_first in_second refl refl refl

get_config_value-walk_example : get_config_value both path ≡ walk both path
get_config_value-walk_example = get_config_value-walk both path path-AreNonempty

-- `a = $(b)` and `b = $(a)`
abbrev cycle : Fields
cycle =
    field (codes "a") (config_value_lookup (codes "b" ∷ []))
      (field (codes "b") (config_value_lookup (codes "a" ∷ [])) end)

cycle-lt : length (vars cycle) + 1 < 4
unfolding vars
cycle-lt = omega arith

resolve_var_refs_example :
    (r : Result Config) × (resolve_var_refs cycle 4 (codes "a") (codes "b" ∷ []) ≡ some r)
    × ((v : Config) → r ≡ ok v → lookup_keys v ≡ none)
resolve_var_refs_example = resolve_var_refs_total cycle 4 (codes "a") (codes "b" ∷ []) cycle-lt

unflatten_span_example :
    get_config_value (unflatten_span (codes "a" ∷ []) (field (codes "b") one end)) path ≡ ok one
unflatten_span_example =
    get_config_value-unflatten_span (codes "a" ∷ []) (codes "b") one path-AreNonempty

cleanup_config_example :
    NoEmptyStruct
      (cleanup_config (field (codes "e") (config_struct of_struct (codes "e") 7 end) both) 0)
cleanup_config_example =
    cleanup_config-NoEmptyStruct
      (field (codes "e") (config_struct of_struct (codes "e") 7 end) both) 0

split-path : split (codes "a.b") b'.' ≡ path
unfolding split
split-path = refl

exists_example :
    exists (record { cfg_data = both; parent_name = [] }) (codes "a.b")
    ≡ ok (is_ok (get_config_value both (split (codes "a.b") b'.')))
unfolding split
exists_example =
    exists_lem (record { cfg_data = both; parent_name = [] }) (codes "a.b") (λ e. cc)
      path-AreNonempty

-- `a.b [override] = 2`
abbrev overridden : Fields
overridden =
    field (codes "a") (config_struct of_struct (codes "a") 0 (field (codes "b") two end)) end

apply_override_example :
    ((w : Config) × (get_config_value first (split (codes "a.b") b'.') ≡ ok w)
      × (types_clash (type_of w) (type_of two) ≡ false))
    × (get_config_value overridden (split (codes "a.b") b'.') ≡ ok two)
unfolding apply_override split text_dec Types.ConfigType-discrete
apply_override_example =
    apply_override-get_config_value (codes "a.b") two first overridden path-AreNonempty refl

push_back_example :
    AllFit (list_element_valid k_number (type_of two)).1 (push_back (cons one nil) two)
unfolding type_of list_element_valid Types.ConfigType-discrete
push_back_example =
    push_back-AllFit k_number (cons one nil) two ((λ e. cc), inr (inr (inr ((λ e. cc), refl))), tt)
      (λ e. cc) refl

to_list-set_example :
    (to_list (set (codes "a") two first) ≡ Assoc.set text_dec (codes "a") two (to_list first))
    × (to_list (insert (codes "a") two first)
        ≡ Assoc.insert text_dec (codes "a") two (to_list first))
    × (to_list (erase (codes "a") first) ≡ Assoc.erase text_dec (codes "a") (to_list first))
to_list-set_example = to_list-set (codes "a") two first
