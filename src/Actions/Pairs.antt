-- ===== src/Actions/Pairs.antt =====
-- The actions that store a value under a key.
use flexi_config_reader.Common.{
  Text, List, [], ◌∷◌, ◌++◌, none, some, Bool, ◌||◌, ◌&&◌, not, if◌then◌else◌,
}
use flexi_config_reader.Result.{
  Result, ok, throw, ◌>>=◌, ◌>>◌, throw_if, invalid_state, invalid_type, duplicate_key,
  duplicate_override, undefined,
}
use flexi_config_reader.Utils.{dot, split}
use flexi_config_reader.Types.{
  Config, config_reference, ConfigType, k_proto, k_struct_in_proto, k_reference, Fields, end, field,
  type_of, with_data,
}
use flexi_config_reader.Types.Map.{contains, set, set_sorted}
use flexi_config_reader.Elements.{is_type}
use flexi_config_reader.Lookup.{back, drop_last}
use flexi_config_reader.Flat.{unflatten_span}
use flexi_config_reader.Actions.{
  ActionData, top, value_of, current, with_current, fields_of, default_res,
}

-- `fmt::join(out.keys, ".")`, of keys whose last is first
unfoldable pub fmt_join : List Text → Text
fmt_join [] = []
fmt_join (k ∷ []) = k
fmt_join (k ∷ j ∷ ks) = fmt_join (j ∷ ks) ++ (dot ++ k)

-- a value of an `[override]`
unfoldable pub store_override : Text → ActionData → Result ActionData
unfolding value_of set
store_override flat_key out = do
  throw_if (contains flat_key out.override_values) duplicate_override
  v ← value_of out.obj_res
  ok (record out { override_values = set flat_key v out.override_values; obj_res = none })

-- `data[out.keys.back()] = std::move(out.obj_res)`
unfoldable pub store : Text → Fields → ActionData → Result ActionData
unfolding value_of set with_current
store k content out = do
  v ← value_of out.obj_res
  ok (record (with_current (set k v content) out) { obj_res = none })

unfoldable pub on_pair : ActionData → Result ActionData
unfolding current store store_override fmt_join
on_pair out = elim out.keys [
  | [] ↦ throw invalid_state
  | k ∷ keys ↦ do
    content ← current out
    throw_if (not out.is_override && contains k content) duplicate_key
    out' ← if out.is_override then store_override (fmt_join (k ∷ keys)) out else store k content out
    ok (record out' { keys = keys })
]

-- the map of a dotted key that stands alone
unfoldable pub flat_map : List Text → Config → Result Fields
unfolding back drop_last unflatten_span
flat_map keys v = elim (back keys) [
  | none ↦ throw undefined
  | some k ↦ ok (unflatten_span (drop_last keys) (field k v end))
]

unfoldable pub on_full_pair : ActionData → Result ActionData
unfolding store_override value_of flat_map split
on_full_pair out = elim out.flat_keys [
  | [] ↦ throw invalid_state
  | k ∷ flat_keys ↦ elim out.objects [
    | _ ∷ _ ↦ throw invalid_state
    | [] ↦ do
      out' ← if out.is_override then store_override k out else (do
        v ← value_of out.obj_res
        c_map ← flat_map (split k b'.') v
        ok (record out { obj_res = none; cfg_res = c_map ∷ out.cfg_res }))
      ok (record out' { flat_keys = flat_keys })
  ]
]

-- `out.objects.back()->data[out.keys.back()] = std::move(out.obj_res)`, for a key that is new
unfoldable pub store_in_object : (ConfigType → Bool) → ActionData → Result ActionData
unfolding top fields_of value_of set type_of
store_in_object expected out = do
  (object, objects) ← top out.objects
  throw_if (not (expected (type_of object))) invalid_type
  (k, keys) ← top out.keys
  throw_if (contains k (fields_of object)) duplicate_key
  v ← value_of out.obj_res
  ok (record out {
    objects = with_data (set k v (fields_of object)) object ∷ objects;
    obj_res = none;
    keys = keys;
  })

abbrev pub of_proto : ConfigType → Bool
of_proto t = is_type t k_proto || is_type t k_struct_in_proto

unfoldable pub on_proto_pair : ActionData → Result ActionData
unfolding store_in_object
on_proto_pair out = do
  out' ← store_in_object of_proto out
  ok (record out' { result = default_res })

unfoldable pub on_ref_add_kvp : ActionData → Result ActionData
unfolding store_in_object
on_ref_add_kvp out = store_in_object (λ t. is_type t k_reference) out

-- `ref->ref_vars[out.result] = std::move(out.obj_res)`
unfoldable pub with_ref_var : Text → Config → Config → Config
unfolding set_sorted
with_ref_var k v (config_reference n p d r f) = config_reference n p d (set_sorted k v r) f
with_ref_var k v c = c

unfoldable pub on_ref_vardef : ActionData → Result ActionData
unfolding top value_of with_ref_var type_of
on_ref_vardef out = do
  (object, objects) ← top out.objects
  throw_if (not (is_type (type_of object) k_reference)) invalid_type
  v ← value_of out.obj_res
  ok (record out {
    objects = with_ref_var out.result v object ∷ objects;
    obj_res = none;
    result = default_res;
  })
