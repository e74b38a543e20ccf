-- ===== src/Actions/Objects.antt =====
-- The actions of structs, protos and references: where they begin, an object is put on the stack, and
-- where they end, it is stored in the object below or in the last map of the results.
use flexi_config_reader.Common.{
  Text, text_dec, codes, [], ◌∷◌, some, true, false, ◌&&◌, ite, if◌then◌else◌, increment, to_size,
}
use flexi_config_reader.Result.{Result, ok, ◌>>=◌, ◌>>◌, throw_if, duplicate_key}
use flexi_config_reader.Types.{
  config_value, of_string, config_struct, config_proto, config_reference, of_struct,
  of_struct_in_proto, end, field,
}
use flexi_config_reader.Types.Map.{contains, set}
use flexi_config_reader.Actions.{ActionData, top, current, with_current, joined, name_of}

-- `PARENTNAMEk`
unfoldable pub on_parent_name : ActionData → Result ActionData
unfolding top name_of
on_parent_name out = do
  (object, objects) ← top out.objects
  ok (record out { obj_res = some (config_value (name_of object) of_string) })

unfoldable pub on_struct_start : ActionData → Result ActionData
unfolding top increment to_size
on_struct_start out = do
  (k, keys) ← top out.keys
  ok (record out {
    objects =
        config_struct (if out.in_proto then of_struct_in_proto else of_struct) k (to_size out.depth)
          end
        ∷ out.objects;
    depth = increment out.depth;
  })

unfoldable pub on_proto_start : ActionData → Result ActionData
unfolding top increment to_size joined
on_proto_start out = do
  (k, keys) ← top out.keys
  ok (record out {
    objects = config_proto k (to_size out.depth) end ∷ out.objects;
    depth = increment out.depth;
    in_proto = true;
    proto_key = joined out.keys;
  })

abbrev pub parent_name : Text
parent_name = codes "$PARENT_NAME"

-- the constructor of `ConfigReference`, whose variables begin with the name
unfoldable pub on_reference_start : ActionData → Result ActionData
unfolding top increment to_size
on_reference_start out = do
  (k, keys) ← top out.keys
  (proto, flat_keys) ← top out.flat_keys
  ok (record out {
    objects =
        config_reference k proto (to_size out.depth)
          (field parent_name (config_value k of_string) end) end
        ∷ out.objects;
    depth = increment out.depth;
  })

-- what the ends have in common, before the key is popped
unfoldable pub store_object : ActionData → Result ActionData
unfolding top current with_current set
store_object out = do
  (object, objects) ← top out.objects
  let below = record out { objects = objects }
  content ← current below
  (k, keys) ← top out.keys
  throw_if (contains k content) duplicate_key
  let stored = with_current (set k object content) below
  elim objects [ [] ↦ ok (record stored { cfg_res = end ∷ stored.cfg_res }) | _ ∷ _ ↦ ok stored ]

unfoldable pub pop_key : ActionData → Result ActionData
unfolding top
pop_key out = do (k, keys) ← top out.keys; ok (record out { keys = keys })

-- `STRUCT` and `STRUCT_IN_PROTO`
unfoldable pub on_struct : ActionData → Result ActionData
unfolding store_object pop_key
on_struct out = store_object out >>= pop_key

abbrev pub leave_proto : ActionData → ActionData
leave_proto out =
    if out.in_proto && ite (text_dec out.proto_key (joined out.keys)) true false
    then record out { in_proto = false; proto_key = [] }
    else out

unfoldable pub on_proto : ActionData → Result ActionData
unfolding store_object pop_key joined text_dec
on_proto out = store_object out >>= λ o. pop_key (leave_proto o)

unfoldable pub on_reference : ActionData → Result ActionData
unfolding store_object pop_key top
on_reference out = do
  stored ← store_object out
  popped ← pop_key stored
  (k, flat_keys) ← top popped.flat_keys
  ok (record popped { flat_keys = flat_keys })
