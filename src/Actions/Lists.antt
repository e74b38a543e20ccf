-- ===== src/Actions/Lists.antt =====
-- The actions of lists. The vector `lists` is a stack of lists that are being read.
use flexi_config_reader.Common.{[], ◌∷◌, none, some, true, false}
use flexi_config_reader.Result.{Result, ok, throw, ◌>>=◌, invalid_type, undefined}
use flexi_config_reader.Types.{Config, config_list, ConfigType, k_unknown, Items, nil, type_of}
use flexi_config_reader.Elements.{list_element_valid, push_back}
use flexi_config_reader.Actions.{ActionData, value_of}

unfoldable pub on_list_begin : ActionData → Result ActionData
on_list_begin out = ok (record out { lists = (k_unknown, nil) ∷ out.lists })

-- the list's type and elements with one more, which must be valid
unfoldable pub add_element : ConfigType → Items → Config → Result (ConfigType × Items)
unfolding list_element_valid push_back type_of
add_element t es v = elim (list_element_valid t (type_of v)).0 [
  | false ↦ throw invalid_type
  | true ↦ ok ((list_element_valid t (type_of v)).1, push_back es v)
]

-- `LIST::element` and `PROTO_LIST::element`, which are the same
unfoldable pub on_list_element : ActionData → Result ActionData
unfolding value_of add_element
on_list_element out = elim out.lists [
  | [] ↦ throw undefined
  | (t, es) ∷ lists ↦ do
    v ← value_of out.obj_res
    l ← add_element t es v
    ok (record out { lists = l ∷ lists; obj_res = none })
]

unfoldable pub on_list_end : ActionData → Result ActionData
on_list_end out = elim out.lists [
  | [] ↦ throw undefined
  | (t, es) ∷ lists ↦ ok (record out { lists = lists; obj_res = some (config_list t es) })
]
