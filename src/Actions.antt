-- ===== src/Actions.antt =====
-- The parser's state, `ActionData` of include/flexi_cfg/config/actions.h, and what the actions share.
-- The actions stand in the children, by what they do. A vector that is used as a stack is a list, its
-- back first. What is done to the back of an empty vector or through a null pointer is `undefined`,
-- and so is a null pointer that is stored: the grammar reads a value before each action that stores.
pub mod Values
pub mod Lists
pub mod Pairs
pub mod Objects
pub mod Rules
pub mod Keeps
pub mod Include
use flexi_config_reader.Common.{
  ℕ, Text, codes, List, [], ◌∷◌, Option, none, some, Bool, true, false, ℤ, pos,
}
use flexi_config_reader.Result.{Result, ok, throw, undefined}
use flexi_config_reader.Utils.{join, dot}
use flexi_config_reader.Types.{
  Config, config_struct, config_proto, config_reference, ConfigType, Items, Fields, end, data_of,
  with_data,
}

-- `ActionData::IncludeData`
pub record IncludeData : Type 0 where
  pub file : Text
  pub is_optional : Bool
  pub is_once : Bool
  pub is_relative : Bool

pub record ActionData : Type 0 where
  pub depth : ℤ
  pub base_dir : Text
  pub include_pending : Option IncludeData
  -- a set, as the list of its elements
  pub all_files : List Text
  pub result : Text
  pub keys : List Text
  pub flat_keys : List Text
  pub in_proto : Bool
  pub proto_key : Text
  pub value_lookups : Fields
  pub cfg_res : List Fields
  -- `none` is the null pointer
  pub obj_res : Option Config
  pub lists : List (ConfigType × Items)
  pub objects : List Config
  pub is_override : Bool
  pub override_values : Fields

abbrev pub default_res : Text
default_res = codes "***"

-- the state that the constructor makes, for a base directory
abbrev pub initial : Text → ActionData
initial base = record {
  depth = pos 0;
  base_dir = base;
  include_pending = none;
  all_files = [];
  result = default_res;
  keys = [];
  flat_keys = [];
  in_proto = false;
  proto_key = [];
  value_lookups = end;
  cfg_res = end ∷ [];
  obj_res = none;
  lists = [];
  objects = [];
  is_override = false;
  override_values = end;
}

-- `v.back()` and the rest
unfoldable pub top {ℓ} : {A : Type ℓ} → List A → Result (A × List A)
top [] = throw undefined
top (a ∷ rest) = ok (a, rest)

-- `out.obj_res`, which is used
unfoldable pub value_of : Option Config → Result Config
value_of none = throw undefined
value_of (some v) = ok v

-- `name` of a struct-like
unfoldable pub name_of : Config → Text
name_of (config_struct t n d f) = n
name_of (config_proto n d f) = n
name_of (config_reference n p d r f) = n
name_of _ = []

-- `data` of an object, which is struct-like
unfoldable pub fields_of : Config → Fields
unfolding data_of
fields_of v = elim (data_of v) [ none ↦ end | some f ↦ f ]

-- the text that `join(out.keys, ".")` makes
abbrev backwards : List Text → List Text → List Text
backwards [] ks = ks
backwards (j ∷ js) ks = backwards js (j ∷ ks)

unfoldable pub joined : List Text → Text
unfolding join
joined keys = join (backwards keys []) dot

-- `out.objects.empty() ? out.cfg_res.back() : out.objects.back()->data`, and the state where it is `f`
unfoldable pub current : ActionData → Result Fields
unfolding top fields_of
current out = elim out.objects [
  | [] ↦ elim out.cfg_res [ [] ↦ throw undefined | f ∷ fs ↦ ok f ]
  | object ∷ objects ↦ ok (fields_of object)
]

unfoldable pub with_current : Fields → ActionData → ActionData
unfolding with_data
with_current f out = elim out.objects [
  | [] ↦ elim out.cfg_res [ [] ↦ out | _ ∷ fs ↦ record out { cfg_res = f ∷ fs } ]
  | object ∷ objects ↦ record out { objects = with_data f object ∷ objects }
]
