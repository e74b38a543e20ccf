-- ===== src/Types.antt =====
-- The configuration nodes of include/flexi_cfg/config/classes.h. A `shared_ptr<ConfigBase>` is the
-- node it points to: what is modelled here reads trees and makes new ones. Left out of a node are
-- `line` and `source`, which only messages read, and `value_any`, which only the visitors read. A
-- `CfgMap` is the list of its entries in order (`OrderedMap.Refinement` says why), a `RefMap` a list
-- sorted by key. No pointer is null.
pub mod Map
use flexi_config_reader.Common.{
  ℕ, Text, List, [], Option, none, some, Bool, true, false, ◌≡◌, refl, arith, is_some,
}

-- `types::Type`
pub data ConfigType : Type 0 where
  k_value k_string k_number k_boolean k_list k_expression k_value_lookup k_var : ConfigType
  k_struct k_struct_in_proto k_proto k_reference k_unknown : ConfigType

-- The types that a `ConfigValue` is made with; `kValue` occurs in the tests only.
pub data ValueType : Type 0 where
  of_value of_string of_number of_boolean : ValueType

-- The types that a `ConfigStruct` is made with.
pub data StructType : Type 0 where
  of_struct of_struct_in_proto : StructType

mutual
  pub data Config : Type 0 where
    -- `value`, and the type
    config_value : Text → ValueType → Config
    -- `list_element_type`, and the elements
    config_list : ConfigType → Items → Config
    -- the expression's text, and `value_lookups`
    config_expression : Text → Fields → Config
    -- `keys`
    config_value_lookup : List Text → Config
    config_var : Text → Config
    -- the type, `name`, `depth` and `data`
    config_struct : StructType → Text → ℕ → Fields → Config
    config_proto : Text → ℕ → Fields → Config
    -- `name`, `proto`, `depth`, `ref_vars` and `data`
    config_reference : Text → Text → ℕ → Fields → Fields → Config

  pub data Items : Type 0 where
    nil : Items
    cons : Config → Items → Items

  pub data Fields : Type 0 where
    end : Fields
    field : Text → Config → Fields → Fields

unfoldable pub ConfigType-discrete : Discrete ConfigType
ConfigType-discrete = hlevel

abbrev pub value_type : ValueType → ConfigType
value_type of_value = k_value
value_type of_string = k_string
value_type of_number = k_number
value_type of_boolean = k_boolean

abbrev pub struct_type : StructType → ConfigType
struct_type of_struct = k_struct
struct_type of_struct_in_proto = k_struct_in_proto

-- `el->type`
unfoldable pub type_of : Config → ConfigType
type_of (config_value v t) = value_type t
type_of (config_list t xs) = k_list
type_of (config_expression e f) = k_expression
type_of (config_value_lookup ks) = k_value_lookup
type_of (config_var n) = k_var
type_of (config_struct t n d f) = struct_type t
type_of (config_proto n d f) = k_proto
type_of (config_reference n p d r f) = k_reference

-- `isStructLike`, which goes by the type
unfoldable pub is_struct_type : ConfigType → Bool
is_struct_type k_struct = true
is_struct_type k_struct_in_proto = true
is_struct_type k_proto = true
is_struct_type k_reference = true
is_struct_type _ = false

unfoldable pub is_struct_like : Config → Bool
unfolding type_of is_struct_type
is_struct_like el = is_struct_type (type_of el)

-- `dynamic_pointer_cast<ConfigStructLike>(el)->data`; `none` is a null pointer
unfoldable pub data_of : Config → Option Fields
data_of (config_struct t n d f) = some f
data_of (config_proto n d f) = some f
data_of (config_reference n p d r f) = some f
data_of _ = none

-- the type says for every node whether it is of a class with content
pub is_struct_like-data_of : (v : Config) → is_struct_like v ≡ is_some (data_of v)
unfolding is_struct_like data_of
is_struct_like-data_of (config_value v t) = ground arith
is_struct_like-data_of (config_struct t n d f) = ground arith
is_struct_like-data_of v = refl

-- `->data = f`
unfoldable pub with_data : Fields → Config → Config
with_data f (config_struct t n d _) = config_struct t n d f
with_data f (config_proto n d _) = config_proto n d f
with_data f (config_reference n p d r _) = config_reference n p d r f
with_data f v = v

-- `dynamic_pointer_cast<ConfigValue>(v)`: the type and the value; `none` is a null pointer
unfoldable pub as_value : Config → Option (ConfigType × Text)
as_value (config_value v t) = some (value_type t, v)
as_value (config_list t es) = some (k_list, [])
as_value (config_expression e f) = some (k_expression, e)
as_value _ = none
