-- ===== src/Actions/Rules.antt =====
-- The rules of the grammar that have an action, with the input that the action reads, and the state
-- after a sequence of them. The includes stand in `Actions.Include`.
pub mod Values
pub mod Blocks
use flexi_config_reader.Common.{Text, List, [], ◌∷◌, Bool}
use flexi_config_reader.Result.{Result, ok, throw, ◌>>=◌}
use flexi_config_reader.Actions.{ActionData}
use flexi_config_reader.Actions.Values.{
  Conversions, on_key, on_override, on_value, on_hex, on_float, on_integer, on_string, on_boolean,
  on_expression_open, on_expression, on_var, on_flat_key, on_value_lookup, on_include, on_filename,
  on_optional, on_once, on_close,
}
use flexi_config_reader.Actions.Lists.{on_list_begin, on_list_element, on_list_end}
use flexi_config_reader.Actions.Pairs.{
  on_pair, on_full_pair, on_proto_pair, on_ref_add_kvp, on_ref_vardef,
}
use flexi_config_reader.Actions.Objects.{
  on_parent_name, on_struct_start, on_proto_start, on_reference_start, on_struct, on_proto,
  on_reference,
}

pub data Rule : Type 0 where
  key hex float integer string boolean expression var flat_key value_lookup filename : Text → Rule
  override_mark value_end expression_open list_begin list_element list_end parent_name : Rule
  include_mark : Bool → Rule
  optional_mark once_mark : Rule
  pair full_pair proto_pair ref_add_kvp ref_vardef : Rule
  struct_start proto_start reference_start struct_end proto_end reference_end close_bracket : Rule

module _ (library : Conversions) where
  unfoldable pub act : Rule → ActionData → Result ActionData
  unfolding on_key on_override on_value on_hex on_float on_integer on_string on_boolean
      on_expression_open on_expression on_var on_flat_key on_value_lookup on_include on_filename
      on_optional on_once on_close on_list_begin on_list_element on_list_end on_pair on_full_pair
      on_proto_pair on_ref_add_kvp on_ref_vardef on_parent_name on_struct_start on_proto_start
      on_reference_start on_struct on_proto on_reference
  act (key text) out = on_key text out
  act (hex text) out = on_hex library text out
  act (float text) out = on_float library text out
  act (integer text) out = on_integer library text out
  act (string text) out = on_string text out
  act (boolean text) out = on_boolean text out
  act (expression text) out = on_expression text out
  act (var text) out = on_var text out
  act (flat_key text) out = on_flat_key text out
  act (value_lookup text) out = on_value_lookup text out
  act (filename text) out = on_filename text out
  act override_mark out = on_override out
  act value_end out = on_value out
  act expression_open out = on_expression_open out
  act list_begin out = on_list_begin out
  act list_element out = on_list_element out
  act list_end out = on_list_end out
  act parent_name out = on_parent_name out
  act (include_mark relative) out = on_include relative out
  act optional_mark out = on_optional out
  act once_mark out = on_once out
  act pair out = on_pair out
  act full_pair out = on_full_pair out
  act proto_pair out = on_proto_pair out
  act ref_add_kvp out = on_ref_add_kvp out
  act ref_vardef out = on_ref_vardef out
  act struct_start out = on_struct_start out
  act proto_start out = on_proto_start out
  act reference_start out = on_reference_start out
  act struct_end out = on_struct out
  act proto_end out = on_proto out
  act reference_end out = on_reference out
  act close_bracket out = on_close out

  unfoldable pub act_all : List Rule → ActionData → Result ActionData
  unfolding act
  act_all [] out = ok out
  act_all (r ∷ rs) out = act r out >>= λ out'. act_all rs out'
