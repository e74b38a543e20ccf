-- ===== src/Vars.antt =====
-- `replaceVarInStr` and `replaceProtoVar` of src/config_helpers.cpp: the variables of a proto get the
-- values that a reference defines for them. A `ConfigList` that is cloned has its own vector, so a list
-- is changed as a tree is; the lists below a reference inside a proto, which a clone shares, are the
-- exception.
pub mod Replaced
pub mod Filled
use Prim.Native.Char.{code}
use flexi_config_reader.Common.{
  Text, codes, List, [], ◌∷◌, ◌++◌, Option, none, some, Bool, true, false, if◌then◌else◌,
}
use flexi_config_reader.Result.{
  Result, ok, throw, ◌>>=◌, undefined_reference_var, invalid_type, invalid_config, out_of_range,
}
use flexi_config_reader.Utils.{trim, split, find_char}
use flexi_config_reader.Types.{
  Config, config_value, config_list, config_expression, config_value_lookup, config_var,
  config_struct, config_proto, config_reference, of_string, ConfigType, Items, nil, cons, Fields,
  end, field, type_of, as_value,
}
use flexi_config_reader.Types.Map.{at, contains}
use flexi_config_reader.Elements.{list_element_valid}
use flexi_config_reader.Lookup.{var_of}

-- What the code calls that stands elsewhere: `std::regex_replace` of a text, by a pattern and a format,
-- and PEGTL, on the rule `EXPRESSION` and on `until<VAR>`.
pub record Services : Type 0 where
  pub regex_replace : Text → Text → Text → Result Text
  pub parse_expression : Text → Result Config
  pub contains_var : Text → Bool

module _ (services : Services) where
  open services use {regex_replace, parse_expression, contains_var}

  -- the loop of `replaceVarInStr`
  unfoldable pub replace_each : Text → Fields → Result Text
  unfolding as_value trim
  replace_each out end = ok out
  replace_each out (field rk v rest) = elim (as_value v) [
    | none ↦ replace_each out rest
    | some (t, text) ↦ do
      let replacement = trim text (codes "\\\"")
      out' ← regex_replace out (b'\\' ∷ rk) replacement
      bracket_var ← regex_replace rk (codes "\\$(.+)") (codes "\\$\\{$1\\}")
      out'' ← regex_replace out' bracket_var replacement
      replace_each out'' rest
  ]

  unfoldable pub replace_var_in_str : Text → Fields → Result (Option Text)
  unfolding replace_each find_char
  replace_var_in_str input ref_vars = elim (find_char b'$' input) [
    | none ↦ ok none
    | some _ ↦ replace_each input ref_vars >>= λ out. ok (some out)
  ]

  -- the lambdas `replace_var` and `replace_var_in_str`, for a node of type `kVar` or `kString`
  unfoldable pub replace_value : Fields → Config → Result Config
  unfolding replace_var_in_str at
  replace_value ref_vars (config_var name) = elim (at name ref_vars) [
    | none ↦ throw undefined_reference_var
    | some v ↦ ok v
  ]
  replace_value ref_vars (config_value text of_string) = replace_var_in_str text ref_vars >>= λ out.
      elim out [
        | none ↦ ok (config_value text of_string)
        | some text' ↦ ok (config_value text' of_string)
      ]
  replace_value ref_vars v = ok v

  -- the loop over the elements of a list
  unfoldable pub replace_items : Fields → ConfigType → Items → Result (ConfigType × Items)
  unfolding replace_value list_element_valid type_of
  replace_items ref_vars t nil = ok (t, nil)
  replace_items ref_vars t (cons e es) = replace_value ref_vars e >>= λ e'.
      elim (list_element_valid t (type_of e')).0 [
        | false ↦ throw invalid_type
        | true ↦ replace_items ref_vars (list_element_valid t (type_of e')).1 es >>= λ l.
            ok (l.0, cons e' l.1)
      ]

  -- An expression that is changed is read again. The message for a variable that is left takes
  -- `ref_vars.at("$PARENT")`.
  unfoldable pub replace_expression : Fields → Text → Fields → Result Config
  unfolding replace_var_in_str
  replace_expression ref_vars text lookups = replace_var_in_str text ref_vars >>= λ out. elim out [
    | none ↦ ok (config_expression text lookups)
    | some text' ↦ parse_expression text' >>= λ parsed.
        if contains_var text'
        then throw (if contains (codes "$PARENT") ref_vars then invalid_config else out_of_range)
        else ok parsed
  ]

  unfoldable pub replace_lookup : Fields → List Text → Result Config
  unfolding replace_var_in_str var_of split
  replace_lookup ref_vars ks = replace_var_in_str (var_of ks) ref_vars >>= λ out. elim out [
    | none ↦ ok (config_value_lookup ks)
    | some text ↦ ok (config_value_lookup (split text b'.'))
  ]

  unfoldable mutual
    unfolding replace_value replace_items replace_expression replace_lookup

    pub replace_proto_var : Fields → Fields → Result Fields
    replace_proto_var end ref_vars = ok end
    replace_proto_var (field k v f) ref_vars =
        replace_entry v ref_vars >>= λ v'. replace_proto_var f ref_vars >>= λ f'. ok (field k v' f')

    pub replace_entry : Config → Fields → Result Config
    replace_entry (config_list t es) ref_vars =
        replace_items ref_vars t es >>= λ l. ok (config_list l.0 l.1)
    replace_entry (config_expression text lookups) ref_vars =
        replace_expression ref_vars text lookups
    replace_entry (config_value_lookup ks) ref_vars = replace_lookup ref_vars ks
    replace_entry (config_struct t n d f) ref_vars =
        replace_proto_var f ref_vars >>= λ f'. ok (config_struct t n d f')
    replace_entry (config_proto n d f) ref_vars =
        replace_proto_var f ref_vars >>= λ f'. ok (config_proto n d f')
    replace_entry (config_reference n p d r f) ref_vars =
        replace_proto_var f ref_vars >>= λ f'. ok (config_reference n p d r f')
    replace_entry v ref_vars = replace_value ref_vars v
