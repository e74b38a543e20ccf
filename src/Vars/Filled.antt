-- ===== src/Vars/Filled.antt =====
-- What `replaceProtoVar` returns for a proto whose text has no `$`: every variable's definition in its
-- place.
use flexi_config_reader.Common.{Text, none, some, true, false, ◌≡◌, refl, ap, ◌∙◌}
use flexi_config_reader.Result.{Result, ok, throw, ◌>>=◌, invalid_type}
use flexi_config_reader.Types.{
  Config, config_value, config_list, config_expression, config_value_lookup, config_var,
  config_struct, config_proto, config_reference, of_string, ConfigType, Items, nil, cons, Fields,
  end, field, type_of,
}
use flexi_config_reader.Utils.{find_char}
use flexi_config_reader.Lookup.{var_of}
use flexi_config_reader.Types.Map.{at}
use flexi_config_reader.Elements.{list_element_valid}
use flexi_config_reader.Vars.{
  Services, replace_var_in_str, replace_value, replace_items, replace_expression, replace_lookup,
  replace_proto_var, replace_entry,
}

module _ (vars : Fields) where
  -- a variable's definition, and any other node itself
  unfoldable pub filled : Config → Config
  unfolding at
  filled (config_var name) = elim (at name vars) [ none ↦ config_var name | some v ↦ v ]
  filled v = v

  -- a variable with a definition, or a node without `$` in its text
  abbrev pub IsFillable : Config → Type 0
  IsFillable (config_var name) = (v : Config) × (at name vars ≡ some v)
  IsFillable (config_value text of_string) = find_char b'$' text ≡ none
  IsFillable (config_expression text lookups) = find_char b'$' text ≡ none
  IsFillable (config_value_lookup ks) = find_char b'$' (var_of ks) ≡ none
  IsFillable v = Unit

  -- the type of the list's elements when all definitions stand in their places
  unfoldable pub filled_type : ConfigType → Items → ConfigType
  unfolding filled list_element_valid type_of
  filled_type t nil = t
  filled_type t (cons e es) = filled_type (list_element_valid t (type_of (filled e))).1 es

  unfoldable pub filled_items : Items → Items
  unfolding filled
  filled_items nil = nil
  filled_items (cons e es) = cons (filled e) (filled_items es)

  -- and each element is of the type that those before it give the list
  abbrev pub AreFillable : ConfigType → Items → Type 0
  AreFillable t nil = Unit
  AreFillable t (cons e es) =
      IsFillable e
      × ((list_element_valid t (type_of (filled e))).0 ≡ true)
      × AreFillable (list_element_valid t (type_of (filled e))).1 es

  unfoldable mutual
    unfolding filled filled_items filled_type

    pub filled_fields : Fields → Fields
    filled_fields end = end
    filled_fields (field k v f) = field k (filled_entry v) (filled_fields f)

    pub filled_entry : Config → Config
    filled_entry (config_list t es) = config_list (filled_type t es) (filled_items es)
    filled_entry (config_struct t n d f) = config_struct t n d (filled_fields f)
    filled_entry (config_proto n d f) = config_proto n d (filled_fields f)
    filled_entry (config_reference n p d r f) = config_reference n p d r (filled_fields f)
    filled_entry v = filled v

  unfoldable mutual
    pub AllFillable : Fields → Type 0
    AllFillable end = Unit
    AllFillable (field k v f) = IsFillableEntry v × AllFillable f

    pub IsFillableEntry : Config → Type 0
    IsFillableEntry (config_list t es) = AreFillable t es
    IsFillableEntry (config_struct t n d f) = AllFillable f
    IsFillableEntry (config_proto n d f) = AllFillable f
    IsFillableEntry (config_reference n p d r f) = AllFillable f
    IsFillableEntry v = IsFillable v

  module _ (services : Services) where
    replace_var_in_str-none :
        (text : Text) → find_char b'$' text ≡ none → replace_var_in_str services text vars ≡ ok none
    unfolding replace_var_in_str
    replace_var_in_str-none text e = rw (e, replace_var_in_str) refl

    replace_value-filled :
        (v : Config) → IsFillable v → replace_value services vars v ≡ ok (filled v)
    unfolding replace_value filled
    replace_value-filled (config_var name) (v, s) = rw (s, replace_value, filled) refl
    replace_value-filled (config_value text of_string) e = rw (replace_var_in_str-none text e) refl
    replace_value-filled v u = refl

    replace_items-cons :
        (t : ConfigType) (e : Config) (es : Items) (e' : Config)
        → replace_value services vars e ≡ ok e'
        → (list_element_valid t (type_of e')).0 ≡ true
        → replace_items services vars t (cons e es) ≡ (
            replace_items services vars (list_element_valid t (type_of e')).1 es >>= λ l.
            ok (l.0, cons e' l.1))
    unfolding replace_items
    replace_items-cons t e es e' one valid = rw one (
        ap
          (λ b. elim b as (λ _. Result (ConfigType × Items)) [
            | false ↦ throw invalid_type
            | true ↦
                (replace_items services vars (list_element_valid t (type_of e')).1 es >>= λ l.
                ok (l.0, cons e' l.1))
          ])
          valid)

    replace_items-filled :
        (t : ConfigType) (es : Items)
        → AreFillable t es
        → replace_items services vars t es ≡ ok (filled_type t es, filled_items es)
    unfolding replace_items filled_type filled_items
    replace_items-filled t nil h = refl
    replace_items-filled t (cons e es) (one, valid, rest) =
        replace_items-cons t e es (filled e) (replace_value-filled e one) valid
        ∙ ap (λ m. m >>= λ l. ok (l.0, cons (filled e) l.1))
            (replace_items-filled (list_element_valid t (type_of (filled e))).1 es rest)

    mutual
      unfolding replace_proto_var filled_fields AllFillable

      replace_proto_var-fields :
          (f : Fields) → AllFillable f → replace_proto_var services f vars ≡ ok (filled_fields f)
      replace_proto_var-fields end h = refl
      replace_proto_var-fields (field k v f) h =
          rw (replace_entry-filled v h.0, replace_proto_var-fields f h.1) refl

      replace_entry-filled :
          (v : Config) → IsFillableEntry v → replace_entry services v vars ≡ ok (filled_entry v)
      replace_entry-filled (config_list t es) h = rw (replace_items-filled t es h) refl
      replace_entry-filled (config_struct t n d f) h = rw (replace_proto_var-fields f h) refl
      replace_entry-filled (config_proto n d f) h = rw (replace_proto_var-fields f h) refl
      replace_entry-filled (config_reference n p d r f) h = rw (replace_proto_var-fields f h) refl
      replace_entry-filled (config_expression text lookups) e =
          rw (replace_expression, replace_var_in_str-none text e) refl
      replace_entry-filled (config_value_lookup ks) e =
          rw (replace_lookup, replace_var_in_str-none (var_of ks) e) refl
      replace_entry-filled (config_var name) e = replace_value-filled (config_var name) e
      replace_entry-filled (config_value text of_string) e =
          replace_value-filled (config_value text of_string) e
      replace_entry-filled (config_value text t) e = refl

    -- `replaceProtoVar` returns, for a proto whose variables are all defined, with no `$` in another text
    -- and with lists that keep one type, the proto with each variable's definition in its place.
    pub replace_proto_var-filled_fields :
        (f : Fields) → AllFillable f → replace_proto_var services f vars ≡ ok (filled_fields f)
    replace_proto_var-filled_fields f h = replace_proto_var-fields f h
