-- ===== src/Expressions.antt =====
-- `evaluateExpression` and `evaluateExpressions` of src/config_helpers.cpp: every expression of a tree
-- becomes a number.
pub mod Evaluated
use flexi_config_reader.Common.{
  zero, Text, List, [], ◌∷◌, Option, none, some, Bool, true, false, if◌then◌else◌,
}
use flexi_config_reader.Result.{Result, ok, throw, ◌>>=◌, invalid_type, undefined}
use flexi_config_reader.Utils.{make_name}
use flexi_config_reader.Types.{
  Config, config_value, config_list, config_expression, config_struct, config_proto,
  config_reference, of_number, ConfigType, k_number, Items, nil, cons, Fields, end, field, type_of,
  as_value,
}
use flexi_config_reader.Elements.{list_element_valid, is_type}
use flexi_config_reader.Math.{Arithmetic, Rule, ActionData, act_all, empty_stack}

-- What the code calls that stands elsewhere: `std::stod`, `std::to_string`, the value that `double` is
-- initialized with, and PEGTL, which says what actions the rule of an expression runs on a text.
pub record Reading (arithmetic : Arithmetic) : Type 0 where
  pub stod : Text → Result (arithmetic.Double)
  pub to_string : arithmetic.Double → Text
  pub initial : arithmetic.Double
  pub rules_of : Text → List (Rule arithmetic)

module _ (arithmetic : Arithmetic) (reading : Reading arithmetic) where
  open arithmetic use {Double}
  open reading use {stod, to_string, initial, rules_of}

  -- the loop that fills `var_ref_map`
  unfoldable pub var_refs : Fields → Result (List (Text × Double))
  unfolding as_value type_of
  var_refs end = ok []
  var_refs (field k v f) =
      if is_type (type_of v) k_number
      then elim (as_value v) [
        | none ↦ throw undefined
        | some (t, text) ↦ stod text >>= λ d. var_refs f >>= λ m. ok ((k, d) ∷ m)
      ]
      else throw invalid_type

  -- `math.res`
  abbrev pub res_of : Option Double → Double
  res_of none = initial
  res_of (some d) = d

  -- the value that is returned; `none` stands for a failed `assert`
  abbrev pub number_of : Option (ActionData arithmetic) → Result Config
  number_of none = throw undefined
  number_of (some math) = ok (config_value (to_string (res_of math.res)) of_number)

  unfoldable pub evaluate_expression : Text → Fields → Result Config
  unfolding var_refs act_all
  evaluate_expression text lookups = var_refs lookups >>= λ m. number_of (
      act_all arithmetic (rules_of text)
        (record { s = empty_stack arithmetic ∷ []; var_ref_map = m; bracket_cnt = 0; res = none }))

  -- the loop over the elements of a list
  unfoldable pub evaluate_items : ConfigType → Items → Result (ConfigType × Items)
  unfolding evaluate_expression list_element_valid type_of
  evaluate_items t nil = ok (t, nil)
  evaluate_items t (cons (config_expression text lookups) es) =
      evaluate_expression text lookups >>= λ e. elim (list_element_valid t (type_of e)).0 [
        | false ↦ throw invalid_type
        | true ↦
            evaluate_items (list_element_valid t (type_of e)).1 es >>= λ l. ok (l.0, cons e l.1)
      ]
  evaluate_items t (cons e es) = evaluate_items t es >>= λ l. ok (l.0, cons e l.1)

  unfoldable mutual
    unfolding evaluate_items evaluate_expression make_name

    pub evaluate_expressions : Fields → Text → Result Fields
    evaluate_expressions end parent_key = ok end
    evaluate_expressions (field k v f) parent_key = make_name parent_key k >>= λ key.
        evaluate_entry v key >>= λ v'.
        evaluate_expressions f parent_key >>= λ f'. ok (field k v' f')

    pub evaluate_entry : Config → Text → Result Config
    evaluate_entry (config_expression text lookups) key = evaluate_expression text lookups
    evaluate_entry (config_list t es) key = evaluate_items t es >>= λ l. ok (config_list l.0 l.1)
    evaluate_entry (config_struct t n d f) key =
        evaluate_expressions f key >>= λ f'. ok (config_struct t n d f')
    evaluate_entry (config_proto n d f) key =
        evaluate_expressions f key >>= λ f'. ok (config_proto n d f')
    evaluate_entry (config_reference n p d r f) key =
        evaluate_expressions f key >>= λ f'. ok (config_reference n p d r f')
    evaluate_entry v key = ok v
