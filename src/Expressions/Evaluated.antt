-- ===== src/Expressions/Evaluated.antt =====
-- The value of an expression, and what `evaluateExpressions` leaves.
use flexi_config_reader.Common.{Text, [], ◌∷◌, Option, none, some, Bool, true, false, ◌≡◌, refl, ap}
use flexi_config_reader.Result.{
  ok, ◌>>=◌, Ensures, Ensures-bind, Ensures-any, Ensures-bool, Ensures-ok, Ensures-map,
}
use flexi_config_reader.Utils.{make_name}
use flexi_config_reader.Types.{
  Config, config_value, config_list, config_expression, config_value_lookup, config_var,
  config_struct, config_proto, config_reference, ConfigType, Items, nil, cons, Fields, end, field,
  type_of,
}
use flexi_config_reader.Types.Map.{keys}
use flexi_config_reader.Elements.{list_element_valid}
use flexi_config_reader.Math.{Arithmetic, ActionData, act_all, empty_stack}
use flexi_config_reader.Expressions.{
  Reading, var_refs, evaluate_expression, evaluate_items, evaluate_expressions, evaluate_entry,
  number_of,
}

unfoldable pub is_expression : Config → Bool
is_expression (config_expression text lookups) = true
is_expression v = false

abbrev pub NoExpressionItem : Items → Type 0
NoExpressionItem nil = Unit
NoExpressionItem (cons e es) = (is_expression e ≡ false) × NoExpressionItem es

-- No entry is an expression or a list with one as an element, nor is one below a struct-like entry.
unfoldable mutual
  pub NoExpressions : Fields → Type 0
  NoExpressions end = Unit
  NoExpressions (field k v f) = NoExpressionEntry v × NoExpressions f

  pub NoExpressionEntry : Config → Type 0
  NoExpressionEntry (config_expression text lookups) = ⊥
  NoExpressionEntry (config_list t es) = NoExpressionItem es
  NoExpressionEntry (config_struct t n d f) = NoExpressions f
  NoExpressionEntry (config_proto n d f) = NoExpressions f
  NoExpressionEntry (config_reference n p d r f) = NoExpressions f
  NoExpressionEntry (config_value _ _) = Unit
  NoExpressionEntry (config_value_lookup _) = Unit
  NoExpressionEntry (config_var _) = Unit

module _ (arithmetic : Arithmetic) (reading : Reading arithmetic) where
  open arithmetic use {Double}
  open reading use {to_string, rules_of}

  number_of-is_expression :
      (math : Option (ActionData arithmetic))
      → Ensures
          (λ v. NoExpressionEntry v × (is_expression v ≡ false))
          (number_of arithmetic reading math)
  unfolding NoExpressions is_expression
  number_of-is_expression none = tt
  number_of-is_expression (some math) = (tt, refl)

  evaluate_expression-is_expression :
      (text : Text) (lookups : Fields)
      → Ensures
          (λ v. NoExpressionEntry v × (is_expression v ≡ false))
          (evaluate_expression arithmetic reading text lookups)
  unfolding evaluate_expression NoExpressions is_expression
  evaluate_expression-is_expression text lookups =
      Ensures-bind (λ _. Unit) (λ v. NoExpressionEntry v × (is_expression v ≡ false))
        (var_refs arithmetic reading lookups) _ (Ensures-any _)
        (λ m _. number_of-is_expression (
          act_all arithmetic (rules_of text) (record {
            s = empty_stack arithmetic ∷ [];
            var_ref_map = m;
            bracket_cnt = 0;
            res = none;
          })))

  evaluate_rest-NoExpressionItem :
      (t : ConfigType) (e : Config) (es : Items)
      → is_expression e ≡ false
      → Ensures {X = ConfigType × Items}
          (λ l. NoExpressionItem l.1)
          (evaluate_items arithmetic reading t es)
      → Ensures {X = ConfigType × Items}
          (λ l. NoExpressionItem l.1)
          (evaluate_items arithmetic reading t es >>= λ l. ok (l.0, cons e l.1))
  evaluate_rest-NoExpressionItem t e es clean rest =
      Ensures-bind (λ l. NoExpressionItem l.1) (λ l. NoExpressionItem l.1)
        (evaluate_items arithmetic reading t es) (λ l. ok (l.0, cons e l.1)) rest
        (λ l h. (clean, h))

  evaluate_items-NoExpressionItem :
      (t : ConfigType) (es : Items)
      → Ensures {X = ConfigType × Items}
          (λ l. NoExpressionItem l.1)
          (evaluate_items arithmetic reading t es)
  unfolding evaluate_items is_expression
  evaluate_items-NoExpressionItem t nil = tt
  evaluate_items-NoExpressionItem t (cons (config_expression text lookups) es) =
      Ensures-bind (λ v. NoExpressionEntry v × (is_expression v ≡ false))
        (λ l. NoExpressionItem l.1) (evaluate_expression arithmetic reading text lookups) _
        (evaluate_expression-is_expression text lookups)
        (λ e clean.
          Ensures-bool (λ l. NoExpressionItem l.1) (list_element_valid t (type_of e)).0 _ _ tt
            (evaluate_rest-NoExpressionItem (list_element_valid t (type_of e)).1 e es clean.1
              (evaluate_items-NoExpressionItem (list_element_valid t (type_of e)).1 es)))
  evaluate_items-NoExpressionItem t (cons e es) =
      evaluate_rest-NoExpressionItem t e es refl (evaluate_items-NoExpressionItem t es)

  mutual
    unfolding evaluate_expressions NoExpressions keys

    evaluate_expressions-keys :
        (f : Fields) (parent_key : Text)
        → Ensures
            (λ g. NoExpressions g × (keys g ≡ keys f))
            (evaluate_expressions arithmetic reading f parent_key)
    evaluate_expressions-keys end parent_key = (tt, refl)
    evaluate_expressions-keys (field k v f) parent_key =
        Ensures-bind (λ _. Unit) (λ g. NoExpressions g × (keys g ≡ keys (field k v f)))
          (make_name parent_key k) _ (Ensures-any _)
          (λ key _.
            Ensures-bind NoExpressionEntry (λ g. NoExpressions g × (keys g ≡ keys (field k v f)))
              (evaluate_entry arithmetic reading v key) _ (evaluate_entry-NoExpressionEntry v key)
              (λ w clean.
                Ensures-bind (λ g. NoExpressions g × (keys g ≡ keys f))
                  (λ g. NoExpressions g × (keys g ≡ keys (field k v f)))
                  (evaluate_expressions arithmetic reading f parent_key) _
                  (evaluate_expressions-keys f parent_key)
                  (λ g rest. ((clean, rest.0), ap (◌∷◌ k) rest.1))))

    evaluate_entry-NoExpressionEntry :
        (v : Config) (key : Text)
        → Ensures NoExpressionEntry (evaluate_entry arithmetic reading v key)
    evaluate_entry-NoExpressionEntry (config_expression text lookups) key =
        Ensures-map _ NoExpressionEntry (evaluate_expression arithmetic reading text lookups)
          (λ v h. h.0) (evaluate_expression-is_expression text lookups)
    evaluate_entry-NoExpressionEntry (config_list t es) key =
        Ensures-bind (λ l. NoExpressionItem l.1) NoExpressionEntry
          (evaluate_items arithmetic reading t es) _ (evaluate_items-NoExpressionItem t es)
          (λ l h. h)
    evaluate_entry-NoExpressionEntry (config_struct t n d f) key =
        Ensures-bind (λ g. NoExpressions g × (keys g ≡ keys f)) NoExpressionEntry
          (evaluate_expressions arithmetic reading f key) _ (evaluate_expressions-keys f key)
          (λ g h. h.0)
    evaluate_entry-NoExpressionEntry (config_proto n d f) key =
        Ensures-bind (λ g. NoExpressions g × (keys g ≡ keys f)) NoExpressionEntry
          (evaluate_expressions arithmetic reading f key) _ (evaluate_expressions-keys f key)
          (λ g h. h.0)
    evaluate_entry-NoExpressionEntry (config_reference n p d r f) key =
        Ensures-bind (λ g. NoExpressions g × (keys g ≡ keys f)) NoExpressionEntry
          (evaluate_expressions arithmetic reading f key) _ (evaluate_expressions-keys f key)
          (λ g h. h.0)
    evaluate_entry-NoExpressionEntry (config_value _ _) key = tt
    evaluate_entry-NoExpressionEntry (config_value_lookup _) key = tt
    evaluate_entry-NoExpressionEntry (config_var _) key = tt

  -- Where `evaluateExpressions` returns, no entry is an expression, in the map or below its structs, and
  -- no element of a list that is an entry is one; a list in a list is not searched and may hold one. The
  -- keys of the map stay.
  pub evaluate_expressions-NoExpressions :
      (f f' : Fields) (parent_key : Text)
      → evaluate_expressions arithmetic reading f parent_key ≡ ok f'
      → NoExpressions f' × (keys f' ≡ keys f)
  evaluate_expressions-NoExpressions f f' parent_key e =
      Ensures-ok (λ g. NoExpressions g × (keys g ≡ keys f)) e
        (evaluate_expressions-keys f parent_key)
