-- ===== src/Actions/Rules/Values.antt =====
-- The values of a document, the rules that the grammar applies to read one, and the node they make.
use flexi_config_reader.Common.{Text, List, [], ◌∷◌, none, some, ◌≡◌, refl, sym, ◌∙◌}
use flexi_config_reader.Result.{Result, ok, ◌>>=◌, ◌>>◌, bind_assoc, bind_ext}
use flexi_config_reader.Types.{
  Config, config_value, of_string, of_boolean, of_number, config_list, config_expression, Items,
  nil, end, ConfigType, k_unknown, ConfigType-discrete, type_of,
}
use flexi_config_reader.Actions.{ActionData}
use flexi_config_reader.Actions.Values.{Conversions}
use flexi_config_reader.Actions.Lists.{add_element, on_list_element}
use flexi_config_reader.Actions.Rules.{
  Rule, hex, float, integer, string, boolean, expression_open, expression, value_end, list_begin,
  list_element, list_end, act, act_all,
}

-- A number, and the action that reads it.
pub data Literal : Type 0 where
  hexadecimal floating whole : Text → Literal

mutual
  pub data Value : Type 0 where
    quoted : Text → Value
    truth : Text → Value
    numeral : Literal → Value
    -- an expression, with its numbers in their order; it has no `$(…)`, and no variable
    computed : List Literal → Text → Value
    listed : Values → Value

  pub data Values : Type 0 where
    none_left : Values
    element : Value → Values → Values

abbrev literal_rule : Literal → Rule
literal_rule (hexadecimal t) = hex t
literal_rule (floating t) = float t
literal_rule (whole t) = integer t

-- the rules of the numbers of an expression, which its actions read too
unfoldable pub literals_rules : List Literal → List Rule → List Rule
literals_rules [] rest = rest
literals_rules (l ∷ ls) rest = literal_rule l ∷ literals_rules ls rest

-- the rules of a value, in front of those that follow
unfoldable mutual
  unfolding literals_rules

  pub value_rules : Value → List Rule → List Rule
  value_rules (quoted t) rest = string t ∷ value_end ∷ rest
  value_rules (truth t) rest = boolean t ∷ value_end ∷ rest
  value_rules (numeral l) rest = literal_rule l ∷ value_end ∷ rest
  value_rules (computed ls t) rest =
      expression_open ∷ literals_rules ls (expression t ∷ value_end ∷ rest)
  value_rules (listed vs) rest = list_begin ∷ elements_rules vs (list_end ∷ value_end ∷ rest)

  elements_rules : Values → List Rule → List Rule
  elements_rules none_left rest = rest
  elements_rules (element v vs) rest = value_rules v (list_element ∷ elements_rules vs rest)

abbrev pub as_list : ConfigType × Items → Config
as_list l = config_list l.0 l.1

abbrev text_of : Literal → Text
text_of (hexadecimal t) = t
text_of (floating t) = t
text_of (whole t) = t

-- what reading a number throws
abbrev read_literal : Conversions → Literal → Result (Unit {0})
read_literal library (hexadecimal t) = library.stoull t
read_literal library (floating t) = library.stod t
read_literal library (whole t) = library.stoi t

unfoldable pub read_literals : Conversions → List Literal → Result (Unit {0})
read_literals library [] = ok tt
read_literals library (l ∷ ls) = read_literal library l >> read_literals library ls

-- the node of a value
unfoldable mutual
  unfolding add_element read_literals

  pub node : Conversions → Value → Result Config
  node library (quoted t) = ok (config_value t of_string)
  node library (truth t) = ok (config_value t of_boolean)
  node library (numeral l) = read_literal library l >> ok (config_value (text_of l) of_number)
  node library (computed ls t) = read_literals library ls >> ok (config_expression t end)
  node library (listed vs) = nodes library k_unknown nil vs >>= λ l. ok (as_list l)

  nodes : Conversions → ConfigType → Items → Values → Result (ConfigType × Items)
  nodes library t es none_left = ok (t, es)
  nodes library t es (element v vs) =
      node library v >>= λ c. add_element t es c >>= λ l. nodes library l.0 l.1 vs

abbrev pub clean : ActionData → ActionData
clean out = record out { value_lookups = end }

abbrev pub with_value : Config → ActionData → ActionData
with_value c out = record out { obj_res = some c; value_lookups = end }

abbrev with_lists : ConfigType × Items → List (ConfigType × Items) → ActionData → ActionData
with_lists l ls out = record out { lists = l ∷ ls; value_lookups = end }

abbrev without : ActionData → ActionData
without out = record out { obj_res = none }

module _ (library : Conversions) where
  value_end_lem :
      (t : ConfigType) (es : Items) (rest : List Rule) (out : ActionData)
      → act_all library (value_end ∷ rest) (with_value (config_list t es) out)
        ≡ act_all library rest (with_value (config_list t es) out)
  unfolding act_all act type_of ConfigType-discrete
  value_end_lem t es rest out = refl

  list_element_lem :
      (c : Config) (t : ConfigType) (es : Items) (ls : List (ConfigType × Items)) (rest : List Rule)
      (out : ActionData)
      → act_all library (list_element ∷ rest) (with_value c (with_lists (t, es) ls out))
        ≡ (add_element t es c >>= λ l. act_all library rest (with_lists l ls (without out)))
  unfolding act_all act on_list_element
  list_element_lem c t es ls rest out =
      bind_assoc (add_element t es c) _ (λ out'. act_all library rest out')

  act_all-literal_rule :
      (l : Literal) (rest : List Rule) (out : ActionData)
      → act_all library (literal_rule l ∷ rest) out ≡ (
          read_literal library l >>= λ _.
          act_all library rest (record out { obj_res = some (config_value (text_of l) of_number) }))
  unfolding act_all act
  act_all-literal_rule (hexadecimal t) rest out = bind_assoc (library.stoull t) _ _
  act_all-literal_rule (floating t) rest out = bind_assoc (library.stod t) _ _
  act_all-literal_rule (whole t) rest out = bind_assoc (library.stoi t) _ _

  act_all-literals_rules :
      (ls : List Literal) (t : Text) (rest : List Rule) (out : ActionData)
      → act_all library (literals_rules ls (expression t ∷ value_end ∷ rest)) (clean out) ≡ (
          read_literals library ls >>= λ _.
          act_all library rest (with_value (config_expression t end) out))
  unfolding act_all act literals_rules read_literals type_of ConfigType-discrete
  act_all-literals_rules [] t rest out = refl
  act_all-literals_rules (l ∷ ls) t rest out =
      act_all-literal_rule l (literals_rules ls (expression t ∷ value_end ∷ rest)) (clean out)
      ∙ bind_ext (read_literal library l) _ _ (λ _.
        act_all-literals_rules ls t rest
          (record out { obj_res = some (config_value (text_of l) of_number) }))
      ∙ sym (bind_assoc (read_literal library l) (λ _. read_literals library ls) _)

  mutual
    unfolding act_all act value_rules node type_of ConfigType-discrete

    -- The rules of a value leave the state with the node of the value in `obj_res`, and throw what making
    -- the node throws.
    pub act_all-value_rules :
        (v : Value) (rest : List Rule) (out : ActionData)
        → act_all library (value_rules v rest) (clean out)
          ≡ (node library v >>= λ c. act_all library rest (with_value c out))
    act_all-value_rules (quoted t) rest out = refl
    act_all-value_rules (truth t) rest out = refl
    act_all-value_rules (numeral l) rest out =
        act_all-literal_rule l (value_end ∷ rest) (clean out)
        ∙ sym (bind_assoc (read_literal library l) _ _)
    act_all-value_rules (computed ls t) rest out =
        act_all-literals_rules ls t rest out ∙ sym (bind_assoc (read_literals library ls) _ _)
    act_all-value_rules (listed vs) rest out =
        act_all-elements_rules vs k_unknown nil out.lists rest out
        ∙ sym (
            bind_assoc (nodes library k_unknown nil vs) (λ l. ok (as_list l))
              (λ c. act_all library rest (with_value c out)))

    act_all-elements_rules :
        (vs : Values) (t : ConfigType) (es : Items) (ls : List (ConfigType × Items))
        (rest : List Rule) (out : ActionData)
        → act_all library
            (elements_rules vs (list_end ∷ value_end ∷ rest))
            (with_lists (t, es) ls out)
          ≡ (nodes library t es vs >>= λ l.
              act_all library rest (with_value (as_list l) (record out { lists = ls })))
    act_all-elements_rules none_left t es ls rest out =
        value_end_lem t es rest (record out { lists = ls })
    act_all-elements_rules (element v vs) t es ls rest out =
        let final : ConfigType × Items → Result ActionData =
          λ l. act_all library rest (with_value (as_list l) (record out { lists = ls })) in
        let more : List Rule = elements_rules vs (list_end ∷ value_end ∷ rest) in
        act_all-value_rules v (list_element ∷ more) (with_lists (t, es) ls out)
        ∙ bind_ext (node library v) _ _ (λ c.
          list_element_lem c t es ls more out
          ∙ bind_ext (add_element t es c) _ _
              (λ l. act_all-elements_rules vs l.0 l.1 ls rest (without out))
          ∙ sym (bind_assoc (add_element t es c) (λ l. nodes library l.0 l.1 vs) final))
        ∙ sym (
            bind_assoc (node library v) (λ c. add_element t es c >>= λ l. nodes library l.0 l.1 vs)
              final)
