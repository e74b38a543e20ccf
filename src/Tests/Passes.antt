-- ===== src/Tests/Passes.antt =====
-- The passes over trees at concrete inputs.
use flexi_config_reader.Common.{
  Text, none, some, ℕ, ◌-◌, ◌+◌, ◌*◌, ◌<◌, codes, [], ◌∷◌, some, false, ◌≡◌, refl, arith, text_dec,
  length, has,
}
use flexi_config_reader.Result.{Result, ok}
use flexi_config_reader.Types
use flexi_config_reader.Types.{
  Config, config_value, config_list, config_struct, config_var, config_reference, config_proto,
  of_struct, of_number, config_expression, Fields, end, field, Items, nil, cons, k_number,
  k_unknown,
}
use flexi_config_reader.Types.Map.{at, keys, insert_all, insert_all_sorted}
use flexi_config_reader.Elements
use flexi_config_reader.Math.{Arithmetic, add, expression_end}
use flexi_config_reader.Math.Evaluate.{Expression, literal, applied, actions}
use flexi_config_reader.Expressions
use flexi_config_reader.Expressions.{Reading, evaluate_expressions}
use flexi_config_reader.Expressions.Evaluated.{NoExpressions, evaluate_expressions-NoExpressions}
use flexi_config_reader.Vars.{Services, replace_proto_var}
use flexi_config_reader.Vars.Replaced.{NoVars, ParsesExpressions, replace_proto_var-NoVars}
use flexi_config_reader.Vars.Filled
use flexi_config_reader.Vars.Filled.{AllFillable, filled_fields, replace_proto_var-filled_fields}
use flexi_config_reader.References.{resolve_reference, resolve_references}
use flexi_config_reader.References.Low.{IsFlat, Low}
use flexi_config_reader.References.Resolved.{Resolved, resolve_references_total}
use flexi_config_reader.References.Expanded.{resolve_reference-filled_fields}
use flexi_config_reader.Parser.{struct_from_reference}

abbrev pub one : Config
one = config_value (codes "1") of_number

-- services for a document without `$` in a text
abbrev pub services : Services
services = record {
  regex_replace = λ s pattern format. ok s;
  parse_expression = λ s. ok (config_expression s end);
  contains_var = λ s. false;
}

pub services-ParsesExpressions : ParsesExpressions services
services-ParsesExpressions text = (text, end, refl)

-- `$X = 1`
abbrev pub definitions : Fields
definitions = field (codes "$X") one end

-- `a = $X` and `l = [$X]`
abbrev pub proto_content : Fields
proto_content =
    field (codes "a") (config_var (codes "$X"))
      (field (codes "l") (config_list k_unknown (cons (config_var (codes "$X")) nil)) end)

abbrev pub content : Fields
content = field (codes "a") one (field (codes "l") (config_list k_number (cons one nil)) end)

definitions-NoVars : NoVars definitions
unfolding NoVars
definitions-NoVars = (tt, tt)

replace_proto_var-NoVars_example : NoVars content × (keys content ≡ keys proto_content)
unfolding replace_proto_var text_dec Types.ConfigType-discrete at
replace_proto_var-NoVars_example =
    replace_proto_var-NoVars services definitions definitions-NoVars services-ParsesExpressions
      proto_content content refl

proto_content-AllFillable : AllFillable definitions proto_content
unfolding AllFillable text_dec Types.ConfigType-discrete at Filled.filled Types.type_of
    Elements.list_element_valid
proto_content-AllFillable = ((one, refl), (((one, refl), refl, tt), tt))

filled_fields_example :
    replace_proto_var services proto_content definitions
    ≡ ok (filled_fields definitions proto_content)
filled_fields_example =
    replace_proto_var-filled_fields definitions services proto_content proto_content-AllFillable

-- `proto p { a = $X … }`
abbrev pub protos : Fields
protos = field (codes "p") (config_proto (codes "p") 0 proto_content) end

-- `reference p as r { $X = 1 }`
abbrev document : Fields
document = field (codes "r") (config_reference (codes "r") (codes "p") 0 definitions end) end

protos-Low : Low 2 protos
unfolding Low
protos-Low = ((tt, (tt, tt)), tt)

pub definitions-IsFlat : IsFlat definitions
unfolding at Types.data_of
definitions-IsFlat k v e = elim (text_dec k (codes "$X")) [
  | yes p ↦ let same : one ≡ v = ground (arith, e, p) in rw (← same) refl
  | no q ↦ absurd (ground (arith, e, q))
]

document-Low : Low 1 document
unfolding Low
document-Low = ((definitions-IsFlat, tt), tt)

fuel-enough : (length (keys protos) + 1) * (1 + 1) < 5
unfolding keys
fuel-enough = omega arith

resolve_references_example :
    (r : Result Fields) × (resolve_references services protos 5 [] end [] document ≡ some r)
    × ((g : Fields) → r ≡ ok g → Resolved g × (keys g ≡ keys document))
resolve_references_example =
    resolve_references_total services services-ParsesExpressions protos 1 protos-Low 5 document
      document-Low fuel-enough

-- `+z = 1`, an entry of the reference
abbrev added : Fields
added = field (codes "z") one end

abbrev both : Fields
both =
    field (codes "a") (config_var (codes "$X"))
      (field (codes "l") (config_list k_unknown (cons (config_var (codes "$X")) nil)) added)

both-AllFillable : AllFillable definitions both
unfolding AllFillable text_dec Types.ConfigType-discrete at Filled.filled Types.type_of
    Elements.list_element_valid
both-AllFillable = ((one, refl), (((one, refl), refl, tt), (tt, tt)))

resolve_reference_example :
    (resolve_reference services protos
        (resolve_references services protos 1 (codes "r"))
        end
        []
        (codes "r")
        (codes "p")
        0
        definitions
        added
      ≡ some (
          ok (
            config_struct of_struct
              (codes "r")
              0
              (filled_fields (insert_all_sorted end definitions) both))))
    × ((q : Text) → at q both ≡ elim (at q proto_content) [ none ↦ at q added | some v ↦ some v ])
unfolding at text_dec struct_from_reference insert_all_sorted has Types.data_of insert_all
resolve_reference_example =
    resolve_reference-filled_fields services protos 0 b'r' [] end [] (codes "r") (codes "p")
      (codes "p") 0 0 definitions added proto_content both refl refl refl (refl, (refl, tt))
      (refl, (refl, (refl, tt))) definitions-IsFlat both-AllFillable

-- natural numbers in place of `double`
abbrev pub naturals : Arithmetic
naturals = record {
  Double = ℕ;
  plus = λ x y. x + y;
  minus = λ x y. x - y;
  multiplies = λ x y. x * y;
  divides = λ x y. x;
  pow = λ x y. x;
  negate = λ x. x;
  pi = 3;
  minus_one = 0;
}

abbrev sum : Expression naturals
sum = applied add (literal 1) (literal 2)

-- every text reads as this sum
abbrev pub reading : Reading naturals
reading = record {
  stod = λ s. ok 0;
  to_string = λ n. n ∷ [];
  initial = 0;
  rules_of = λ s. actions naturals sum (expression_end ∷ []);
}

-- `e = {{ 1 + 2 }}`
abbrev unevaluated : Fields
unevaluated = field (codes "e") (config_expression (codes "{{ 1 + 2 }}") end) end

abbrev evaluated : Fields
evaluated = field (codes "e") (config_value (3 ∷ []) of_number) end

evaluate_expressions_example : NoExpressions evaluated × (keys evaluated ≡ keys unevaluated)
unfolding evaluate_expressions text_dec actions
evaluate_expressions_example =
    evaluate_expressions-NoExpressions naturals reading unevaluated evaluated [] refl
